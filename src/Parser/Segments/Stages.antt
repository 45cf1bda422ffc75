-- ===== src/Parser/Segments/Stages.antt =====
-- What the pipeline of a segment is cut into: `split_pipeline` of src/shell/parser.rs.
use mimic_ssh_honeypot.Prelude.{
  ℕ, ◌+◌, ◌-◌, ◌≤◌, ◌≡◌, true, false, ◌&&◌, some, List, [], ◌∷◌, ◌++◌, length, drop, take, arith,
  refl, Bool-cases, inl, inr, ◌⊎◌, Text, lt_of_get_elem?, get_elem?, sym, ap, ◌∙◌, if◌then◌else◌,
  ◌==◌,
}
use mathlib.Core.List.{append_assoc, append-nil}
use mimic_ssh_honeypot.Prelude.Outcome.{done, ◌>>=◌}
use mimic_ssh_honeypot.Parser.{Quotes, bare}
use mimic_ssh_honeypot.Parser.Scan.{Next, next}
use mimic_ssh_honeypot.Parser.Segments.{Staging, stage_handlers, split_pipeline, push_stage}
use mimic_ssh_honeypot.Parser.Bounds.Lists.{take_split, take-length, take_at, slice_done}
use mimic_ssh_honeypot.Parser.Bounds.Rule.{Rule, After, scan_rule}

-- Each stage after the pipe before it.
abbrev pub piped : List Text → Text
piped [] = []
piped (t ∷ stages) = b'|' ∷ t ++ piped stages

piped-append :
    (stages : List Text) (t : Text) → piped (stages ++ (t ∷ [])) ≡ piped stages ++ (b'|' ∷ t)
piped-append [] t = ap (λ u. b'|' ∷ u) (append-nil t)
piped-append (u ∷ stages) t = simp (append_assoc, piped-append stages t)

abbrev Cut : Text → ℕ → Staging → Type 0
Cut line i s = (s.start ≤ i) × (piped s.stages ++ (b'|' ∷ []) ≡ b'|' ∷ take s.start line)

abbrev Whole : Text → List Text → Type 0
Whole line stages = piped stages ≡ b'|' ∷ line

push-Cut :
    (line : Text) (s : Staging) (i : ℕ)
    → i ≤ length line
    → Cut line i s
    → (stages : List Text) × (push_stage line s i ≡ done stages)
      × (piped stages ≡ b'|' ∷ take i line)
push-Cut line s i le (before, cut) =
    let text = take (i - s.start) (drop s.start line) in
    (
      s.stages ++ (text ∷ []),
      rw (slice_done line s.start i before le) refl,
      (piped-append s.stages text
          ∙ sym (append_assoc (piped s.stages) (b'|' ∷ []) text)
          ∙ ap (λ t. t ++ text) cut
          ∙ ap (λ t. b'|' ∷ t) (sym (take_split line s.start i before))),
    )

stage_handlers-Rule : (line : Text) → Rule line (Cut line) (Whole line) (stage_handlers line)
unfolding stage_handlers
stage_handlers-Rule line = record {
  passed-keeps = λ i s p. (omega (arith, p.0), p.1);
  quoted-keeps = λ i s p. (omega (arith, p.0), p.1);
  jumped-keeps = λ i e s less ends p. (omega (arith, p.0, less), p.1);
  looked-keeps = λ i c q s here p. cut s i c q here p (Bool-cases (c == b'|' && bare q));
  finish-keeps = λ s p.
      let (stages, e, w) = push-Cut line s (length line) (omega arith) p in
      (stages, e, w ∙ ap (λ t. b'|' ∷ t) (take-length line));
}
  where
    cut :
        (s : Staging) (i c : ℕ) (q : Quotes)
        → get_elem? line i ≡ some c
        → Cut line i s
        → ((c == b'|' && bare q) ≡ true) ⊎ ((c == b'|' && bare q) ≡ false)
        → (n : Next Staging (List Text)) × ((if c == b'|' && bare q
              then (do
                stages ← push_stage line s i
                done (next (record { stages = stages; start = i + 1 }) 0))
              else done (next s 0))
            ≡ done n)
          × After line (Cut line) (Whole line) i n
    cut s i c q here p (inr other) = (
      next s 0,
      rw other refl,
      (omega (arith, lt_of_get_elem? line i here), (omega (arith, p.0), p.1)),
    )
    cut s i c q here p (inl pipe) =
        let less = lt_of_get_elem? line i here in
        let (stages, e, w) = push-Cut line s i (omega (arith, less)) p in
        let at : get_elem? line i ≡ some b'|' = here ∙ ap some (ground (arith, pipe)) in
        (
          next (record { stages = stages; start = i + 1 }) 0,
          rw (pipe, e) refl,
          (
            omega (arith, less),
            (
              omega arith,
              ap (λ t. t ++ (b'|' ∷ [])) w ∙ ap (λ t. b'|' ∷ t) (sym (take_at line i b'|' at)),
            ),
          ),
        )

-- What `split_pipeline` makes of any segment is at least one stage, and the stages with a `|` before
-- each but the first are the segment.
pub split_pipeline-piped :
    (segment : Text)
    → (first : Text) × (rest : List Text) × (split_pipeline segment ≡ done (first ∷ rest))
      × (first ++ piped rest ≡ segment)
unfolding split_pipeline
split_pipeline-piped segment =
    let (stages, e, w) =
      scan_rule (stage_handlers segment) segment (Cut segment) (Whole segment)
        (stage_handlers-Rule segment) 0 (record { stages = []; start = 0 }) (omega arith)
        (omega arith, refl) in
    headed stages e w
  where
    headed :
        (stages : List Text)
        → split_pipeline segment ≡ done stages
        → Whole segment stages
        → (first : Text) × (rest : List Text) × (split_pipeline segment ≡ done (first ∷ rest))
          × (first ++ piped rest ≡ segment)
    headed [] e w = absurd (cc)
    headed (first ∷ rest) e w = (first, rest, e, cc)
