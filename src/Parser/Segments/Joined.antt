-- ===== src/Parser/Segments/Joined.antt =====
-- What a line is cut into: comments, compound lines and pipelines of src/shell/parser.rs.
use mimic_ssh_honeypot.Prelude.{
  ℕ, ◌+◌, ◌-◌, ◌≤◌, ◌<◌, ◌≡◌, true, false, ◌&&◌, Option, none, some, List, [], ◌∷◌, ◌++◌, length,
  drop, take, arith, refl, Bool-cases, inl, inr, ◌⊎◌, Text, lt_of_get_elem?, get_elem?, sym, ap,
  ◌∙◌, if◌then◌else◌, ◌==◌,
}
use mathlib.Core.List.{append_assoc, append-nil}
use mimic_ssh_honeypot.Prelude.Outcome.{done}
use mimic_ssh_honeypot.Parser.{Quotes, bare}
use mimic_ssh_honeypot.Parser.Substitution.{is_at}
use mimic_ssh_honeypot.Parser.Scan.{Next, next}
use mimic_ssh_honeypot.Parser.Segments.{
  Separator, always, and_if, or_if, Segment, Splitting, separator_at, cut_segment, segment_handlers,
  split_segments, push_segment,
}
use mimic_ssh_honeypot.Parser.Bounds.Lists.{take_split, take-length, take_at, is_at_get, slice_done}
use mimic_ssh_honeypot.Parser.Bounds.Rule.{Rule, After, scan_rule}

abbrev pub operator : Separator → Text
operator always = b';' ∷ []
operator and_if = b'&' ∷ b'&' ∷ []
operator or_if = b'|' ∷ b'|' ∷ []

-- Each segment after the operator that gates it.
abbrev pub written : List Segment → Text
written [] = []
written (s ∷ segments) = operator s.run_if ++ (s.text ++ written segments)

written-append :
    (segments : List Segment) (s : Segment)
    → written (segments ++ (s ∷ [])) ≡ written segments ++ (operator s.run_if ++ s.text)
written-append [] s = ap (λ t. operator s.run_if ++ t) (append-nil s.text)
written-append (t ∷ segments) s = simp (append_assoc, written-append segments s)

-- What is cut off, and the operator after it, are the line up to `start`.
abbrev Cut : Text → ℕ → Splitting → Type 0
Cut line i s = (s.start ≤ i) × (written s.segments ++ operator s.run_if ≡ b';' ∷ take s.start line)

abbrev Whole : Text → List Segment → Type 0
Whole line segments = written segments ≡ b';' ∷ line

-- The segment up to `i`.
push-Cut :
    (line : Text) (s : Splitting) (i : ℕ)
    → i ≤ length line
    → Cut line i s
    → (segments : List Segment) × (push_segment line s i ≡ done segments)
      × (written segments ≡ b';' ∷ take i line)
push-Cut line s i le (before, cut) =
    let text = take (i - s.start) (drop s.start line) in
    let last : Segment = record { run_if = s.run_if; text = text } in
    (
      s.segments ++ (last ∷ []),
      rw (slice_done line s.start i before le) refl,
      (written-append s.segments last
          ∙ sym (append_assoc (written s.segments) (operator s.run_if) text)
          ∙ ap (λ t. t ++ text) cut
          ∙ ap (λ t. b';' ∷ t) (sym (take_split line s.start i before))),
    )

-- Which operator stands at `i`, byte by byte.
abbrev Operated : Text → ℕ → ℕ → Option (ℕ × Separator) → Type 0
Operated line i c none = Unit
Operated line i c (some (width, after)) =
    (0 < width)
    × (i + width ≤ length line)
    × (take (i + width) line ≡ take i line ++ operator after)

one_byte :
    (line : Text) (i c b : ℕ)
    → get_elem? line i ≡ some c
    → (c == b) ≡ true
    → (0 < 1) × (i + 1 ≤ length line) × (take (i + 1) line ≡ take i line ++ (b ∷ []))
one_byte line i c b here same =
    let at : get_elem? line i ≡ some b = here ∙ ap some (ground (arith, same)) in
    (omega arith, omega (arith, lt_of_get_elem? line i at), take_at line i b at)

two_bytes :
    (line : Text) (i c b : ℕ)
    → get_elem? line i ≡ some c
    → (c == b && is_at line (i + 1) b) ≡ true
    → (0 < 2) × (i + 2 ≤ length line) × (take (i + 2) line ≡ take i line ++ (b ∷ b ∷ []))
two_bytes line i c b here same =
    let at : get_elem? line (i + 1) ≡ some b = is_at_get line (i + 1) b (ground (arith, same)) in
    let two : i + 2 ≡ i + 1 + 1 = omega arith in
    (
      omega arith,
      omega (arith, lt_of_get_elem? line (i + 1) at),
      (ap (λ n. take n line) two
          ∙ take_at line (i + 1) b at
          ∙ ap (λ t. t ++ (b ∷ [])) ((one_byte line i c b here (ground (arith, same))).2)
          ∙ append_assoc (take i line) (b ∷ []) (b ∷ [])),
    )

separator_at-Operated :
    (line : Text) (i c : ℕ) → get_elem? line i ≡ some c → Operated line i c (separator_at line i c)
unfolding separator_at
separator_at-Operated line i c here = elim (Bool-cases (c == b';')) [
  | inl semi ↦ rw semi (one_byte line i c b';' here semi)
  | inr n1 ↦ elim (Bool-cases (c == b'&' && is_at line (i + 1) b'&')) [
    | inl amp ↦ rw (n1, amp) (two_bytes line i c b'&' here amp)
    | inr n2 ↦ elim (Bool-cases (c == b'|' && is_at line (i + 1) b'|')) [
      | inl bar ↦ rw (n1, n2, bar) (two_bytes line i c b'|' here bar)
      | inr n3 ↦ rw (n1, n2, n3) tt
    ]
  ]
]

separated :
    (line : Text) (s : Splitting) (i c : ℕ) (o : Option (ℕ × Separator))
    → i < length line
    → Cut line i s
    → Operated line i c o
    → (n : Next Splitting (List Segment)) × (cut_segment line s i o ≡ done n)
      × After line (Cut line) (Whole line) i n
unfolding cut_segment
separated line s i c none less p o =
    (next s 0, refl, (omega (arith, less), (omega (arith, p.0), p.1)))
separated line s i c (some (width, after)) less p (some_width, ends, grows) =
    let (segments, e, w) = push-Cut line s i (omega (arith, less)) p in
    let on : i + 1 + (width - 1) ≡ i + width = omega (arith, some_width) in
    (
      next (record { segments = segments; run_if = after; start = i + width }) (width - 1),
      rw e refl,
      (
        omega (arith, on, ends),
        (omega (arith, on), ap (λ t. t ++ operator after) w ∙ ap (λ t. b';' ∷ t) (sym grows)),
      ),
    )

segment_handlers-Rule : (line : Text) → Rule line (Cut line) (Whole line) (segment_handlers line)
unfolding segment_handlers
segment_handlers-Rule line = record {
  passed-keeps = λ i s p. (omega (arith, p.0), p.1);
  quoted-keeps = λ i s p. (omega (arith, p.0), p.1);
  jumped-keeps = λ i e s less ends p. (omega (arith, p.0, less), p.1);
  looked-keeps = λ i c q s here p. cut s i c q here p (Bool-cases (bare q));
  finish-keeps = λ s p.
      let (segments, e, w) = push-Cut line s (length line) (omega arith) p in
      (segments, e, w ∙ ap (λ t. b';' ∷ t) (take-length line));
}
  where
    cut :
        (s : Splitting) (i c : ℕ) (q : Quotes)
        → get_elem? line i ≡ some c
        → Cut line i s
        → (bare q ≡ true) ⊎ (bare q ≡ false)
        → (n : Next Splitting (List Segment)) × (cut_segment line s i
              (if bare q then separator_at line i c else none)
            ≡ done n)
          × After line (Cut line) (Whole line) i n
    cut s i c q here p (inl is_bare) = rw is_bare (
        separated line s i c (separator_at line i c) (lt_of_get_elem? line i here) p
          (separator_at-Operated line i c here))
    cut s i c q here p (inr quoted) =
        rw quoted (separated line s i c none (lt_of_get_elem? line i here) p tt)

-- What `split_segments` makes of any line is at least one segment, the first one runs always, and its
-- text followed by each further segment after the operator that gates it (`;`, `&&` or `||`) is the line.
pub split_segments-joined :
    (line : Text)
    → (first : Segment) × (rest : List Segment) × (split_segments line ≡ done (first ∷ rest))
      × (first.run_if ≡ always)
      × (first.text ++ written rest ≡ line)
unfolding split_segments
split_segments-joined line =
    let (segments, e, w) =
      scan_rule (segment_handlers line) line (Cut line) (Whole line) (segment_handlers-Rule line) 0
        (record { segments = []; run_if = always; start = 0 }) (omega arith) (omega arith, refl) in
    headed segments e w
  where
    headed :
        (segments : List Segment)
        → split_segments line ≡ done segments
        → Whole line segments
        → (first : Segment) × (rest : List Segment) × (split_segments line ≡ done (first ∷ rest))
          × (first.run_if ≡ always)
          × (first.text ++ written rest ≡ line)
    headed [] e w = absurd (cc)
    headed (first ∷ rest) e w = leading first.run_if refl w
      where
        leading :
            (sep : Separator)
            → first.run_if ≡ sep
            → operator sep ++ (first.text ++ written rest) ≡ b';' ∷ line
            → (f : Segment) × (r : List Segment) × (split_segments line ≡ done (f ∷ r))
              × (f.run_if ≡ always)
              × (f.text ++ written r ≡ line)
        leading always is w = (first, rest, e, is, cc)
        leading and_if is w = absurd (ground (arith, w))
        leading or_if is w = absurd (ground (arith, w))
