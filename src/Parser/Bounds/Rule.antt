-- ===== src/Parser/Bounds/Rule.antt =====
-- How to reason about the loop `scan`: what holds before each step, and of the result.
use mimic_ssh_honeypot.Prelude.{
  ℕ, zero, suc, ◌+◌, ◌-◌, ◌≤◌, ◌<◌, ◌≡◌, false, Option, none, some, List, [], ◌∷◌, length, drop,
  arith, refl, Bool-cases, inl, inr, length-drop, Text, lt_of_get_elem?, get_elem?, subst, sym, ap,
}
use mimic_ssh_honeypot.Prelude.Outcome.{done}
use mimic_ssh_honeypot.Parser.{Quotes, unquoted, quote_step}
use mimic_ssh_honeypot.Parser.Substitution.{Substitution}
use mimic_ssh_honeypot.Parser.Scan.{
  Lexed, escape_over, look, jump, quoting, lex, region_or_byte, Next, stop, next, Handlers,
  scan_from, scan,
}
use mimic_ssh_honeypot.Parser.Bounds.Lists.{drop_cons}
use mimic_ssh_honeypot.Parser.Bounds.Regions.{substitution_at-Within, Within}

-- `P i s` holds at index `i` in state `s`; `Q` of the result.
module _ {S R : Type 0} (line : Text) (P : ℕ → S → Type 0) (Q : R → Type 0) where
  -- What a step may leave.
  abbrev pub After : ℕ → Next S R → Type 0
  After i (stop r) = Q r
  After i (next s skip) = (i + 1 + skip ≤ length line) × P (i + 1 + skip) s

  pub record Rule (h : Handlers S R) : Type 0 where
    pub passed-keeps : (i : ℕ) (s : S) → P i s → P (i + 1) (h.passed s)
    pub quoted-keeps : (i : ℕ) (s : S) → P i s → P (i + 1) (h.quoted s)
    pub jumped-keeps : (i e : ℕ) (s : S) → i < e → e ≤ length line → P i s → P e (h.jumped s)
    pub looked-keeps :
        (i c : ℕ) (q : Quotes) (s : S)
        → get_elem? line i ≡ some c
        → P i s
        → (n : Next S R) × (h.looked s i c q ≡ done n) × After i n
    pub finish-keeps :
        (s : S) → P (length line) s → (r : R) × (h.finish s (length line) ≡ done r) × Q r

-- The loop jumps forwards, and not past the end.
abbrev pub Ahead : Text → ℕ → Lexed → Type 0
Ahead line i (jump e) = (i < e) × (e ≤ length line)
Ahead line i escape_over = Unit
Ahead line i look = Unit
Ahead line i (quoting q) = Unit

region-Ahead :
    (line : Text) (i c : ℕ) (q : Quotes) (o : Option Substitution)
    → Within line i o
    → Ahead line i (region_or_byte c q o)
region-Ahead line i c q (some s) w = (w.0, w.1)
region-Ahead line i c q none w = nothing (quote_step c q)
  where
    nothing : (o : Option Quotes) → Ahead line i (elim o [ some q' ↦ quoting q' | none ↦ look ])
    nothing (some q') = tt
    nothing none = tt

pub lex-Ahead :
    (line : Text) (i c : ℕ) (q : Quotes) → (l : Lexed) × (lex line i c q ≡ done l) × Ahead line i l
unfolding lex
lex-Ahead line i c q = elim (Bool-cases q.escaped) [
  | inl escaped ↦ (escape_over, ground (arith, escaped), tt)
  | inr live ↦ elim (Bool-cases q.in_single) [
    | inl single ↦
        (region_or_byte c q none, ground (arith, live, single), region-Ahead line i c q none tt)
    | inr double ↦
        let (o, e, w) = substitution_at-Within line i in
        (region_or_byte c q o, ground (arith, live, double, e), region-Ahead line i c q o w)
  ]
]

module _ {S R : Type 0} (h : Handlers S R) (line : Text) (P : ℕ → S → Type 0) (Q : R → Type 0)
    (rule : Rule line P Q h) where
  abbrev Runs : List ℕ → ℕ → ℕ → Quotes → S → Type 0
  Runs rest i skip q s = (r : R) × (scan_from h line rest i skip q s ≡ done r) × Q r

  pub scan_from_rule :
      (rest : List ℕ) (i skip : ℕ) (q : Quotes) (s : S)
      → drop i line ≡ rest
      → i ≤ length line
      → i + skip ≤ length line
      → P (i + skip) s
      → Runs rest i skip q s
  unfolding scan_from
  scan_from_rule [] i skip q s here le within p =
      let end : i ≡ length line = omega (arith, le, ap length here, length-drop i line) in
      let (r, e, good) = rule.finish-keeps s (subst (λ n. P n s) (omega (arith, end, within)) p) in
      (r, subst (λ n. h.finish s n ≡ done r) (sym end) e, good)
  scan_from_rule (c ∷ rest) i (suc skip) q s here le within p =
      scan_from_rule rest (i + 1) skip q s (drop_cons line i c rest here).1 (omega (arith, within))
        (omega (arith, within)) (subst (λ n. P n s) (omega arith) p)
  scan_from_rule (c ∷ rest) i zero q s here le within p =
      let (l, e, ahead) = lex-Ahead line i c q in
      step l e ahead (λ k q' s' ends p'.
        scan_from_rule rest (i + 1) k q' s' after (omega (arith, bounded)) ends p')
    where
      Onwards : Type 0
      Onwards =
          (k : ℕ) (q' : Quotes) (s' : S)
          → i + 1 + k ≤ length line
          → P (i + 1 + k) s'
          → Runs rest (i + 1) k q' s'

      at : get_elem? line i ≡ some c
      at = (drop_cons line i c rest here).0

      after : drop (i + 1) line ≡ rest
      after = (drop_cons line i c rest here).1

      bounded : i < length line
      bounded = lt_of_get_elem? line i at

      now : P i s
      now = subst (λ n. P n s) (omega arith) p

      one : (s' : S) → P (i + 1) s' → P (i + 1 + 0) s'
      one s' p' = subst (λ n. P n s') (omega arith) p'

      looking :
          (n : Next S R)
          → h.looked s i c q ≡ done n
          → lex line i c q ≡ done look
          → After line P Q i n
          → Onwards
          → Runs (c ∷ rest) i zero q s
      looking (stop r) e l good go = (r, rw (scan_from, l, e) refl, good)
      looking (next s' k) e l (le', p') go =
          let (r, e', good) = go k q s' le' p' in (r, rw (scan_from, l, e) e', good)

      step :
          (l : Lexed)
          → lex line i c q ≡ done l
          → Ahead line i l
          → Onwards
          → Runs (c ∷ rest) i zero q s
      step escape_over e a go =
          let q' = record q { escaped = false } in
          let (r, e', good) =
            go 0 q' (h.passed s) (omega (arith, bounded))
              (one (h.passed s) (rule.passed-keeps i s now)) in
          (r, rw (scan_from, e) e', good)
      step (quoting q') e a go =
          let (r, e', good) =
            go 0 q' (h.quoted s) (omega (arith, bounded))
              (one (h.quoted s) (rule.quoted-keeps i s now)) in
          (r, rw (scan_from, e) e', good)
      step (jump end) e (less, ends) go =
          let to : i + 1 + (end - i - 1) ≡ end = omega (arith, less) in
          let kept = rule.jumped-keeps i end s less ends now in
          let (r, e', good) =
            go (end - i - 1) q (h.jumped s) (omega (arith, ends, to))
              (subst (λ n. P n (h.jumped s)) (sym to) kept) in
          (r, rw (scan_from, e) e', good)
      step look e a go =
          let (n, e', good) = rule.looked-keeps i c q s at now in looking n e' e good go

  -- The loop from an index in the line.
  pub scan_rule :
      (start : ℕ) (s : S)
      → start ≤ length line
      → P start s
      → (r : R) × (scan h line start s ≡ done r) × Q r
  unfolding scan
  scan_rule start s le p =
      scan_from_rule (drop start line) start 0 unquoted s refl le (omega (arith, le))
        (subst (λ n. P n s) (omega arith) p)
