-- ===== src/Parser/Bounds/Regions.antt =====
-- Where the regions that `substitution_at` of src/shell/parser.rs finds lie.
use mimic_ssh_honeypot.Prelude.{
  subst, ℕ, ◌+◌, ◌-◌, ◌≤◌, ◌<◌, ◌≡◌, Bool, true, false, ◌&&◌, Option, none, some, List, [], ◌∷◌,
  length, drop, arith, refl, Bool-cases, Option-cases, inl, inr, length-drop, Text, lt_of_get_elem?,
  ◌==◌,
}
use mimic_ssh_honeypot.Prelude.Outcome.{done}
use mimic_ssh_honeypot.Parser.{Quotes, unquoted, quote_step}
use mimic_ssh_honeypot.Parser.Substitution.{
  Substitution, find_backtick, find_close, substitution_at, is_at, paren, Paren, opened, closed,
  other, backtick_region, paren_region,
}
use mimic_ssh_honeypot.Parser.Bounds.Lists.{drop_at, is_at_get}

find_backtick_bounds :
    (rest : List ℕ) (j : ℕ) (skip : Bool) (k : ℕ)
    → find_backtick rest j skip ≡ some k
    → (j ≤ k) × (k < j + length rest)
unfolding find_backtick
find_backtick_bounds [] j skip k h = cc
find_backtick_bounds (b ∷ rest) j true k h =
    omega (arith, find_backtick_bounds rest (j + 1) false k h)
find_backtick_bounds (b ∷ rest) j false k h =
    ground
      (arith, find_backtick_bounds rest (j + 1) true k, find_backtick_bounds rest (j + 1) false k)

-- The scan never goes below depth 0, and needs a byte for each level that is open.
abbrev Closes : List ℕ → ℕ → ℕ → Option ℕ → Type 0
Closes rest j depth none = Unit
Closes rest j depth (some k) = (j + depth ≤ k + 1) × (k < j + length rest)

later :
    (b : ℕ) (rest : List ℕ) (j depth d : ℕ) (o : Option ℕ)
    → depth ≤ d + 1
    → Closes rest (j + 1) d o
    → Closes (b ∷ rest) j depth o
later b rest j depth d none le c = tt
later b rest j depth d (some k) le c = omega (arith, le, c)

find_close_bounds :
    (rest : List ℕ) (j depth : ℕ) (q : Quotes)
    → 0 < depth
    → (o : Option ℕ) × (find_close rest j depth q ≡ done o) × Closes rest j depth o
unfolding find_close
find_close_bounds [] j depth q h = (none, refl, tt)
find_close_bounds (b ∷ rest) j depth q h = elim (Bool-cases q.escaped) [
  | inl escaped ↦
      let (o, e, c) = find_close_bounds rest (j + 1) depth (record q { escaped = false }) h in
      (o, ground (arith, escaped, e), later b rest j depth depth o (omega arith) c)
  | inr live ↦ elim (Option-cases (quote_step b q)) [
    | inr (q', quoted) ↦
        let (o, e, c) = find_close_bounds rest (j + 1) depth q' h in
        (o, ground (arith, live, quoted, e), later b rest j depth depth o (omega arith) c)
    | inl plain ↦
        step (paren b q) refl live plain (find_close_bounds rest (j + 1) depth q h)
          (find_close_bounds rest (j + 1) (depth + 1) q (omega arith))
          (λ more. find_close_bounds rest (j + 1) (depth - 1) q more)
  ]
]
  where
    step :
        (p : Paren)
        → paren b q ≡ p
        → q.escaped ≡ false
        → quote_step b q ≡ none
        → (o : Option ℕ) × (find_close rest (j + 1) depth q ≡ done o) × Closes rest (j + 1) depth o
        → (o : Option ℕ) × (find_close rest (j + 1) (depth + 1) q ≡ done o)
          × Closes rest (j + 1) (depth + 1) o
        → (0 < depth - 1
            → (o : Option ℕ) × (find_close rest (j + 1) (depth - 1) q ≡ done o)
              × Closes rest (j + 1) (depth - 1) o)
        → (o : Option ℕ) × (find_close (b ∷ rest) j depth q ≡ done o) × Closes (b ∷ rest) j depth o
    step opened p live plain same (o, e, c) less =
        (o, ground (arith, live, plain, p, e), later b rest j depth (depth + 1) o (omega arith) c)
    step other p live plain (o, e, c) more less =
        (o, ground (arith, live, plain, p, e), later b rest j depth depth o (omega arith) c)
    step closed p live plain same more less = elim (Bool-cases (depth - 1 == 0)) [
      | inl last ↦ (some j, ground (arith, live, plain, p, last, h), ground (arith, last, h))
      | inr deep ↦
          let (o, e, c) = less (ground (arith, deep)) in
          (
            o,
            ground (arith, live, plain, p, deep, h, e),
            later b rest j depth (depth - 1) o (omega arith) c,
          )
    ]

-- A region lies in the line, after its start, and its body before its last byte.
abbrev pub Within : Text → ℕ → Option Substitution → Type 0
Within line i none = Unit
Within line i (some s) =
    (i < s.end)
    × (s.end ≤ length line)
    × (i < s.body.0)
    × (s.body.0 ≤ s.body.1)
    × (s.body.1 < s.end)

opening :
    (rest : List ℕ) (j depth : ℕ)
    → find_close (b'(' ∷ rest) j depth unquoted ≡ find_close rest (j + 1) (depth + 1) unquoted
unfolding find_close quote_step paren
opening rest j depth = refl

backtick_region-Within :
    (line : Text) (i : ℕ)
    → i < length line
    → (o : Option ℕ) → find_backtick (drop (i + 1) line) (i + 1) false ≡ o
    → Within line i (backtick_region i o)
backtick_region-Within line i h none e = tt
backtick_region-Within line i h (some k) e =
    ground (
      arith,
      h,
      find_backtick_bounds (drop (i + 1) line) (i + 1) false k e,
      length-drop (i + 1) line,
    )

abbrev open_parens : Bool → ℕ
open_parens true = 2
open_parens false = 1

paren_region-Within :
    (line : Text) (i depth : ℕ) (arithmetic : Bool) (o : Option ℕ)
    → i + depth < length line
    → depth ≡ open_parens arithmetic
    → Closes (drop (i + 1 + depth) line) (i + 1 + depth) depth o
    → Within line i (paren_region i arithmetic o)
paren_region-Within line i depth arithmetic none h d c = tt
paren_region-Within line i depth true (some k) h d c =
    omega (arith, h, d, c, length-drop (i + 1 + depth) line)
paren_region-Within line i depth false (some k) h d c =
    omega (arith, h, d, c, length-drop (i + 1 + depth) line)

two : (i : ℕ) → i + 2 ≡ i + 1 + 1
two i = omega arith

three : (i : ℕ) → i + 1 + 1 + 1 ≡ i + 1 + 2
three i = omega arith

-- The scan from the byte after a `$` that `depth` parentheses follow.
close_at :
    (line : Text) (i : ℕ)
    → is_at line (i + 1) b'(' ≡ true
    → (arithmetic : Bool) → is_at line (i + 2) b'(' ≡ arithmetic
    → (o : Option ℕ) × (find_close (drop (i + 1) line) (i + 1) 0 unquoted ≡ done o)
      × Within line i (paren_region i arithmetic o)
close_at line i h false a =
    let here = is_at_get line (i + 1) b'(' h in
    let (o, e, c) =
      find_close_bounds (drop (i + 1 + 1) line) (i + 1 + 1) 1 unquoted (omega arith) in
    (
      o,
      rw (drop_at line (i + 1) b'(' here, opening (drop (i + 1 + 1) line) (i + 1) 0) e,
      paren_region-Within line i 1 false o (lt_of_get_elem? line (i + 1) here) refl c,
    )
close_at line i h true a =
    let here = is_at_get line (i + 1) b'(' h in
    let there = is_at_get line (i + 1 + 1) b'(' (subst (λ n. is_at line n b'(' ≡ true) (two i) a) in
    let (o, e, c) =
      find_close_bounds (drop (i + 1 + 1 + 1) line) (i + 1 + 1 + 1) 2 unquoted (omega arith) in
    (
      o,
      rw
          (
            drop_at line (i + 1) b'(' here,
            drop_at line (i + 1 + 1) b'(' there,
            opening (b'(' ∷ drop (i + 1 + 1 + 1) line) (i + 1) 0,
            opening (drop (i + 1 + 1 + 1) line) (i + 1 + 1) 1,
          )
          e,
      paren_region-Within line i 2 true o (ground (arith, lt_of_get_elem? line (i + 1 + 1) there))
          refl (subst (λ n. Closes (drop n line) n 2 o) (three i) c),
    )

-- `substitution_at` does not panic, and the region it finds lies in the line.
pub substitution_at-Within :
    (line : Text) (i : ℕ)
    → (o : Option Substitution) × (substitution_at line i ≡ done o) × Within line i o
unfolding substitution_at
substitution_at-Within line i = elim (Bool-cases (is_at line i b'`')) [
  | inl tick ↦
      let o = find_backtick (drop (i + 1) line) (i + 1) false in
      (
        backtick_region i o,
        rw tick refl,
        backtick_region-Within line i (lt_of_get_elem? line i (is_at_get line i b'`' tick)) o refl,
      )
  | inr untick ↦ elim (Bool-cases (is_at line i b'$' && is_at line (i + 1) b'(')) [
    | inl dollar ↦
        let (o, e, w) = close_at line i (ground (arith, dollar)) (is_at line (i + 2) b'(') refl in
        (paren_region i (is_at line (i + 2) b'(') o, rw (untick, dollar, e) refl, w)
    | inr neither ↦ (none, rw (untick, neither) refl, tt)
  ]
]
