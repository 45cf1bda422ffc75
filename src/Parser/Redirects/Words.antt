-- ===== src/Parser/Redirects/Words.antt =====
-- Where `word_end` of src/shell/parser.rs, and the loops that skip a class of bytes, stop.
use mimic_ssh_honeypot.Prelude.{
  ℕ, ◌+◌, ◌≤◌, ◌<◌, ◌≡◌, Bool, true, false, ◌&&◌, ◌||◌, List, [], ◌∷◌, length, drop, all, take, ◌-◌,
  zero, suc, arith, refl, Bool-cases, inl, inr, Text, lt_of_get_elem?, ◌==◌, is_ascii_whitespace,
  if◌then◌else◌, length-drop,
}
use mimic_ssh_honeypot.Prelude.Outcome.{done}
use mimic_ssh_honeypot.Parser.{bare}
use mimic_ssh_honeypot.Parser.Scan.{Next, stop, next}
use mimic_ssh_honeypot.Parser.Redirects.{word_handlers, word_end, skip_while}
use mimic_ssh_honeypot.Parser.Bounds.Rule.{Rule, After, scan_rule}

skip_while_bounds :
    (test : ℕ → Bool) (rest : List ℕ) (k : ℕ)
    → (k ≤ skip_while test rest k) × (skip_while test rest k ≤ k + length rest)
unfolding skip_while
skip_while_bounds test [] k = omega arith
skip_while_bounds test (b ∷ rest) k = ground (arith, skip_while_bounds test rest (k + 1))

-- What is stepped over passes the test.
pub skip_while-all :
    (test : ℕ → Bool) (rest : List ℕ) (k : ℕ)
    → all test (take (skip_while test rest k - k) rest) ≡ true
unfolding skip_while
skip_while-all test [] k = nothing (k - k)
  where
    nothing : (n : ℕ) → all test (take n []) ≡ true
    nothing zero = refl
    nothing (suc n) = refl
skip_while-all test (b ∷ rest) k = elim (Bool-cases (test b)) [
  | inl passes ↦
      let (from, to) = skip_while_bounds test rest (k + 1) in
      let one : skip_while test rest (k + 1) - k ≡ suc (skip_while test rest (k + 1) - (k + 1)) =
        omega (arith, from) in
      rw (passes, one, passes) (skip_while-all test rest (k + 1))
  | inr other ↦ let none_taken : k - k ≡ 0 = omega arith in rw (other, none_taken) refl
]

pub skip_while_within :
    (test : ℕ → Bool) (line : Text) (k : ℕ)
    → k ≤ length line
    → (k ≤ skip_while test (drop k line) k) × (skip_while test (drop k line) k ≤ length line)
skip_while_within test line k le =
    omega (arith, le, skip_while_bounds test (drop k line) k, length-drop k line)

abbrev Between : Text → ℕ → ℕ → Type 0
Between line start i = (start ≤ i) × (i ≤ length line)

word_handlers-Rule :
    (line : Text) (start : ℕ) → Rule line (λ i s. start ≤ i) (Between line start) word_handlers
unfolding word_handlers
word_handlers-Rule line start = record {
  passed-keeps = λ i s p. omega (arith, p);
  quoted-keeps = λ i s p. omega (arith, p);
  jumped-keeps = λ i e s less ends p. omega (arith, p, less);
  looked-keeps = λ i c q s here p.
      ends i s (bare q && (c == b'>' || c == b'<' || is_ascii_whitespace c))
        (lt_of_get_elem? line i here) p;
  finish-keeps = λ s p. (length line, refl, (p, omega arith));
}
  where
    ends :
        (i : ℕ) (s : Unit {0}) (b : Bool)
        → i < length line
        → start ≤ i
        → (n : Next (Unit {0}) ℕ) × (done (if b then stop i else next s 0) ≡ done n)
          × After line (λ j t. start ≤ j) (Between line start) i n
    ends i s true less p = (stop i, refl, (p, omega (arith, less)))
    ends i s false less p = (next s 0, refl, (omega (arith, less), omega (arith, p)))

-- `word_end` returns an index from where it starts up to the end of the line.
pub word_end-within :
    (line : Text) (start : ℕ)
    → start ≤ length line
    → (e : ℕ) × (word_end line start ≡ done e) × (start ≤ e) × (e ≤ length line)
unfolding word_end
word_end-within line start le =
    let (e, done_e, (from, to)) =
      scan_rule word_handlers line (λ i s. start ≤ i) (Between line start)
        (word_handlers-Rule line start) start tt le (omega arith) in
    (e, done_e, from, to)
