-- ===== src/Arith/Lexing.antt =====
-- The tokenizer of src/shell/arith.rs ends: each step takes at least one character.
use mimic_ssh_honeypot.Prelude.{
  ℕ, zero, suc, ◌≤◌, ◌≡◌, Bool, true, false, ◌||◌, Option, none, some, List, [], ◌∷◌, length, arith,
  refl, Text, ◌==◌, is_ascii_digit, if◌then◌else◌,
}
use mimic_ssh_honeypot.Prelude.Outcome.{done}
use mimic_ssh_honeypot.Parser.Words.{is_whitespace}
use mimic_ssh_honeypot.Arith.Tokens.{
  Op, Token, Unicode, is_alphanumeric, is_ascii_alphanumeric, span, literal_value, after_literal,
  after_op, one_op, tail, is_pair, next_token, push_token, tokenize_loop, Lexeme,
}

length-span : (test : ℕ → Bool) (chars : Text) → length (span test chars).1 ≤ length chars
unfolding span
length-span test [] = omega arith
length-span test (c ∷ chars) = ground (arith, length-span test chars)

length-span_cons :
    (test : ℕ → Bool) (c : ℕ) (chars : Text)
    → test c ≡ true
    → length (span test (c ∷ chars)).1 ≤ length chars
unfolding span
length-span_cons test c chars h = rw h (length-span test chars)

abbrev Left : Text → Lexeme → Type 0
Left chars none = Unit
Left chars (some (t, rest)) = length rest ≤ length chars

if-Left :
    (chars : Text) (b : Bool) (x y : Lexeme)
    → (b ≡ true → Left chars x)
    → (b ≡ false → Left chars y)
    → Left chars (if b then x else y)
if-Left chars true x y hx hy = hx refl
if-Left chars false x y hx hy = hy refl

after_literal-Left :
    (chars rest : Text) (o : Option ℕ)
    → length rest ≤ length chars
    → Left chars (after_literal o rest)
after_literal-Left chars rest none le = tt
after_literal-Left chars rest (some value) le = le

after_op-Left : (chars : Text) (o : Option Op) → Left chars (after_op o chars)
after_op-Left chars none = tt
after_op-Left chars (some o) = omega arith

length-tail : (chars : Text) → length (tail chars) ≤ length chars
length-tail [] = omega arith
length-tail (c ∷ chars) = omega arith

next_token-Left : (u : Unicode) (c : ℕ) (chars : Text) → Left chars (next_token u c chars)
unfolding next_token is_ascii_digit
next_token-Left u c chars =
    if-Left chars (is_whitespace c) _ _ (λ space. omega arith)
      (λ visible.
        if-Left chars (is_ascii_digit c) _ _
          (λ number.
            after_literal-Left chars _ (literal_value (span is_ascii_alphanumeric (c ∷ chars)).0)
              (length-span_cons is_ascii_alphanumeric c chars (ground (arith, number))))
          (λ word.
            if-Left chars (u.is_alphabetic c || c == b'_') _ _
              (λ letter.
                length-span_cons (λ d. is_alphanumeric u d || d == b'_') c chars
                  (ground (arith, letter)))
              (λ sign.
                if-Left chars (is_pair c chars) _ _ (λ pair. length-tail chars)
                  (λ single. after_op-Left chars (one_op c)))))

pub tokenize_loop-done :
    (u : Unicode) (fuel : ℕ) (chars : Text) (tokens : List Token)
    → length chars ≤ fuel
    → (o : Option (List Token)) × (tokenize_loop u fuel chars tokens ≡ done o)
unfolding tokenize_loop
tokenize_loop-done u fuel [] tokens le = (some tokens, refl)
tokenize_loop-done u zero (c ∷ chars) tokens le = absurd (omega (arith, le))
tokenize_loop-done u (suc fuel) (c ∷ chars) tokens le =
    stepped (next_token u c chars) refl (next_token-Left u c chars)
      (λ rest tokens' le'. tokenize_loop-done u fuel rest tokens' (omega (arith, le, le')))
  where
    stepped :
        (x : Lexeme)
        → next_token u c chars ≡ x
        → Left chars x
        → ((rest : Text) (tokens' : List Token)
            → length rest ≤ length chars
            → (o : Option (List Token)) × (tokenize_loop u fuel rest tokens' ≡ done o))
        → (o : Option (List Token)) × (tokenize_loop u (suc fuel) (c ∷ chars) tokens ≡ done o)
    stepped none e left onwards = (none, rw (tokenize_loop, e) refl)
    stepped (some (t, rest)) e left onwards =
        let (o, e') = onwards rest (push_token tokens t) left in (o, rw (tokenize_loop, e) e')
