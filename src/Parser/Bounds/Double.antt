-- ===== src/Parser/Bounds/Double.antt =====
-- The `$((…))` region of src/shell/parser.rs, on bytes that neither quote nor nest.
use mimic_ssh_honeypot.Prelude.{
  ℕ, suc, ◌+◌, ◌-◌, ◌≡◌, Bool, true, not, ◌||◌, some, List, [], ◌∷◌, ◌++◌, length, all, arith, refl,
  ap, ◌∙◌, Text, ◌==◌, sym, length-append,
}
use mimic_ssh_honeypot.Prelude.Outcome.{done}
use mimic_ssh_honeypot.Parser.{unquoted, quote_step}
use mimic_ssh_honeypot.Parser.Substitution.{find_close, substitution_at, paren}

-- Not a backslash, a quote or a parenthesis.
abbrev pub is_plain : ℕ → Bool
is_plain b = not (b == b'\\' || b == b'\'' || b == b'"' || b == b'(' || b == b')')

plain_step :
    (b : ℕ) (rest : List ℕ) (j depth : ℕ)
    → is_plain b ≡ true
    → find_close (b ∷ rest) j depth unquoted ≡ find_close rest (j + 1) depth unquoted
unfolding find_close quote_step paren
plain_step b rest j depth h = ground (arith, h)

find_close-plain :
    (xs rest : List ℕ) (j depth : ℕ)
    → all is_plain xs ≡ true
    → find_close (xs ++ rest) j depth unquoted ≡ find_close rest (j + length xs) depth unquoted
find_close-plain [] rest j depth h = let same : j + 0 ≡ j = omega arith in rw same refl
find_close-plain (b ∷ xs) rest j depth h =
    let on : j + suc (length xs) ≡ j + 1 + length xs = omega arith in
    plain_step b (xs ++ rest) j depth (ground (arith, h))
    ∙ find_close-plain xs rest (j + 1) depth (ground (arith, h))
    ∙ ap (λ n. find_close rest n depth unquoted) (sym on)

first_close :
    (rest : List ℕ) (j : ℕ)
    → find_close (b')' ∷ rest) j 2 unquoted ≡ find_close rest (j + 1) 1 unquoted
unfolding find_close quote_step paren
first_close rest j = refl

last_close : (rest : List ℕ) (j : ℕ) → find_close (b')' ∷ rest) j 1 unquoted ≡ done (some j)
unfolding find_close quote_step paren
last_close rest j = refl

-- A `$((` region of plain bytes `x`, a closing parenthesis, plain bytes `y` and the last parenthesis.
abbrev pub double : Text → Text → Text
double x y = b'$' ∷ b'(' ∷ b'(' ∷ x ++ (b')' ∷ y ++ (b')' ∷ []))

-- On `$((`, plain bytes `x`, `)`, plain bytes `y` and `)`, `substitution_at` finds an arithmetic region that
-- ends with the text; its body is the bytes from index 3 on, as many as `x` and `y` have together: `x` when
-- `y` is empty, and otherwise one byte less than what stands before the last parenthesis.
pub substitution_at-double :
    (x y : Text)
    → all is_plain x ≡ true
    → all is_plain y ≡ true
    → substitution_at (double x y) 0
      ≡ done (
          some (record {
            end = length (double x y);
            body = (3, 3 + length x + length y);
            arithmetic = true;
          }))
unfolding substitution_at find_close quote_step paren
substitution_at-double x y hx hy =
    let e =
      find_close-plain x (b')' ∷ y ++ (b')' ∷ [])) 3 2 hx
      ∙ first_close (y ++ (b')' ∷ [])) (3 + length x)
      ∙ find_close-plain y (b')' ∷ []) (3 + length x + 1) 1 hy
      ∙ last_close [] (3 + length x + 1 + length y) in
    let ends : 3 + length x + 1 + length y + 1 ≡ length (double x y) =
      omega (arith, length-append x (b')' ∷ y ++ (b')' ∷ [])), length-append y (b')' ∷ [])) in
    let body_ends : 3 + length x + 1 + length y - 1 ≡ 3 + length x + length y = omega arith in
    rw (e, body_ends)
      (ap
        (λ n.
          done (some (record { end = n; body = (3, 3 + length x + length y); arithmetic = true })))
        ends)
