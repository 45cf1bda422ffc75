-- ===== src/Arith/Total.antt =====
-- The loops of src/shell/arith.rs end: the fuel of the tokenizer and of the chains of operators is enough.
use mimic_ssh_honeypot.Prelude.{
  ℕ, zero, suc, ◌≤◌, ◌<◌, ◌≡◌, Bool, Option, none, some, List, [], ◌∷◌, length, arith, refl,
  Option-cases, inl, inr, Text,
}
use mimic_ssh_honeypot.Prelude.Outcome.{done}
use mimic_ssh_honeypot.Env.{Env}
use mimic_ssh_honeypot.Arith.Int64.{wrapping_neg}
use mimic_ssh_honeypot.Arith.Tokens.{
  Op, Token, num, name, op, open_paren, close_paren, minus, plus, Unicode, tokenize,
}
use mimic_ssh_honeypot.Arith.Evaluate.{
  Parsed, eat_any, chain_loop, level, unary, primary, closing, one_deeper, comparison,
  comparison_at, additive_at, multiplicative_at, unary_at, eval, max_depth, is_comparison,
  is_additive, is_multiplicative, compare, add, multiply, name_value,
}
use mimic_ssh_honeypot.Arith.Lexing.{tokenize_loop-done}

-- Nothing, or a value and no more tokens than there were.
abbrev pub Within : List Token → Option (ℕ × List Token) → Type 0
Within tokens none = Unit
Within tokens (some (value, rest)) = length rest ≤ length tokens

Within-longer :
    (a b : List Token) (r : Option (ℕ × List Token)) → length a ≤ length b → Within a r → Within b r
Within-longer a b none le w = tt
Within-longer a b (some (value, rest)) le w = omega (arith, le, w)

abbrev pub Returns : (List Token → Parsed) → List Token → Type 0
Returns p tokens = (o : Option (ℕ × List Token)) × (p tokens ≡ done o) × Within tokens o

abbrev pub IsTotal : (List Token → Parsed) → Type 0
IsTotal p = (tokens : List Token) → Returns p tokens

pub eat_any_lt :
    (ops : Op → Bool) (tokens : List Token) (o : Op) (rest : List Token)
    → eat_any ops tokens ≡ some (o, rest)
    → suc (length rest) ≡ length tokens
eat_any_lt ops [] o rest h = cc
eat_any_lt ops (num n ∷ tokens) o rest h = cc
eat_any_lt ops (name n ∷ tokens) o rest h = cc
eat_any_lt ops (op p ∷ tokens) o rest h = ground (arith, h)

pub chain_loop-IsTotal :
    (operand : List Token → Parsed) (ops : Op → Bool) (apply : Op → ℕ → ℕ → Option ℕ)
    → IsTotal operand
    → (fuel left : ℕ) (tokens : List Token) → length tokens < fuel
    → Returns (chain_loop operand ops apply fuel left) tokens
unfolding chain_loop
chain_loop-IsTotal operand ops apply total zero left tokens less = absurd (omega (arith, less))
chain_loop-IsTotal operand ops apply total (suc fuel) left tokens less =
    elim (Option-cases (eat_any ops tokens)) [
      | inl stops ↦ (some (left, tokens), rw (chain_loop, stops) refl, omega arith)
      | inr ((o, rest), goes) ↦
          let (r, e, w) = total rest in
          operated o rest goes r e w (λ value tokens' le.
            chain_loop-IsTotal operand ops apply total fuel value tokens'
              (omega (arith, less, le, eat_any_lt ops tokens o rest goes)))
    ]
  where
    operated :
        (o : Op) (rest : List Token)
        → eat_any ops tokens ≡ some (o, rest)
        → (r : Option (ℕ × List Token)) → operand rest ≡ done r
        → Within rest r
        → ((value : ℕ) (tokens' : List Token)
            → length tokens' ≤ length rest
            → Returns (chain_loop operand ops apply fuel value) tokens')
        → Returns (chain_loop operand ops apply (suc fuel) left) tokens
    operated o rest goes none e w onwards = (none, rw (chain_loop, goes, e) refl, tt)
    operated o rest goes (some (right, tokens')) e w onwards =
        elim (Option-cases (apply o left right)) [
          | inl fails ↦ (none, rw (chain_loop, goes, e, fails) refl, tt)
          | inr (value, gives) ↦
              let (r, e', w') = onwards value tokens' w in
              (
                r,
                rw (chain_loop, goes, e, gives) e',
                Within-longer tokens' tokens r (omega (arith, w, eat_any_lt ops tokens o rest goes))
                    w',
              )
        ]

pub level-IsTotal :
    (operand : List Token → Parsed) (ops : Op → Bool) (apply : Op → ℕ → ℕ → Option ℕ)
    → IsTotal operand
    → IsTotal (level operand ops apply)
unfolding level
level-IsTotal operand ops apply total tokens = let (r, e, w) = total tokens in looped r e w
  where
    looped :
        (r : Option (ℕ × List Token))
        → operand tokens ≡ done r
        → Within tokens r
        → Returns (level operand ops apply) tokens
    looped none e w = (none, rw (level, e) refl, tt)
    looped (some (left, tokens')) e w =
        let (r, e', w') =
          chain_loop-IsTotal operand ops apply total (suc (length tokens')) left tokens'
            (omega arith) in
        (r, rw (level, e) e', Within-longer tokens' tokens r w w')

pub unary-IsTotal : (p : List Token → Parsed) → IsTotal p → IsTotal (unary p)
unfolding unary
unary-IsTotal p total [] = total []
unary-IsTotal p total (num n ∷ tokens) = total (num n ∷ tokens)
unary-IsTotal p total (name n ∷ tokens) = total (name n ∷ tokens)
unary-IsTotal p total (op minus ∷ tokens) =
    let (r, e, w) = unary-IsTotal p total tokens in negated r e w
  where
    negated :
        (r : Option (ℕ × List Token))
        → unary p tokens ≡ done r
        → Within tokens r
        → Returns (unary p) (op minus ∷ tokens)
    negated none e w = (none, rw (unary, e) refl, tt)
    negated (some (value, rest)) e w =
        (some (wrapping_neg value, rest), rw (unary, e) refl, omega (arith, w))
unary-IsTotal p total (op plus ∷ tokens) =
    let (r, e, w) = unary-IsTotal p total tokens in
    (r, e, Within-longer tokens (op plus ∷ tokens) r (omega arith) w)
unary-IsTotal p total (op o ∷ tokens) = total (op o ∷ tokens)

abbrev pub DeeperIsTotal : Option (List Token → Parsed) → Type 0
DeeperIsTotal none = Unit
DeeperIsTotal (some p) = IsTotal p

closing-Within :
    (value : ℕ) (rest : List Token)
    → (r : Option (ℕ × List Token)) × (closing (value, rest) ≡ done r) × Within rest r
closing-Within value [] = (none, refl, tt)
closing-Within value (num n ∷ rest) = (none, refl, tt)
closing-Within value (name n ∷ rest) = (none, refl, tt)
closing-Within value (op close_paren ∷ rest) = (some (value, rest), refl, omega arith)
closing-Within value (op o ∷ rest) = (none, refl, tt)

pub primary-IsTotal :
    (env : Env) (d : Option (List Token → Parsed)) → DeeperIsTotal d → IsTotal (primary env d)
unfolding primary
primary-IsTotal env d total [] = (none, refl, tt)
primary-IsTotal env d total (num n ∷ tokens) = (some (n, tokens), refl, omega arith)
primary-IsTotal env d total (name n ∷ tokens) = (some (name_value env n, tokens), refl, omega arith)
primary-IsTotal env none total (op open_paren ∷ tokens) = (none, refl, tt)
primary-IsTotal env (some p) total (op open_paren ∷ tokens) =
    let (r, e, w) = total tokens in closed r e w
  where
    closed :
        (r : Option (ℕ × List Token))
        → p tokens ≡ done r
        → Within tokens r
        → Returns (primary env (some p)) (op open_paren ∷ tokens)
    closed none e w = (none, rw (primary, e) refl, tt)
    closed (some (value, rest)) e w =
        let (r, e', w') = closing-Within value rest in
        (r, rw (primary, e) e', Within-longer rest (op open_paren ∷ tokens) r (omega (arith, w)) w')
primary-IsTotal env d total (op o ∷ tokens) = (none, refl, tt)

comparison_at-IsTotal :
    (env : Env) (d : Option (List Token → Parsed)) → DeeperIsTotal d → IsTotal (comparison_at env d)
comparison_at-IsTotal env d total = level-IsTotal (additive_at env d) is_comparison compare (
    level-IsTotal (multiplicative_at env d) is_additive add (
      level-IsTotal (unary_at env d) is_multiplicative multiply
        (unary-IsTotal (primary env d) (primary-IsTotal env d total))))

pub one_deeper-IsTotal : (env : Env) (levels : ℕ) → DeeperIsTotal (one_deeper env levels)
one_deeper-IsTotal env zero = tt
one_deeper-IsTotal env (suc levels) =
    comparison_at-IsTotal env (one_deeper env levels) (one_deeper-IsTotal env levels)

-- `comparison` returns at every nesting depth, and leaves no more tokens than it was given.
pub comparison-IsTotal : (env : Env) (levels : ℕ) → IsTotal (comparison env levels)
unfolding comparison
comparison-IsTotal env levels =
    comparison_at-IsTotal env (one_deeper env levels) (one_deeper-IsTotal env levels)

-- `eval` returns on every text, whatever the tables of Unicode say: its fuel is never exhausted.
pub eval-done :
    (u : Unicode) (env : Env) (expr : Text) → (o : Option ℕ) × (eval u env expr ≡ done o)
unfolding eval tokenize
eval-done u env expr =
    let (o, e) = tokenize_loop-done u (length expr) expr [] (omega arith) in read o e
  where
    ended :
        (tokens : List Token) (r : Option (ℕ × List Token))
        → tokenize u expr ≡ done (some tokens)
        → comparison env max_depth tokens ≡ done r
        → (o : Option ℕ) × (eval u env expr ≡ done o)
    ended tokens none e e' = (none, rw (eval, e, e') refl)
    ended tokens (some (value, [])) e e' = (some value, rw (eval, e, e') refl)
    ended tokens (some (value, t ∷ rest)) e e' = (none, rw (eval, e, e') refl)

    read :
        (o : Option (List Token))
        → tokenize u expr ≡ done o
        → (o : Option ℕ) × (eval u env expr ≡ done o)
    read none e = (none, rw (eval, e) refl)
    read (some tokens) e =
        let (r, e', w) = comparison-IsTotal env max_depth tokens in ended tokens r e e'
