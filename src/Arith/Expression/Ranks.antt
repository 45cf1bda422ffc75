-- ===== src/Arith/Expression/Ranks.antt =====
-- The methods of the evaluator of src/shell/arith.rs by rank, and what they make of a primary.
use mimic_ssh_honeypot.Prelude.{
  ℕ, zero, suc, ◌≤◌, ◌≡◌, true, Option, none, some, List, [], ◌∷◌, ◌++◌, arith, refl, ap, ◌∙◌,
  subst, Bool-cases, inl, inr, leb,
}
use mathlib.Core.List.{append_assoc}
use mimic_ssh_honeypot.Prelude.Outcome.{done}
use mimic_ssh_honeypot.Env.{Env}
use mimic_ssh_honeypot.Arith.Tokens.{open_paren, close_paren, Token, op}
use mimic_ssh_honeypot.Arith.Evaluate.{
  Parsed, and_then, eat_any, chain_loop, is_comparison, is_additive, is_multiplicative, compare,
  add, multiply, primary, closing, unary_at, multiplicative_at, additive_at, comparison_at,
  one_deeper,
}
use mimic_ssh_honeypot.Arith.Expression.{wrap}
use mimic_ssh_honeypot.Arith.Expression.Chains.{loop, loop-stopped, level_lift}

-- The method that reads what binds at least as tightly as the rank.
abbrev pub parser : Env → Option (List Token → Parsed) → ℕ → List Token → Parsed
parser env d zero = comparison_at env d
parser env d (suc zero) = additive_at env d
parser env d (suc (suc zero)) = multiplicative_at env d
parser env d (suc (suc (suc zero))) = unary_at env d
parser env d (suc (suc (suc (suc n)))) = primary env d

-- What the method does after a value.
abbrev pub onwards : Env → Option (List Token → Parsed) → ℕ → List Token → ℕ → Parsed
onwards env d zero rest v = loop (additive_at env d) is_comparison compare rest v
onwards env d (suc zero) rest v = loop (multiplicative_at env d) is_additive add rest v
onwards env d (suc (suc zero)) rest v = loop (unary_at env d) is_multiplicative multiply rest v
onwards env d (suc (suc (suc n))) rest v = done (some (v, rest))

-- No operator that binds more tightly than the rank stands next.
abbrev pub Stops : ℕ → List Token → Type 0
Stops zero rest = (eat_any is_additive rest ≡ none) × (eat_any is_multiplicative rest ≡ none)
Stops (suc zero) rest = eat_any is_multiplicative rest ≡ none
Stops (suc (suc n)) rest = Unit

-- The method takes the tokens for the value, and goes on after them.
abbrev pub Reads : Env → Option (List Token → Parsed) → ℕ → List Token → Option ℕ → Type 0
Reads env d n tokens o =
    (rest : List Token)
    → Stops n rest
    → parser env d n (tokens ++ rest) ≡ and_then (done o) (onwards env d n rest)

pub and_then_ext :
    (o : Option ℕ) (f g : ℕ → Parsed)
    → ((v : ℕ) → f v ≡ g v)
    → and_then (done o) f ≡ and_then (done o) g
and_then_ext none f g h = refl
and_then_ext (some v) f g h = h v

module _ (env : Env) (d : Option (List Token → Parsed)) (tokens : List Token) (o : Option ℕ) where
  down : (n : ℕ) → n ≤ 2 → Reads env d (suc n) tokens o → Reads env d n tokens o
  down zero bound r rest (no_sum, no_product) =
      level_lift (additive_at env d) is_comparison compare (tokens ++ rest) rest o (
        r rest no_product
        ∙ and_then_ext o _ _
            (λ v. loop-stopped (multiplicative_at env d) is_additive add rest v no_sum))
  down (suc zero) bound r rest no_product =
      level_lift (multiplicative_at env d) is_additive add (tokens ++ rest) rest o (
        r rest tt
        ∙ and_then_ext o _ _
            (λ v. loop-stopped (unary_at env d) is_multiplicative multiply rest v no_product))
  down (suc (suc zero)) bound r rest st =
      level_lift (unary_at env d) is_multiplicative multiply (tokens ++ rest) rest o (r rest tt)
  down (suc (suc (suc n))) bound r rest st = absurd (omega (arith, bound))

  pub lower : (m n : ℕ) → n ≤ m → m ≤ 3 → Reads env d m tokens o → Reads env d n tokens o
  lower zero n bound top r =
      let same : 0 ≡ n = omega (arith, bound) in subst (λ k. Reads env d k tokens o) same r
  lower (suc m) n bound top r = elim (Bool-cases (leb n m)) [
    | inl small ↦
        lower m n (ground (arith, small)) (omega (arith, top)) (down m (omega (arith, top)) r)
    | inr top_rank ↦
        let same : suc m ≡ n = ground (arith, top_rank, bound) in
        subst (λ k. Reads env d k tokens o) same r
  ]

  -- A primary, at any rank.
  pub from_primary :
      ((rest : List Token) → unary_at env d (tokens ++ rest) ≡ primary env d (tokens ++ rest))
      → Reads env d 4 tokens o
      → (n : ℕ) → n ≤ 4
      → Reads env d n tokens o
  from_primary signless r n bound = elim (Bool-cases (leb n 3)) [
    | inl small ↦
        lower 3 n (ground (arith, small)) (omega arith) (λ rest st. signless rest ∙ r rest tt)
    | inr top ↦
        let same : 4 ≡ n = ground (arith, top, bound) in subst (λ k. Reads env d k tokens o) same r
  ]

pub parenthesized :
    (env : Env) (levels : ℕ) (tokens : List Token) (o : Option ℕ)
    → Reads env (one_deeper env levels) 0 tokens o
    → Reads env (one_deeper env (suc levels)) 4 (wrap true tokens) o
unfolding primary chain_loop
parenthesized env levels tokens o r rest st =
    ap (λ t. primary env (one_deeper env (suc levels)) (op open_paren ∷ t))
      (append_assoc tokens (op close_paren ∷ []) rest)
    ∙ ap (λ p. and_then p closing) (r (op close_paren ∷ rest) (refl, refl))
    ∙ closed o
  where
    closed :
        (x : Option ℕ)
        → and_then
            (and_then (done x) (onwards env (one_deeper env levels) 0 (op close_paren ∷ rest)))
            closing
          ≡ and_then (done x) (λ v. done (some (v, rest)))
    closed none = refl
    closed (some v) = refl
