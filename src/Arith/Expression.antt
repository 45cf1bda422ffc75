-- ===== src/Arith/Expression.antt =====
-- Expression trees: what the evaluator of src/shell/arith.rs should make of them, and how they are written.
pub mod Chains
pub mod Ranks
pub mod Reads
use mimic_ssh_honeypot.Prelude.{
  ℕ, zero, suc, ◌+◌, ◌≡◌, Bool, true, false, Option, none, some, List, [], ◌∷◌, ◌++◌, ltb, max,
  Text,
}
use mimic_ssh_honeypot.Env.{Env}
use mimic_ssh_honeypot.Arith.Int64.{wrapping_neg}
use mimic_ssh_honeypot.Arith.Tokens.{Op, plus, minus, open_paren, close_paren, Token, num, name, op}
use mimic_ssh_honeypot.Arith.Evaluate.{
  is_comparison, is_additive, is_multiplicative, compare, add, multiply, name_value,
}

-- The three levels of binary operators, from the loosest one.
pub data Level : Type 0 where
  comparing adding multiplying : Level

abbrev pub operators : Level → Op → Bool
operators comparing = is_comparison
operators adding = is_additive
operators multiplying = is_multiplicative

abbrev pub apply : Level → Op → ℕ → ℕ → Option ℕ
apply comparing = compare
apply adding = add
apply multiplying = multiply

pub data Expr : Type 0 where
  literal : ℕ → Expr
  variable : Text → Expr
  negated : Expr → Expr
  positive : Expr → Expr
  binary : (l : Level) (o : Op) → operators l o ≡ true → Expr → Expr → Expr

abbrev pub combine : (ℕ → ℕ → Option ℕ) → Option ℕ → Option ℕ → Option ℕ
combine f none y = none
combine f (some x) none = none
combine f (some x) (some y) = f x y

abbrev pub minus_of : Option ℕ → Option ℕ
minus_of none = none
minus_of (some x) = some (wrapping_neg x)

-- The value; `none` is a division by zero or one that overflows.
abbrev pub value : Env → Expr → Option ℕ
value env (literal n) = some n
value env (variable text) = some (name_value env text)
value env (negated e) = minus_of (value env e)
value env (positive e) = value env e
value env (binary l o h a b) = combine (apply l o) (value env a) (value env b)

abbrev pub rank_of : Level → ℕ
rank_of comparing = 0
rank_of adding = 1
rank_of multiplying = 2

-- How tightly the outermost operator binds.
abbrev pub rank : Expr → ℕ
rank (literal n) = 4
rank (variable text) = 4
rank (negated e) = 3
rank (positive e) = 3
rank (binary l o h a b) = rank_of l

abbrev pub wrap : Bool → List Token → List Token
wrap true tokens = op open_paren ∷ tokens ++ (op close_paren ∷ [])
wrap false tokens = tokens

abbrev pub wrap_nesting : Bool → ℕ → ℕ
wrap_nesting true n = suc n
wrap_nesting false n = n

-- The tokens, with parentheses only where an operand binds less tightly than its place wants: a left
-- operand as tightly as the operator, a right one more tightly.
abbrev pub print : Expr → List Token
print (literal n) = num n ∷ []
print (variable text) = name text ∷ []
print (negated e) = op minus ∷ wrap (ltb (rank e) 3) (print e)
print (positive e) = op plus ∷ wrap (ltb (rank e) 3) (print e)
print (binary l o h a b) =
    wrap (ltb (rank a) (rank_of l)) (print a)
    ++ (op o ∷ wrap (ltb (rank b) (rank_of l + 1)) (print b))

-- How deeply the parentheses of `print` nest.
abbrev pub nesting : Expr → ℕ
nesting (literal n) = 0
nesting (variable text) = 0
nesting (negated e) = wrap_nesting (ltb (rank e) 3) (nesting e)
nesting (positive e) = wrap_nesting (ltb (rank e) 3) (nesting e)
nesting (binary l o h a b) =
    max (wrap_nesting (ltb (rank a) (rank_of l)) (nesting a))
      (wrap_nesting (ltb (rank b) (rank_of l + 1)) (nesting b))
