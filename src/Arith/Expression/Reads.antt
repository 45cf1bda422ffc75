-- ===== src/Arith/Expression/Reads.antt =====
-- The evaluator of src/shell/arith.rs on a printed expression tree.
use mimic_ssh_honeypot.Prelude.{
  ℕ, zero, suc, ◌+◌, ◌≤◌, ◌≡◌, Bool, true, false, Option, none, some, List, [], ◌∷◌, ◌++◌, length,
  arith, refl, sym, ap, ◌∙◌, ltb, length-append, Text,
}
use mathlib.Core.List.{append_assoc, append-nil}
use mimic_ssh_honeypot.Prelude.Outcome.{done}
use mimic_ssh_honeypot.Env.{Env}
use mimic_ssh_honeypot.Arith.Int64.{wrapping_neg}
use mimic_ssh_honeypot.Arith.Tokens.{
  Unicode, tokenize, Op, eq, ne, le, ge, lt, gt, plus, minus, Token, num, name, op,
}
use mimic_ssh_honeypot.Arith.Evaluate.{
  Parsed, and_then, is_comparison, is_additive, is_multiplicative, compare, add, multiply, unary,
  primary, unary_at, multiplicative_at, additive_at, comparison_at, one_deeper, comparison,
  max_depth, eval, whole,
}
use mimic_ssh_honeypot.Arith.Total.{
  IsTotal, DeeperIsTotal, one_deeper-IsTotal, level-IsTotal, unary-IsTotal, primary-IsTotal,
}
use mimic_ssh_honeypot.Arith.Expression.{
  Level, comparing, adding, multiplying, operators, apply, Expr, literal, variable, negated,
  positive, binary, combine, minus_of, value, rank_of, rank, wrap, wrap_nesting, print, nesting,
}
use mimic_ssh_honeypot.Arith.Expression.Chains.{loop-stopped, level_binary}
use mimic_ssh_honeypot.Arith.Expression.Ranks.{
  Reads, and_then_ext, lower, from_primary, parenthesized,
}

comparison_only :
    (o : Op) → is_comparison o ≡ true → (is_additive o ≡ false) × (is_multiplicative o ≡ false)
comparison_only eq h = (refl, refl)
comparison_only ne h = (refl, refl)
comparison_only le h = (refl, refl)
comparison_only ge h = (refl, refl)
comparison_only lt h = (refl, refl)
comparison_only gt h = (refl, refl)
comparison_only o h = absurd (cc)

additive_only : (o : Op) → is_additive o ≡ true → is_multiplicative o ≡ false
additive_only plus h = refl
additive_only minus h = refl
additive_only o h = absurd (cc)

module _ (env : Env) (d : Option (List Token → Parsed)) (total : DeeperIsTotal d) where
  unary_at-IsTotal : IsTotal (unary_at env d)
  unary_at-IsTotal = unary-IsTotal (primary env d) (primary-IsTotal env d total)

  multiplicative_at-IsTotal : IsTotal (multiplicative_at env d)
  multiplicative_at-IsTotal =
      level-IsTotal (unary_at env d) is_multiplicative multiply unary_at-IsTotal

  additive_at-IsTotal : IsTotal (additive_at env d)
  additive_at-IsTotal =
      level-IsTotal (multiplicative_at env d) is_additive add multiplicative_at-IsTotal

  longer : (right rest : List Token) → length rest ≤ length (right ++ rest)
  longer right rest = omega (arith, length-append right rest)

  -- Two operands with an operator between them, the right one at the next rank.
  infix-Reads :
      (l : Level) (o : Op)
      → operators l o ≡ true
      → (left right : List Token) (x y : Option ℕ) → Reads env d (rank_of l) left x
      → Reads env d (rank_of l + 1) right y
      → Reads env d (rank_of l) (left ++ (op o ∷ right)) (combine (apply l o) x y)
  infix-Reads comparing o h left right x y r r' rest (no_sum, no_product) =
      let (sum, product) = comparison_only o h in
      let whole = append_assoc left (op o ∷ right) rest in
      ap (comparison_at env d) whole
      ∙ level_binary (additive_at env d) is_comparison compare additive_at-IsTotal o
          (left ++ (op o ∷ right ++ rest)) (right ++ rest) rest x y h
          (r (op o ∷ right ++ rest) (rw sum refl, rw product refl))
          (r' rest no_product
            ∙ and_then_ext y _ _
                (λ v. loop-stopped (multiplicative_at env d) is_additive add rest v no_sum))
          (longer right rest)
  infix-Reads adding o h left right x y r r' rest no_product =
      let whole = append_assoc left (op o ∷ right) rest in
      ap (additive_at env d) whole
      ∙ level_binary (multiplicative_at env d) is_additive add multiplicative_at-IsTotal o
          (left ++ (op o ∷ right ++ rest)) (right ++ rest) rest x y h
          (r (op o ∷ right ++ rest) (rw (additive_only o h) refl))
          (r' rest tt
            ∙ and_then_ext y _ _
                (λ v. loop-stopped (unary_at env d) is_multiplicative multiply rest v no_product))
          (longer right rest)
  infix-Reads multiplying o h left right x y r r' rest st =
      let whole = append_assoc left (op o ∷ right) rest in
      ap (multiplicative_at env d) whole
      ∙ level_binary (unary_at env d) is_multiplicative multiply unary_at-IsTotal o
          (left ++ (op o ∷ right ++ rest)) (right ++ rest) rest x y h (r (op o ∷ right ++ rest) tt)
          (r' rest tt) (longer right rest)

-- An expression as printed, where nothing more tightly binding is wanted.
abbrev Bare : Env → Expr → Type 0
Bare env e =
    (levels n : ℕ)
    → n ≤ rank e
    → nesting e ≤ levels
    → Reads env (one_deeper env levels) n (print e) (value env e)

-- Where an operand of the rank is wanted, in parentheses if it needs them.
placed :
    (env : Env) (e : Expr)
    → Bare env e
    → (levels n : ℕ) → n ≤ 4
    → (b : Bool) → ltb (rank e) n ≡ b
    → wrap_nesting b (nesting e) ≤ levels
    → Reads env (one_deeper env levels) n (wrap b (print e)) (value env e)
unfolding unary
placed env e bare levels n bound false loose deep = bare levels n (ground (arith, loose)) deep
placed env e bare zero n bound true loose deep = absurd (omega (arith, deep))
placed env e bare (suc levels) n bound true loose deep =
    from_primary env (one_deeper env (suc levels)) (wrap true (print e)) (value env e)
      (λ rest. refl)
      (parenthesized env levels (print e) (value env e)
        (bare levels 0 (omega arith) (omega (arith, deep))))
      n bound

rank_of_bound : (l : Level) → rank_of l ≤ 2
rank_of_bound comparing = omega arith
rank_of_bound adding = omega arith
rank_of_bound multiplying = omega arith

abbrev negate : ℕ × List Token → Parsed
negate p = done (some (wrapping_neg p.0, p.1))

negate_value :
    (x : Option ℕ) (rest : List Token)
    → and_then (and_then (done x) (λ v. done (some (v, rest)))) negate
      ≡ and_then (done (minus_of x)) (λ v. done (some (v, rest)))
negate_value none rest = refl
negate_value (some v) rest = refl

print-Reads : (env : Env) (e : Expr) → Bare env e
unfolding unary primary
print-Reads env (literal v) levels n bound deep =
    from_primary env (one_deeper env levels) (num v ∷ []) (some v) (λ rest. refl) (λ rest st. refl)
      n bound
print-Reads env (variable text) levels n bound deep =
    from_primary env (one_deeper env levels) (name text ∷ []) (value env (variable text))
      (λ rest. refl) (λ rest st. refl) n bound
print-Reads env (negated e) levels n bound deep =
    lower env (one_deeper env levels) (print (negated e)) (value env (negated e)) 3 n bound
      (omega arith)
      (λ rest st.
        ap (λ p. and_then p negate)
          (placed env e (print-Reads env e) levels 3 (omega arith) (ltb (rank e) 3) refl deep rest
            tt)
        ∙ negate_value (value env e) rest)
print-Reads env (positive e) levels n bound deep =
    lower env (one_deeper env levels) (print (positive e)) (value env e) 3 n bound (omega arith)
      (placed env e (print-Reads env e) levels 3 (omega arith) (ltb (rank e) 3) refl deep)
print-Reads env (binary l o h a b) levels n bound deep =
    lower env (one_deeper env levels) (print (binary l o h a b)) (value env (binary l o h a b))
      (rank_of l) n bound (omega (arith, rank_of_bound l))
      (infix-Reads env (one_deeper env levels) (one_deeper-IsTotal env levels) l o h
        (wrap (ltb (rank a) (rank_of l)) (print a)) (wrap (ltb (rank b) (rank_of l + 1)) (print b))
        (value env a) (value env b)
        (placed env a (print-Reads env a) levels (rank_of l) (omega (arith, rank_of_bound l))
          (ltb (rank a) (rank_of l)) refl (omega (arith, deep)))
        (placed env b (print-Reads env b) levels (rank_of l + 1) (omega (arith, rank_of_bound l))
          (ltb (rank b) (rank_of l + 1)) refl (omega (arith, deep))))

comparison-print :
    (env : Env) (e : Expr)
    → nesting e ≤ max_depth
    → comparison env max_depth (print e) ≡ and_then (done (value env e)) (λ v. done (some (v, [])))
unfolding comparison
comparison-print env e deep =
    let d = one_deeper env max_depth in
    ap (comparison_at env d) (sym (append-nil (print e)))
    ∙ print-Reads env e max_depth 0 (omega arith) deep [] (refl, refl)
    ∙ and_then_ext (value env e) _ _
        (λ v. loop-stopped (additive_at env d) is_comparison compare [] v refl)

-- A text whose tokens are those that an expression tree is printed as, with parentheses nested no more
-- than 32 deep, evaluates to the value of the tree, and fails when the tree has none: the evaluator has
-- the precedence of the operators, and groups those of one level from the left.
pub eval-print :
    (u : Unicode) (env : Env) (expr : Text) (e : Expr)
    → tokenize u expr ≡ done (some (print e))
    → nesting e ≤ max_depth
    → eval u env expr ≡ done (value env e)
unfolding eval
eval-print u env expr e read deep =
    ap (λ o. and_then o (λ tokens. and_then (comparison env max_depth tokens) whole)) read
    ∙ ap (λ p. and_then p whole) (comparison-print env e deep)
    ∙ ended (value env e)
  where
    ended : (x : Option ℕ) → and_then (and_then (done x) (λ v. done (some (v, [])))) whole ≡ done x
    ended none = refl
    ended (some v) = refl
