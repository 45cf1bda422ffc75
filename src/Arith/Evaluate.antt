-- ===== src/Arith/Evaluate.antt =====
-- `Parser` and `eval` of src/shell/arith.rs. The tokens are those from `pos` on.
use mimic_ssh_honeypot.Prelude.{
  ℕ, zero, suc, Bool, true, false, not, Option, none, some, List, [], ◌∷◌, length, ◌==◌,
  if◌then◌else◌, Text,
}
use mimic_ssh_honeypot.Prelude.Outcome.{Outcome, done, panic, exhausted}
use mimic_ssh_honeypot.Parser.Words.{is_whitespace}
use mimic_ssh_honeypot.Env.{Env, get}
use mimic_ssh_honeypot.Arith.Int64.{
  wrapping_add, wrapping_sub, wrapping_mul, wrapping_neg, checked_div, checked_rem, signed_lt,
  signed_le, i64_from_str_radix,
}
use mimic_ssh_honeypot.Arith.Tokens.{
  Op, eq, ne, le, ge, lt, gt, plus, minus, star, slash, percent, open_paren, close_paren, Token,
  num, name, op, Unicode, tokenize,
}

abbrev pub max_depth : ℕ
max_depth = 32

-- What a method returns: the value, and the tokens after what it has read.
abbrev pub Parsed : Type 0
Parsed = Outcome (Option (ℕ × List Token))

-- `?` on an option.
abbrev pub and_then {ℓ} :
    {A B : Type ℓ} → Outcome (Option A) → (A → Outcome (Option B)) → Outcome (Option B)
and_then (done none) f = done none
and_then (done (some a)) f = f a
and_then panic f = panic
and_then exhausted f = exhausted

-- `eat_any`
abbrev pub eat_any : (Op → Bool) → List Token → Option (Op × List Token)
eat_any ops (op o ∷ tokens) = if ops o then some (o, tokens) else none
eat_any ops tokens = none

-- A `while let Some(op) = self.eat_any(..)` loop, with a step of fuel for each operator.
unfoldable pub chain_loop :
    (List Token → Parsed) → (Op → Bool) → (Op → ℕ → ℕ → Option ℕ) → ℕ → ℕ → List Token → Parsed
chain_loop operand ops apply zero left tokens = exhausted
chain_loop operand ops apply (suc fuel) left tokens = elim (eat_any ops tokens) [
  | none ↦ done (some (left, tokens))
  | some (o, tokens') ↦ and_then (operand tokens') (λ (right, tokens''). elim (apply o left right) [
    | none ↦ done none
    | some value ↦ chain_loop operand ops apply fuel value tokens''
  ])
]

-- One level of precedence: an operand, and the loop.
unfoldable pub level :
    (List Token → Parsed) → (Op → Bool) → (Op → ℕ → ℕ → Option ℕ) → List Token → Parsed
unfolding chain_loop
level operand ops apply tokens =
    and_then (operand tokens)
      (λ (left, tokens'). chain_loop operand ops apply (suc (length tokens')) left tokens')

abbrev pub is_comparison : Op → Bool
is_comparison eq = true
is_comparison ne = true
is_comparison le = true
is_comparison ge = true
is_comparison lt = true
is_comparison gt = true
is_comparison o = false

abbrev pub is_additive : Op → Bool
is_additive plus = true
is_additive minus = true
is_additive o = false

abbrev pub is_multiplicative : Op → Bool
is_multiplicative star = true
is_multiplicative slash = true
is_multiplicative percent = true
is_multiplicative o = false

-- `i64::from`
abbrev pub truth : Bool → Option ℕ
truth true = some 1
truth false = some 0

unfoldable pub compare : Op → ℕ → ℕ → Option ℕ
unfolding signed_lt signed_le
compare eq left right = truth (left == right)
compare ne left right = truth (not (left == right))
compare le left right = truth (signed_le left right)
compare ge left right = truth (signed_le right left)
compare lt left right = truth (signed_lt left right)
compare o left right = truth (signed_lt right left)

unfoldable pub add : Op → ℕ → ℕ → Option ℕ
unfolding wrapping_add wrapping_sub
add plus left right = some (wrapping_add left right)
add o left right = some (wrapping_sub left right)

unfoldable pub multiply : Op → ℕ → ℕ → Option ℕ
unfolding wrapping_mul checked_div checked_rem
multiply star left right = some (wrapping_mul left right)
multiply slash left right = checked_div left right
multiply o left right = checked_rem left right

-- `unary`, on what `primary` is.
unfoldable pub unary : (List Token → Parsed) → List Token → Parsed
unfolding wrapping_neg
unary primary (op minus ∷ tokens) =
    and_then (unary primary tokens) (λ (value, tokens'). done (some (wrapping_neg value, tokens')))
unary primary (op plus ∷ tokens) = unary primary tokens
unary primary tokens = primary tokens

-- `str::trim`
abbrev pub trim_front : Text → Text
trim_front [] = []
trim_front (c ∷ text) = let rest = trim_front text in if is_whitespace c then rest else c ∷ text

abbrev pub reversed : Text → Text → Text
reversed [] done_part = done_part
reversed (c ∷ text) done_part = reversed text (c ∷ done_part)

abbrev pub trim : Text → Text
trim text = reversed (trim_front (reversed (trim_front text) [])) []

abbrev pub number_of : Option Text → ℕ
number_of none = 0
number_of (some value) = elim (i64_from_str_radix 10 (trim value)) [ none ↦ 0 | some n ↦ n ]

-- The value of a name: 0 when it is not set or not a number.
unfoldable pub name_value : Env → Text → ℕ
unfolding get i64_from_str_radix is_whitespace
name_value env text = number_of (get env text)

abbrev pub closing : ℕ × List Token → Parsed
closing (value, op close_paren ∷ tokens) = done (some (value, tokens))
closing (value, tokens) = done none

-- `primary`, on what `comparison` is one parenthesis deeper; `none` is the depth limit.
unfoldable pub primary : Env → Option (List Token → Parsed) → List Token → Parsed
unfolding name_value
primary env one_deeper [] = done none
primary env none (op open_paren ∷ tokens) = done none
primary env (some comparison) (op open_paren ∷ tokens) = and_then (comparison tokens) closing
primary env one_deeper (op o ∷ tokens) = done none
primary env one_deeper (num value ∷ tokens) = done (some (value, tokens))
primary env one_deeper (name text ∷ tokens) = done (some (name_value env text, tokens))

abbrev pub unary_at : Env → Option (List Token → Parsed) → List Token → Parsed
unary_at env one_deeper = unary (primary env one_deeper)

abbrev pub multiplicative_at : Env → Option (List Token → Parsed) → List Token → Parsed
multiplicative_at env one_deeper = level (unary_at env one_deeper) is_multiplicative multiply

abbrev pub additive_at : Env → Option (List Token → Parsed) → List Token → Parsed
additive_at env one_deeper = level (multiplicative_at env one_deeper) is_additive add

abbrev pub comparison_at : Env → Option (List Token → Parsed) → List Token → Parsed
comparison_at env one_deeper = level (additive_at env one_deeper) is_comparison compare

-- `comparison` with `levels` parentheses left of `MAX_DEPTH`, and what a further parenthesis holds.
abbrev pub one_deeper : Env → ℕ → Option (List Token → Parsed)
one_deeper env zero = none
one_deeper env (suc levels) = some (comparison_at env (one_deeper env levels))

unfoldable pub comparison : Env → ℕ → List Token → Parsed
unfolding level unary primary compare add multiply
comparison env levels = comparison_at env (one_deeper env levels)

abbrev pub whole : ℕ × List Token → Outcome (Option ℕ)
whole (value, []) = done (some value)
whole (value, t ∷ tokens) = done none

unfoldable pub eval : Unicode → Env → Text → Outcome (Option ℕ)
unfolding tokenize comparison
eval u env expr =
    and_then (tokenize u expr) (λ tokens. and_then (comparison env max_depth tokens) whole)
