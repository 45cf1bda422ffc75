-- ===== src/Arith/Tokens.antt =====
-- `tokenize` of src/shell/arith.rs.
use mimic_ssh_honeypot.Prelude.{
  ℕ, zero, suc, Bool, false, ◌&&◌, ◌||◌, Option, none, some, List, [], ◌∷◌, ◌++◌, length, leb, ◌==◌,
  if◌then◌else◌, Text, is_ascii_digit,
}
use mimic_ssh_honeypot.Prelude.Outcome.{Outcome, done, exhausted}
use mimic_ssh_honeypot.Parser.Words.{is_whitespace}
use mimic_ssh_honeypot.Arith.Int64.{i64_from_str_radix}

-- The operators and parentheses, by their texts.
pub data Op : Type 0 where
  eq ne le ge lt gt plus minus star slash percent open_paren close_paren : Op

pub data Token : Type 0 where
  num : ℕ → Token
  name : Text → Token
  op : Op → Token

-- `char::is_alphabetic` and `is_numeric`: the tables of Unicode.
pub record Unicode : Type 0 where
  pub is_alphabetic : ℕ → Bool
  pub is_numeric : ℕ → Bool

-- `char::is_alphanumeric` is either.
abbrev pub is_alphanumeric : Unicode → ℕ → Bool
is_alphanumeric u c = u.is_alphabetic c || u.is_numeric c

-- `char::is_ascii_alphanumeric`
abbrev pub is_ascii_alphanumeric : ℕ → Bool
is_ascii_alphanumeric c =
    (leb b'0' c && leb c b'9') || (leb b'a' c && leb c b'z') || (leb b'A' c && leb c b'Z')

-- The characters at the front that pass the test, and the others.
unfoldable pub span : (ℕ → Bool) → Text → Text × Text
span test [] = ([], [])
span test (c ∷ chars) =
    let later = span test chars in if test c then (c ∷ later.0, later.1) else ([], c ∷ chars)

-- The value of a literal.
unfoldable pub literal_value : Text → Option ℕ
unfolding i64_from_str_radix
literal_value (zero_digit ∷ x ∷ hex) =
    if zero_digit == b'0' && (x == b'x' || x == b'X')
    then i64_from_str_radix 16 hex
    else i64_from_str_radix 10 (zero_digit ∷ x ∷ hex)
literal_value text = i64_from_str_radix 10 text

-- The second character of a two-character operator is `=`.
abbrev pub is_pair : ℕ → Text → Bool
is_pair c (d ∷ rest) = (c == b'=' || c == b'!' || c == b'<' || c == b'>') && d == b'='
is_pair c [] = false

abbrev pub pair_op : ℕ → Op
pair_op c = if c == b'=' then eq else if c == b'!' then ne else if c == b'<' then le else ge

abbrev pub one_op : ℕ → Option Op
one_op c =
    if c == b'+'
    then some plus
    else if c == b'-'
    then some minus
    else if c == b'*'
    then some star
    else if c == b'/'
    then some slash
    else if c == b'%'
    then some percent
    else if c == b'('
    then some open_paren
    else if c == b')'
    then some close_paren
    else if c == b'<'
    then some lt
    else if c == b'>'
    then some gt
    else none

-- A token and the characters after it; the outer `none` is no token here, the inner one a white space.
abbrev pub Lexeme : Type 0
Lexeme = Option (Option Token × Text)

abbrev pub after_literal : Option ℕ → Text → Lexeme
after_literal none rest = none
after_literal (some value) rest = some (some (num value), rest)

abbrev pub after_op : Option Op → Text → Lexeme
after_op none rest = none
after_op (some o) rest = some (some (op o), rest)

abbrev pub tail : Text → Text
tail [] = []
tail (c ∷ rest) = rest

unfoldable pub next_token : Unicode → ℕ → Text → Lexeme
unfolding span literal_value is_whitespace is_ascii_digit
next_token u c chars =
    if is_whitespace c
    then some (none, chars)
    else if is_ascii_digit c
    then (let taken = span is_ascii_alphanumeric (c ∷ chars) in
        after_literal (literal_value taken.0) taken.1)
    else if u.is_alphabetic c || c == b'_'
    then (let taken = span (λ d. is_alphanumeric u d || d == b'_') (c ∷ chars) in
        some (some (name taken.0), taken.1))
    else if is_pair c chars
    then some (some (op (pair_op c)), tail chars)
    else after_op (one_op c) chars

abbrev pub push_token : List Token → Option Token → List Token
push_token tokens none = tokens
push_token tokens (some t) = tokens ++ (t ∷ [])

-- The loop, with a step of fuel for each character.
unfoldable pub tokenize_loop : Unicode → ℕ → Text → List Token → Outcome (Option (List Token))
tokenize_loop u fuel [] tokens = done (some tokens)
tokenize_loop u zero (c ∷ chars) tokens = exhausted
tokenize_loop u (suc fuel) (c ∷ chars) tokens = elim (next_token u c chars) [
  | none ↦ done none
  | some (t, rest) ↦ tokenize_loop u fuel rest (push_token tokens t)
]

unfoldable pub tokenize : Unicode → Text → Outcome (Option (List Token))
unfolding tokenize_loop next_token
tokenize u expr = tokenize_loop u (length expr) expr []
