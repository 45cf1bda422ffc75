-- ===== src/Parser/Words.antt =====
-- `tokenize` of src/shell/parser.rs. Here a line is the list of its characters' code points.
pub mod Quoting
use mimic_ssh_honeypot.Prelude.{
  ℕ, Bool, true, false, not, ◌&&◌, ◌||◌, List, [], ◌∷◌, ◌++◌, ◌==◌, leb, if◌then◌else◌, Text,
}

-- `char::is_whitespace`
unfoldable pub is_whitespace : ℕ → Bool
is_whitespace c =
    (leb 9 c && leb c 13)
    || c == 32
    || c == 0x85
    || c == 0xa0
    || c == 0x1680
    || (leb 0x2000 c && leb c 0x200a)
    || c == 0x2028
    || c == 0x2029
    || c == 0x202f
    || c == 0x205f
    || c == 0x3000

pub record Tokens : Type 0 where
  pub tokens : List Text
  pub cur : Text
  pub has_token : Bool
  pub in_single : Bool
  pub in_double : Bool

-- `if has_token { tokens.push(cur) }`
abbrev pub flush : Tokens → Tokens
flush t =
    if t.has_token
    then record t { tokens = t.tokens ++ (t.cur ∷ []); cur = []; has_token = false }
    else t

abbrev pub push : Tokens → ℕ → Tokens
push t c = record t { cur = t.cur ++ (c ∷ []); has_token = true }

-- `'$' | '`' | '"' | '\\'`
abbrev is_escapable : ℕ → Bool
is_escapable c = c == b'$' || c == b'`' || c == b'"' || c == b'\\'

-- Any character but a backslash that is special.
unfoldable pub token_char : Tokens → ℕ → Tokens
unfolding is_whitespace
token_char t c =
    if c == b'\'' && not t.in_double
    then record t { in_single = not t.in_single; has_token = true }
    else if c == b'"' && not t.in_single
    then record t { in_double = not t.in_double; has_token = true }
    else if is_whitespace c && (not t.in_single && not t.in_double)
    then flush t
    else push t c

unfoldable pub tokenize_from : Tokens → Text → Tokens
unfolding token_char
tokenize_from t [] = t
tokenize_from t (c ∷ []) = if c == b'\\' && not t.in_single then t else token_char t c
tokenize_from t (c ∷ following ∷ chars) =
    let both = tokenize_from (push t following) chars in
    let one =
      tokenize_from (if c == b'\\' && not t.in_single then push t b'\\' else token_char t c)
        (following ∷ chars) in
    if c == b'\\' && not t.in_single && (not t.in_double || is_escapable following)
    then both
    else one

unfoldable pub tokenize : Text → List Text
unfolding tokenize_from
tokenize line =
    (flush (
      tokenize_from
        (record { tokens = []; cur = []; has_token = false; in_single = false; in_double = false })
        line)).tokens
