-- ===== src/Parser/Words/Quoting.antt =====
-- Quoting words so that `tokenize` of src/shell/parser.rs reads them back.
use mimic_ssh_honeypot.Prelude.{
  ℕ, ◌≡◌, Bool, true, false, not, ◌&&◌, List, [], ◌∷◌, ◌++◌, arith, refl, Bool-cases, inl, inr,
  Text, sym, ap, ◌∙◌, if◌then◌else◌, ◌==◌,
}
use mathlib.Core.List.{append_assoc, append-nil}
use mimic_ssh_honeypot.Parser.Words.{
  Tokens, tokenize, tokenize_from, token_char, flush, is_whitespace,
}

-- The characters of a word between single quotes: a single quote closes them, is escaped, and opens them
-- again.
abbrev pub quoted : Text → Text
quoted [] = b'\'' ∷ []
quoted (c ∷ word) =
    if c == b'\'' then b'\'' ∷ b'\\' ∷ b'\'' ∷ b'\'' ∷ quoted word else c ∷ quoted word

-- Each word, quoted, after a space.
abbrev pub quoted_line : List Text → Text
quoted_line [] = []
quoted_line (word ∷ words) = b' ' ∷ b'\'' ∷ quoted word ++ quoted_line words

abbrev inside : List Text → Text → Tokens
inside tokens cur = record {
  tokens = tokens;
  cur = cur;
  has_token = true;
  in_single = true;
  in_double = false;
}

abbrev after_word : List Text → Text → Tokens
after_word tokens cur = record {
  tokens = tokens;
  cur = cur;
  has_token = true;
  in_single = false;
  in_double = false;
}

abbrev between : List Text → Tokens
between tokens = record {
  tokens = tokens;
  cur = [];
  has_token = false;
  in_single = false;
  in_double = false;
}

tokenize_from-step :
    (t : Tokens) (c : ℕ) (chars : Text)
    → (c == b'\\' && not t.in_single) ≡ false
    → tokenize_from t (c ∷ chars) ≡ tokenize_from (token_char t c) chars
unfolding tokenize_from
tokenize_from-step t c [] h = rw h refl
tokenize_from-step t c (d ∷ chars) h = ground (arith, h)

escaped_quote :
    (tokens : List Text) (cur chars : Text)
    → tokenize_from (inside tokens cur) (b'\'' ∷ b'\\' ∷ b'\'' ∷ b'\'' ∷ chars)
      ≡ tokenize_from (inside tokens (cur ++ (b'\'' ∷ []))) chars
unfolding tokenize_from token_char
escaped_quote tokens cur chars =
    tokenize_from-step (after_word tokens (cur ++ (b'\'' ∷ []))) b'\'' chars refl

never : (x y z : Tokens) (a b : Bool) → (if a && false then x else if b && false then y else z) ≡ z
never x y z true true = refl
never x y z true false = refl
never x y z false true = refl
never x y z false false = refl

plain_character :
    (tokens : List Text) (cur : Text) (c : ℕ) (chars : Text)
    → (c == b'\'') ≡ false
    → tokenize_from (inside tokens cur) (c ∷ chars)
      ≡ tokenize_from (inside tokens (cur ++ (c ∷ []))) chars
unfolding token_char
plain_character tokens cur c chars h =
    tokenize_from-step (inside tokens cur) c chars (ground arith)
    ∙ rw h (ap (λ t. tokenize_from t chars) (never _ _ _ (c == b'"') (is_whitespace c)))

quoted-read :
    (word : Text) (tokens : List Text) (cur chars : Text)
    → tokenize_from (inside tokens cur) (quoted word ++ chars)
      ≡ tokenize_from (after_word tokens (cur ++ word)) chars
unfolding token_char
quoted-read [] tokens cur chars =
    tokenize_from-step (inside tokens cur) b'\'' chars refl
    ∙ ap (λ t. tokenize_from (after_word tokens t) chars) (sym (append-nil cur))
quoted-read (c ∷ word) tokens cur chars =
    let rest = quoted-read word tokens (cur ++ (c ∷ [])) chars in
    let both =
      ap (λ t. tokenize_from (after_word tokens t) chars) (append_assoc cur (c ∷ []) word) in
    elim (Bool-cases (c == b'\'')) [
      | inl quote ↦
          let same : c ≡ b'\'' = ground (arith, quote) in
          rw quote (
            escaped_quote tokens cur (quoted word ++ chars)
            ∙ ap (λ b. tokenize_from (inside tokens (cur ++ (b ∷ []))) (quoted word ++ chars))
                (sym same)
            ∙ rest
            ∙ both)
      | inr plain ↦
          rw plain (plain_character tokens cur c (quoted word ++ chars) plain ∙ rest ∙ both)
    ]

-- A space and a quoted word, after a word and at the start.
word-read :
    (tokens : List Text) (word chars : Text)
    → tokenize_from (between tokens) (b'\'' ∷ quoted word ++ chars)
      ≡ tokenize_from (after_word tokens word) chars
unfolding token_char
word-read tokens word chars =
    tokenize_from-step (between tokens) b'\'' (quoted word ++ chars) refl
    ∙ quoted-read word tokens [] chars

words-read :
    (words tokens : List Text) (word : Text)
    → (flush (tokenize_from (after_word tokens word) (quoted_line words))).tokens
      ≡ tokens ++ (word ∷ words)
unfolding tokenize_from token_char
words-read [] tokens word = refl
words-read (next ∷ words) tokens word =
    ap (λ t. (flush t).tokens)
      (tokenize_from-step (after_word tokens word) b' ' (b'\'' ∷ quoted next ++ quoted_line words)
          refl
        ∙ word-read (tokens ++ (word ∷ [])) next (quoted_line words))
    ∙ words-read words (tokens ++ (word ∷ [])) next
    ∙ append_assoc tokens (word ∷ []) (next ∷ words)

-- Any words, each between single quotes with every single quote in it written `'\''`, and each after a
-- space, are read back by `tokenize` as they are, the empty ones too.
pub tokenize-quoted_line : (words : List Text) → tokenize (quoted_line words) ≡ words
unfolding tokenize tokenize_from token_char
tokenize-quoted_line [] = refl
tokenize-quoted_line (word ∷ words) =
    ap (λ t. (flush t).tokens)
      (tokenize_from-step (between []) b' ' (b'\'' ∷ quoted word ++ quoted_line words) refl
        ∙ word-read [] word (quoted_line words))
    ∙ words-read words [] word
