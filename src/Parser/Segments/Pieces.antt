-- ===== src/Parser/Segments/Pieces.antt =====
-- Lines made of plain bytes, escaped bytes, variables and quoted texts, and what of them stands before a
-- comment: the reading that `strip_comment` of src/shell/parser.rs is compared with.
use mimic_ssh_honeypot.Prelude.{
  ℕ, Bool, true, false, not, ◌&&◌, ◌||◌, List, [], ◌∷◌, ◌++◌, all, Text, if◌then◌else◌, ◌==◌,
  is_ascii_whitespace,
}

pub data Piece : Type 0 where
  plain escape variable : ℕ → Piece
  single_quoted double_quoted : Text → Piece

-- The bytes of a piece: itself, after a backslash, after a `$`, or between quotes.
abbrev pub written : Piece → Text
written (plain c) = c ∷ []
written (escape c) = b'\\' ∷ c ∷ []
written (variable c) = b'$' ∷ c ∷ []
written (single_quoted t) = b'\'' ∷ t ++ (b'\'' ∷ [])
written (double_quoted t) = b'"' ∷ t ++ (b'"' ∷ [])

abbrev pub print : List Piece → Text
print [] = []
print (p ∷ pieces) = written p ++ print pieces

-- Not a backslash, a quote, a backquote or a `$`.
abbrev pub is_plain_byte : ℕ → Bool
is_plain_byte c = not (c == b'\\' || c == b'\'' || c == b'"' || c == b'`' || c == b'$')

-- A text between double quotes: each quote, backquote and `$` of it has a backslash before it. The flag
-- says whether a backslash stands before the text.
abbrev pub is_double_text : Bool → Text → Bool
is_double_text after [] = not after
is_double_text true (c ∷ t) = is_double_text false t
is_double_text false (c ∷ t) =
    let escaping = is_double_text true t in
    let going = is_double_text false t in
    if c == b'\\' then escaping else not (c == b'"' || c == b'`' || c == b'$') && going

abbrev pub is_piece : Piece → Bool
is_piece (plain c) = is_plain_byte c
is_piece (escape c) = true
is_piece (variable c) = is_plain_byte c && not (c == b'(')
is_piece (single_quoted t) = all (λ c. not (c == b'\'')) t
is_piece (double_quoted t) = is_double_text false t

-- A byte that ends a word.
abbrev breaks_word : ℕ → Bool
breaks_word c = c == b';' || c == b'&' || c == b'|' || is_ascii_whitespace c

-- Whether a word starts after a piece.
abbrev pub starts_after : Piece → Bool
starts_after (plain c) = breaks_word c
starts_after (variable c) = breaks_word c
starts_after p = false

-- Whether the piece is a `#` at the start of a word.
abbrev pub opens_comment : Bool → Piece → Bool
opens_comment word_start (plain c) = word_start && c == b'#'
opens_comment word_start p = false

-- The pieces before the first plain `#` at the start of a word; the flag says whether a word starts
-- with the first piece.
abbrev pub before_comment : Bool → List Piece → List Piece
before_comment word_start [] = []
before_comment word_start (p ∷ pieces) =
    let kept = before_comment (starts_after p) pieces in
    if opens_comment word_start p then [] else p ∷ kept
