-- ===== src/Scp.antt =====
-- The SCP sink, src/network/scp.rs: parsing of control lines and names here, the state machine in
-- Scp/Sink. A `String` is its bytes.
pub mod Sink
pub mod Names
pub mod Lines
pub mod Capture
pub mod Sound
pub mod Command
mod Tests
use mimic_ssh_honeypot.Prelude.{
  ℕ, zero, suc, ◌+◌, ◌-◌, ◌*◌, ◌^◌, Bool, true, false, Option, none, some, List, [], ◌∷◌, ◌++◌, ltb,
  leb, ◌==◌, if◌then◌else◌, ◌&&◌, ◌||◌, is_empty, codes, Text, text_eq,
}
use mimic_ssh_honeypot.Prelude.Utf8.{trim, between}

-- `splitn` at its first space, if there is one.
unfoldable pub split_space : Text → Option (Text × Text)
split_space [] = none
split_space (b ∷ s) =
    let rest = split_space s in
    if b == 32 then some ([], s) else elim rest [ none ↦ none | some (x, y) ↦ some (b ∷ x, y) ]

-- `get(1..)`: none past the end, and inside a character.
unfoldable pub after_first : Text → Option Text
after_first [] = none
after_first (a ∷ []) = some []
after_first (a ∷ b ∷ s) = if between 0x80 0xbf b then none else some (b ∷ s)

-- The digits of `from_str_radix`, with the value so far.
unfoldable pub radix_digits : (radix bound : ℕ) → ℕ → Text → Option ℕ
radix_digits radix bound value [] = some value
radix_digits radix bound value (b ∷ s) =
    let next = value * radix + (b - 48) in
    let rest = radix_digits radix bound next s in
    if leb 48 b && ltb b (48 + radix) && ltb next bound then rest else none

-- `from_str_radix` on an unsigned type below `bound`, for a radix up to 10: one `+` may lead.
unfoldable pub from_str_radix : (radix bound : ℕ) → Text → Option ℕ
unfolding radix_digits
from_str_radix radix bound [] = none
from_str_radix radix bound (b ∷ s) =
    if b == 43
    then (if is_empty s then none else radix_digits radix bound 0 s)
    else radix_digits radix bound 0 (b ∷ s)

-- `char::is_control` on a character of one byte.
abbrev pub is_control : ℕ → Bool
is_control b = ltb b 0x20 || b == 0x7f

-- `filter(|c| !c.is_control())`; U+0080 to U+009F are two bytes.
unfoldable pub drop_controls : Text → Text
drop_controls [] = []
drop_controls (a ∷ []) = if is_control a then [] else a ∷ []
drop_controls (a ∷ b ∷ s) =
    let rest = drop_controls (b ∷ s) in
    let past = drop_controls s in
    if is_control a then rest else if a == 0xc2 && between 0x80 0x9f b then past else a ∷ rest

-- `replace(['/', '\\'], "_")`
unfoldable pub flatten_separators : Text → Text
flatten_separators [] = []
flatten_separators (b ∷ s) =
    let rest = flatten_separators s in if b == 47 || b == 92 then 95 ∷ rest else b ∷ rest

-- `replace("..", "_")`
unfoldable pub collapse_dots : Text → Text
collapse_dots [] = []
collapse_dots (a ∷ []) = a ∷ []
collapse_dots (a ∷ b ∷ s) =
    let rest = collapse_dots (b ∷ s) in
    let past = collapse_dots s in if a == 46 && b == 46 then 95 ∷ past else a ∷ rest

unfoldable pub sanitised : Text → Text
sanitised raw_name =
    let name = collapse_dots (flatten_separators (drop_controls raw_name)) in
    if is_empty name then codes "unnamed" else name

abbrev pub CdLine : Type 0
CdLine = ℕ × ℕ × Text

-- The fields of a control line, read.
unfoldable pub read_fields : (mode_field size_field raw_name : Text) → Option CdLine
unfolding sanitised
read_fields mode_field size_field raw_name = elim (after_first mode_field) [
  | none ↦ none
  | some digits ↦ elim (from_str_radix 8 (2 ^ 32) digits) [
    | none ↦ none
    | some mode ↦ elim (from_str_radix 10 (2 ^ 64) size_field) [
      | none ↦ none
      | some size ↦ some (mode, size, sanitised (trim raw_name))
    ]
  ]
]

unfoldable pub parse_cd : Text → Option CdLine
unfolding split_space read_fields
parse_cd line = elim (split_space line) [
  | none ↦ none
  | some (mode_field, rest) ↦ elim (split_space rest) [
    | none ↦ none
    | some (size_field, raw_name) ↦ read_fields mode_field size_field raw_name
  ]
]
