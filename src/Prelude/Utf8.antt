-- ===== src/Prelude/Utf8.antt =====
-- What the code takes from Rust's `str`, on the bytes of a text: `String::from_utf8_lossy`, `trim`
-- and the decimal form of a `usize`.
use Prim.Native.Nat.{ℕ, zero, suc, ◌+◌, ◌/◌, ◌%◌}
use mathlib.Core.Bool.{Bool, true, false, ◌&&◌, ◌||◌}
use mathlib.Core.Option.{Option, none, some}
use mathlib.Core.List.{List, [], ◌∷◌, ◌++◌}
use mimic_ssh_honeypot.Prelude.Tests.{ltb, leb, ◌==◌, if◌then◌else◌}
use mimic_ssh_honeypot.Prelude.Lists.{length}
use mimic_ssh_honeypot.Prelude.Bytes.{Text}

-- U+FFFD
abbrev pub replacement : Text
replacement = 0xef ∷ 0xbf ∷ 0xbd ∷ []

abbrev pub between : ℕ → ℕ → ℕ → Bool
between low high b = leb low b && leb b high

-- The ranges that the bytes after a first byte have to be in; `none` where no character starts so.
unfoldable pub lead : ℕ → Option (List (ℕ × ℕ))
lead b =
    if ltb b 0x80
    then some []
    else if between 0xc2 0xdf b
    then some ((0x80, 0xbf) ∷ [])
    else if b == 0xe0
    then some ((0xa0, 0xbf) ∷ (0x80, 0xbf) ∷ [])
    else if b == 0xed
    then some ((0x80, 0x9f) ∷ (0x80, 0xbf) ∷ [])
    else if between 0xe1 0xef b
    then some ((0x80, 0xbf) ∷ (0x80, 0xbf) ∷ [])
    else if b == 0xf0
    then some ((0x90, 0xbf) ∷ (0x80, 0xbf) ∷ (0x80, 0xbf) ∷ [])
    else if between 0xf1 0xf3 b
    then some ((0x80, 0xbf) ∷ (0x80, 0xbf) ∷ (0x80, 0xbf) ∷ [])
    else if b == 0xf4
    then some ((0x80, 0x8f) ∷ (0x80, 0xbf) ∷ (0x80, 0xbf) ∷ [])
    else none

-- `pending` holds the bytes of a character that still wants bytes in `wanted`; a character that
-- breaks off is replaced as one.
unfoldable pub lossy_from : Text → List (ℕ × ℕ) → Text → Text
lossy_from pending [] [] = pending
lossy_from pending (range ∷ wanted) [] = replacement
lossy_from pending [] (b ∷ bytes) = elim (lead b) [
  | none ↦ pending ++ (replacement ++ lossy_from [] [] bytes)
  | some wanted ↦ pending ++ lossy_from (b ∷ []) wanted bytes
]
lossy_from pending ((low, high) ∷ wanted) (b ∷ bytes) = elim (between low high b) [
  | true ↦ lossy_from (pending ++ (b ∷ [])) wanted bytes
  | false ↦ elim (lead b) [
    | none ↦ replacement ++ (replacement ++ lossy_from [] [] bytes)
    | some wanted' ↦ replacement ++ lossy_from (b ∷ []) wanted' bytes
  ]
]

unfoldable pub from_utf8_lossy : Text → Text
unfolding lossy_from
from_utf8_lossy bytes = lossy_from [] [] bytes

-- One byte of ASCII white space, as `char::is_whitespace` has it.
abbrev pub is_space : ℕ → Bool
is_space b = between 9 13 b || b == 32

-- The last byte of a white-space character whose first two bytes are given.
abbrev pub is_wide_space : ℕ → ℕ → ℕ → Bool
is_wide_space a b c =
    (a == 0xe1 && b == 0x9a && c == 0x80)
    || (a == 0xe2 && b == 0x80 && (between 0x80 0x8a c || c == 0xa8 || c == 0xa9 || c == 0xaf))
    || (a == 0xe2 && b == 0x81 && c == 0x9f)
    || (a == 0xe3 && b == 0x80 && c == 0x80)

abbrev pub is_pair_space : ℕ → ℕ → Bool
is_pair_space a b = a == 0xc2 && (b == 0x85 || b == 0xa0)

-- The white-space character at the start of a text, removed.
unfoldable pub strip_space : Text → Option Text
strip_space [] = none
strip_space (a ∷ []) = if is_space a then some [] else none
strip_space (a ∷ b ∷ []) =
    if is_space a then some (b ∷ []) else if is_pair_space a b then some [] else none
strip_space (a ∷ b ∷ c ∷ rest) =
    if is_space a
    then some (b ∷ c ∷ rest)
    else if is_pair_space a b
    then some (c ∷ rest)
    else if is_wide_space a b c
    then some rest
    else none

-- The same at the end of a text that is given backwards.
unfoldable pub strip_last : Text → Option Text
strip_last [] = none
strip_last (a ∷ []) = if is_space a then some [] else none
strip_last (b ∷ a ∷ []) =
    if is_space b then some (a ∷ []) else if is_pair_space a b then some [] else none
strip_last (c ∷ b ∷ a ∷ rest) =
    if is_space c
    then some (b ∷ a ∷ rest)
    else if is_pair_space b c
    then some (a ∷ rest)
    else if is_wide_space a b c
    then some rest
    else none

-- As many times as it applies; each removes a byte, so the length is fuel enough.
unfoldable pub strip_all : (Text → Option Text) → ℕ → Text → Text
strip_all strip zero s = s
strip_all strip (suc fuel) s = elim (strip s) [ none ↦ s | some rest ↦ strip_all strip fuel rest ]

unfoldable pub reverse_onto : Text → Text → Text
reverse_onto [] out = out
reverse_onto (b ∷ s) out = reverse_onto s (b ∷ out)

-- `str::trim`
unfoldable pub trim : Text → Text
unfolding strip_all reverse_onto
trim s =
    let front = strip_all strip_space (length s) s in
    reverse_onto (strip_all strip_last (length front) (reverse_onto front [])) []

-- The decimal digits of a number; a `usize` has at most 20.
unfoldable pub digits : ℕ → ℕ → Text
digits zero n = (48 + n % 10) ∷ []
digits (suc fuel) n = elim (ltb n 10) [
  | true ↦ (48 + n) ∷ []
  | false ↦ digits fuel (n / 10) ++ ((48 + n % 10) ∷ [])
]

unfoldable pub decimal : ℕ → Text
unfolding digits
decimal n = digits 20 n
