-- ===== src/Arith/Int64.antt =====
-- `i64`: what src/shell/arith.rs takes of it, on bit patterns.
use mimic_ssh_honeypot.Prelude.{
  ℕ, ◌+◌, ◌-◌, ◌*◌, ◌/◌, ◌%◌, Bool, true, false, not, ◌&&◌, ◌||◌, Option, none, some, [], ◌∷◌, ltb,
  leb, ◌==◌, if◌then◌else◌, Text,
}

-- 2^64
abbrev pub modulus : ℕ
modulus = 0x10000000000000000

-- 2^63: the pattern of `i64::MIN`, and the number of patterns of each sign.
abbrev pub half : ℕ
half = 0x8000000000000000

unfoldable pub wrapping_add : ℕ → ℕ → ℕ
wrapping_add a b = (a + b) % modulus

unfoldable pub wrapping_sub : ℕ → ℕ → ℕ
wrapping_sub a b = (a + (modulus - b)) % modulus

unfoldable pub wrapping_mul : ℕ → ℕ → ℕ
wrapping_mul a b = (a * b) % modulus

unfoldable pub wrapping_neg : ℕ → ℕ
wrapping_neg a = (modulus - a) % modulus

abbrev pub is_negative : ℕ → Bool
is_negative a = leb half a

abbrev pub magnitude : ℕ → ℕ
magnitude a = if is_negative a then modulus - a else a

-- The pattern of a magnitude with a sign.
abbrev pub signed : Bool → ℕ → ℕ
signed true m = (modulus - m) % modulus
signed false m = m

abbrev differ : Bool → Bool → Bool
differ a b = if a then not b else b

-- `checked_div` and `checked_rem` fail on 0, and on `i64::MIN` by -1.
abbrev pub divides : ℕ → ℕ → Bool
divides a b = not (b == 0 || (a == half && b == modulus - 1))

unfoldable pub checked_div : ℕ → ℕ → Option ℕ
checked_div a b =
    if divides a b
    then some (signed (differ (is_negative a) (is_negative b)) (magnitude a / magnitude b))
    else none

unfoldable pub checked_rem : ℕ → ℕ → Option ℕ
checked_rem a b =
    if divides a b then some (signed (is_negative a) (magnitude a % magnitude b)) else none

-- `<` and `<=` of `i64`: the patterns with the sign bit flipped are in order.
abbrev flipped : ℕ → ℕ
flipped a = (a + half) % modulus

unfoldable pub signed_lt : ℕ → ℕ → Bool
signed_lt a b = ltb (flipped a) (flipped b)

unfoldable pub signed_le : ℕ → ℕ → Bool
signed_le a b = leb (flipped a) (flipped b)

-- `char::to_digit`; 36 is no digit.
unfoldable pub digit : ℕ → ℕ
digit c =
    if leb b'0' c && leb c b'9'
    then c - b'0'
    else if leb b'a' c && leb c b'z'
    then c - b'a' + 10
    else if leb b'A' c && leb c b'Z'
    then c - b'A' + 10
    else 36

unfoldable pub digits : ℕ → ℕ → Text → Option ℕ
unfolding digit
digits radix n [] = some n
digits radix n (c ∷ text) =
    let rest = digits radix (n * radix + digit c) text in if ltb (digit c) radix then rest else none

abbrev limited : Bool → Option ℕ → Option ℕ
limited negative none = none
limited negative (some n) =
    if leb n (if negative then half else half - 1) then some (signed negative n) else none

abbrev signless : ℕ → Bool → Text → Option ℕ
signless radix negative [] = none
signless radix negative (c ∷ text) = limited negative (digits radix 0 (c ∷ text))

-- `i64::from_str_radix`, and `parse` at radix 10.
unfoldable pub i64_from_str_radix : ℕ → Text → Option ℕ
unfolding digits
i64_from_str_radix radix [] = none
i64_from_str_radix radix (c ∷ text) =
    if c == b'-'
    then signless radix true text
    else if c == b'+'
    then signless radix false text
    else signless radix false (c ∷ text)
