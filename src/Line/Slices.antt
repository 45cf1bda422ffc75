-- ===== src/Line/Slices.antt =====
-- The byte helpers of src/shell/line.rs: slices and drains that panic out of range, character
-- boundaries, substring search.
use Prim.Native.Nat.{bit_and}
use mimic_ssh_honeypot.Prelude.{
  ℕ, zero, suc, ◌+◌, ◌-◌, Bool, true, false, ◌&&◌, ◌||◌, List, [], ◌∷◌, ◌++◌, length, get_elem?,
  take, drop, ltb, leb, ◌==◌, if◌then◌else◌, is_empty, Text,
}
use mimic_ssh_honeypot.Prelude.Outcome.{Outcome, done, panic, ◌>>=◌, or_panic, checked_sub}

-- `buf[i..]` and `buf.split_off(i)`
abbrev pub tail_from : List ℕ → ℕ → Outcome (List ℕ)
tail_from buf i = if leb i (length buf) then done (drop i buf) else panic

-- `buf.drain(a..b)`: what it removes, and what it leaves.
abbrev pub drain : List ℕ → ℕ → ℕ → Outcome (List ℕ × List ℕ)
drain buf a b =
    if leb a b && leb b (length buf)
    then done (take (b - a) (drop a buf), take a buf ++ drop b buf)
    else panic

unfoldable pub is_continuation : ℕ → Bool
is_continuation b = bit_and b 0xc0 == 0x80

-- `while start > 0 && skip(buf[start - 1]) { start -= 1 }`
unfoldable pub back_while : (ℕ → Bool) → List ℕ → ℕ → Outcome ℕ
back_while skip buf zero = done zero
back_while skip buf (suc i) = do
  b ← or_panic (get_elem? buf i)
  elim (skip b) [ true ↦ back_while skip buf i | false ↦ done (suc i) ]

-- `while start > 0 && is_continuation(buf[start]) { start -= 1 }`
unfoldable pub char_start : List ℕ → ℕ → Outcome ℕ
char_start buf zero = done zero
char_start buf (suc i) = do
  b ← or_panic (get_elem? buf (suc i))
  elim (is_continuation b) [ true ↦ char_start buf i | false ↦ done (suc i) ]

unfoldable pub prev_char : List ℕ → ℕ → Outcome ℕ
unfolding char_start
prev_char buf i = do start ← checked_sub i 1; char_start buf start

-- The loop of `next_char`, on the bytes from `end` on.
unfoldable pub char_end : List ℕ → ℕ → ℕ
char_end [] end = end
char_end (b ∷ rest) end = elim (is_continuation b) [ true ↦ char_end rest (end + 1) | false ↦ end ]

unfoldable pub next_char : List ℕ → ℕ → ℕ
unfolding char_end
next_char buf i = char_end (drop (i + 1) buf) (i + 1)

unfoldable pub is_prefix : List ℕ → List ℕ → Bool
is_prefix [] s = true
is_prefix (a ∷ as') [] = false
is_prefix (a ∷ as') (b ∷ s) = a == b && is_prefix as' s

-- `haystack.windows(needle.len()).any(|w| w == needle)`
unfoldable pub any_window : List ℕ → List ℕ → Bool
unfolding is_prefix
any_window needle [] = false
any_window needle (b ∷ haystack) = is_prefix needle (b ∷ haystack) || any_window needle haystack

unfoldable pub contains : List ℕ → List ℕ → Bool
unfolding any_window
contains haystack needle =
    if is_empty needle || ltb (length haystack) (length needle)
    then is_empty needle
    else any_window needle haystack

unfoldable pub crlf : Text → List ℕ
crlf [] = []
crlf (b ∷ text) = let rest = crlf text in if b == 10 then 13 ∷ 10 ∷ rest else b ∷ rest

-- `ends_with('\n')`
unfoldable pub ends_with_newline : Text → Bool
ends_with_newline [] = false
ends_with_newline (b ∷ []) = b == 10
ends_with_newline (b ∷ c ∷ text) = ends_with_newline (c ∷ text)

-- The characters of a text, each counted at its first byte.
unfoldable pub count_chars : List ℕ → ℕ
count_chars [] = 0
count_chars (b ∷ text) = let rest = count_chars text in if is_continuation b then rest else rest + 1
