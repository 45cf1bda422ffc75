-- ===== src/Line/Bounds/Slices.antt =====
-- The byte helpers of src/shell/line.rs stay within the line that they are given.
use mimic_ssh_honeypot.Prelude.{
  ℕ, zero, suc, ◌+◌, ◌≤◌, ◌<◌, ◌≡◌, Bool, List, [], ◌∷◌, length, drop, arith, refl, Bool-cases, inl,
  inr, get_elem?-lt, length-drop,
}
use mimic_ssh_honeypot.Prelude.Outcome.{done}
use mimic_ssh_honeypot.Line.{LineEditor}
use mimic_ssh_honeypot.Line.Slices.{
  back_while, char_start, prev_char, char_end, next_char, is_continuation,
}
use mimic_ssh_honeypot.Line.Screen.{redraw, line_drawn}

pub back_while-le :
    (skip : ℕ → Bool) (buf : List ℕ) (i : ℕ)
    → i ≤ length buf
    → (j : ℕ) × (back_while skip buf i ≡ done j) × (j ≤ i)
unfolding back_while
back_while-le skip buf zero h = (zero, refl, omega arith)
back_while-le skip buf (suc i) h =
    let (b, e) = get_elem?-lt buf i (omega arith) in
    let (j, ej, le) = back_while-le skip buf i (omega arith) in
    elim (Bool-cases (skip b)) [
      | inl yes' ↦ (j, ground (arith, e, yes', ej), omega (arith, le))
      | inr no' ↦ (suc i, ground (arith, e, no'), omega arith)
    ]

pub char_start-le :
    (buf : List ℕ) (i : ℕ) → i < length buf → (j : ℕ) × (char_start buf i ≡ done j) × (j ≤ i)
unfolding char_start
char_start-le buf zero h = (zero, refl, omega arith)
char_start-le buf (suc i) h =
    let (b, e) = get_elem?-lt buf (suc i) (omega arith) in
    let (j, ej, le) = char_start-le buf i (omega arith) in
    elim (Bool-cases (is_continuation b)) [
      | inl yes' ↦ (j, ground (arith, e, yes', ej), omega (arith, le))
      | inr no' ↦ (suc i, ground (arith, e, no'), omega arith)
    ]

pub prev_char-lt :
    (buf : List ℕ) (i : ℕ) → 0 < i → i ≤ length buf → (j : ℕ) × (prev_char buf i ≡ done j) × (j < i)
unfolding prev_char
prev_char-lt buf zero p h = absurd (omega arith)
prev_char-lt buf (suc i) p h =
    let (j, ej, le) = char_start-le buf i (omega arith) in
    (j, ground (arith, ej), omega (arith, le))

char_end-between :
    (rest : List ℕ) (end : ℕ) → (end ≤ char_end rest end) × (char_end rest end ≤ end + length rest)
unfolding char_end
char_end-between [] end = (omega arith, omega arith)
char_end-between (b ∷ rest) end =
    let ih = char_end-between rest (end + 1) in
    elim (Bool-cases (is_continuation b)) [
      | inl yes' ↦ ground (arith, yes', ih.0, ih.1)
      | inr no' ↦ ground (arith, no')
    ]

pub next_char-between :
    (buf : List ℕ) (i : ℕ) → i < length buf → (i < next_char buf i) × (next_char buf i ≤ length buf)
unfolding next_char
next_char-between buf i h =
    let (low, high) = char_end-between (drop (i + 1) buf) (i + 1) in
    (omega (arith, low), omega (arith, high, length-drop (i + 1) buf))

pub redraw_done :
    (e : LineEditor) → e.cursor ≤ length e.buf → (out : List ℕ) × (redraw e ≡ done out)
unfolding redraw
redraw_done e h = (line_drawn e (drop e.cursor e.buf), ground (arith, h))
