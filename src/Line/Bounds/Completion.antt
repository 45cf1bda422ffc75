-- ===== src/Line/Bounds/Completion.antt =====
-- Completion in src/shell/line.rs: the bounds on the line after `apply_completion`.
use mimic_ssh_honeypot.Prelude.{
  ℕ, zero, suc, ◌+◌, ◌-◌, ◌≤◌, ◌<◌, ◌≡◌, Bool, List, [], ◌∷◌, ◌++◌, length, take, drop, arith, refl,
  Bool-cases, inl, inr, length-append, ltb, if◌then◌else◌, Text,
}
use mimic_ssh_honeypot.Prelude.Outcome.{done}
use mimic_ssh_honeypot.Line.{LineEditor}
use mimic_ssh_honeypot.Line.Slices.{char_start}
use mimic_ssh_honeypot.Line.Screen.{word_start, cut_tail, apply_completion, in_word}
use mimic_ssh_honeypot.Line.Bounds.{InBounds}
use mimic_ssh_honeypot.Line.Bounds.Slices.{back_while-le, char_start-le, redraw_done}

cut_tail-done :
    (tail : List ℕ) (max_line taken : ℕ)
    → (kept : List ℕ) × (cut_tail tail (max_line - taken) (ltb max_line (taken + length tail))
        ≡ done kept)
unfolding cut_tail char_start
cut_tail-done tail max_line taken = elim (Bool-cases (ltb max_line (taken + length tail))) [
  | inl over ↦
      let (keep, ek) = room (max_line - taken) (ground (arith, over)) in
      (take keep tail, rw (over, ek))
  | inr fits ↦ (tail, rw fits)
]
  where
    room : (n : ℕ) → (0 < n → n < length tail) → (keep : ℕ) × (char_start tail n ≡ done keep)
    room zero lt = (zero, refl)
    room (suc n) lt =
        let (keep, ek, le) = char_start-le tail (suc n) (lt (omega arith)) in (keep, ek)

module _ (max_line max_history : ℕ) (e : LineEditor) (h : InBounds max_line max_history e) where
  -- Completing the word at the cursor of an editor within its bounds returns for every replacement,
  -- and leaves the editor within the bounds: in particular the cursor is in the line.
  pub apply_completion-InBounds :
      (replacement : Text) (add_space : Bool)
      → (e' : LineEditor) × (out : List ℕ) × (apply_completion e replacement add_space
          ≡ done (e', out))
        × InBounds max_line max_history e'
  unfolding apply_completion word_start
  apply_completion-InBounds replacement add_space =
      let (start, es, le) = back_while-le in_word e.buf e.cursor h.cursor_in in
      let buf =
        take start (take e.cursor e.buf) ++ replacement ++ (if add_space then 32 ∷ [] else []) in
      let (kept, ek) = cut_tail-done (drop e.cursor e.buf) e.max_line (length buf) in
      let e' = record e { buf = buf ++ kept; cursor = length buf } in
      let inside : length buf ≤ length (buf ++ kept) = omega (arith, length-append buf kept) in
      let (out, eo) = redraw_done e' inside in
      (
        e',
        out,
        ground (arith, es, h.cursor_in, ek, eo),
        record {
          line_cap = h.line_cap;
          entries_cap = h.entries_cap;
          cursor_in = inside;
          tables = h.tables;
        },
      )
