-- ===== src/Line/Edit.antt =====
-- The keys of src/shell/line.rs that edit the line or move the cursor.
use mimic_ssh_honeypot.Prelude.{
  ℕ, ◌+◌, ◌==◌, none, List, [], ◌∷◌, ◌++◌, length, take, drop, leb, ltb, if◌then◌else◌, ◌||◌,
  is_empty, codes, is_ascii_whitespace,
}
use mimic_ssh_honeypot.Prelude.Outcome.{Outcome, done, panic, ◌>>=◌}
use mimic_ssh_honeypot.Line.{LineEditor, Reaction, ignore, eof, write}
use mimic_ssh_honeypot.Line.Slices.{tail_from, drain, back_while, prev_char, next_char}
use mimic_ssh_honeypot.Line.Screen.{redraw, redrawn, in_word}

-- `Vec::insert`
abbrev pub insert_at : List ℕ → ℕ → ℕ → Outcome (List ℕ)
insert_at buf i b = if leb i (length buf) then done (take i buf ++ (b ∷ drop i buf)) else panic

unfoldable pub insert : LineEditor → ℕ → Outcome (LineEditor × Reaction)
unfolding redraw
insert e byte = if leb e.max_line (length e.buf) then done (e, ignore) else do
  buf ← insert_at e.buf e.cursor byte
  let e' = record e { buf = buf; cursor = e.cursor + 1; hist_pos = none }
  if e.cursor + 1 == length buf then done (e', write (byte ∷ [])) else redrawn e'

unfoldable pub backspace : LineEditor → Outcome (LineEditor × Reaction)
unfolding redraw
backspace e = if e.cursor == 0 then done (e, ignore) else do
  start ← prev_char e.buf e.cursor
  (removed, buf) ← drain e.buf start e.cursor
  redrawn (record e { buf = buf; cursor = start })

unfoldable pub delete_forward : LineEditor → Outcome (LineEditor × Reaction)
unfolding redraw
delete_forward e = if leb (length e.buf) e.cursor then done (e, ignore) else do
  (removed, buf) ← drain e.buf e.cursor (next_char e.buf e.cursor)
  redrawn (record e { buf = buf })

unfoldable pub move_home : LineEditor → Outcome (LineEditor × Reaction)
unfolding redraw
move_home e = redrawn (record e { cursor = 0 })

unfoldable pub move_end : LineEditor → Outcome (LineEditor × Reaction)
unfolding redraw
move_end e = redrawn (record e { cursor = length e.buf })

unfoldable pub move_left : LineEditor → Outcome (LineEditor × Reaction)
move_left e = if e.cursor == 0 then done (e, ignore) else do
  start ← prev_char e.buf e.cursor
  done (record e { cursor = start }, write (27 ∷ codes "[D"))

unfoldable pub move_right : LineEditor → Outcome (LineEditor × Reaction)
move_right e =
    if leb (length e.buf) e.cursor
    then done (e, ignore)
    else done (record e { cursor = next_char e.buf e.cursor }, write (27 ∷ codes "[C"))

unfoldable pub kill_to_start : LineEditor → Outcome (LineEditor × Reaction)
unfolding redraw
kill_to_start e = if e.cursor == 0 then done (e, ignore) else do
  (kill, buf) ← drain e.buf 0 e.cursor
  redrawn (record e { kill = kill; buf = buf; cursor = 0 })

unfoldable pub kill_to_end : LineEditor → Outcome (LineEditor × Reaction)
unfolding redraw
kill_to_end e = if leb (length e.buf) e.cursor then done (e, ignore) else do
  kill ← tail_from e.buf e.cursor
  redrawn (record e { kill = kill; buf = take e.cursor e.buf })

unfoldable pub kill_word : LineEditor → Outcome (LineEditor × Reaction)
unfolding redraw
kill_word e = if e.cursor == 0 then done (e, ignore) else do
  gap ← back_while is_ascii_whitespace e.buf e.cursor
  start ← back_while in_word e.buf gap
  (kill, buf) ← drain e.buf start e.cursor
  redrawn (record e { kill = kill; buf = buf; cursor = start })

-- `buf.splice(i..i, inserted)`
abbrev pub splice_at : List ℕ → ℕ → List ℕ → Outcome (List ℕ)
splice_at buf i inserted =
    if leb i (length buf) then done (take i buf ++ (inserted ++ drop i buf)) else panic

unfoldable pub yank : LineEditor → Outcome (LineEditor × Reaction)
unfolding redraw
yank e =
    if is_empty e.kill || ltb e.max_line (length e.buf + length e.kill)
    then done (e, ignore)
    else do
      buf ← splice_at e.buf e.cursor e.kill
      redrawn (record e { buf = buf; cursor = e.cursor + length e.kill; hist_pos = none })

unfoldable pub clear_screen : LineEditor → Outcome (LineEditor × Reaction)
unfolding redraw
clear_screen e = do out ← redraw e; done (e, write (27 ∷ 91 ∷ 72 ∷ 27 ∷ (codes "[2J" ++ out)))

unfoldable pub interrupt : LineEditor → Outcome (LineEditor × Reaction)
unfolding redraw
interrupt e = do
  let e' = record e { buf = []; cursor = 0; hist_pos = none; stash = [] }
  out ← redraw e'
  done (e', write (codes "^C" ++ (13 ∷ 10 ∷ out)))

unfoldable pub ctrl_d : LineEditor → Outcome (LineEditor × Reaction)
unfolding delete_forward
ctrl_d e = if is_empty e.buf then done (e, eof) else delete_forward e
