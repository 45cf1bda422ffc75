-- ===== src/Line/Input.antt =====
-- The dispatch on an input byte, of src/shell/line.rs.
use mimic_ssh_honeypot.Prelude.{
  ℕ, zero, suc, Bool, none, some, List, [], ◌∷◌, ◌++◌, length, ltb, leb, ◌==◌, if◌then◌else◌, ◌||◌,
  ◌&&◌, is_ascii_digit, text_eq,
}
use mimic_ssh_honeypot.Prelude.Outcome.{Outcome, done, exhausted, ◌>>=◌}
use mimic_ssh_honeypot.Line.{LineEditor, Reaction, ignore, complete, write, idle, got, csi}
use mimic_ssh_honeypot.Line.Screen.{redraw, redrawn}
use mimic_ssh_honeypot.Line.Edit
use mimic_ssh_honeypot.Line.Edit.{
  backspace, delete_forward, move_home, move_end, move_left, move_right, kill_to_start, kill_to_end,
  kill_word, yank, clear_screen, interrupt, ctrl_d,
}
use mimic_ssh_honeypot.Line.History.{submit, history_prev, history_next}
use mimic_ssh_honeypot.Line.ReverseSearch.{
  start_search, accept_search, edit_search, step_search, push_query, pop_last,
}

-- `0x20..=0x7e | 0x80..=0xff`
abbrev pub is_text : ℕ → Bool
is_text b = (leb 0x20 b && leb b 0x7e) || (leb 0x80 b && leb b 0xff)

-- The last `match` of `input`: past the escape sequences and the search.
unfoldable pub input_key : LineEditor → ℕ → Outcome (LineEditor × Reaction)
input_key e byte =
    if byte == 13 || byte == 10
    then submit e
    else if byte == 0x1b
    then done (record e { esc = got }, ignore)
    else if byte == 0x09
    then done (e, complete)
    else if byte == 0x08 || byte == 0x7f
    then backspace e
    else if byte == 0x01
    then move_home e
    else if byte == 0x05
    then move_end e
    else if byte == 0x02
    then move_left e
    else if byte == 0x06
    then move_right e
    else if byte == 0x10
    then history_prev e
    else if byte == 0x0e
    then history_next e
    else if byte == 0x15
    then kill_to_start e
    else if byte == 0x0b
    then kill_to_end e
    else if byte == 0x17
    then kill_word e
    else if byte == 0x19
    then yank e
    else if byte == 0x0c
    then clear_screen e
    else if byte == 0x12
    then start_search e
    else if byte == 0x03
    then interrupt e
    else if byte == 0x04
    then ctrl_d e
    else if is_text byte
    then Edit.insert e byte
    else done (e, ignore)

unfoldable pub input_after_esc : LineEditor → ℕ → Outcome (LineEditor × Reaction)
input_after_esc e byte =
    if byte == 91 || byte == 79
    then done (record e { esc = csi; csi_params = [] }, ignore)
    else done (record e { esc = idle }, ignore)

-- The final byte `~`, by its parameters.
unfoldable pub input_tilde : LineEditor → List ℕ → Outcome (LineEditor × Reaction)
input_tilde e params =
    if text_eq params (49 ∷ []) || text_eq params (55 ∷ [])
    then move_home e
    else if text_eq params (52 ∷ []) || text_eq params (56 ∷ [])
    then move_end e
    else if text_eq params (51 ∷ [])
    then delete_forward e
    else done (e, ignore)

unfoldable pub final_csi : LineEditor → List ℕ → ℕ → Outcome (LineEditor × Reaction)
unfolding input_tilde
final_csi e params byte =
    if byte == 65
    then history_prev e
    else if byte == 66
    then history_next e
    else if byte == 67
    then move_right e
    else if byte == 68
    then move_left e
    else if byte == 72
    then move_home e
    else if byte == 70
    then move_end e
    else if byte == 126
    then input_tilde e params
    else done (e, ignore)

unfoldable pub input_csi : LineEditor → ℕ → Outcome (LineEditor × Reaction)
unfolding final_csi
input_csi e byte =
    if is_ascii_digit byte || byte == 59
    then done (
      (if ltb (length e.csi_params) 8
          then record e { csi_params = e.csi_params ++ (byte ∷ []) }
          else e),
      ignore,
    )
    else final_csi (record e { esc = idle; csi_params = [] }) e.csi_params byte

-- What a key that ends the search writes: the redrawn line, then the key's own output.
abbrev pub after_redraw : List ℕ → Reaction → Reaction
after_redraw out (write more) = write (out ++ more)
after_redraw out ignore = write out
after_redraw out other = other

-- `input_search`, where `again` is `input`.
unfoldable pub input_search :
    (LineEditor → ℕ → Outcome (LineEditor × Reaction))
    → LineEditor
    → ℕ
    → Outcome (LineEditor × Reaction)
unfolding redraw
input_search again e byte =
    if byte == 13 || byte == 10
    then (do e' ← accept_search e; submit e')
    else if byte == 0x12
    then step_search e
    else if byte == 0x07 || byte == 0x03 || byte == 0x1b
    then redrawn (record e { search = none })
    else if byte == 0x08 || byte == 0x7f
    then edit_search pop_last e
    else if is_text byte
    then edit_search (push_query e.max_line byte) e
    else do
      e' ← accept_search e
      out ← redraw e'
      (e'', reaction) ← again e' byte
      done (e'', after_redraw out reaction)

-- `input`, which calls itself once where a key ends the search; `fuel` counts the calls.
unfoldable pub input_calls : ℕ → LineEditor → ℕ → Outcome (LineEditor × Reaction)
unfolding input_search input_csi input_after_esc input_key
input_calls zero e byte = exhausted
input_calls (suc fuel) e byte = elim e.esc [
  | got ↦ input_after_esc e byte
  | csi ↦ input_csi e byte
  | idle ↦ elim e.search [
    | none ↦ input_key e byte
    | some s ↦ input_search (input_calls fuel) e byte
  ]
]

-- Two calls are enough: the first one leaves the search.
unfoldable pub input : LineEditor → ℕ → Outcome (LineEditor × Reaction)
unfolding input_calls
input e byte = input_calls 2 e byte

-- Bytes typed one after another; the reactions in order.
unfoldable pub feed : LineEditor → List ℕ → Outcome (LineEditor × List Reaction)
unfolding input
feed e [] = done (e, [])
feed e (byte ∷ bytes) = do
  (e', reaction) ← input e byte
  (e'', reactions) ← feed e' bytes
  done (e'', reaction ∷ reactions)
