-- ===== src/Line/History.antt =====
-- Command history of src/shell/line.rs: submission and recall.
use mimic_ssh_honeypot.Prelude.{
  ℕ, zero, suc, ◌+◌, ◌-◌, Bool, none, some, List, [], ◌∷◌, ◌++◌, length, get_elem?, drop, ltb,
  if◌then◌else◌, ◌||◌, is_empty, Text, text_eq,
}
use mimic_ssh_honeypot.Prelude.Utf8.{from_utf8_lossy, trim}
use mimic_ssh_honeypot.Prelude.Outcome.{Outcome, done, ◌>>=◌, or_panic}
use mimic_ssh_honeypot.Line.{LineEditor, Reaction, ignore, submitted}
use mimic_ssh_honeypot.Line.Screen.{redraw, redrawn}

-- Whether `history.back()` is the line.
unfoldable pub is_last : Text → List Text → Bool
is_last line [] = Bool.false
is_last line (x ∷ []) = text_eq x line
is_last line (x ∷ y ∷ history) = is_last line (y ∷ history)

-- `push_back`, and `pop_front` down to the cap.
abbrev pub pushed : ℕ → List Text → Text → List Text
pushed max_history history line =
    let longer = history ++ (line ∷ []) in drop (length longer - max_history) longer

unfoldable pub push_history : LineEditor → Text → LineEditor
unfolding is_last
push_history e line =
    let line' = trim line in
    if is_empty line' || is_last line' e.history
    then e
    else record e { history = pushed e.max_history e.history line' }

unfoldable pub submit : LineEditor → Outcome (LineEditor × Reaction)
unfolding push_history
submit e =
    let line = from_utf8_lossy e.buf in
    done (
      record (push_history e line) { buf = []; cursor = 0; hist_pos = none; stash = [] },
      submitted (13 ∷ 10 ∷ []) line,
    )

-- Showing entry `i`, which also moves the cursor to its end.
unfoldable pub show_entry : LineEditor → ℕ → Outcome (LineEditor × Reaction)
unfolding redraw
show_entry e i = do
  line ← or_panic (get_elem? e.history i)
  redrawn (record e { hist_pos = some i; buf = line; cursor = length line })

unfoldable pub history_prev : LineEditor → Outcome (LineEditor × Reaction)
unfolding show_entry
history_prev e = if is_empty e.history then done (e, ignore) else elim e.hist_pos [
  | none ↦ show_entry (record e { stash = e.buf }) (length e.history - 1)
  | some zero ↦ done (e, ignore)
  | some (suc i) ↦ show_entry e i
]

unfoldable pub history_next : LineEditor → Outcome (LineEditor × Reaction)
unfolding show_entry redraw
history_next e = elim e.hist_pos [
  | none ↦ done (e, ignore)
  | some i ↦
      if ltb (i + 1) (length e.history)
      then show_entry e (i + 1)
      else redrawn
          (record e { hist_pos = none; buf = e.stash; stash = []; cursor = length e.stash })
]
