-- ===== src/Line/Tests.antt =====
-- Runs of the line editor, and the theorems at them.
use mimic_ssh_honeypot.Prelude.{
  ℕ, ◌≡◌, true, none, some, List, [], ◌∷◌, ◌++◌, length, arith, refl, codes,
}
use mimic_ssh_honeypot.Prelude.Utf8.{
  lead, from_utf8_lossy, trim, strip_all, strip_space, strip_last, lossy_from, reverse_onto,
}
use mimic_ssh_honeypot.Prelude.Outcome.{Outcome, done, panic, exhausted}
use mimic_ssh_honeypot.Line.{LineEditor, Reaction, submitted, idle, new, set_prompt}
use mimic_ssh_honeypot.Line.Slices.{is_continuation}
use mimic_ssh_honeypot.Line.Screen.{apply_completion}
use mimic_ssh_honeypot.Line.Edit.{insert, backspace, kill_to_start, yank}
use mimic_ssh_honeypot.Line.History.{push_history, history_prev, history_next, submit}
use mimic_ssh_honeypot.Line.Input.{input, feed}
use mimic_ssh_honeypot.Line.Bounds.{InBounds, Safe}
use mimic_ssh_honeypot.Line.Bounds.Input.{input-InBounds, feed-InBounds}
use mimic_ssh_honeypot.Line.Bounds.Completion.{apply_completion-InBounds}
use mimic_ssh_honeypot.Line.Typing.{feed-typed, echoes}
use mimic_ssh_honeypot.Line.Undo.{yank-kill_to_start, history_next-history_prev, backspace-insert}

abbrev fresh : LineEditor
fresh = record {
  prompt = codes "$ ";
  buf = [];
  cursor = 0;
  kill = [];
  history = codes "ls" ∷ codes "pwd" ∷ [];
  hist_pos = none;
  stash = [];
  esc = idle;
  csi_params = [];
  search = none;
  max_line = 8;
  max_history = 2;
}

-- "cat a", with the cursor after "ca".
abbrev middle : LineEditor
middle = record fresh { buf = codes "cat a"; cursor = 2 }

-- A search for "s" that shows "ls".
abbrev hunting : LineEditor
hunting = record middle { search = some (record { query = codes "s"; matched = some 0 }) }

hunting-InBounds : InBounds 8 2 hunting
hunting-InBounds = record {
  line_cap = refl;
  entries_cap = refl;
  cursor_in = omega arith;
  tables = record {
    history_cap = omega arith;
    shown_in = λ i q. cc;
    matched_in = λ s i q r. ground (arith, q, r);
    query_cap = λ s q. ground (arith, q);
    params_cap = omega arith;
  };
}

-- Ctrl-A ends the search.
input-InBounds_example : Safe 8 2 (input hunting 1)
input-InBounds_example = input-InBounds 8 2 1 hunting hunting-InBounds

feed-InBounds_example :
    (e : LineEditor) × (reactions : List Reaction) × (feed
        (set_prompt (new 4 2) (codes "$ "))
        (18 ∷ 120 ∷ 27 ∷ 91 ∷ 65 ∷ 13 ∷ 255 ∷ [])
      ≡ done (e, reactions))
    × InBounds 4 2 e
feed-InBounds_example = feed-InBounds 4 2 (codes "$ ") (18 ∷ 120 ∷ 27 ∷ 91 ∷ 65 ∷ 13 ∷ 255 ∷ [])

apply_completion-InBounds_example :
    (e' : LineEditor) × (out : List ℕ) × (apply_completion hunting (codes "catalog") true
      ≡ done (e', out))
    × InBounds 8 2 e'
apply_completion-InBounds_example =
    apply_completion-InBounds 8 2 hunting hunting-InBounds (codes "catalog") true

yank-kill_to_start_example :
    (e1 e2 : LineEditor) × (r1 r2 : Reaction) × (kill_to_start middle ≡ done (e1, r1))
    × (yank e1 ≡ done (e2, r2))
    × (e1.buf ≡ codes "t a")
    × (e2.buf ≡ codes "cat a")
    × (e2.cursor ≡ 2)
yank-kill_to_start_example = yank-kill_to_start middle (omega arith) (omega arith) (omega arith)

history_next-history_prev_example :
    (e1 e2 : LineEditor) × (r1 r2 : Reaction) × (history_prev middle ≡ done (e1, r1))
    × (history_next e1 ≡ done (e2, r2))
    × (e1.buf ≡ codes "pwd")
    × (e2.buf ≡ codes "cat a")
    × (e2.cursor ≡ 5)
    × (e2.hist_pos ≡ none)
history_next-history_prev_example =
    history_next-history_prev middle (codes "pwd") refl (omega arith) refl

backspace-insert_example :
    (e1 e2 : LineEditor) × (r1 r2 : Reaction) × (insert middle 120 ≡ done (e1, r1))
    × (backspace e1 ≡ done (e2, r2))
    × (e1.buf ≡ codes "caxt a")
    × (e2.buf ≡ codes "cat a")
    × (e2.cursor ≡ 2)
unfolding is_continuation
backspace-insert_example = backspace-insert middle 120 (omega arith) (omega arith) refl

feed-typed_example :
    (e' : LineEditor) × (feed fresh (codes "ls -l" ++ (13 ∷ []))
      ≡ done (e', echoes (codes "ls -l") ++ (submitted (13 ∷ 10 ∷ []) (codes "ls -l") ∷ [])))
    × (e'.buf ≡ [])
    × (e'.cursor ≡ 0)
    × (e'.history ≡ (push_history fresh (codes "ls -l")).history)
feed-typed_example =
    feed-typed fresh (codes "ls -l") (record { calm = refl; quiet = refl; at_end = refl }) refl
      (
        (omega arith, omega arith),
        (
          (omega arith, omega arith),
          (
            (omega arith, omega arith),
            ((omega arith, omega arith), ((omega arith, omega arith), tt)),
          ),
        ),
      )
      (omega arith)

trimmed : trim (32 ∷ 0xc2 ∷ 0xa0 ∷ 97 ∷ 32 ∷ 98 ∷ 0xe3 ∷ 0x80 ∷ 0x80 ∷ []) ≡ 97 ∷ 32 ∷ 98 ∷ []
unfolding trim strip_all strip_space strip_last reverse_onto
trimmed = refl

-- A broken character is replaced as one, and a lone continuation byte by itself.
lossy :
    from_utf8_lossy (0xe2 ∷ 0x82 ∷ 97 ∷ 0x80 ∷ [])
    ≡ 0xef ∷ 0xbf ∷ 0xbd ∷ 97 ∷ 0xef ∷ 0xbf ∷ 0xbd ∷ []
unfolding from_utf8_lossy lossy_from lead
lossy = refl

abbrev line_length : Outcome (LineEditor × List Reaction) → ℕ
line_length (done (e, reactions)) = length e.buf
line_length panic = 0
line_length exhausted = 0

-- Four bytes that are no text, submitted and recalled: the line is three times as long as the cap.
recalled_past_cap : line_length (feed (new 4 2) (255 ∷ 255 ∷ 255 ∷ 255 ∷ 13 ∷ 16 ∷ [])) ≡ 12
unfolding feed input new insert submit trim from_utf8_lossy lead strip_space strip_last history_prev
recalled_past_cap = refl
