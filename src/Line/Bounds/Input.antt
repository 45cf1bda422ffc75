-- ===== src/Line/Bounds/Input.antt =====
-- `input` of src/shell/line.rs keeps the bounds on every byte, and so does any sequence of bytes.
use mimic_ssh_honeypot.Prelude.{
  ℕ, suc, ◌≤◌, ◌≡◌, Bool, true, false, Option, none, some, List, [], ◌∷◌, ◌++◌, length, arith, refl,
  ◌∙◌, Bool-cases, inl, inr, length-append, ltb, ◌==◌, ◌||◌, is_ascii_digit, text_eq, if◌then◌else◌,
}
use mimic_ssh_honeypot.Prelude.Outcome.{Outcome, done}
use mimic_ssh_honeypot.Line.{
  LineEditor, Reaction, Esc, Search, ignore, complete, idle, got, csi, new, set_prompt,
}
use mimic_ssh_honeypot.Line.Input.{
  input_key, input_after_esc, input_tilde, final_csi, input_csi, input_search, input_calls, input,
  feed, is_text, after_redraw,
}
use mimic_ssh_honeypot.Line.Bounds.{InBounds, Tables, Safe}
use mimic_ssh_honeypot.Line.Bounds.Slices.{redraw_done}
use mimic_ssh_honeypot.Line.Bounds.Edit
use mimic_ssh_honeypot.Line.Bounds.History.{
  submit-InBounds, history_prev-InBounds, history_next-InBounds,
}
use mimic_ssh_honeypot.Line.Bounds.ReverseSearch.{
  start_search-InBounds, pop_query-InBounds, push_query-InBounds, step_search-InBounds,
  accept_search-InBounds,
}

-- Other parameters within their cap.
params_in :
    {max_line max_history : ℕ} {history : List (List ℕ)} {pos : Option ℕ} {search : Option Search}
    {old : List ℕ} (params : List ℕ)
    → length params ≤ 8
    → Tables max_line max_history history pos search old
    → Tables max_line max_history history pos search params
params_in params le t = record {
  history_cap = t.history_cap;
  shown_in = t.shown_in;
  matched_in = t.matched_in;
  query_cap = t.query_cap;
  params_cap = le;
}

no_search :
    {max_line max_history : ℕ} {history : List (List ℕ)} {pos : Option ℕ} {search : Option Search}
    {params : List ℕ}
    → Tables max_line max_history history pos search params
    → Tables max_line max_history history pos none params
no_search t = record {
  history_cap = t.history_cap;
  shown_in = t.shown_in;
  matched_in = λ s i q r. cc;
  query_cap = λ s q. cc;
  params_cap = t.params_cap;
}

module _ (max_line max_history : ℕ) where
  abbrev Ok : Outcome (LineEditor × Reaction) → Type 0
  Ok = Safe max_line max_history

  -- A branch is safe if both its sides are.
  either :
      (b : Bool) {x y : Outcome (LineEditor × Reaction)} → Ok x → Ok y → Ok (if b then x else y)
  either true p q = p
  either false p q = q

  module _ (e : LineEditor) (h : InBounds max_line max_history e) where
    stay : (reaction : Reaction) → Ok (done (e, reaction))
    stay reaction = ((e, reaction), refl, h)

    input_key-InBounds : e.search ≡ none → (byte : ℕ) → Ok (input_key e byte)
    unfolding input_key
    input_key-InBounds quiet byte =
        either (byte == 13 || byte == 10) (submit-InBounds max_line max_history e h quiet) (
          either (byte == 0x1b)
            (
              (record e { esc = got }, ignore),
              refl,
              record {
                line_cap = h.line_cap;
                entries_cap = h.entries_cap;
                cursor_in = h.cursor_in;
                tables = h.tables;
              },
            )
            (either (byte == 0x09) (stay complete) (
              either (byte == 0x08 || byte == 0x7f)
                (Edit.backspace-InBounds max_line max_history e h)
                (either (byte == 0x01) (Edit.move_home-InBounds max_line max_history e h) (
                  either (byte == 0x05) (Edit.move_end-InBounds max_line max_history e h) (
                    either (byte == 0x02) (Edit.move_left-InBounds max_line max_history e h) (
                      either (byte == 0x06) (Edit.move_right-InBounds max_line max_history e h) (
                        either (byte == 0x10) (history_prev-InBounds max_line max_history e h) (
                          either (byte == 0x0e) (history_next-InBounds max_line max_history e h) (
                            either (byte == 0x15)
                              (Edit.kill_to_start-InBounds max_line max_history e h)
                              (either (byte == 0x0b)
                                (Edit.kill_to_end-InBounds max_line max_history e h)
                                (either (byte == 0x17)
                                  (Edit.kill_word-InBounds max_line max_history e h)
                                  (either (byte == 0x19)
                                    (Edit.yank-InBounds max_line max_history e h)
                                    (either (byte == 0x0c)
                                      (Edit.clear_screen-InBounds max_line max_history e h)
                                      (either (byte == 0x12)
                                        (start_search-InBounds max_line max_history e h)
                                        (either (byte == 0x03)
                                          (Edit.interrupt-InBounds max_line max_history e h)
                                          (either (byte == 0x04)
                                            (Edit.ctrl_d-InBounds max_line max_history e h)
                                            (either (is_text byte)
                                              (Edit.insert-InBounds max_line max_history e h byte)
                                              (stay ignore)))))))))))))))))))

    input_tilde-InBounds : (params : List ℕ) → Ok (input_tilde e params)
    unfolding input_tilde
    input_tilde-InBounds params =
        either (text_eq params (49 ∷ []) || text_eq params (55 ∷ []))
          (Edit.move_home-InBounds max_line max_history e h)
          (either (text_eq params (52 ∷ []) || text_eq params (56 ∷ []))
            (Edit.move_end-InBounds max_line max_history e h)
            (either (text_eq params (51 ∷ []))
              (Edit.delete_forward-InBounds max_line max_history e h) (stay ignore)))

    final_csi-InBounds : (params : List ℕ) (byte : ℕ) → Ok (final_csi e params byte)
    unfolding final_csi
    final_csi-InBounds params byte =
        either (byte == 65) (history_prev-InBounds max_line max_history e h) (
          either (byte == 66) (history_next-InBounds max_line max_history e h) (
            either (byte == 67) (Edit.move_right-InBounds max_line max_history e h) (
              either (byte == 68) (Edit.move_left-InBounds max_line max_history e h) (
                either (byte == 72) (Edit.move_home-InBounds max_line max_history e h) (
                  either (byte == 70) (Edit.move_end-InBounds max_line max_history e h)
                    (either (byte == 126) (input_tilde-InBounds params) (stay ignore)))))))

module _ (max_line max_history : ℕ) (e : LineEditor) (h : InBounds max_line max_history e) where
  input_after_esc-InBounds : (byte : ℕ) → Ok max_line max_history (input_after_esc e byte)
  unfolding input_after_esc
  input_after_esc-InBounds byte =
      either max_line max_history (byte == 91 || byte == 79)
        (
          (record e { esc = csi; csi_params = [] }, ignore),
          refl,
          record {
            line_cap = h.line_cap;
            entries_cap = h.entries_cap;
            cursor_in = h.cursor_in;
            tables = params_in [] (omega arith) h.tables;
          },
        )
        (
          (record e { esc = idle }, ignore),
          refl,
          record {
            line_cap = h.line_cap;
            entries_cap = h.entries_cap;
            cursor_in = h.cursor_in;
            tables = h.tables;
          },
        )

  input_csi-InBounds : (byte : ℕ) → Ok max_line max_history (input_csi e byte)
  unfolding input_csi
  input_csi-InBounds byte =
      let reset : InBounds max_line max_history (record e { esc = idle; csi_params = [] }) =
        record {
          line_cap = h.line_cap;
          entries_cap = h.entries_cap;
          cursor_in = h.cursor_in;
          tables = params_in [] (omega arith) h.tables;
        } in
      either max_line max_history (is_ascii_digit byte || byte == 59)
        (elim (Bool-cases (ltb (length e.csi_params) 8)) [
          | inl room ↦ (
            (record e { csi_params = e.csi_params ++ (byte ∷ []) }, ignore),
            rw (room),
            record {
              line_cap = h.line_cap;
              entries_cap = h.entries_cap;
              cursor_in = h.cursor_in;
              tables =
                  params_in (e.csi_params ++ (byte ∷ []))
                    (ground (arith, room, length-append e.csi_params (byte ∷ []))) h.tables;
            },
          )
          | inr full ↦ ((e, ignore), rw full, h)
        ])
        (final_csi-InBounds max_line max_history (record e { esc = idle; csi_params = [] }) reset
          e.csi_params byte)

  input_search-InBounds :
      (again : LineEditor → ℕ → Outcome (LineEditor × Reaction)) (s : Search) (byte : ℕ)
      → e.search ≡ some s
      → e.esc ≡ idle
      → ((e' : LineEditor)
          → InBounds max_line max_history e'
          → e'.search ≡ none
          → e'.esc ≡ idle
          → Ok max_line max_history (again e' byte))
      → Ok max_line max_history (input_search again e byte)
  unfolding input_search
  input_search-InBounds again s byte q calm next =
      let (e1, a1, none1, esc1, h1) = accept_search-InBounds max_line max_history e s q h in
      let (r2, a2, h2) = submit-InBounds max_line max_history e1 h1 none1 in
      let (out, a3) = redraw_done e1 h1.cursor_in in
      let ((e4, reaction), a4, h4) = next e1 h1 none1 (esc1 ∙ calm) in
      either max_line max_history (byte == 13 || byte == 10) (r2, ground (arith, a1, a2), h2)
        (either max_line max_history (byte == 0x12)
          (step_search-InBounds max_line max_history e s q h)
          (either max_line max_history (byte == 0x07 || byte == 0x03 || byte == 0x1b)
            (Edit.redrawn-InBounds max_line max_history (record e { search = none })
              (record {
                line_cap = h.line_cap;
                entries_cap = h.entries_cap;
                cursor_in = h.cursor_in;
                tables = no_search h.tables;
              }))
            (either max_line max_history (byte == 0x08 || byte == 0x7f)
              (pop_query-InBounds max_line max_history e s q h)
              (either max_line max_history (is_text byte)
                (push_query-InBounds max_line max_history byte e s q h)
                ((e4, after_redraw out reaction), ground (arith, a1, a3, a4), h4)))))

module _ (max_line max_history : ℕ) (byte : ℕ) where
  quiet_call :
      (fuel : ℕ) (e : LineEditor)
      → InBounds max_line max_history e
      → e.search ≡ none
      → e.esc ≡ idle
      → Ok max_line max_history (input_calls (suc fuel) e byte)
  unfolding input_calls
  quiet_call fuel e h quiet calm =
      let (r, er, w) = input_key-InBounds max_line max_history e h quiet byte in
      (r, ground (arith, quiet, calm, er), w)

  -- `input` on an editor within its bounds returns for every byte, whatever the mode: no index is
  -- out of range, and one nested call is enough. The editor that it leaves is within the bounds
  -- again: the cursor in the line, the history, the search query and the escape parameters within
  -- their caps, and both positions in the history in range.
  pub input-InBounds :
      (e : LineEditor) → InBounds max_line max_history e → Safe max_line max_history (input e byte)
  unfolding input input_calls
  input-InBounds e h = go e.esc e.search refl refl
    where
      go :
          (esc : Esc) (search : Option Search)
          → e.esc ≡ esc
          → e.search ≡ search
          → Safe max_line max_history (input_calls 2 e byte)
      go got search a b =
          let (r, er, w) = input_after_esc-InBounds max_line max_history e h byte in
          (r, ground (arith, a, er), w)
      go csi search a b =
          let (r, er, w) = input_csi-InBounds max_line max_history e h byte in
          (r, ground (arith, a, er), w)
      go idle none a b = quiet_call 1 e h b a
      go idle (some s) a b =
          let (r, er, w) =
            input_search-InBounds max_line max_history e h (input_calls 1) s byte b a
              (quiet_call 0) in
          (r, ground (arith, a, b, er), w)

-- Every sequence of bytes typed into a new editor, with any prompt, is handled to the end, and
-- leaves the editor within its bounds.
pub feed-InBounds :
    (max_line max_history : ℕ) (prompt : List ℕ) (bytes : List ℕ)
    → (e : LineEditor) × (reactions : List Reaction) × (feed
          (set_prompt (new max_line max_history) prompt)
          bytes
        ≡ done (e, reactions))
      × InBounds max_line max_history e
unfolding new set_prompt feed
feed-InBounds max_line max_history prompt bytes = go bytes _ (record {
  line_cap = refl;
  entries_cap = refl;
  cursor_in = omega arith;
  tables = record {
    history_cap = omega arith;
    shown_in = λ i q. cc;
    matched_in = λ s i q r. cc;
    query_cap = λ s q. cc;
    params_cap = omega arith;
  };
})
  where
    go :
        (bytes : List ℕ) (e : LineEditor)
        → InBounds max_line max_history e
        → (e' : LineEditor) × (reactions : List Reaction) × (feed e bytes ≡ done (e', reactions))
          × InBounds max_line max_history e'
    go [] e h = (e, [], refl, h)
    go (byte ∷ bytes) e h =
        let ((e1, reaction), a1, h1) = input-InBounds max_line max_history byte e h in
        let (e2, reactions, a2, h2) = go bytes e1 h1 in
        (e2, reaction ∷ reactions, ground (arith, a1, a2), h2)
