-- ===== src/Line/Bounds/Edit.antt =====
-- The editing keys of src/shell/line.rs keep the bounds.
use mimic_ssh_honeypot.Prelude.{
  ℕ, suc, ◌+◌, ◌-◌, ◌≤◌, ◌≡◌, none, List, [], ◌∷◌, ◌++◌, length, take, drop, arith, refl,
  Bool-cases, inl, inr, length-drop, length-take, length-append, ◌==◌, leb, ltb, ◌||◌, is_empty,
  is_ascii_whitespace, Option, codes,
}
use mimic_ssh_honeypot.Prelude.Outcome.{done}
use mimic_ssh_honeypot.Line.{LineEditor, Search, ignore, eof, write}
use mimic_ssh_honeypot.Line.Slices.{next_char, drain}
use mimic_ssh_honeypot.Line.Screen.{redraw, line_drawn, redrawn, in_word}
use mimic_ssh_honeypot.Line.Edit.{
  insert, backspace, delete_forward, move_home, move_end, move_left, move_right, kill_to_start,
  kill_to_end, kill_word, yank, clear_screen, interrupt, ctrl_d,
}
use mimic_ssh_honeypot.Line.Bounds.{InBounds, Tables, Safe}
use mimic_ssh_honeypot.Line.Bounds.Slices.{
  back_while-le, prev_char-lt, next_char-between, redraw_done,
}

-- A line with its bytes from `a` to `b` removed.
cut :
    (buf : List ℕ) (a b : ℕ)
    → a ≤ b
    → b ≤ length buf
    → (drain buf a b ≡ done (take (b - a) (drop a buf), take a buf ++ drop b buf))
      × (a ≤ length (take a buf ++ drop b buf))
cut buf a b ab h = (
  ground (arith, ab, h),
  omega (arith, ab, h, length-append (take a buf) (drop b buf), length-take a buf),
)

module _ (max_line max_history : ℕ) where
  -- Leaving the history forgets where in it the line was.
  pub forget :
      {history : List (List ℕ)} {pos : Option ℕ} {search : Option Search} {params : List ℕ}
      → Tables max_line max_history history pos search params
      → Tables max_line max_history history none search params
  forget t = record {
    history_cap = t.history_cap;
    shown_in = λ i q. cc;
    matched_in = t.matched_in;
    query_cap = t.query_cap;
    params_cap = t.params_cap;
  }

  pub redrawn-InBounds :
      (e : LineEditor) → InBounds max_line max_history e → Safe max_line max_history (redrawn e)
  redrawn-InBounds e h =
      let (out, q) = redraw_done e h.cursor_in in ((e, write out), ground (arith, q), h)

  module _ (e : LineEditor) (h : InBounds max_line max_history e) where
    -- A change of the line, the cursor and the killed text.
    pub edited :
        (buf kill : List ℕ) (cursor : ℕ)
        → cursor ≤ length buf
        → InBounds max_line max_history (record e { buf = buf; kill = kill; cursor = cursor })
    edited buf kill cursor le = record {
      line_cap = h.line_cap;
      entries_cap = h.entries_cap;
      cursor_in = le;
      tables = h.tables;
    }

    -- The same, leaving the history.
    pub retyped :
        (buf stash : List ℕ) (cursor : ℕ)
        → cursor ≤ length buf
        → InBounds max_line max_history
            (record e { buf = buf; cursor = cursor; hist_pos = none; stash = stash })
    retyped buf stash cursor le = record {
      line_cap = h.line_cap;
      entries_cap = h.entries_cap;
      cursor_in = le;
      tables = forget h.tables;
    }

    pub insert-InBounds : (byte : ℕ) → Safe max_line max_history (insert e byte)
    unfolding insert
    insert-InBounds byte =
        let buf = take e.cursor e.buf ++ (byte ∷ drop e.cursor e.buf) in
        let size : length buf ≡ suc (length e.buf) = omega (
          arith,
          h.cursor_in,
          length-append (take e.cursor e.buf) (byte ∷ drop e.cursor e.buf),
          length-take e.cursor e.buf,
          length-drop e.cursor e.buf,
        ) in
        let b = retyped buf e.stash (e.cursor + 1) (omega (arith, h.cursor_in, size)) in
        let (r, er, w) =
          redrawn-InBounds (record e { buf = buf; cursor = e.cursor + 1; hist_pos = none }) b in
        elim (Bool-cases (leb e.max_line (length e.buf))) [
          | inl full ↦ ((e, ignore), ground (arith, full), h)
          | inr room ↦ elim (Bool-cases (e.cursor + 1 == length buf)) [
            | inl at_end ↦ (
              (record e { buf = buf; cursor = e.cursor + 1; hist_pos = none }, write (byte ∷ [])),
              ground (arith, room, h.cursor_in, at_end),
              b,
            )
            | inr inside ↦ (r, ground (arith, room, h.cursor_in, inside, er), w)
          ]
        ]

    pub backspace-InBounds : Safe max_line max_history (backspace e)
    unfolding backspace
    backspace-InBounds = elim (Bool-cases (e.cursor == 0)) [
      | inl home ↦ ((e, ignore), ground (arith, home), h)
      | inr past ↦
          let (s, es, lt) = prev_char-lt e.buf e.cursor (ground (arith, past)) h.cursor_in in
          let (ed, le) = cut e.buf s e.cursor (omega (arith, lt)) h.cursor_in in
          let (r, er, w) =
            redrawn-InBounds _ (edited (take s e.buf ++ drop e.cursor e.buf) e.kill s le) in
          (r, ground (arith, past, es, ed, er), w)
    ]

    pub delete_forward-InBounds : Safe max_line max_history (delete_forward e)
    unfolding delete_forward
    delete_forward-InBounds = elim (Bool-cases (leb (length e.buf) e.cursor)) [
      | inl at_end ↦ ((e, ignore), ground (arith, at_end), h)
      | inr inside ↦
          let (low, high) = next_char-between e.buf e.cursor (ground (arith, inside)) in
          let (ed, le) = cut e.buf e.cursor (next_char e.buf e.cursor) (omega (arith, low)) high in
          let (r, er, w) = redrawn-InBounds _ (
            edited (take e.cursor e.buf ++ drop (next_char e.buf e.cursor) e.buf) e.kill e.cursor
              le) in
          (r, ground (arith, inside, ed, er), w)
    ]

    pub move_home-InBounds : Safe max_line max_history (move_home e)
    unfolding move_home
    move_home-InBounds = redrawn-InBounds _ (edited e.buf e.kill 0 (omega arith))

    pub move_end-InBounds : Safe max_line max_history (move_end e)
    unfolding move_end
    move_end-InBounds = redrawn-InBounds _ (edited e.buf e.kill (length e.buf) (omega arith))

    pub move_left-InBounds : Safe max_line max_history (move_left e)
    unfolding move_left
    move_left-InBounds = elim (Bool-cases (e.cursor == 0)) [
      | inl home ↦ ((e, ignore), ground (arith, home), h)
      | inr past ↦
          let (s, es, lt) = prev_char-lt e.buf e.cursor (ground (arith, past)) h.cursor_in in
          (
            (record e { cursor = s }, write (27 ∷ codes "[D")),
            ground (arith, past, es),
            edited e.buf e.kill s (omega (arith, lt, h.cursor_in)),
          )
    ]

    pub move_right-InBounds : Safe max_line max_history (move_right e)
    unfolding move_right
    move_right-InBounds = elim (Bool-cases (leb (length e.buf) e.cursor)) [
      | inl at_end ↦ ((e, ignore), ground (arith, at_end), h)
      | inr inside ↦
          let (low, high) = next_char-between e.buf e.cursor (ground (arith, inside)) in
          (
            (record e { cursor = next_char e.buf e.cursor }, write (27 ∷ codes "[C")),
            ground (arith, inside),
            edited e.buf e.kill (next_char e.buf e.cursor) high,
          )
    ]

    pub kill_to_start-InBounds : Safe max_line max_history (kill_to_start e)
    unfolding kill_to_start
    kill_to_start-InBounds = elim (Bool-cases (e.cursor == 0)) [
      | inl home ↦ ((e, ignore), ground (arith, home), h)
      | inr past ↦
          let (ed, le) = cut e.buf 0 e.cursor (omega arith) h.cursor_in in
          let (r, er, w) = redrawn-InBounds _ (
            edited (take 0 e.buf ++ drop e.cursor e.buf) (take (e.cursor - 0) (drop 0 e.buf)) 0
              (omega arith)) in
          (r, ground (arith, past, ed, er), w)
    ]

    pub kill_to_end-InBounds : Safe max_line max_history (kill_to_end e)
    unfolding kill_to_end
    kill_to_end-InBounds = elim (Bool-cases (leb (length e.buf) e.cursor)) [
      | inl at_end ↦ ((e, ignore), ground (arith, at_end), h)
      | inr inside ↦
          let (r, er, w) = redrawn-InBounds _ (
            edited (take e.cursor e.buf) (drop e.cursor e.buf) e.cursor
              (omega (arith, length-take e.cursor e.buf, h.cursor_in))) in
          (r, ground (arith, inside, h.cursor_in, er), w)
    ]

    pub kill_word-InBounds : Safe max_line max_history (kill_word e)
    unfolding kill_word
    kill_word-InBounds = elim (Bool-cases (e.cursor == 0)) [
      | inl home ↦ ((e, ignore), ground (arith, home), h)
      | inr past ↦
          let (gap, eg, gap_le) = back_while-le is_ascii_whitespace e.buf e.cursor h.cursor_in in
          let (s, es, s_le) =
            back_while-le in_word e.buf gap (omega (arith, gap_le, h.cursor_in)) in
          let (ed, le) = cut e.buf s e.cursor (omega (arith, s_le, gap_le)) h.cursor_in in
          let (r, er, w) = redrawn-InBounds _ (
            edited (take s e.buf ++ drop e.cursor e.buf) (take (e.cursor - s) (drop s e.buf)) s
              le) in
          (r, ground (arith, past, eg, es, ed, er), w)
    ]

    pub yank-InBounds : Safe max_line max_history (yank e)
    unfolding yank
    yank-InBounds =
        let buf = take e.cursor e.buf ++ (e.kill ++ drop e.cursor e.buf) in
        let size : e.cursor + length e.kill ≤ length buf = omega (
          arith,
          h.cursor_in,
          length-append (take e.cursor e.buf) (e.kill ++ drop e.cursor e.buf),
          length-append e.kill (drop e.cursor e.buf),
          length-take e.cursor e.buf,
        ) in
        let (r, er, w) = redrawn-InBounds _ (retyped buf e.stash (e.cursor + length e.kill) size) in
        elim (Bool-cases (is_empty e.kill || ltb e.max_line (length e.buf + length e.kill))) [
          | inl refused ↦ ((e, ignore), ground (arith, refused), h)
          | inr fits ↦ (r, ground (arith, fits, h.cursor_in, er), w)
        ]

    pub clear_screen-InBounds : Safe max_line max_history (clear_screen e)
    unfolding clear_screen
    clear_screen-InBounds =
        let (out, q) = redraw_done e h.cursor_in in
        ((e, write (27 ∷ 91 ∷ 72 ∷ 27 ∷ (codes "[2J" ++ out))), rw q, h)

    pub interrupt-InBounds : Safe max_line max_history (interrupt e)
    unfolding interrupt redraw
    interrupt-InBounds =
        let e' = record e { buf = []; cursor = 0; hist_pos = none; stash = [] } in
        (
          (e', write (codes "^C" ++ (13 ∷ 10 ∷ line_drawn e' []))),
          refl,
          retyped [] [] 0 (omega arith),
        )

    pub ctrl_d-InBounds : Safe max_line max_history (ctrl_d e)
    unfolding ctrl_d
    ctrl_d-InBounds =
        let (r, er, w) = delete_forward-InBounds in
        elim (Bool-cases (is_empty e.buf)) [
          | inl bare ↦ ((e, eof), ground (arith, bare), h)
          | inr text ↦ (r, ground (arith, text, er), w)
        ]
