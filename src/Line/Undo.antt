-- ===== src/Line/Undo.antt =====
-- Keys of src/shell/line.rs that undo one another.
use mimic_ssh_honeypot.Prelude.{
  ℕ, zero, suc, ◌+◌, ◌-◌, ◌≤◌, ◌<◌, ◌≡◌, false, none, some, List, [], ◌∷◌, ◌++◌, length, take, drop,
  arith, refl, length-append, length-drop, length-take, take-append-drop, ◌==◌, is_empty, Text,
  get_elem?, ◌∙◌, ap, Bool-cases, inl, inr,
}
use mimic_ssh_honeypot.Prelude.Outcome.{Outcome, done}
use mimic_ssh_honeypot.Line.{LineEditor, Reaction, write}
use mimic_ssh_honeypot.Line.Slices.{is_continuation, prev_char, char_start}
use mimic_ssh_honeypot.Line.Edit.{insert, backspace, kill_to_start, yank}
use mimic_ssh_honeypot.Line.History.{show_entry, history_prev, history_next}
use mimic_ssh_honeypot.Line.Bounds.Slices.{redraw_done}

-- One key after another, each with its output dropped.
abbrev pub then_key :
    (LineEditor → Outcome (LineEditor × Reaction))
    → LineEditor × Reaction
    → Outcome (LineEditor × Reaction)
then_key key (e, reaction) = key e

take_exact {ℓ} : {A : Type ℓ} (xs ys : List A) → take (length xs) (xs ++ ys) ≡ xs
take_exact [] ys = refl
take_exact (x ∷ xs) ys = rw (take_exact xs ys)

drop_exact {ℓ} : {A : Type ℓ} (xs ys : List A) → drop (length xs) (xs ++ ys) ≡ ys
drop_exact [] ys = refl
drop_exact (x ∷ xs) ys = drop_exact xs ys

module _ (e : LineEditor) (room : length e.buf ≤ e.max_line)
    (inside : e.cursor ≤ length e.buf) where
  -- Ctrl-U and then Ctrl-Y, with the cursor past the start of a line that is within the cap: the
  -- line and the cursor are as before.
  pub yank-kill_to_start :
      0 < e.cursor
      → (e1 e2 : LineEditor) × (r1 r2 : Reaction) × (kill_to_start e ≡ done (e1, r1))
        × (yank e1 ≡ done (e2, r2))
        × (e1.buf ≡ drop e.cursor e.buf)
        × (e2.buf ≡ e.buf)
        × (e2.cursor ≡ e.cursor)
  unfolding kill_to_start yank
  yank-kill_to_start past =
      let kill = take e.cursor e.buf in
      let e1 = record e { kill = kill; buf = drop e.cursor e.buf; cursor = 0 } in
      let (out1, a1) = redraw_done e1 (omega arith) in
      let size = length-take e.cursor e.buf in
      let e2 = record e1 {
        buf = kill ++ drop e.cursor e.buf;
        cursor = length kill;
        hist_pos = none;
      } in
      let (out2, a2) = redraw_done e2 (omega (arith, length-append kill (drop e.cursor e.buf))) in
      (
        e1,
        e2,
        write out1,
        write out2,
        ground (arith, past, inside, a1),
        ground (arith, past, inside, room, size, length-drop e.cursor e.buf, a2),
        refl,
        take-append-drop e.cursor e.buf,
        omega (arith, size, inside),
      )

-- ↑ and then ↓, on a line that is not out of the history: the line as it was typed, with the cursor
-- at its end; and ↑ shows the newest entry of the history.
pub history_next-history_prev :
    (e : LineEditor) (newest : Text)
    → e.hist_pos ≡ none
    → 0 < length e.history
    → get_elem? e.history (length e.history - 1) ≡ some newest
    → (e1 e2 : LineEditor) × (r1 r2 : Reaction) × (history_prev e ≡ done (e1, r1))
      × (history_next e1 ≡ done (e2, r2))
      × (e1.buf ≡ newest)
      × (e2.buf ≡ e.buf)
      × (e2.cursor ≡ length e.buf)
      × (e2.hist_pos ≡ none)
unfolding history_prev show_entry history_next
history_next-history_prev e newest off some' found =
    let last = length e.history - 1 in
    let e1 = record e {
      stash = e.buf;
      hist_pos = some last;
      buf = newest;
      cursor = length newest;
    } in
    let (out1, a1) = redraw_done e1 (omega arith) in
    let e2 = record e1 { hist_pos = none; buf = e.buf; stash = []; cursor = length e.buf } in
    let (out2, a2) = redraw_done e2 (omega arith) in
    (
      e1,
      e2,
      write out1,
      write out2,
      ground (arith, off, bare e.history some', found, a1),
      ground (arith, some', a2),
      refl,
      refl,
      refl,
      refl,
    )
  where
    bare : (history : List Text) → 0 < length history → is_empty history ≡ false
    bare [] lt = absurd (omega arith)
    bare (x ∷ history) lt = refl

-- The line with the byte put in is read and cut at the byte.
module _ (xs ys : List ℕ) (b : ℕ) where
  read_at : get_elem? (xs ++ (b ∷ ys)) (length xs) ≡ some b
  read_at = go xs
    where
      go : (xs : List ℕ) → get_elem? (xs ++ (b ∷ ys)) (length xs) ≡ some b
      go [] = refl
      go (x ∷ xs) = go xs

  drop_past : drop (length xs + 1) (xs ++ (b ∷ ys)) ≡ ys
  drop_past = let one : length xs + 1 ≡ suc (length xs) = omega arith in rw one (go xs)
    where
      go : (xs : List ℕ) → drop (suc (length xs)) (xs ++ (b ∷ ys)) ≡ ys
      go [] = refl
      go (x ∷ xs) = go xs

  -- Drawn back over one byte that starts a character.
  prev_char_at :
      is_continuation b ≡ false → prev_char (xs ++ (b ∷ ys)) (length xs + 1) ≡ done (length xs)
  unfolding prev_char char_start
  prev_char_at start = go (length xs) refl
    where
      go : (n : ℕ) → length xs ≡ n → prev_char (xs ++ (b ∷ ys)) (length xs + 1) ≡ done (length xs)
      go zero q = ground (arith, q)
      go (suc n) q = ground (arith, q, read_at, start)

module _ (xs ys : List ℕ) (b n : ℕ) (at : length xs ≡ n) where
  rejoin : take n (xs ++ (b ∷ ys)) ++ drop (n + 1) (xs ++ (b ∷ ys)) ≡ xs ++ ys
  rejoin = rw⁻¹ at (
      ap (λ l. l ++ drop (length xs + 1) (xs ++ (b ∷ ys))) (take_exact xs (b ∷ ys))
      ∙ ap (λ l. xs ++ l) (drop_past xs ys b))

  back_to : is_continuation b ≡ false → prev_char (xs ++ (b ∷ ys)) (n + 1) ≡ done n
  back_to start = rw⁻¹ at (prev_char_at xs ys b start)

-- A byte that starts a character, typed anywhere in a line with room for it, and then Backspace: the
-- line and the cursor are as before.
pub backspace-insert :
    (e : LineEditor) (byte : ℕ)
    → length e.buf < e.max_line
    → e.cursor ≤ length e.buf
    → is_continuation byte ≡ false
    → (e1 e2 : LineEditor) × (r1 r2 : Reaction) × (insert e byte ≡ done (e1, r1))
      × (backspace e1 ≡ done (e2, r2))
      × (e1.buf ≡ take e.cursor e.buf ++ (byte ∷ drop e.cursor e.buf))
      × (e2.buf ≡ e.buf)
      × (e2.cursor ≡ e.cursor)
unfolding insert backspace
backspace-insert e byte room inside start =
    let xs = take e.cursor e.buf in
    let ys = drop e.cursor e.buf in
    let at : length xs ≡ e.cursor = omega (arith, length-take e.cursor e.buf, inside) in
    let buf = xs ++ (byte ∷ ys) in
    let size : e.cursor + 1 ≤ length buf = omega (arith, length-append xs (byte ∷ ys), at) in
    let e1 = record e { buf = buf; cursor = e.cursor + 1; hist_pos = none } in
    let (out1, a1) = redraw_done e1 size in
    let cut = take e.cursor buf ++ drop (e.cursor + 1) buf in
    let whole : cut ≡ e.buf = rejoin xs ys byte e.cursor at ∙ take-append-drop e.cursor e.buf in
    let e2 = record e1 { buf = cut; cursor = e.cursor } in
    let (out2, a2) = redraw_done e2 (rw whole inside) in
    let back : prev_char buf (e.cursor + 1) ≡ done e.cursor =
      back_to xs ys byte e.cursor at start in
    elim (Bool-cases (e.cursor + 1 == length buf)) [
      | inl end ↦ (
        e1,
        e2,
        write (byte ∷ []),
        write out2,
        ground (arith, room, inside, end),
        ground (arith, back, size, a2),
        refl,
        whole,
        refl,
      )
      | inr middle ↦ (
        e1,
        e2,
        write out1,
        write out2,
        ground (arith, room, inside, middle, a1),
        ground (arith, back, size, a2),
        refl,
        whole,
        refl,
      )
    ]
