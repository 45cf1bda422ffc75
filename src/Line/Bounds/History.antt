-- ===== src/Line/Bounds/History.antt =====
-- Submission and recall in src/shell/line.rs keep the bounds.
use mimic_ssh_honeypot.Prelude.{
  ℕ, zero, suc, ◌+◌, ◌-◌, ◌≤◌, ◌<◌, ◌≡◌, false, Option, none, some, List, [], ◌∷◌, ◌++◌, length,
  arith, refl, Bool-cases, inl, inr, length-drop, ltb, ◌||◌, is_empty, Text, get_elem?-lt,
}
use mimic_ssh_honeypot.Prelude.Utf8.{trim, from_utf8_lossy}
use mimic_ssh_honeypot.Line.{LineEditor, ignore, submitted}
use mimic_ssh_honeypot.Line.History.{
  pushed, push_history, is_last, submit, show_entry, history_prev, history_next,
}
use mimic_ssh_honeypot.Line.Bounds.{InBounds, Safe}
use mimic_ssh_honeypot.Line.Bounds.Edit.{redrawn-InBounds, retyped}

pub length-pushed :
    (max_history : ℕ) (history : List Text) (line : Text)
    → length (pushed max_history history line) ≤ max_history
length-pushed max_history history line =
    let longer = history ++ (line ∷ []) in
    omega (arith, length-drop (length longer - max_history) longer)

module _ (max_line max_history : ℕ) (e : LineEditor) (h : InBounds max_line max_history e) where
  pub submit-InBounds : e.search ≡ none → Safe max_line max_history (submit e)
  unfolding submit push_history
  submit-InBounds quiet =
      let line = from_utf8_lossy e.buf in
      (
        (
          record (push_history e line) { buf = []; cursor = 0; hist_pos = none; stash = [] },
          submitted (13 ∷ 10 ∷ []) line,
        ),
        refl,
        elim (Bool-cases (is_empty (trim line) || is_last (trim line) e.history)) [
          | inl same ↦ rw same (retyped max_line max_history e h [] [] 0 (omega arith))
          | inr new ↦ rw new (record {
            line_cap = h.line_cap;
            entries_cap = h.entries_cap;
            cursor_in = omega arith;
            tables = record {
              history_cap =
                  omega (arith, length-pushed e.max_history e.history (trim line), h.entries_cap);
              shown_in = λ i q. cc;
              matched_in = λ s i q r. cc;
              query_cap = λ s q. cc;
              params_cap = h.tables.params_cap;
            };
          })
        ],
      )

  pub show_entry-InBounds :
      (stash : List ℕ) (i : ℕ)
      → i < length e.history
      → Safe max_line max_history (show_entry (record e { stash = stash }) i)
  unfolding show_entry
  show_entry-InBounds stash i lt =
      let (line, found) = get_elem?-lt e.history i lt in
      let (r, er, w) =
        redrawn-InBounds max_line max_history
          (record e { hist_pos = some i; buf = line; cursor = length line; stash = stash })
          (record {
            line_cap = h.line_cap;
            entries_cap = h.entries_cap;
            cursor_in = omega arith;
            tables = record {
              history_cap = h.tables.history_cap;
              shown_in = λ j q. ground (arith, q, lt);
              matched_in = h.tables.matched_in;
              query_cap = h.tables.query_cap;
              params_cap = h.tables.params_cap;
            };
          }) in
      (r, ground (arith, found, er), w)

  pub history_prev-InBounds : Safe max_line max_history (history_prev e)
  unfolding history_prev
  history_prev-InBounds = elim (Bool-cases (is_empty e.history)) [
    | inl bare ↦ ((e, ignore), ground (arith, bare), h)
    | inr some' ↦ go e.hist_pos refl some'
  ]
    where
      nonempty : (history : List Text) → is_empty history ≡ false → 0 < length history
      nonempty [] q = cc
      nonempty (x ∷ history) q = omega arith

      go :
          (pos : Option ℕ)
          → e.hist_pos ≡ pos
          → is_empty e.history ≡ false
          → Safe max_line max_history (history_prev e)
      go none q some' =
          let (r, er, w) =
            show_entry-InBounds e.buf (length e.history - 1)
              (omega (arith, nonempty e.history some')) in
          (r, rw (some', q, er), w)
      go (some zero) q some' = ((e, ignore), simp (some', q), h)
      go (some (suc i)) q some' =
          let (r, er, w) =
            show_entry-InBounds e.stash i (omega (arith, h.tables.shown_in (suc i) q)) in
          (r, rw (some', q, er), w)

  pub history_next-InBounds : Safe max_line max_history (history_next e)
  unfolding history_next
  history_next-InBounds = go e.hist_pos refl
    where
      go : (pos : Option ℕ) → e.hist_pos ≡ pos → Safe max_line max_history (history_next e)
      go none q = ((e, ignore), rw q, h)
      go (some i) q = elim (Bool-cases (ltb (i + 1) (length e.history))) [
        | inl newer ↦
            let (r, er, w) = show_entry-InBounds e.stash (i + 1) (ground (arith, newer)) in
            (r, rw (q, newer, er), w)
        | inr last ↦
            let (r, er, w) =
              redrawn-InBounds max_line max_history _
                (retyped max_line max_history e h e.stash [] (length e.stash) (omega arith)) in
            (r, rw (q, last, er), w)
      ]
