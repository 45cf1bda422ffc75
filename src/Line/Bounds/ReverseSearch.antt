-- ===== src/Line/Bounds/ReverseSearch.antt =====
-- Reverse search in src/shell/line.rs keeps the bounds.
use mimic_ssh_honeypot.Prelude.{
  ℕ, zero, suc, ◌≤◌, ◌<◌, ◌≡◌, Option, none, some, List, [], ◌∷◌, length, take, arith, refl,
  Bool-cases, inl, inr, length-append, is_empty, Text, get_elem?-lt, min,
}
use mimic_ssh_honeypot.Prelude.Outcome.{done}
use mimic_ssh_honeypot.Line.{LineEditor, Search, write}
use mimic_ssh_honeypot.Line.Slices.{contains}
use mimic_ssh_honeypot.Line.Screen.{render_search, search_drawn}
use mimic_ssh_honeypot.Line.ReverseSearch.{
  find_below, find_match, searching, start_search, search_recompute, search_step, accepted,
  accept_search, pop_last, push_query, edit_search, step_search, or_else, or_kept,
}
use mimic_ssh_honeypot.Line.Bounds.{InBounds, Safe}

find_below-lt :
    (history : List Text) (query : List ℕ) (n : ℕ)
    → n ≤ length history
    → (m : Option ℕ) × (find_below history query n ≡ done m)
      × ((i : ℕ) → m ≡ some i → i < length history)
unfolding find_below
find_below-lt history query zero h = (none, refl, λ i q. cc)
find_below-lt history query (suc n) h =
    let (line, e) = get_elem?-lt history n (omega arith) in
    let (m, em, lt) = find_below-lt history query n (omega arith) in
    elim (Bool-cases (contains line query)) [
      | inl hit ↦ (some n, ground (arith, e, hit), λ i q. ground (arith, q))
      | inr miss ↦ (m, ground (arith, e, miss, em), lt)
    ]

find_match-lt :
    (history : List Text) (before : ℕ) (query : List ℕ)
    → (m : Option ℕ) × (find_match history before query ≡ done m)
      × ((i : ℕ) → m ≡ some i → i < length history)
unfolding find_match
find_match-lt history before query =
    let (m, em, lt) = find_below-lt history query (min before (length history)) (omega arith) in
    elim (Bool-cases (is_empty query)) [
      | inl bare ↦ (none, ground (arith, bare), λ i q. cc)
      | inr real ↦ (m, ground (arith, real, em), lt)
    ]

length-pop_last : (query : List ℕ) → length (pop_last query) ≤ length query
unfolding pop_last
length-pop_last [] = omega arith
length-pop_last (b ∷ []) = omega arith
length-pop_last (b ∷ c ∷ rest) = omega (arith, length-pop_last (c ∷ rest))

length-push_query :
    (max_line byte : ℕ) (query : List ℕ)
    → length query ≤ max_line
    → length (push_query max_line byte query) ≤ max_line
length-push_query max_line byte query h = ground (arith, length-append query (byte ∷ []))

abbrev left_search : LineEditor → List ℕ → LineEditor
left_search e buf = record e { search = none; buf = buf; cursor = length buf; hist_pos = none }

module _ (max_line max_history : ℕ) where
  -- A new search state whose query and match are in bounds.
  found :
      (e : LineEditor) (s : Search)
      → InBounds max_line max_history e
      → length s.query ≤ max_line
      → ((i : ℕ) → s.matched ≡ some i → i < length e.history)
      → InBounds max_line max_history (record e { search = some s })
  found e s h short lt = record {
    line_cap = h.line_cap;
    entries_cap = h.entries_cap;
    cursor_in = h.cursor_in;
    tables = record {
      history_cap = h.tables.history_cap;
      shown_in = h.tables.shown_in;
      matched_in = λ s' i q r. let same : s ≡ s' = cc in lt i (rw same r);
      query_cap = λ s' q. let same : s ≡ s' = cc in rw⁻¹ same short;
      params_cap = h.tables.params_cap;
    };
  }

  searching-InBounds :
      (e : LineEditor) (s : Search)
      → e.search ≡ some s
      → InBounds max_line max_history e
      → Safe max_line max_history (searching e)
  unfolding render_search
  searching-InBounds e s q h = go s.matched refl
    where
      go : (m : Option ℕ) → s.matched ≡ m → Safe max_line max_history (searching e)
      go none r = ((e, write (search_drawn s [])), rw (q, r), h)
      go (some i) r =
          let (line, found) = get_elem?-lt e.history i (h.tables.matched_in s i q r) in
          ((e, write (search_drawn s line)), rw (q, r, found), h)

  pub start_search-InBounds :
      (e : LineEditor)
      → InBounds max_line max_history e
      → Safe max_line max_history (start_search e)
  unfolding start_search
  start_search-InBounds e h =
      let s : Search = record { query = []; matched = none } in
      searching-InBounds (record e { search = some s }) s refl
        (found e s h (omega arith) (λ i q. cc))

  -- Looking the query up anew, and writing the result.
  pub edit_search-InBounds :
      (f : List ℕ → List ℕ) (e : LineEditor) (s : Search)
      → ((query : List ℕ) → length query ≤ max_line → length (f query) ≤ max_line)
      → e.search ≡ some s
      → InBounds max_line max_history e
      → Safe max_line max_history (edit_search f e)
  unfolding edit_search search_recompute
  edit_search-InBounds f e s short q h =
      let (m, em, lt) = find_match-lt e.history (length e.history) (f s.query) in
      let s' : Search = record { query = f s.query; matched = m } in
      let (r, er, w) =
        searching-InBounds (record e { search = some s' }) s' refl
          (found e s' h (short s.query (h.tables.query_cap s q)) lt) in
      (r, ground (arith, q, em, er), w)

  pub pop_query-InBounds :
      (e : LineEditor) (s : Search)
      → e.search ≡ some s
      → InBounds max_line max_history e
      → Safe max_line max_history (edit_search pop_last e)
  pop_query-InBounds e s =
      edit_search-InBounds pop_last e s (λ query le. omega (arith, le, length-pop_last query))

  pub push_query-InBounds :
      (byte : ℕ) (e : LineEditor) (s : Search)
      → e.search ≡ some s
      → InBounds max_line max_history e
      → Safe max_line max_history (edit_search (push_query e.max_line byte) e)
  push_query-InBounds byte e s q h =
      edit_search-InBounds (push_query e.max_line byte) e s
        (λ query le. rw h.line_cap (length-push_query max_line byte query le)) q h

  pub step_search-InBounds :
      (e : LineEditor) (s : Search)
      → e.search ≡ some s
      → InBounds max_line max_history e
      → Safe max_line max_history (step_search e)
  unfolding step_search search_step
  step_search-InBounds e s q h =
      let (m, em, lt) = find_match-lt e.history (or_else (length e.history) s.matched) s.query in
      let s' : Search = record s { matched = or_kept s.matched m } in
      let kept : (o : Option ℕ)
          → ((i : ℕ) → o ≡ some i → i < length e.history)
          → (i : ℕ) → or_kept s.matched o ≡ some i
          → i < length e.history =
        elim [ none ↦ λ l i r. h.tables.matched_in s i q r | some j ↦ λ l i r. l i r ] in
      let (r, er, w) =
        searching-InBounds (record e { search = some s' }) s' refl
          (found e s' h (h.tables.query_cap s q) (kept m lt)) in
      (r, ground (arith, q, em, er), w)

  -- Leaving the search: no search is on, and the rest is within the bounds.
  pub accept_search-InBounds :
      (e : LineEditor) (s : Search)
      → e.search ≡ some s
      → InBounds max_line max_history e
      → (e' : LineEditor) × (accept_search e ≡ done e')
        × (e'.search ≡ none)
        × (e'.esc ≡ e.esc)
        × InBounds max_line max_history e'
  unfolding accept_search accepted
  accept_search-InBounds e s q h = go s.matched refl
    where
      bounded : (buf : List ℕ) → InBounds max_line max_history (left_search e buf)
      bounded buf = record {
        line_cap = h.line_cap;
        entries_cap = h.entries_cap;
        cursor_in = omega arith;
        tables = record {
          history_cap = h.tables.history_cap;
          shown_in = λ i r. cc;
          matched_in = λ t i r u. cc;
          query_cap = λ t r. cc;
          params_cap = h.tables.params_cap;
        };
      }

      go :
          (m : Option ℕ)
          → s.matched ≡ m
          → (e' : LineEditor) × (accept_search e ≡ done e')
            × (e'.search ≡ none)
            × (e'.esc ≡ e.esc)
            × InBounds max_line max_history e'
      go none r = (left_search e e.buf, ground (arith, q, r), refl, refl, bounded e.buf)
      go (some i) r =
          let (line, found) = get_elem?-lt e.history i (h.tables.matched_in s i q r) in
          (
            left_search e (take e.max_line line),
            ground (arith, q, r, found),
            refl,
            refl,
            bounded (take e.max_line line),
          )
