-- ===== src/Line/ReverseSearch.antt =====
-- Reverse incremental search of src/shell/line.rs, less the dispatch on its keys.
use mimic_ssh_honeypot.Prelude.{
  ℕ, zero, suc, Option, none, some, List, [], ◌∷◌, ◌++◌, length, get_elem?, take, ltb,
  if◌then◌else◌, is_empty, Text, min,
}
use mimic_ssh_honeypot.Prelude.Outcome.{Outcome, done, ◌>>=◌, or_panic}
use mimic_ssh_honeypot.Line.{LineEditor, Reaction, write}
use mimic_ssh_honeypot.Line.Slices.{contains}
use mimic_ssh_honeypot.Line.Screen.{render_search}
use mathlib.Core.Bool.{true, false}

-- `(0..upper).rev().find(..)`
unfoldable pub find_below : List Text → List ℕ → ℕ → Outcome (Option ℕ)
find_below history query zero = done none
find_below history query (suc i) = do
  line ← or_panic (get_elem? history i)
  elim (contains line query) [ true ↦ done (some i) | false ↦ find_below history query i ]

unfoldable pub find_match : List Text → ℕ → List ℕ → Outcome (Option ℕ)
unfolding find_below
find_match history before query =
    if is_empty query then done none else find_below history query (min before (length history))

-- `Reaction::Write(self.render_search())`
abbrev pub searching : LineEditor → Outcome (LineEditor × Reaction)
searching e = do out ← render_search e; done (e, write out)

unfoldable pub start_search : LineEditor → Outcome (LineEditor × Reaction)
unfolding render_search
start_search e = searching (record e { search = some (record { query = []; matched = none }) })

unfoldable pub search_recompute : LineEditor → Outcome LineEditor
unfolding find_match
search_recompute e = elim e.search [
  | none ↦ done e
  | some s ↦ do
    matched ← find_match e.history (length e.history) s.query
    done (record e { search = some (record s { matched = matched }) })
]

abbrev pub or_else : ℕ → Option ℕ → ℕ
or_else n none = n
or_else n (some i) = i

abbrev pub or_kept : Option ℕ → Option ℕ → Option ℕ
or_kept old none = old
or_kept old (some i) = some i

unfoldable pub search_step : LineEditor → Outcome LineEditor
unfolding find_match
search_step e = elim e.search [
  | none ↦ done e
  | some s ↦ do
    matched ← find_match e.history (or_else (length e.history) s.matched) s.query
    done (record e { search = some (record s { matched = or_kept s.matched matched }) })
]

-- The line of the match, cut to the cap.
unfoldable pub accepted : LineEditor → Option ℕ → Outcome (List ℕ)
accepted e none = done e.buf
accepted e (some i) = do line ← or_panic (get_elem? e.history i); done (take e.max_line line)

unfoldable pub accept_search : LineEditor → Outcome LineEditor
unfolding accepted
accept_search e = elim e.search [
  | none ↦ done e
  | some s ↦ do
    buf ← accepted e s.matched
    done (record e { search = none; buf = buf; cursor = length buf; hist_pos = none })
]

unfoldable pub pop_last : List ℕ → List ℕ
pop_last [] = []
pop_last (b ∷ []) = []
pop_last (b ∷ c ∷ rest) = b ∷ pop_last (c ∷ rest)

abbrev pub edit_query : (List ℕ → List ℕ) → LineEditor → LineEditor
edit_query f e = elim e.search [
  | none ↦ e
  | some s ↦ record e { search = some (record s { query = f s.query }) }
]

abbrev pub push_query : ℕ → ℕ → List ℕ → List ℕ
push_query max_line byte query = if ltb (length query) max_line then query ++ (byte ∷ []) else query

-- A key that changes the query: the match is found anew.
unfoldable pub edit_search : (List ℕ → List ℕ) → LineEditor → Outcome (LineEditor × Reaction)
unfolding search_recompute render_search
edit_search f e = do e' ← search_recompute (edit_query f e); searching e'

unfoldable pub step_search : LineEditor → Outcome (LineEditor × Reaction)
unfolding search_step render_search
step_search e = do e' ← search_step e; searching e'
