-- ===== src/Line/Bounds.antt =====
-- The bounds that the line editor of src/shell/line.rs keeps: every index in range, every table
-- within its cap.
pub mod Slices
mod Edit
mod History
mod ReverseSearch
pub mod Completion
pub mod Input
use mimic_ssh_honeypot.Prelude.{ℕ, ◌≤◌, ◌<◌, ◌≡◌, Option, some, List, length, Text}
use mimic_ssh_honeypot.Prelude.Outcome.{Outcome, done}
use mimic_ssh_honeypot.Line.{LineEditor, Search, Reaction}

-- Both kinds of index into the history, the query and the parameters of an escape sequence.
pub record Tables (max_line max_history : ℕ) (history : List Text) (hist_pos : Option ℕ)
    (search : Option Search) (params : List ℕ) : Type 0 where
  pub history_cap : length history ≤ max_history
  pub shown_in : (i : ℕ) → hist_pos ≡ some i → i < length history
  pub matched_in : (s : Search) (i : ℕ) → search ≡ some s → s.matched ≡ some i → i < length history
  pub query_cap : (s : Search) → search ≡ some s → length s.query ≤ max_line
  pub params_cap : length params ≤ 8

pub record InBounds (max_line max_history : ℕ) (e : LineEditor) : Type 0 where
  pub line_cap : e.max_line ≡ max_line
  pub entries_cap : e.max_history ≡ max_history
  pub cursor_in : e.cursor ≤ length e.buf
  pub tables : Tables max_line max_history e.history e.hist_pos e.search e.csi_params

-- The call returns, and the editor that it leaves is within the bounds.
abbrev pub Safe : ℕ → ℕ → Outcome (LineEditor × Reaction) → Type 0
Safe max_line max_history o =
    (r : LineEditor × Reaction) × (o ≡ done r) × InBounds max_line max_history r.0
