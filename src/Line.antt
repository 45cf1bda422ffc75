-- ===== src/Line.antt =====
-- The interactive line editor, src/shell/line.rs: its state and its reactions. The child modules hold
-- its operations (Slices: byte helpers, Screen: output, Edit: keys that edit, History: recall, ReverseSearch: incremental
-- search, Input: the dispatch on a byte) and what is proved of them. A `String` is its bytes.
mod Slices
mod Screen
mod Edit
mod History
mod ReverseSearch
mod Input
pub mod Bounds
pub mod Typing
pub mod Undo
mod Tests
use mimic_ssh_honeypot.Prelude.{ℕ, Option, none, List, [], Text}

pub data Reaction : Type 0 where
  ignore eof complete : Reaction
  write : List ℕ → Reaction
  submitted : (echo : List ℕ) (line : Text) → Reaction

pub data Esc : Type 0 where
  idle got csi : Esc

pub record Search : Type 0 where
  pub query : List ℕ
  pub matched : Option ℕ

pub record LineEditor : Type 0 where
  pub prompt : List ℕ
  pub buf : List ℕ
  pub cursor : ℕ
  pub kill : List ℕ
  pub history : List Text
  pub hist_pos : Option ℕ
  pub stash : List ℕ
  pub esc : Esc
  pub csi_params : List ℕ
  pub search : Option Search
  pub max_line : ℕ
  pub max_history : ℕ

unfoldable pub new : ℕ → ℕ → LineEditor
new max_line max_history = record {
  prompt = [];
  buf = [];
  cursor = 0;
  kill = [];
  history = [];
  hist_pos = none;
  stash = [];
  esc = idle;
  csi_params = [];
  search = none;
  max_line = max_line;
  max_history = max_history;
}

unfoldable pub set_prompt : LineEditor → Text → LineEditor
set_prompt e prompt = record e { prompt = prompt }
