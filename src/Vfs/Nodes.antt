-- ===== src/Vfs/Nodes.antt =====
-- Nodes of the in-memory filesystem, src/vfs/nodes.rs. A dynamic file's generator is a function
-- pointer whose output may depend on when it runs, so it is a function of the time.
use mimic_ssh_honeypot.Prelude.{ℕ, Option, none, some, List, Text, ℤ}
use mimic_ssh_honeypot.Prelude.Map.{Map}
use mimic_ssh_honeypot.Vfs.Metadata.{Metadata}

abbrev pub NodeId : Type 0
NodeId = ℕ

pub data NodeKind : Type 0 where
  directory : Map NodeId → NodeKind
  file : List ℕ → NodeKind
  symlink : Text → NodeKind
  dynamic_file : (ℤ → List ℕ) → NodeKind

pub record Node : Type 0 where
  pub name : Text
  pub parent : Option NodeId
  pub kind : NodeKind
  pub meta : Metadata

-- `Node::file_bytes`, read at the time `now`.
unfoldable pub file_bytes : ℤ → Node → Option (List ℕ)
file_bytes now n = elim n.kind [
  | file contents ↦ some contents
  | dynamic_file generator ↦ some (generator now)
  | _ ↦ none
]
