-- ===== src/Vfs/Valid.antt =====
-- Well-formed filesystems: a tree within the caps on nodes and on bytes, whose byte count covers what
-- its files hold. The cap on depth is not part of it.
pub mod Edit
pub mod Create
pub mod Ops
pub mod Files
pub mod Meta
pub mod Rename
pub mod Copy
pub mod New
use mimic_ssh_honeypot.Prelude.{ℕ, ◌+◌, ◌≤◌, ◌<◌, ◌≡◌, List, [], ◌∷◌, length, some}
use mimic_ssh_honeypot.Prelude.Outcome.{Outcome, done}
use mimic_ssh_honeypot.Vfs.Nodes.{Node, NodeId}
use mimic_ssh_honeypot.Vfs.Arena.{Vfs, max_vfs_nodes, max_vfs_bytes}
use mimic_ssh_honeypot.Vfs.Change.{file_len}
use mimic_ssh_honeypot.Vfs.Tree.{IsTree}

-- The bytes that the regular files of the arena hold, unlinked ones included.
unfoldable pub total_bytes : List Node → ℕ
total_bytes [] = 0
total_bytes (n ∷ nodes) = file_len n.kind + total_bytes nodes

pub record IsValid (v : Vfs) : Type 0 where
  pub root_zero : v.root ≡ 0
  pub tree : IsTree v.nodes
  pub nodes_cap : length v.nodes ≤ max_vfs_nodes
  pub covered : total_bytes v.nodes ≤ v.content_bytes
  pub bytes_cap : v.content_bytes ≤ max_vfs_bytes

-- The call returns, and what it returns satisfies `P`.
abbrev pub Ends {ℓ} : {A : Type 0} → (A → Type ℓ) → Outcome A → Type ℓ
Ends {A} P o = (a : A) × (o ≡ done a) × P a

-- The state after an operation on `v` that returns a node id: valid, no node gone, the id in range.
pub record Made (v : Vfs) (r : Vfs × NodeId) : Type 0 where
  pub valid : IsValid r.0
  pub grown : length v.nodes ≤ length r.0.nodes
  pub in_range : r.1 < length r.0.nodes

-- The state after an operation on `v` that adds and drops no node.
pub record Same (v v' : Vfs) : Type 0 where
  pub valid : IsValid v'
  pub size : length v'.nodes ≡ length v.nodes
