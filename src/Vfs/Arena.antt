-- ===== src/Vfs/Arena.antt =====
-- The arena and what only reads it, of src/vfs/mod.rs. An index out of the arena panics.
use mimic_ssh_honeypot.Prelude.{
  ℕ, zero, suc, ◌+◌, ◌*◌, max, Bool, true, false, Option, none, some, List, [], ◌∷◌, ◌++◌, leb,
  ◌==◌, if◌then◌else◌, Text, ℤ, length, get_elem?, set, is_empty,
}
use mimic_ssh_honeypot.Prelude.Map.{Map, lookup}
use mimic_ssh_honeypot.Prelude.Outcome.{Outcome, done, exhausted, ◌>>=◌, or_panic}
use mimic_ssh_honeypot.Vfs.Metadata
use mimic_ssh_honeypot.Vfs.Metadata.{s_ifdir}
use mimic_ssh_honeypot.Vfs.Nodes.{Node, NodeId, NodeKind, directory}

abbrev pub max_symlink_depth : ℕ
max_symlink_depth = 40

abbrev pub max_vfs_nodes : ℕ
max_vfs_nodes = 2000

abbrev pub max_vfs_bytes : ℕ
max_vfs_bytes = 8 * 1024 * 1024

abbrev pub max_vfs_depth : ℕ
max_vfs_depth = 128

pub record Vfs : Type 0 where
  pub nodes : List Node
  pub root : NodeId
  pub content_bytes : ℕ

-- `Vfs::new`, at the time `now`.
unfoldable pub new : ℤ → Vfs
new now = record {
  nodes =
      record {
        name = [];
        parent = none;
        kind = directory [];
        meta = Metadata.new now s_ifdir 0o755 0 0;
      }
      ∷ [];
  root = 0;
  content_bytes = 0;
}

-- `&self.nodes[id]`
abbrev pub node : Vfs → NodeId → Outcome Node
node v id = or_panic (get_elem? v.nodes id)

-- An assignment to `self.nodes[id]`, which has been read.
abbrev pub set_node : Vfs → NodeId → Node → Vfs
set_node v id n = record v { nodes = set v.nodes id n }

abbrev pub children? : NodeKind → Option (Map NodeId)
children? (directory children) = some children
children? _ = none

abbrev pub child_in : Text → Option (Map NodeId) → Option NodeId
child_in name none = none
child_in name (some children) = lookup name children

unfoldable pub child : Vfs → NodeId → Text → Outcome (Option NodeId)
child v dir name = do n ← node v dir; done (child_in name (children? n.kind))

unfoldable pub entries : Vfs → NodeId → Outcome (Option (Map NodeId))
entries v id = do n ← node v id; done (children? n.kind)

-- The names on the way up from `current`, the nearest last, for at most `fuel` rounds. `parts`
-- has the farthest name first, as the source has it after its `reverse`.
unfoldable pub path_parts : ℕ → Vfs → NodeId → List Text → Outcome (List Text)
path_parts zero v current parts = done parts
path_parts (suc fuel) v current parts = do
  n ← node v current
  elim n.parent [ none ↦ done parts | some parent ↦ path_parts fuel v parent (n.name ∷ parts) ]

-- `"/"` before each part.
unfoldable pub slash_joined : List Text → Text
slash_joined [] = []
slash_joined (part ∷ parts) = 47 ∷ (part ++ slash_joined parts)

unfoldable pub path_of : Vfs → NodeId → Outcome Text
unfolding path_parts slash_joined
path_of v id = do
  parts ← path_parts (length v.nodes) v id []
  done (if is_empty parts then 47 ∷ [] else slash_joined parts)

-- The loop of `depth_of`: `fuel` is how often `depth` may still grow before the `break`.
unfoldable pub depth_loop : ℕ → Vfs → NodeId → ℕ → Outcome ℕ
depth_loop zero v current depth = do
  n ← node v current
  done (elim n.parent [ none ↦ depth | some parent ↦ depth + 1 ])
depth_loop (suc fuel) v current depth = do
  n ← node v current
  elim n.parent [ none ↦ done depth | some parent ↦ depth_loop fuel v parent (depth + 1) ]

unfoldable pub depth_of : Vfs → NodeId → Outcome ℕ
unfolding depth_loop
depth_of v id = depth_loop (length v.nodes) v id 0

-- The entries that `height_of` pushes, in order; the head of a stack is its top.
unfoldable pub push_children : ℕ → Map NodeId → List (NodeId × ℕ) → List (NodeId × ℕ)
push_children h [] stack = stack
push_children h ((name, c) ∷ children) stack = push_children h children ((c, h) ∷ stack)

unfoldable pub push_kind : ℕ → Option (Map NodeId) → List (NodeId × ℕ) → List (NodeId × ℕ)
unfolding push_children
push_kind h none stack = stack
push_kind h (some children) stack = push_children h children stack

-- The loop of `height_of`, with as many pops as fuel.
unfoldable pub height_loop : ℕ → Vfs → List (NodeId × ℕ) → ℕ → Outcome ℕ
unfolding push_kind
height_loop fuel v [] height = done height
height_loop zero v (top ∷ stack) height = exhausted
height_loop (suc fuel) v ((id, h) ∷ stack) height = do
  n ← node v id
  height_loop fuel v (push_kind (h + 1) (children? n.kind) stack) (max height h)

-- A pop for each node of the arena is enough where the arena is a tree.
unfoldable pub height_of : Vfs → NodeId → Outcome ℕ
unfolding height_loop
height_of v id = height_loop (length v.nodes) v ((id, 0) ∷ []) 0

unfoldable pub is_full : Vfs → NodeId → Outcome Bool
unfolding depth_of
is_full v parent =
    if leb max_vfs_nodes (length v.nodes)
    then done true
    else do depth ← depth_of v parent; done (leb max_vfs_depth depth)

-- The loop of `is_ancestor_of`, for at most `fuel` rounds.
unfoldable pub ancestor_loop : ℕ → Vfs → NodeId → Option NodeId → Outcome Bool
ancestor_loop zero v id current = done true
ancestor_loop (suc fuel) v id none = done false
ancestor_loop (suc fuel) v id (some c) = elim (c == id) [
  | true ↦ done true
  | false ↦ do n ← node v c; ancestor_loop fuel v id n.parent
]

unfoldable pub is_ancestor_of : Vfs → NodeId → NodeId → Outcome Bool
unfolding ancestor_loop
is_ancestor_of v id other = ancestor_loop (length v.nodes) v id (some other)
