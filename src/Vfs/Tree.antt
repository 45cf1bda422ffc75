-- ===== src/Vfs/Tree.antt =====
-- The arena as a tree: every node hangs below the root by its parents, and each entry of a
-- directory names a node that has the directory as its parent and the entry's name as its own.
pub mod Edit
pub mod Move
pub mod Total
pub mod Height
use mimic_ssh_honeypot.Prelude.{
  ℕ, ◌<◌, ◌≡◌, ◌≢◌, Option, none, some, List, [], length, get_elem?, All, Text, arith, get_elem?-lt,
  lt_of_get_elem?, refl, sym, ◌∙◌, ap,
}
use mimic_ssh_honeypot.Prelude.Map.{Map, DistinctKeys}
use mimic_ssh_honeypot.Vfs.Nodes.{Node, NodeId, NodeKind, directory}

-- The way up from `id` ends at the root, node 0.
pub data Chain (nodes : List Node) : NodeId → Type 0 where
  top :
      {id : NodeId} {n : Node}
      → id ≡ 0
      → get_elem? nodes id ≡ some n
      → n.parent ≡ none
      → Chain nodes id
  up :
      {id p : NodeId} {n : Node}
      → get_elem? nodes id ≡ some n
      → n.parent ≡ some p
      → Chain nodes p
      → Chain nodes id

-- The way up from `id` ends at the root and does not pass `x`.
pub data ChainOff (nodes : List Node) (x : NodeId) : NodeId → Type 0 where
  top_off :
      {id : NodeId} {n : Node}
      → id ≢ x
      → id ≡ 0
      → get_elem? nodes id ≡ some n
      → n.parent ≡ none
      → ChainOff nodes x id
  up_off :
      {id p : NodeId} {n : Node}
      → id ≢ x
      → get_elem? nodes id ≡ some n
      → n.parent ≡ some p
      → ChainOff nodes x p
      → ChainOff nodes x id

abbrev pub children_of : NodeKind → Map NodeId
children_of (directory children) = children
children_of _ = []

abbrev pub Entry : List Node → NodeId → Text × NodeId → Type 0
Entry nodes dir (name, c) =
    (m : Node) × (get_elem? nodes c ≡ some m) × (m.parent ≡ some dir) × (m.name ≡ name)

pub record IsTree (nodes : List Node) : Type 0 where
  pub root_node : (n : Node) × (get_elem? nodes 0 ≡ some n) × (n.parent ≡ none)
  pub chain : (id : NodeId) → id < length nodes → Chain nodes id
  pub linked :
      (id : NodeId) (n : Node)
      → get_elem? nodes id ≡ some n
      → All (Entry nodes id) (children_of n.kind)
  pub distinct :
      (id : NodeId) (n : Node) → get_elem? nodes id ≡ some n → DistinctKeys (children_of n.kind)

pub Chain-lt : {nodes : List Node} {id : NodeId} → Chain nodes id → id < length nodes
Chain-lt {nodes} {id} (top z e p) = lt_of_get_elem? nodes id e
Chain-lt {nodes} {id} (up e p c) = lt_of_get_elem? nodes id e

-- A parent is a node of the arena, and only the root has none.
pub parent-lt :
    {nodes : List Node} (t : IsTree nodes) (id : NodeId) {p : NodeId} {n : Node}
    → get_elem? nodes id ≡ some n
    → n.parent ≡ some p
    → p < length nodes
parent-lt {nodes} t id {p} {n} e q = go (t.chain id (lt_of_get_elem? nodes id e))
  where
    go : Chain nodes id → p < length nodes
    go (top z e' none') = ground arith
    go (up {p = p'} {n = n'} e' q' c) = ground (arith, Chain-lt c)

pub root_of_no_parent :
    {nodes : List Node} (t : IsTree nodes) (id : NodeId) {n : Node}
    → get_elem? nodes id ≡ some n
    → n.parent ≡ none
    → id ≡ 0
root_of_no_parent {nodes} t id {n} e q = go (t.chain id (lt_of_get_elem? nodes id e))
  where
    go : Chain nodes id → id ≡ 0
    go (top z e' none') = z
    go (up {p = p'} {n = n'} e' q' c) = ground arith
