-- ===== src/Vfs/Valid/Edit.antt =====
-- Writes to one node that keep the filesystem valid.
use mimic_ssh_honeypot.Prelude.{
  ℕ, zero, suc, ◌+◌, ◌≤◌, ◌<◌, ◌≡◌, some, List, [], ◌∷◌, ◌++◌, length, get_elem?, set, All, Text,
  arith, get_elem?-lt, length-set, refl,
}
use mimic_ssh_honeypot.Prelude.Map.{Map, remove, DistinctKeys, All-remove, remove-DistinctKeys}
use mimic_ssh_honeypot.Vfs.Nodes.{Node, NodeId, NodeKind, directory, file, symlink, dynamic_file}
use mimic_ssh_honeypot.Vfs.Metadata.{Metadata}
use mimic_ssh_honeypot.Vfs.Arena.{Vfs, set_node, max_vfs_bytes}
use mimic_ssh_honeypot.Vfs.Change.{file_len, with_children, edit_children, edit_meta}
use mimic_ssh_honeypot.Vfs.Tree.{children_of}
use mimic_ssh_honeypot.Vfs.Tree.Edit.{IsTree-set_less}
use mimic_ssh_honeypot.Vfs.Valid.{IsValid, total_bytes, Ends, Same}

pub total_bytes-set :
    (nodes : List Node) (id : NodeId) (n m : Node)
    → get_elem? nodes id ≡ some n
    → total_bytes (set nodes id m) + file_len n.kind ≡ total_bytes nodes + file_len m.kind
unfolding total_bytes
total_bytes-set [] id n m e = cc
total_bytes-set (x ∷ nodes) zero n m e = ground arith
total_bytes-set (x ∷ nodes) (suc id) n m e = omega (arith, total_bytes-set nodes id n m e)

pub total_bytes-append :
    (nodes : List Node) (x : Node)
    → total_bytes (nodes ++ x ∷ []) ≡ total_bytes nodes + file_len x.kind
unfolding total_bytes
total_bytes-append [] x = omega arith
total_bytes-append (y ∷ nodes) x = omega (arith, total_bytes-append nodes x)

pub All-with_children :
    (P : Text × NodeId → Type 0) (f : Map NodeId → Map NodeId) (k : NodeKind)
    → ((m : Map NodeId) → All P m → All P (f m))
    → All P (children_of k)
    → All P (children_of (with_children f k))
All-with_children P f (directory m) g h = g m h
All-with_children P f (file contents) g h = h
All-with_children P f (symlink target) g h = h
All-with_children P f (dynamic_file generator) g h = h

pub with_children-DistinctKeys :
    (f : Map NodeId → Map NodeId) (k : NodeKind)
    → ((m : Map NodeId) → DistinctKeys m → DistinctKeys (f m))
    → DistinctKeys (children_of k)
    → DistinctKeys (children_of (with_children f k))
with_children-DistinctKeys f (directory m) g h = g m h
with_children-DistinctKeys f (file contents) g h = h
with_children-DistinctKeys f (symlink target) g h = h
with_children-DistinctKeys f (dynamic_file generator) g h = h

pub file_len-with_children :
    (f : Map NodeId → Map NodeId) (k : NodeKind) → file_len (with_children f k) ≡ file_len k
file_len-with_children f (directory m) = refl
file_len-with_children f (file contents) = refl
file_len-with_children f (symlink target) = refl
file_len-with_children f (dynamic_file generator) = refl

-- A write that keeps the name and the parent, lists no more, and keeps the books.
pub set_node-IsValid :
    (v : Vfs) (id : NodeId) (n m : Node) (bytes : ℕ)
    → IsValid v
    → get_elem? v.nodes id ≡ some n
    → m.parent ≡ n.parent
    → m.name ≡ n.name
    → ((P : Text × NodeId → Type 0) → All P (children_of n.kind) → All P (children_of m.kind))
    → (DistinctKeys (children_of n.kind) → DistinctKeys (children_of m.kind))
    → v.content_bytes + file_len m.kind ≤ bytes + file_len n.kind
    → bytes ≤ max_vfs_bytes
    → Same v (record (set_node v id m) { content_bytes = bytes })
set_node-IsValid v id n m bytes h e p q less keys books cap = record {
  valid = record {
    root_zero = h.root_zero;
    tree = IsTree-set_less id n m h.tree e p q less keys;
    nodes_cap = omega (arith, length-set {0} v.nodes id m, h.nodes_cap);
    covered = omega (arith, total_bytes-set v.nodes id n m e, h.covered);
    bytes_cap = cap;
  };
  size = length-set v.nodes id m;
}

pub edit_children-remove :
    (v : Vfs) (id : NodeId) (name : Text)
    → IsValid v
    → id < length v.nodes
    → Ends (Same v) (edit_children (remove name) v id)
unfolding edit_children
edit_children-remove v id name h lt =
    let (n, e) = get_elem?-lt v.nodes id lt in
    let m = record n { kind = with_children (remove name) n.kind } in
    (
      set_node v id m,
      ground (arith, e),
      set_node-IsValid v id n m v.content_bytes h e refl refl
          (λ P. All-with_children P (remove name) n.kind (All-remove P name))
          (with_children-DistinctKeys (remove name) n.kind (remove-DistinctKeys name))
          (omega (arith, file_len-with_children (remove name) n.kind)) h.bytes_cap,
    )

pub edit_meta-Same :
    (f : Metadata → Metadata) (v : Vfs) (id : NodeId)
    → IsValid v
    → id < length v.nodes
    → Ends (Same v) (edit_meta f v id)
unfolding edit_meta
edit_meta-Same f v id h lt =
    let (n, e) = get_elem?-lt v.nodes id lt in
    let m = record n { meta = f n.meta } in
    (
      set_node v id m,
      ground (arith, e),
      set_node-IsValid v id n m v.content_bytes h e refl refl (λ P k. k) (λ k. k) (omega arith)
          h.bytes_cap,
    )
