-- ===== src/Vfs/Valid/Create.antt =====
-- Creating nodes keeps the filesystem valid, and always returns.
use mimic_ssh_honeypot.Prelude.{
  suc, ◌+◌, ◌<◌, ◌≡◌, some, List, [], ◌∷◌, ◌++◌, length, get_elem?, set, All, Text, arith, refl,
  get_elem?-lt, get_elem?-append, get_elem?-append_end, length-set, length-append,
}
use mimic_ssh_honeypot.Prelude.Map.{insert, All-insert, All-lookup, insert-DistinctKeys}
use mimic_ssh_honeypot.Vfs.Metadata.{Metadata}
use mimic_ssh_honeypot.Vfs.Nodes.{Node, NodeId, NodeKind, directory, file, symlink, dynamic_file}
use mimic_ssh_honeypot.Vfs.Arena.{Vfs, set_node, child, child_in, children?}
use mimic_ssh_honeypot.Vfs.Change.{file_len, with_children, edit_children, link_new}
use mimic_ssh_honeypot.Vfs.Tree.{IsTree, children_of, Entry}
use mimic_ssh_honeypot.Vfs.Tree.Edit.{IsTree-set, IsTree-append, Keeps-set, Keeps-Entry, All-map}
use mimic_ssh_honeypot.Vfs.Valid.{IsValid, total_bytes, Ends}
use mimic_ssh_honeypot.Vfs.Valid.Edit.{
  total_bytes-set, total_bytes-append, with_children-DistinctKeys, file_len-with_children,
}

-- What a directory lists is in the arena.
pub child_done :
    (v : Vfs) (dir : NodeId) (name : Text)
    → IsValid v
    → dir < length v.nodes
    → Ends
        (λ found.
          (c : NodeId)
          → found ≡ some c
          → (m : Node) × (get_elem? v.nodes c ≡ some m) × (m.parent ≡ some dir) × (m.name ≡ name))
        (child v dir name)
unfolding child
child_done v dir name h lt =
    let (n, e) = get_elem?-lt v.nodes dir lt in
    (
      child_in name (children? n.kind),
      ground (arith, e),
      λ c q. listed n.kind (h.tree.linked dir n e) c q,
    )
  where
    listed :
        (k : NodeKind)
        → All (Entry v.nodes dir) (children_of k)
        → (c : NodeId) → child_in name (children? k) ≡ some c
        → Entry v.nodes dir (name, c)
    listed (directory m) a c q = All-lookup (Entry v.nodes dir) name m a q
    listed (file contents) a c q = cc
    listed (symlink target) a c q = cc
    listed (dynamic_file generator) a c q = cc

All-with_insert :
    (P : Text × NodeId → Type 0) (name : Text) (id : NodeId) (k : NodeKind)
    → P (name, id)
    → All P (children_of k)
    → All P (children_of (with_children (insert name id) k))
All-with_insert P name id (directory m) p h = All-insert P name id m p h
All-with_insert P name id (file contents) p h = h
All-with_insert P name id (symlink target) p h = h
All-with_insert P name id (dynamic_file generator) p h = h

-- Listing a node under a directory that is its parent, by its name.
pub IsTree-link :
    (nodes : List Node) (dir id : NodeId) (n x : Node)
    → IsTree nodes
    → get_elem? nodes dir ≡ some n
    → get_elem? nodes id ≡ some x
    → x.parent ≡ some dir
    → IsTree (set nodes dir (record n { kind = with_children (insert x.name id) n.kind }))
IsTree-link nodes dir id n x t e ex px =
    let m = record n { kind = with_children (insert x.name id) n.kind } in
    let k = Keeps-set nodes dir n m e refl refl in
    IsTree-set dir n m t e refl refl
      (All-with_insert (Entry (set nodes dir m) dir) x.name id n.kind
        (Keeps-Entry k dir (x.name, id) (x, ex, px, refl))
        (All-map (Keeps-Entry k dir) (children_of n.kind) (t.linked dir n e)))
      (with_children-DistinctKeys (insert x.name id) n.kind (insert-DistinctKeys x.name id)
        (t.distinct dir n e))

-- The state that `link_new` leaves: one more node at the end of the arena, still a tree.
pub record Linked (v : Vfs) (kind : NodeKind) (r : Vfs × NodeId) : Type 0 where
  pub tree : IsTree r.0.nodes
  pub root_kept : r.0.root ≡ v.root
  pub at_end : r.1 ≡ length v.nodes
  pub size : length r.0.nodes ≡ suc (length v.nodes)
  pub total : total_bytes r.0.nodes ≡ total_bytes v.nodes + file_len kind
  pub bytes_kept : r.0.content_bytes ≡ v.content_bytes

pub link_new_done :
    (v : Vfs) (parent : NodeId) (name : Text) (kind : NodeKind) (meta : Metadata)
    → IsValid v
    → parent < length v.nodes
    → children_of kind ≡ []
    → Ends (Linked v kind) (link_new v parent name kind meta)
unfolding link_new edit_children
link_new_done v parent name kind meta h lt plain =
    let x : Node = record { name = name; parent = some parent; kind = kind; meta = meta } in
    let nodes = v.nodes ++ x ∷ [] in
    let (p, e) = get_elem?-lt v.nodes parent lt in
    let e' = get_elem?-append v.nodes (x ∷ []) parent lt in
    let m = record p { kind = with_children (insert name (length v.nodes)) p.kind } in
    let w : Vfs = record v { nodes = nodes } in
    let grown : length nodes ≡ suc (length v.nodes) =
      omega (arith, length-append {0} v.nodes (x ∷ [])) in
    (
      (set_node w parent m, length v.nodes),
      ground (arith, e, e'),
      record {
        tree =
            IsTree-link nodes parent (length v.nodes) p x
              (IsTree-append x parent h.tree lt refl plain) (ground (arith, e, e'))
              (get_elem?-append_end v.nodes x) refl;
        root_kept = refl;
        at_end = refl;
        size = omega (arith, grown, length-set {0} nodes parent m);
        total = omega (
          arith,
          total_bytes-set nodes parent p m (ground (arith, e, e')),
          total_bytes-append v.nodes x,
          file_len-with_children (insert name (length v.nodes)) p.kind,
        );
        bytes_kept = refl;
      },
    )
