-- ===== src/Vfs/Valid/Ops.antt =====
-- The creating operations of src/vfs/mod.rs, each on a valid filesystem.
use mimic_ssh_honeypot.Prelude.{
  ℕ, zero, suc, ◌+◌, ◌-◌, ◌≤◌, ◌<◌, ◌≡◌, Bool, true, false, some, List, [], ◌∷◌, ◌⊎◌, length,
  get_elem?, Text, arith, ltb, leb, Bool-cases, Option-cases, inl, inr, refl, ap, ◌∙◌, ℤ,
  lt_of_get_elem?,
}
use mimic_ssh_honeypot.Prelude.Outcome.{done}
use mimic_ssh_honeypot.Vfs.Metadata
use mimic_ssh_honeypot.Vfs.Metadata.{Metadata, s_ifdir, s_ifreg, s_iflnk}
use mimic_ssh_honeypot.Vfs.Nodes.{Node, NodeId, NodeKind, directory, file}
use mimic_ssh_honeypot.Vfs.Arena.{Vfs, set_node, is_full, max_vfs_bytes, max_vfs_nodes}
use mimic_ssh_honeypot.Vfs.Change.{file_len, insert_node, mkdir, overwrite_file}
use mimic_ssh_honeypot.Vfs.Tree.{children_of}
use mimic_ssh_honeypot.Vfs.Tree.Total.{is_full_done}
use mimic_ssh_honeypot.Vfs.Valid.{IsValid, total_bytes, Ends, Made}
use mimic_ssh_honeypot.Vfs.Valid.Edit.{set_node-IsValid}
use mimic_ssh_honeypot.Vfs.Valid.Create.{child_done, link_new_done, Linked}

pub room_of_not_full :
    (v : Vfs) (parent : NodeId)
    → is_full v parent ≡ done false
    → suc (length v.nodes) ≤ max_vfs_nodes
unfolding is_full
room_of_not_full v parent e = elim (Bool-cases (leb max_vfs_nodes (length v.nodes))) [
  | inl full ↦ absurd (go full (rw full at e))
  | inr room ↦ ground arith
]
  where
    go : {b : Bool} → b ≡ true → done true ≡ done false → ⊥
    go q k = cc

-- `insert` as its callers see it: dropped, with `parent` handed back, or the node is in.
abbrev pub Inserted : Vfs → NodeId → NodeKind → Vfs × NodeId → Type 0
Inserted v parent kind r =
    (r ≡ (v, parent)) ⊎ (Linked v kind r × (suc (length v.nodes) ≤ max_vfs_nodes))

pub insert_node_done :
    (v : Vfs) (parent : NodeId) (name : Text) (kind : NodeKind) (meta : Metadata)
    → IsValid v
    → parent < length v.nodes
    → children_of kind ≡ []
    → Ends (Inserted v parent kind) (insert_node v parent name kind meta)
unfolding insert_node
insert_node_done v parent name kind meta h lt plain =
    let (full, e) = is_full_done v h.tree parent lt in
    elim (Bool-cases full) [
      | inl yes' ↦ ((v, parent), ground (arith, e, yes'), inl refl)
      | inr no' ↦
          let room = room_of_not_full v parent (e ∙ ap done no') in
          let (r, er, w) = link_new_done v parent name kind meta h lt plain in
          (r, ground (arith, e, no', er), inr (w, room))
    ]

-- A node that holds no file bytes.
pub insert_node-Made :
    (v : Vfs) (parent : NodeId) (name : Text) (kind : NodeKind) (meta : Metadata)
    → IsValid v
    → parent < length v.nodes
    → children_of kind ≡ []
    → file_len kind ≡ 0
    → Ends (Made v) (insert_node v parent name kind meta)
insert_node-Made v parent name kind meta h lt plain bare =
    let (r, e, w) = insert_node_done v parent name kind meta h lt plain in (r, e, go r w)
  where
    go : (r : Vfs × NodeId) → Inserted v parent kind r → Made v r
    go r (inl same) = rw same (record { valid = h; grown = omega arith; in_range = lt })
    go r (inr (w, room)) = record {
      valid = record {
        root_zero = w.root_kept ∙ h.root_zero;
        tree = w.tree;
        nodes_cap = omega arith;
        covered = omega (arith, h.covered);
        bytes_cap = omega (arith, h.bytes_cap);
      };
      grown = omega arith;
      in_range = omega arith;
    }

-- What one file holds is part of the whole.
pub file_len-le_total :
    (nodes : List Node) (id : NodeId) {n : Node}
    → get_elem? nodes id ≡ some n
    → file_len n.kind ≤ total_bytes nodes
unfolding total_bytes
file_len-le_total [] id e = cc
file_len-le_total (x ∷ nodes) zero e = ground arith
file_len-le_total (x ∷ nodes) (suc id) e = omega (arith, file_len-le_total nodes id e)

module _ (now : ℤ) (v : Vfs) (parent : NodeId) (name : Text) (h : IsValid v)
    (lt : parent < length v.nodes) where
  -- Handing an existing child back.
  pub existing-Made : (c : NodeId) {m : Node} → get_elem? v.nodes c ≡ some m → Made v (v, c)
  existing-Made c e = record {
    valid = h;
    grown = omega arith;
    in_range = lt_of_get_elem? v.nodes c e;
  }

  -- `mkdir` in any node of a valid filesystem returns, for every name and permissions, and leaves a
  -- valid filesystem with no node lost and the returned id in range.
  pub mkdir-Made : (perms uid gid : ℕ) → Ends (Made v) (mkdir now v parent name perms uid gid)
  unfolding mkdir
  mkdir-Made perms uid gid =
      let (found, e, listed) = child_done v parent name h lt in
      elim (Option-cases found) [
        | inl new ↦
            let (r, er, w) =
              insert_node-Made v parent name (directory []) (Metadata.new now s_ifdir perms uid gid)
                h lt refl refl in
            (r, ground (arith, e, new, er), w)
        | inr (c, old) ↦
            let (m, em, _, _) = listed c old in ((v, c), ground (arith, e, old), existing-Made c em)
      ]

  -- The overwrite gives the old buffer back; a directory or link that it replaces counts nothing.
  pub overwrite_file-Made :
      (c : NodeId) {x : Node} (contents : List ℕ) (meta : Metadata)
      → get_elem? v.nodes c ≡ some x
      → Ends (Made v) (overwrite_file v c contents meta)
  unfolding overwrite_file
  overwrite_file-Made c {x} contents meta e =
      let rest = v.content_bytes - file_len x.kind in
      let enough = file_len-le_total v.nodes c e in
      elim (Bool-cases (ltb max_vfs_bytes (rest + length contents))) [
        | inl over ↦ ((v, c), ground (arith, e, over, h.covered), existing-Made c e)
        | inr fits ↦
            let m = record x { kind = file contents; meta = meta } in
            let s =
              set_node-IsValid v c x m (rest + length contents) h e refl refl (λ P k. tt) (λ k. tt)
                (omega (arith, h.covered)) (ground arith) in
            (
              (record (set_node v c m) { content_bytes = rest + length contents }, c),
              ground (arith, e, fits, h.covered),
              record {
                valid = s.valid;
                grown = omega (arith, s.size);
                in_range = omega (arith, s.size, lt_of_get_elem? {0} v.nodes c e);
              },
            )
      ]
