-- ===== src/Vfs/Valid/Files.antt =====
-- Creating a file in a directory, writing a file, and making a path of directories, src/vfs/mod.rs, on
-- a valid filesystem.
use mimic_ssh_honeypot.Prelude.{
  ℕ, ◌+◌, ◌-◌, ◌≤◌, ◌<◌, ◌≡◌, Bool, true, false, ◌||◌, Option, none, some, List, [], ◌∷◌, ◌++◌,
  length, get_elem?, Text, arith, ltb, ◌==◌, if◌then◌else◌, Bool-cases, Option-cases, inl, inr,
  refl, ◌∙◌, ℤ, get_elem?-lt, lt_of_get_elem?, is_empty, text_eq, split,
}
use mimic_ssh_honeypot.Prelude.Outcome.{done}
use mimic_ssh_honeypot.Vfs.Metadata
use mimic_ssh_honeypot.Vfs.Metadata.{Metadata, s_ifdir, s_ifreg, s_iflnk}
use mimic_ssh_honeypot.Vfs.Nodes.{Node, NodeId, NodeKind, directory, file, symlink, dynamic_file}
use mimic_ssh_honeypot.Vfs.Arena.{Vfs, set_node, max_vfs_bytes}
use mimic_ssh_honeypot.Vfs.Change.{
  create_file, add_file, add_dynamic_file, write_file, insert_node, add_symlink, touch, mkdir_each,
  mkdir_p, stamp,
}
use mimic_ssh_honeypot.Vfs.Valid.{IsValid, Ends, Made, Same}
use mimic_ssh_honeypot.Vfs.Valid.Edit.{set_node-IsValid, edit_meta-Same}
use mimic_ssh_honeypot.Vfs.Valid.Create.{child_done}
use mimic_ssh_honeypot.Vfs.Valid.Ops.{
  Inserted, insert_node_done, insert_node-Made, existing-Made, overwrite_file-Made, mkdir-Made,
  file_len-le_total,
}

Same-Made : {v v' : Vfs} (id : NodeId) → id < length v.nodes → Same v v' → Made v (v', id)
Same-Made id lt s = record {
  valid = s.valid;
  grown = omega (arith, s.size);
  in_range = omega (arith, s.size);
}

Made-trans : {v v1 : Vfs} (id : NodeId) (r : Vfs × NodeId) → Made v (v1, id) → Made v1 r → Made v r
Made-trans id r a b = record {
  valid = b.valid;
  grown = omega (arith, a.grown, b.grown);
  in_range = b.in_range;
}

module _ (now : ℤ) (v : Vfs) (parent : NodeId) (name : Text) (h : IsValid v)
    (lt : parent < length v.nodes) where
  create_file-Made :
      (contents : List ℕ) (meta : Metadata)
      → Ends (Made v) (create_file v parent name contents meta)
  unfolding create_file
  create_file-Made contents meta =
      elim (Bool-cases (ltb max_vfs_bytes (v.content_bytes + length contents))) [
        | inl over ↦ (
          (v, parent),
          ground (arith, over),
          record { valid = h; grown = omega arith; in_range = lt },
        )
        | inr fits ↦
            let (r, e, w) = insert_node_done v parent name (file contents) meta h lt refl in
            go r fits e w
      ]
    where
      go :
          (r : Vfs × NodeId)
          → ltb max_vfs_bytes (v.content_bytes + length contents) ≡ false
          → insert_node v parent name (file contents) meta ≡ done r
          → Inserted v parent (file contents) r
          → Ends (Made v) (create_file v parent name contents meta)
      go r fits e (inl same) = (
        (v, parent),
        ground (arith, fits, e, same),
        record { valid = h; grown = omega arith; in_range = lt },
      )
      go (v', id) fits e (inr (w, room)) = (
        (record v' { content_bytes = v'.content_bytes + length contents }, id),
        ground (arith, fits, e, w.at_end, lt),
        record {
          valid = record {
            root_zero = w.root_kept ∙ h.root_zero;
            tree = w.tree;
            nodes_cap = omega (arith, w.size);
            covered = omega (arith, w.total, w.bytes_kept, h.covered);
            bytes_cap = ground (arith, w.bytes_kept);
          };
          grown = omega (arith, w.size);
          in_range = omega (arith, w.size, w.at_end);
        },
      )

  -- `add_file` on a valid filesystem returns: no read is out of range, and the byte count does not
  -- underflow. What it leaves is valid: a tree within both caps, its byte count covering its files.
  pub add_file-Made :
      (contents : List ℕ) (perms uid gid : ℕ)
      → Ends (Made v) (add_file now v parent name contents perms uid gid)
  unfolding add_file
  add_file-Made contents perms uid gid =
      let meta = Metadata.new now s_ifreg perms uid gid in
      let (found, e, listed) = child_done v parent name h lt in
      elim (Option-cases found) [
        | inl new ↦
            let (r, er, w) = create_file-Made contents meta in (r, ground (arith, e, new, er), w)
        | inr (c, old) ↦
            let (m, em, _, _) = listed c old in
            let (r, er, w) = overwrite_file-Made now v parent name h lt c contents meta em in
            (r, ground (arith, e, old, er), w)
      ]

  pub add_dynamic_file-Made :
      (generator : ℤ → List ℕ) (perms uid gid : ℕ)
      → Ends (Made v) (add_dynamic_file now v parent name generator perms uid gid)
  unfolding add_dynamic_file
  add_dynamic_file-Made generator perms uid gid =
      let meta = Metadata.new now s_ifreg perms uid gid in
      let (found, e, listed) = child_done v parent name h lt in
      elim (Option-cases found) [
        | inl new ↦
            let (r, er, w) =
              insert_node-Made v parent name (dynamic_file generator) meta h lt refl refl in
            (r, ground (arith, e, new, er), w)
        | inr (c, old) ↦
            let (m, em, _, _) = listed c old in
            let x = record m { kind = dynamic_file generator; meta = meta } in
            let s =
              set_node-IsValid v c m x v.content_bytes h em refl refl (λ P k. tt) (λ k. tt)
                (omega arith) h.bytes_cap in
            (
              (set_node v c x, c),
              ground (arith, e, old, em),
              Same-Made c (lt_of_get_elem? v.nodes c em) s,
            )
      ]

  pub add_symlink-Made : (target : Text) → Ends (Made v) (add_symlink now v parent name target)
  unfolding add_symlink
  add_symlink-Made target =
      let (found, e, listed) = child_done v parent name h lt in
      elim (Option-cases found) [
        | inl new ↦
            let (r, er, w) =
              insert_node-Made v parent name (symlink target) (Metadata.new now s_iflnk 0o777 0 0) h
                lt refl refl in
            (r, ground (arith, e, new, er), w)
        | inr (c, old) ↦
            let (m, em, _, _) = listed c old in
            ((v, c), ground (arith, e, old), existing-Made now v parent name h lt c em)
      ]

  -- `touch` in any node of a valid filesystem returns, whether it creates the file or finds one, and
  -- leaves a valid filesystem with no node lost and the returned id in range.
  pub touch-Made : (uid gid : ℕ) → Ends (Made v) (touch now v parent name uid gid)
  unfolding touch
  touch-Made uid gid =
      let (found, e, listed) = child_done v parent name h lt in
      elim (Option-cases found) [
        | inl new ↦
            let ((v1, id), e1, m1) = add_file-Made [] 0o644 uid gid in
            let (v2, e2, s2) = edit_meta-Same (stamp now) v1 id m1.valid m1.in_range in
            (
              (v2, id),
              ground (arith, e, new, e1, e2),
              Made-trans id (v2, id) m1 (Same-Made id m1.in_range s2),
            )
        | inr (c, old) ↦
            let (m, em, _, _) = listed c old in
            let c_lt = lt_of_get_elem? v.nodes c em in
            let (v2, e2, s2) = edit_meta-Same (stamp now) v c h c_lt in
            ((v2, c), ground (arith, e, old, e2), Same-Made c c_lt s2)
      ]

-- `write_file` on a node of a valid filesystem returns, and leaves a valid filesystem with the same
-- nodes, whether it writes or refuses.
pub write_file-Same :
    (now : ℤ) (v : Vfs) (id : NodeId) (bytes : List ℕ) (append : Bool)
    → IsValid v
    → id < length v.nodes
    → Ends (λ r. Same v r.0) (write_file now v id bytes append)
unfolding write_file
write_file-Same now v id bytes append h lt =
    let (n, e) = get_elem?-lt v.nodes id lt in go n e n.kind refl
  where
    kept : Same v v
    kept = record { valid = h; size = refl }

    go :
        (n : Node)
        → get_elem? v.nodes id ≡ some n
        → (k : NodeKind) → n.kind ≡ k
        → Ends (λ r. Same v r.0) (write_file now v id bytes append)
    go n e (directory m) q = ((v, false), ground (arith, e, q), kept)
    go n e (symlink target) q = ((v, false), ground (arith, e, q), kept)
    go n e (dynamic_file generator) q = ((v, false), ground (arith, e, q), kept)
    go n e (file contents) q =
        let next = if append then contents ++ bytes else bytes in
        let rest = v.content_bytes - length contents in
        let room : length contents ≤ v.content_bytes =
          ground (arith, file_len-le_total v.nodes id e, h.covered, q) in
        elim (Bool-cases (ltb max_vfs_bytes (rest + length next))) [
          | inl over ↦ ((v, false), ground (arith, e, q, over, room), kept)
          | inr fits ↦
              let m = record n { kind = file next; meta = stamp now n.meta } in
              (
                (record (set_node v id m) { content_bytes = rest + length next }, true),
                ground (arith, e, q, fits, room),
                set_node-IsValid v id n m (rest + length next) h e refl refl (λ P k. tt) (λ k. tt)
                    (ground (arith, q, room)) (ground arith),
              )
        ]

-- The state that `mkdir_p` leaves, and the directory that it found or made, if any.
pub record MadeAll (v : Vfs) (r : Vfs × Option NodeId) : Type 0 where
  pub valid : IsValid r.0
  pub grown : length v.nodes ≤ length r.0.nodes
  pub in_range : (id : NodeId) → r.1 ≡ some id → id < length r.0.nodes

mkdir_each-MadeAll :
    (now : ℤ) (v : Vfs) (current : NodeId) (comps : List Text) (perms uid gid : ℕ)
    → IsValid v
    → current < length v.nodes
    → Ends (MadeAll v) (mkdir_each now v current comps perms uid gid)
unfolding mkdir_each
mkdir_each-MadeAll now v current [] perms uid gid h lt = (
  (v, some current),
  refl,
  record { valid = h; grown = omega arith; in_range = λ id e. ground arith },
)
mkdir_each-MadeAll now v current (comp ∷ comps) perms uid gid h lt =
    elim (Bool-cases (is_empty comp || text_eq comp (46 ∷ []))) [
      | inl skip ↦
          let (r, e, w) = mkdir_each-MadeAll now v current comps perms uid gid h lt in
          (r, ground (arith, skip, e), w)
      | inr real ↦
          let ((v1, id), e1, m1) = mkdir-Made now v current comp h lt perms uid gid in
          elim (Bool-cases (id == current)) [
            | inl dropped ↦ (
              (v1, none),
              ground (arith, real, e1, dropped),
              record { valid = m1.valid; grown = m1.grown; in_range = λ i e. cc },
            )
            | inr made ↦
                let (r, e, w) =
                  mkdir_each-MadeAll now v1 id comps perms uid gid m1.valid m1.in_range in
                (
                  r,
                  ground (arith, real, e1, made, e),
                  record {
                    valid = w.valid;
                    grown = omega (arith, m1.grown, w.grown);
                    in_range = w.in_range;
                  },
                )
          ]
    ]

-- `mkdir_p` on a valid filesystem returns for every path, and leaves a valid filesystem with no node
-- lost; a directory that it returns is in range.
pub mkdir_p-MadeAll :
    (now : ℤ) (v : Vfs) (path : Text) (perms uid gid : ℕ)
    → IsValid v
    → Ends (MadeAll v) (mkdir_p now v path perms uid gid)
unfolding mkdir_p
mkdir_p-MadeAll now v path perms uid gid h =
    mkdir_each-MadeAll now v v.root (split 47 path) perms uid gid h
      (rw h.root_zero (lt_of_get_elem? v.nodes 0 h.tree.root_node.1))
