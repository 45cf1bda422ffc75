-- ===== src/Vfs/Valid/Copy.antt =====
-- `deep_copy` of src/vfs/mod.rs returns on every valid filesystem, also into the copied directory
-- itself, and keeps it valid.
use Prim.Native.Nat.{bit_and}
use mimic_ssh_honeypot.Prelude.{
  ℕ, zero, suc, ◌+◌, ◌≤◌, ◌<◌, ◌≡◌, some, [], ◌∷◌, Text, ℤ, length, get_elem?, All, refl, arith,
  get_elem?-lt, lt_of_get_elem?,
}
use mimic_ssh_honeypot.Prelude.Map.{Map}
use mimic_ssh_honeypot.Prelude.Outcome.{Outcome}
use mimic_ssh_honeypot.Vfs.Nodes.{Node, NodeId, NodeKind, directory, file, symlink, dynamic_file}
use mimic_ssh_honeypot.Vfs.Arena.{Vfs, entries, children?}
use mimic_ssh_honeypot.Vfs.Change.{stamp}
use mimic_ssh_honeypot.Vfs.Copy.{copy_each, deep_copy_inner, deep_copy, or_default, max_copy_depth}
use mimic_ssh_honeypot.Vfs.Tree.{children_of, Entry}
use mimic_ssh_honeypot.Vfs.Tree.Edit.{All-map}
use mimic_ssh_honeypot.Vfs.Valid.{IsValid, Ends, Made}
use mimic_ssh_honeypot.Vfs.Valid.Ops.{mkdir-Made, insert_node-Made}
use mimic_ssh_honeypot.Vfs.Valid.Files.{add_file-Made, add_dynamic_file-Made}
use mimic_ssh_honeypot.Vfs.Valid.Rename.{unlink-Same}

-- What copying one node is assumed to do, in the loop over the entries.
abbrev Copies : (Vfs → NodeId → NodeId → Text → Outcome (Vfs × NodeId)) → Type 0
Copies copy =
    (v : Vfs) (src dst : NodeId) (name : Text)
    → IsValid v
    → src < length v.nodes
    → dst < length v.nodes
    → Ends (Made v) (copy v src dst name)

record Grown (v v' : Vfs) : Type 0 where
  valid : IsValid v'
  grown : length v.nodes ≤ length v'.nodes

copy_each-Grown :
    (copy : Vfs → NodeId → NodeId → Text → Outcome (Vfs × NodeId)) (v : Vfs) (dst : NodeId)
    (m : Map NodeId)
    → Copies copy
    → IsValid v
    → dst < length v.nodes
    → All (λ (e : Text × NodeId). e.1 < length v.nodes) m
    → Ends (Grown v) (copy_each copy v dst m)
unfolding copy_each
copy_each-Grown copy v dst [] c h lt a = (v, refl, record { valid = h; grown = omega arith })
copy_each-Grown copy v dst ((name, x) ∷ m) c h lt a =
    let ((v1, id), e1, m1) = c v x dst name h a.0 lt in
    let (v2, e2, g2) =
      copy_each-Grown copy v1 dst m c m1.valid (omega (arith, m1.grown))
        (All-map (λ e (q : e.1 < length v.nodes). omega (arith, m1.grown)) m a.1) in
    (
      v2,
      ground (arith, e1, e2),
      record { valid = g2.valid; grown = omega (arith, m1.grown, g2.grown) },
    )

entries_done :
    (v : Vfs) (id : NodeId)
    → IsValid v
    → id < length v.nodes
    → Ends (λ m. All (λ (e : Text × NodeId). e.1 < length v.nodes) (or_default m)) (entries v id)
unfolding entries
entries_done v id h lt =
    let (n, e) = get_elem?-lt v.nodes id lt in
    (children? n.kind, ground (arith, e), go n.kind (h.tree.linked id n e))
  where
    in_arena : (c : Text × NodeId) → Entry v.nodes id c → c.1 < length v.nodes
    in_arena (name, c) (m, e, p, q) = lt_of_get_elem? v.nodes c e

    go :
        (k : NodeKind)
        → All (Entry v.nodes id) (children_of k)
        → All (λ (e : Text × NodeId). e.1 < length v.nodes) (or_default (children? k))
    go (directory m) a = All-map in_arena m a
    go (file contents) a = tt
    go (symlink target) a = tt
    go (dynamic_file generator) a = tt

deep_copy_inner-Made : (levels : ℕ) (now : ℤ) → Copies (deep_copy_inner levels now)
unfolding deep_copy_inner
deep_copy_inner-Made zero now v src dst name h ls ld =
    ((v, dst), refl, record { valid = h; grown = omega arith; in_range = ld })
deep_copy_inner-Made (suc levels) now v src dst name h ls ld =
    let (n, e) = get_elem?-lt v.nodes src ls in go (deep_copy_inner-Made levels now) n e n.kind refl
  where
    go :
        Copies (deep_copy_inner levels now)
        → (n : Node) → get_elem? v.nodes src ≡ some n
        → (k : NodeKind) → n.kind ≡ k
        → Ends (Made v) (deep_copy_inner (suc levels) now v src dst name)
    go rec n e (file contents) q =
        let (r, er, w) =
          add_file-Made now v dst name h ld contents (bit_and n.meta.mode 0o7777) n.meta.uid
            n.meta.gid in
        (r, ground (arith, e, q, er), w)
    go rec n e (dynamic_file generator) q =
        let (r, er, w) =
          add_dynamic_file-Made now v dst name h ld generator (bit_and n.meta.mode 0o7777)
            n.meta.uid n.meta.gid in
        (r, ground (arith, e, q, er), w)
    go rec n e (symlink target) q =
        let ((v1, old), e1, s1) = unlink-Same v dst name h ld in
        let (r, er, w) =
          insert_node-Made v1 dst name (symlink target) (stamp now n.meta) s1.valid
            (omega (arith, s1.size)) refl refl in
        (
          r,
          ground (arith, e, q, e1, er),
          record {
            valid = w.valid;
            grown = omega (arith, w.grown, s1.size);
            in_range = w.in_range;
          },
        )
    go rec n e (directory m) q =
        let ((v1, dir), e1, m1) =
          mkdir-Made now v dst name h ld (bit_and n.meta.mode 0o7777) n.meta.uid n.meta.gid in
        let (children, e2, all) = entries_done v1 src m1.valid (omega (arith, m1.grown)) in
        let (v2, e3, g) =
          copy_each-Grown (deep_copy_inner levels now) v1 dir (or_default children) rec m1.valid
            m1.in_range all in
        (
          (v2, dir),
          ground (arith, e, q, e1, e2, e3),
          record {
            valid = g.valid;
            grown = omega (arith, m1.grown, g.grown);
            in_range = omega (arith, m1.in_range, g.grown);
          },
        )

-- `deep_copy` of any node into any directory or other node of a valid filesystem returns, and the
-- result is valid: a tree within both caps, with no node lost and the returned id in range.
pub deep_copy-Made :
    (now : ℤ) (v : Vfs) (src dst_parent : NodeId) (dst_name : Text)
    → IsValid v
    → src < length v.nodes
    → dst_parent < length v.nodes
    → Ends (Made v) (deep_copy now v src dst_parent dst_name)
unfolding deep_copy
deep_copy-Made now v src dst name h ls ld =
    deep_copy_inner-Made (max_copy_depth + 1) now v src dst name h ls ld
