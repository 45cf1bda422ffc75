-- ===== src/Vfs/Tree/Total.antt =====
-- In a tree the bounded walks to the root return, and read no index out of range.
use mimic_ssh_honeypot.Prelude.{
  ℕ, zero, suc, ◌+◌, ◌<◌, ◌≡◌, ◌≢◌, Bool, true, false, none, some, List, [], ◌∷◌, length, get_elem?,
  Text, arith, get_elem?-lt, refl, ◌==◌, leb, if◌then◌else◌, is_empty, Bool-cases, Option-cases,
  inl, inr,
}
use mimic_ssh_honeypot.Prelude.Outcome.{done}
use mimic_ssh_honeypot.Vfs.Nodes.{Node, NodeId}
use mimic_ssh_honeypot.Vfs.Arena.{
  Vfs, depth_loop, depth_of, path_parts, path_of, is_full, ancestor_loop, is_ancestor_of,
  max_vfs_nodes, max_vfs_depth, slash_joined,
}
use mimic_ssh_honeypot.Vfs.Tree.{IsTree, parent-lt, root_of_no_parent, ChainOff, top_off, up_off}

module _ (v : Vfs) (t : IsTree v.nodes) where
  node_done : (id : NodeId) → id < length v.nodes → (n : Node) × (get_elem? v.nodes id ≡ some n)
  node_done id h = get_elem?-lt v.nodes id h

  depth_loop_done :
      (fuel : ℕ) (id : NodeId) (depth : ℕ)
      → id < length v.nodes
      → (d : ℕ) × (depth_loop fuel v id depth ≡ done d)
  unfolding depth_loop
  depth_loop_done zero id depth h =
      let (n, e) = node_done id h in
      elim (Option-cases n.parent) [
        | inl stop ↦ (depth, ground (arith, e, stop))
        | inr (p, go_on) ↦ (depth + 1, ground (arith, e, go_on))
      ]
  depth_loop_done (suc fuel) id depth h =
      let (n, e) = node_done id h in
      elim (Option-cases n.parent) [
        | inl stop ↦ (depth, ground (arith, e, stop))
        | inr (p, go_on) ↦
            let (d, r) = depth_loop_done fuel p (depth + 1) (parent-lt t id e go_on) in
            (d, ground (arith, e, go_on, r))
      ]

  pub depth_of_done : (id : NodeId) → id < length v.nodes → (d : ℕ) × (depth_of v id ≡ done d)
  unfolding depth_of
  depth_of_done id h = depth_loop_done (length v.nodes) id 0 h

  pub is_full_done : (id : NodeId) → id < length v.nodes → (b : Bool) × (is_full v id ≡ done b)
  unfolding is_full
  is_full_done id h =
      let (d, e) = depth_of_done id h in
      elim (Bool-cases (leb max_vfs_nodes (length v.nodes))) [
        | inl full ↦ (true, ground (arith, full))
        | inr room ↦ (leb max_vfs_depth d, ground (arith, room, e))
      ]

  path_parts_done :
      (fuel : ℕ) (id : NodeId) (parts : List Text)
      → id < length v.nodes
      → (out : List Text) × (path_parts fuel v id parts ≡ done out)
  unfolding path_parts
  path_parts_done zero id parts h = (parts, refl)
  path_parts_done (suc fuel) id parts h =
      let (n, e) = node_done id h in
      elim (Option-cases n.parent) [
        | inl stop ↦ (parts, ground (arith, e, stop))
        | inr (p, go_on) ↦
            let (out, r) = path_parts_done fuel p (n.name ∷ parts) (parent-lt t id e go_on) in
            (out, ground (arith, e, go_on, r))
      ]

  pub path_of_done : (id : NodeId) → id < length v.nodes → (s : Text) × (path_of v id ≡ done s)
  unfolding path_of
  path_of_done id h =
      let (parts, e) = path_parts_done (length v.nodes) id [] h in
      (if is_empty parts then 47 ∷ [] else slash_joined parts, ground (arith, e))

  ancestor_none : (fuel : ℕ) (x : NodeId) → (b : Bool) × (ancestor_loop fuel v x none ≡ done b)
  unfolding ancestor_loop
  ancestor_none zero x = (true, refl)
  ancestor_none (suc fuel) x = (false, refl)

  ancestor_loop_done :
      (fuel : ℕ) (x id : NodeId)
      → id < length v.nodes
      → (b : Bool) × (ancestor_loop fuel v x (some id) ≡ done b)
        × (b ≡ false → ChainOff v.nodes x id)
  unfolding ancestor_loop
  ancestor_loop_done zero x id h = (true, refl, λ e. cc)
  ancestor_loop_done (suc fuel) x id h = elim (Bool-cases (id == x)) [
    | inl hit ↦ (true, rw (hit, ancestor_loop), λ e. cc)
    | inr miss ↦
        let (n, e) = node_done id h in
        let ne : id ≢ x = ground arith in
        elim (Option-cases n.parent) [
          | inl stop ↦
              let (b, r) = ancestor_none fuel x in
              (
                b,
                rw (miss, ancestor_loop) (rw e (rw stop r)),
                λ f. top_off ne (root_of_no_parent t id e stop) e stop,
              )
          | inr (p, go_on) ↦
              let (b, r, c) = ancestor_loop_done fuel x p (parent-lt t id e go_on) in
              (b, rw (miss, ancestor_loop) (rw e (rw go_on r)), λ f. up_off ne e go_on (c f))
        ]
  ]

  -- The test returns; where it answers no, the way up from `other` misses `id`.
  pub is_ancestor_of_done :
      (x other : NodeId)
      → other < length v.nodes
      → (b : Bool) × (is_ancestor_of v x other ≡ done b) × (b ≡ false → ChainOff v.nodes x other)
  unfolding is_ancestor_of
  is_ancestor_of_done x other h = ancestor_loop_done (length v.nodes) x other h
