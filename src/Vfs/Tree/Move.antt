-- ===== src/Vfs/Tree/Move.antt =====
-- Giving a node another parent leaves the arena a tree, if no directory lists the node and the way
-- up from the new parent does not pass it.
use mimic_ssh_honeypot.Prelude.{
  ◌<◌, ◌≡◌, ◌≢◌, some, List, length, get_elem?, set, All, Text, arith, lt_of_get_elem?,
  get_elem?-set_self, get_elem?-set_ne, length-set, sym, ◌∙◌, ◌==◌, Bool-cases, inl, inr,
}
use mimic_ssh_honeypot.Vfs.Nodes.{Node, NodeId}
use mimic_ssh_honeypot.Vfs.Tree.{
  Chain, top, up, ChainOff, top_off, up_off, children_of, Entry, IsTree,
}
use mimic_ssh_honeypot.Vfs.Tree.Edit.{All-map, All-both, get_elem?-set_cases}

-- No directory lists `x`.
pub record Unlisted (x : NodeId) (nodes : List Node) : Type 0 where
  pub unlisted :
      (d : NodeId) (n : Node)
      → get_elem? nodes d ≡ some n
      → All (λ (e : Text × NodeId). e.1 ≢ x) (children_of n.kind)

module _ {nodes : List Node} (x : NodeId) (n m : Node) (np : NodeId) (t : IsTree nodes)
    (e : get_elem? nodes x ≡ some n) (q : m.parent ≡ some np)
    (same : children_of m.kind ≡ children_of n.kind) (free : Unlisted x nodes)
    (off : ChainOff nodes x np) where
  in_range : x < length nodes
  in_range = lt_of_get_elem? nodes x e

  elsewhere : (j : NodeId) → j ≢ x → get_elem? (set nodes x m) j ≡ get_elem? nodes j
  elsewhere j ne = get_elem?-set_ne nodes x j m (λ h. ne (sym h))

  Chain-off : {j : NodeId} → ChainOff nodes x j → Chain (set nodes x m) j
  Chain-off (top_off {id = j} o z h p) = top z (elsewhere j o ∙ h) p
  Chain-off (up_off {id = j} o h p c) = up (elsewhere j o ∙ h) p (Chain-off c)

  moved : Chain (set nodes x m) x
  moved = up (get_elem?-set_self nodes x m in_range) q (Chain-off off)

  Chain-moved : {j : NodeId} → Chain nodes j → Chain (set nodes x m) j
  Chain-moved (top {id = j} z h p) = elim (Bool-cases (j == x)) [
    | inl eq ↦ let at : j ≡ x = ground arith in rw at moved
    | inr ne ↦ top z (elsewhere j (ground arith) ∙ h) p
  ]
  Chain-moved (up {id = j} h p c) = elim (Bool-cases (j == x)) [
    | inl eq ↦ let at : j ≡ x = ground arith in rw at moved
    | inr ne ↦ up (elsewhere j (ground arith) ∙ h) p (Chain-moved c)
  ]

  not_root : ChainOff nodes x np → x ≢ 0
  not_root c z = go c
    where
      go : {j : NodeId} → ChainOff nodes x j → ⊥
      go (top_off o z' h p) = o (z' ∙ sym z)
      go (up_off o h p c') = go c'

  Entry-moved :
      (dir : NodeId) (entry : Text × NodeId)
      → Entry nodes dir entry × (entry.1 ≢ x)
      → Entry (set nodes x m) dir entry
  Entry-moved dir (name, c) ((y, h, p, r), ne) = (y, elsewhere c ne ∙ h, p, r)

  entries_moved :
      (d : NodeId) (y : Node)
      → get_elem? nodes d ≡ some y
      → All (Entry (set nodes x m) d) (children_of y.kind)
  entries_moved d y h =
      All-map (Entry-moved d) (children_of y.kind)
        (All-both _ _ (children_of y.kind) (t.linked d y h) (free.unlisted d y h))

  pub IsTree-move : IsTree (set nodes x m)
  IsTree-move = record {
    root_node =
        let (r, e0, p0) = t.root_node in (r, elsewhere 0 (λ z. not_root off (sym z)) ∙ e0, p0);
    chain = λ j h. Chain-moved (t.chain j (omega (arith, length-set {0} nodes x m)));
    linked = λ j y h. elim (get_elem?-set_cases nodes x j m y h) [
      | inl (at, there) ↦ rw (there, same, ← at) (entries_moved x n e)
      | inr (other, there) ↦ entries_moved j y there
    ];
    distinct = λ j y h. elim (get_elem?-set_cases nodes x j m y h) [
      | inl (at, there) ↦ rw (there, same) (t.distinct x n e)
      | inr (other, there) ↦ t.distinct j y there
    ];
  }
