-- ===== src/Vfs/Valid/Rename.antt =====
-- `unlink` and `rename` of src/vfs/mod.rs keep the filesystem valid.
use mimic_ssh_honeypot.Prelude.{
  ◌+◌, ◌<◌, ◌≡◌, ◌≢◌, true, false, some, List, length, get_elem?, set, All, Text, arith, ltb,
  Bool-cases, Option-cases, inl, inr, refl, sym, ◌∙◌, get_elem?-lt, lt_of_get_elem?,
  get_elem?-set_self, length-set, get_elem?-set_ne,
}
use mimic_ssh_honeypot.Prelude.Map.{insert, remove, All-remove, All-remove_ne, remove-DistinctKeys}
use mimic_ssh_honeypot.Prelude.Outcome.{done}
use mimic_ssh_honeypot.Vfs.Nodes.{Node, NodeId, NodeKind, directory, file, symlink, dynamic_file}
use mimic_ssh_honeypot.Vfs.Arena.{Vfs, set_node, max_vfs_depth}
use mimic_ssh_honeypot.Vfs.Change.{
  with_children, edit_children, unlink, move_node, rename, is_directory,
}
use mimic_ssh_honeypot.Vfs.Tree.{
  ChainOff, top_off, up_off, children_of, Entry, root_of_no_parent, parent-lt,
}
use mimic_ssh_honeypot.Vfs.Tree.Edit.{
  Keeps, Keeps-set, Keeps-ChainOff, All-map, All-both, get_elem?-set_cases,
}
use mimic_ssh_honeypot.Vfs.Tree.Move.{Unlisted, IsTree-move}
use mimic_ssh_honeypot.Vfs.Tree.Total.{depth_of_done, is_ancestor_of_done}
use mimic_ssh_honeypot.Vfs.Tree.Height.{height_of_done}
use mimic_ssh_honeypot.Vfs.Valid.{IsValid, Ends, Same}
use mimic_ssh_honeypot.Vfs.Valid.Edit.{
  total_bytes-set, All-with_children, set_node-IsValid, with_children-DistinctKeys,
  file_len-with_children, edit_children-remove,
}
use mimic_ssh_honeypot.Vfs.Valid.Create.{IsTree-link, child_done}

-- `unlink` on a valid filesystem returns, and leaves a valid one with the same nodes.
pub unlink-Same :
    (v : Vfs) (parent : NodeId) (name : Text)
    → IsValid v
    → parent < length v.nodes
    → Ends (λ r. Same v r.0) (unlink v parent name)
unfolding unlink
unlink-Same v parent name h lt =
    let (found, e, _) = child_done v parent name h lt in
    let (v', e', s) = edit_children-remove v parent name h lt in
    ((v', found), ground (arith, e, e'), s)

abbrev detached : Text → Node → Node
detached name o = record o { kind = with_children (remove name) o.kind }

module _ (v : Vfs) (h : IsValid v) (dir : NodeId) (o : Node) (name : Text)
    (e : get_elem? v.nodes dir ≡ some o) where
  abbrev after : List Node
  after = set v.nodes dir (detached name o)

  detach-Same : Same v (set_node v dir (detached name o))
  detach-Same =
      set_node-IsValid v dir o (detached name o) v.content_bytes h e refl refl
        (λ P. All-with_children P (remove name) o.kind (All-remove P name))
        (with_children-DistinctKeys (remove name) o.kind (remove-DistinctKeys name))
        (omega (arith, file_len-with_children (remove name) o.kind)) h.bytes_cap

  detach_Keeps : Keeps v.nodes after
  detach_Keeps = Keeps-set v.nodes dir o (detached name o) e refl refl

  detach_Unlisted : (x : NodeId) → Unlisted x v.nodes → Unlisted x after
  detach_Unlisted x u = record {
    unlisted = λ d y q. elim (get_elem?-set_cases v.nodes dir d (detached name o) y q) [
      | inl (same, there) ↦
          rw there
            (All-with_children _ (remove name) o.kind (All-remove _ name) (u.unlisted dir o e))
      | inr (other, there) ↦ u.unlisted d y there
    ];
  }

  -- Taking a node's own name out of its parent unlists it everywhere.
  module _ (x : NodeId) (n : Node) (en : get_elem? v.nodes x ≡ some n) (pn : n.parent ≡ some dir)
      (own : n.name ≡ name) where
    elsewhere : (d : NodeId) → dir ≢ d → (c : Text × NodeId) → Entry v.nodes d c → c.1 ≢ x
    elsewhere d ne (name', c) (m, q, p, r) z = ne (ground arith)

    other_name : (c : Text × NodeId) → Entry v.nodes dir c × (c.0 ≢ name) → c.1 ≢ x
    other_name (name', c) ((m, q, p, r), ne) z = ne (ground arith)

    in_parent :
        (k : NodeKind)
        → All (Entry v.nodes dir) (children_of k)
        → All (λ (c : Text × NodeId). c.1 ≢ x) (children_of (with_children (remove name) k))
    in_parent (directory m) a =
        All-map other_name (remove name m)
          (All-both _ _ (remove name m) (All-remove _ name m a) (All-remove_ne name m))
    in_parent (file contents) a = tt
    in_parent (symlink target) a = tt
    in_parent (dynamic_file generator) a = tt

    unlist : Unlisted x after
    unlist = record {
      unlisted = λ d y q. elim (get_elem?-set_cases v.nodes dir d (detached name o) y q) [
        | inl (same, there) ↦ rw there (in_parent o.kind (h.tree.linked dir o e))
        | inr (other, there) ↦
            All-map (elsewhere d other) (children_of y.kind) (h.tree.linked d y there)
      ];
    }

no_root : {nodes : List Node} {x j : NodeId} → ChainOff nodes x j → x ≢ 0
no_root (top_off o z e p) q = o (z ∙ sym q)
no_root (up_off o e p c) q = no_root c q

not_self : {nodes : List Node} {x j : NodeId} → ChainOff nodes x j → j ≢ x
not_self (top_off o z e p) = o
not_self (up_off o e p c) = o

module _ (v : Vfs) (x np : NodeId) (name : Text) where
  -- The last two writes: `x` gets its new name and parent, and the parent lists it.
  attach :
      (n2 p2 : Node)
      → IsValid v
      → Unlisted x v.nodes
      → ChainOff v.nodes x np
      → get_elem? v.nodes x ≡ some n2
      → get_elem? v.nodes np ≡ some p2
      → Ends (Same v) (
          edit_children
            (insert name x)
            (set_node v x (record n2 { name = name; parent = some np }))
            np)
  unfolding edit_children
  attach n2 p2 h free off en ep =
      let m = record n2 { name = name; parent = some np } in
      let nodes = set v.nodes x m in
      let q = record p2 { kind = with_children (insert name x) p2.kind } in
      let ex = get_elem?-set_self v.nodes x m (lt_of_get_elem? v.nodes x en) in
      let ep' : get_elem? nodes np ≡ some p2 =
        get_elem?-set_ne v.nodes x np m (λ z. not_self off (sym z)) ∙ ep in
      let w = set_node v x m in
      (
        set_node w np q,
        ground (arith, ep'),
        record {
          valid = record {
            root_zero = h.root_zero;
            tree =
                IsTree-link nodes np x p2 m (IsTree-move x n2 m np h.tree en refl refl free off) ep'
                  ex refl;
            nodes_cap =
                omega (arith, length-set {0} nodes np q, length-set {0} v.nodes x m, h.nodes_cap);
            covered = omega (
              arith,
              total_bytes-set nodes np p2 q ep',
              total_bytes-set v.nodes x n2 m en,
              h.covered,
              file_len-with_children (insert name x) p2.kind,
            );
            bytes_cap = h.bytes_cap;
          };
          size = omega (arith, length-set {0} nodes np q, length-set {0} v.nodes x m);
        },
      )

-- The state that `attach` ends in, from the removal at the destination on.
replace_target :
    (v : Vfs) (x np : NodeId) (name : Text)
    → IsValid v
    → Unlisted x v.nodes
    → ChainOff v.nodes x np
    → x < length v.nodes
    → np < length v.nodes
    → (v2 v4 : Vfs) × (n2 : Node) × (edit_children (remove name) v np ≡ done v2)
      × (get_elem? v2.nodes x ≡ some n2)
      × (edit_children
            (insert name x)
            (set_node v2 x (record n2 { name = name; parent = some np }))
            np
          ≡ done v4)
      × Same v v4
unfolding edit_children
replace_target v x np name h free off lt ltp =
    let (o, eo) = get_elem?-lt v.nodes np ltp in
    let v2 = set_node v np (detached name o) in
    let s2 = detach-Same v h np o name eo in
    let k2 = detach_Keeps v h np o name eo in
    let (n, en) = get_elem?-lt v.nodes x lt in
    let (n2, en2, _, _) = k2.kept x n en in
    let (p2, ep2, _, _) = k2.kept np o eo in
    let (v4, e4, s4) =
      attach v2 x np name n2 p2 s2.valid (detach_Unlisted v h np o name eo x free)
        (Keeps-ChainOff k2 off) en2 ep2 in
    (v2, v4, n2, ground (arith, eo), en2, e4, record { valid = s4.valid; size = s4.size ∙ s2.size })

-- Past its refusals, `rename` returns and keeps the filesystem valid, if the way up from the new
-- parent does not pass the node.
pub move_node-Same :
    (v : Vfs) (x np : NodeId) (name : Text)
    → IsValid v
    → ChainOff v.nodes x np
    → x < length v.nodes
    → np < length v.nodes
    → Ends (Same v) (move_node v x np name)
unfolding move_node edit_children
move_node-Same v x np name h off lt ltp =
    let (n, en) = get_elem?-lt v.nodes x lt in
    elim (Option-cases n.parent) [
      | inl top ↦ absurd (no_root off (root_of_no_parent h.tree x en top))
      | inr (dir, up) ↦
          let (o, eo) = get_elem?-lt v.nodes dir (parent-lt h.tree x en up) in
          let v1 = set_node v dir (detached n.name o) in
          let s1 = detach-Same v h dir o n.name eo in
          let k1 = detach_Keeps v h dir o n.name eo in
          let (v2, v4, n2, e2, en2, e4, s4) =
            replace_target v1 x np name s1.valid (unlist v h dir o n.name eo x n en up refl)
              (Keeps-ChainOff k1 off) (omega (arith, s1.size)) (omega (arith, s1.size)) in
          (
            v4,
            ground (arith, en, up, eo, e2, en2, e4),
            record { valid = s4.valid; size = s4.size ∙ s1.size },
          )
    ]

-- `rename` on a valid filesystem returns, whether it moves or refuses, and leaves a valid
-- filesystem with the same nodes; in particular no move makes the arena cyclic.
pub rename-Same :
    (v : Vfs) (id new_parent : NodeId) (new_name : Text)
    → IsValid v
    → id < length v.nodes
    → new_parent < length v.nodes
    → Ends (λ r. Same v r.0) (rename v id new_parent new_name)
unfolding rename
rename-Same v id new_parent new_name h lt ltp =
    let (p, ep) = get_elem?-lt v.nodes new_parent ltp in
    let (inside, ei, off) = is_ancestor_of_done v h.tree id new_parent ltp in
    let (depth, ed) = depth_of_done v h.tree new_parent ltp in
    let (height, eh) = height_of_done v id h.tree lt in
    elim (Bool-cases (is_directory p.kind)) [
      | inr other ↦ ((v, false), ground (arith, ep, other), stays)
      | inl dir ↦ elim (Bool-cases inside) [
        | inl within ↦ ((v, false), ground (arith, ep, dir, ei, within), stays)
        | inr clear ↦ elim (Bool-cases (ltb max_vfs_depth (depth + 1 + height))) [
          | inl deep ↦ ((v, false), ground (arith, ep, dir, ei, clear, ed, eh, deep), stays)
          | inr fits ↦
              let (v', e', s) = move_node-Same v id new_parent new_name h (off clear) lt ltp in
              ((v', true), ground (arith, ep, dir, ei, clear, ed, eh, fits, e'), s)
        ]
      ]
    ]
  where
    stays : Same v v
    stays = record { valid = h; size = refl }
