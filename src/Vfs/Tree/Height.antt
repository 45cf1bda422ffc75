-- ===== src/Vfs/Tree/Height.antt =====
-- The walk of `height_of` over a subtree returns: it pops each node of the tree at most once, so
-- a pop for each node of the arena is enough.
use mimic_ssh_honeypot.Prelude.{
  ℕ, zero, suc, ◌+◌, ◌≤◌, ◌<◌, ◌≡◌, ◌≢◌, ◌⊎◌, max, none, some, List, [], ◌∷◌, length, get_elem?,
  All, Text, arith, get_elem?-lt, lt_of_get_elem?, refl, sym, ◌∙◌, ap, inl, inr,
}
use mimic_ssh_honeypot.Prelude.Map.{Map, DistinctKeys, All-ne_of_absent}
use mimic_ssh_honeypot.Prelude.Outcome.{done}
use mimic_ssh_honeypot.Prelude.Pigeonhole.{Absent, AllDistinct, length-le_of_AllDistinct}
use mimic_ssh_honeypot.Vfs.Nodes.{Node, NodeId, NodeKind, directory, file, symlink, dynamic_file}
use mimic_ssh_honeypot.Vfs.Arena.{Vfs, children?, push_children, push_kind, height_loop, height_of}
use mimic_ssh_honeypot.Vfs.Tree.{Chain, top, up, children_of, Entry, IsTree}
use mimic_ssh_honeypot.Vfs.Tree.Edit.{All-map, All-both}

-- `id` is `d` steps below the root.
pub data Depth (nodes : List Node) : NodeId → ℕ → Type 0 where
  root_depth :
      {id : NodeId} {n : Node} {d : ℕ}
      → get_elem? nodes id ≡ some n
      → n.parent ≡ none
      → d ≡ 0
      → Depth nodes id d
  deeper :
      {id p : NodeId} {n : Node} {d e : ℕ}
      → get_elem? nodes id ≡ some n
      → n.parent ≡ some p
      → Depth nodes p d
      → e ≡ suc d
      → Depth nodes id e

pub Depth-unique :
    {nodes : List Node} {id : NodeId} {d e : ℕ} → Depth nodes id d → Depth nodes id e → d ≡ e
Depth-unique (root_depth a p z) (root_depth b q w) = z ∙ sym w
Depth-unique (root_depth a p z) (deeper b q y w) = ground arith
Depth-unique (deeper a p x z) (root_depth b q w) = ground arith
Depth-unique {nodes} (deeper {p = p1} {n = n1} {d = d1} a p x z)
      (deeper {p = p2} {n = n2} {d = d2} b q y w) =
    let same : p2 ≡ p1 = ground arith in z ∙ ap suc (Depth-unique x (rw same at y)) ∙ sym w

pub Depth-of_Chain : {nodes : List Node} {id : NodeId} → Chain nodes id → (d : ℕ) × Depth nodes id d
Depth-of_Chain (top z e p) = (0, root_depth e p refl)
Depth-of_Chain (up e p c) = let (d, h) = Depth-of_Chain c in (suc d, deeper e p h refl)

abbrev pub ids : List (NodeId × ℕ) → List NodeId
ids [] = []
ids ((x, h) ∷ stack) = x ∷ ids stack

abbrev In : ℕ → List ℕ → Type 0
In x [] = ⊥
In x (y ∷ ys) = (x ≡ y) ⊎ In x ys

Absent-In : (x y : ℕ) (ys : List ℕ) → Absent x ys → In y ys → y ≢ x
Absent-In x y (z ∷ ys) a (inl e) = ground arith
Absent-In x y (z ∷ ys) a (inr m) = Absent-In x y ys a.1 m
Absent-In x y [] a m = absurd m

module _ (v : Vfs) (t : IsTree v.nodes) (start : NodeId) (d0 : ℕ)
    (low : Depth v.nodes start d0) where
  -- Every node met but the first hangs below one that was popped.
  abbrev Met : List NodeId → NodeId → Type 0
  Met seen y =
      (y ≡ start)
      ⊎ ((p : NodeId) × (n : Node) × (get_elem? v.nodes y ≡ some n)
          × (n.parent ≡ some p)
          × In p seen)

  abbrev Waiting : List NodeId → NodeId → Type 0
  Waiting seen y =
      Absent y seen × (y < length v.nodes) × Met seen y × ((d : ℕ) × Depth v.nodes y d × (d0 ≤ d))

  Met-more : (id : NodeId) (seen : List NodeId) (y : NodeId) → Met seen y → Met (id ∷ seen) y
  Met-more id seen y (inl e) = inl e
  Met-more id seen y (inr (p, n, e, q, m)) = inr (p, n, e, q, inr m)

  -- A child of a node that has not been popped is new.
  module _ (id : NodeId) (seen : List NodeId) (fresh : Absent id seen)
      (depth : (d : ℕ) × Depth v.nodes id d × (d0 ≤ d)) where
    child_not_start : (e : Text × NodeId) → Entry v.nodes id e → e.1 ≢ start
    child_not_start (name, c) (m, h, p, q) z =
        let (d, dd, le) = depth in
        let at : Depth v.nodes start (suc d) = rw z at (deeper h p dd refl) in
        absurd (omega (arith, Depth-unique low at))

    child_ne : (e : Text × NodeId) → Entry v.nodes id e → (y : NodeId) → Met seen y → y ≢ e.1
    child_ne (name, c) en y (inl z) q = child_not_start (name, c) en (sym q ∙ z)
    child_ne (name, c) (m, h, p, r) y (inr (p', n, e, q', i)) q =
        Absent-In id p' seen fresh i (ground arith)

    child-Depth :
        (e : Text × NodeId) → Entry v.nodes id e → (d : ℕ) × Depth v.nodes e.1 d × (d0 ≤ d)
    child-Depth (name, c) (m, h, p, q) =
        let (d, dd, le) = depth in (suc d, deeper h p dd refl, omega arith)

    child_Waiting :
        (e : Text × NodeId)
        → Entry v.nodes id e
        → All (Met seen) seen
        → Met seen id
        → Waiting (id ∷ seen) e.1
    child_Waiting e en met mine =
        let (m, h, p, q) = en in
        (
          (child_ne e en id mine, All-map (child_ne e en) seen met),
          lt_of_get_elem? v.nodes e.1 h,
          inr (id, m, h, p, inl refl),
          child-Depth e en,
        )

    sibling_ne :
        (name : Text) (c : NodeId)
        → Entry v.nodes id (name, c)
        → (e : Text × NodeId) → Entry v.nodes id e × (e.0 ≢ name)
        → c ≢ e.1
    sibling_ne name c (m, h, p, q) (name', c') ((m', h', p', q'), ne) same = ne (ground arith)

    abbrev Ready : List NodeId → List (NodeId × ℕ) → Type 0
    Ready seen' stack = AllDistinct (ids stack) × All (Waiting seen') (ids stack)

    push_Ready :
        (h : ℕ) (m : Map NodeId) (stack : List (NodeId × ℕ))
        → All (Met seen) seen
        → Met seen id
        → All (Entry v.nodes id) m
        → DistinctKeys m
        → All (λ e. Absent e.1 (ids stack)) m
        → Ready (id ∷ seen) stack
        → Ready (id ∷ seen) (push_children h m stack)
    unfolding push_children
    push_Ready h [] stack met mine en keys apart r = r
    push_Ready h ((name, c) ∷ m) stack met mine en keys apart r =
        push_Ready h m ((c, h) ∷ stack) met mine en.1 keys.1
          (All-both _ _ m
            (All-map (sibling_ne name c en.0) m
              (All-both _ _ m en.1 (All-ne_of_absent name m keys.0)))
            apart.1)
          ((apart.0, r.0), (child_Waiting (name, c) en.0 met mine, r.1))

  -- Popping `id` and pushing what it lists.
  module _ (id : NodeId) (h : ℕ) (n : Node) (seen : List NodeId) (stack : List (NodeId × ℕ))
      (e : get_elem? v.nodes id ≡ some n) (met : All (Met seen) seen)
      (distinct : AllDistinct (id ∷ ids stack))
      (waiting : All (Waiting seen) (id ∷ ids stack)) where
    still_Waiting : (y : NodeId) → (y ≢ id) × Waiting seen y → Waiting (id ∷ seen) y
    still_Waiting y (ne, (a, lt, m, d)) = ((λ q. ne (sym q), a), lt, Met-more id seen y m, d)

    rest_Ready : AllDistinct (ids stack) × All (Waiting (id ∷ seen)) (ids stack)
    rest_Ready = (
      distinct.1,
      All-map still_Waiting (ids stack) (All-both _ _ (ids stack) distinct.0 waiting.1),
    )

    Met-after : All (Met (id ∷ seen)) (id ∷ seen)
    Met-after = (Met-more id seen id waiting.0.2, All-map (Met-more id seen) seen met)

    child_apart : (c : Text × NodeId) → Entry v.nodes id c → Absent c.1 (ids stack)
    child_apart c en =
        All-map (λ y (w : Waiting seen y). child_ne id seen waiting.0.0 waiting.0.3 c en y w.2)
          (ids stack) waiting.1

    popped :
        (k : NodeKind)
        → n.kind ≡ k
        → AllDistinct (ids (push_kind (h + 1) (children? k) stack))
          × All (Waiting (id ∷ seen)) (ids (push_kind (h + 1) (children? k) stack))
    unfolding push_kind
    popped (file contents) q = rest_Ready
    popped (symlink target) q = rest_Ready
    popped (dynamic_file generator) q = rest_Ready
    popped (directory m) q =
        let en : All (Entry v.nodes id) m = rw (ap children_of q) at (t.linked id n e) in
        push_Ready id seen waiting.0.0 waiting.0.3 (h + 1) m stack met waiting.0.2 en
          (rw (ap children_of q) at (t.distinct id n e)) (All-map child_apart m en) rest_Ready

  height_loop_done :
      (fuel : ℕ) (seen : List NodeId) (stack : List (NodeId × ℕ)) (height : ℕ)
      → length v.nodes ≤ fuel + length seen
      → AllDistinct seen
      → All (λ x. x < length v.nodes) seen
      → All (Met seen) seen
      → AllDistinct (ids stack)
      → All (Waiting seen) (ids stack)
      → (out : ℕ) × (height_loop fuel v stack height ≡ done out)
  unfolding height_loop
  height_loop_done zero seen [] height f ds ls met di w = (height, refl)
  height_loop_done (suc fuel) seen [] height f ds ls met di w = (height, refl)
  height_loop_done zero seen ((id, h) ∷ stack) height f ds ls met di w =
      absurd (
        omega
          (arith, length-le_of_AllDistinct (length v.nodes) (id ∷ seen) (w.0.0, ds) (w.0.1, ls)))
  height_loop_done (suc fuel) seen ((id, h) ∷ stack) height f ds ls met di w =
      let (n, e) = get_elem?-lt v.nodes id w.0.1 in
      let (di', w') = popped id h n seen stack e met di w n.kind refl in
      let (out, r) =
        height_loop_done fuel (id ∷ seen) (push_kind (h + 1) (children? n.kind) stack)
          (max height h) (omega arith) (w.0.0, ds) (w.0.1, ls)
          (Met-after id h n seen stack e met di w) di' w' in
      (out, ground (arith, e, r))

-- On a tree `height_of` returns: a pop for each node of the arena is enough.
pub height_of_done :
    (v : Vfs) (id : NodeId)
    → IsTree v.nodes
    → id < length v.nodes
    → (h : ℕ) × (height_of v id ≡ done h)
unfolding height_of
height_of_done v id t lt =
    let (d, low) = Depth-of_Chain (t.chain id lt) in
    height_loop_done v t id d low (length v.nodes) [] ((id, 0) ∷ []) 0 (omega arith) tt tt tt
      (tt, tt) ((tt, lt, inl refl, (d, low, omega arith)), tt)
