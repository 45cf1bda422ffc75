-- ===== src/Vfs/Tree/Edit.antt =====
-- Edits of the arena that leave it a tree.
use mimic_ssh_honeypot.Prelude.{
  ℕ, suc, ◌<◌, ◌≡◌, ◌≢◌, some, List, [], ◌∷◌, ◌++◌, length, get_elem?, set, All, Text, arith,
  lt_of_get_elem?, get_elem?-set_self, get_elem?-set_ne, get_elem?-append, get_elem?-append_end,
  length-set, length-append, refl, sym, ◌∙◌, ap, ◌==◌, Bool-cases, inl, inr, ◌⊎◌,
}
use mimic_ssh_honeypot.Prelude.Map.{DistinctKeys}
use mimic_ssh_honeypot.Vfs.Nodes.{Node, NodeId}
use mimic_ssh_honeypot.Vfs.Tree.{
  Chain, top, up, ChainOff, top_off, up_off, children_of, Entry, IsTree,
}

pub All-map {ℓ κ μ} :
    {A : Type ℓ} {P : A → Type κ} {Q : A → Type μ}
    → ((a : A) → P a → Q a)
    → (xs : List A) → All P xs
    → All Q xs
All-map f [] h = tt
All-map f (x ∷ xs) h = (f x h.0, All-map f xs h.1)

pub All-both {ℓ κ μ} :
    {A : Type ℓ} (P : A → Type κ) (Q : A → Type μ) (xs : List A)
    → All P xs
    → All Q xs
    → All (λ a. P a × Q a) xs
All-both P Q [] h k = tt
All-both P Q (x ∷ xs) h k = ((h.0, k.0), All-both P Q xs h.1 k.1)

-- Every node stays, under its name and its parent.
pub record Keeps (old new : List Node) : Type 0 where
  pub kept :
      (id : NodeId) (n : Node)
      → get_elem? old id ≡ some n
      → (m : Node) × (get_elem? new id ≡ some m) × (m.parent ≡ n.parent) × (m.name ≡ n.name)

module _ {old new : List Node} (k : Keeps old new) where
  pub Keeps-Chain : {id : NodeId} → Chain old id → Chain new id
  Keeps-Chain (top {n = n} z e p) = let (m, e', p', _) = k.kept _ n e in top z e' (p' ∙ p)
  Keeps-Chain (up {n = n} e p c) =
      let (m, e', p', _) = k.kept _ n e in up e' (p' ∙ p) (Keeps-Chain c)

  pub Keeps-ChainOff : {x id : NodeId} → ChainOff old x id → ChainOff new x id
  Keeps-ChainOff (top_off {n = n} o z e p) =
      let (m, e', p', _) = k.kept _ n e in top_off o z e' (p' ∙ p)
  Keeps-ChainOff (up_off {n = n} o e p c) =
      let (m, e', p', _) = k.kept _ n e in up_off o e' (p' ∙ p) (Keeps-ChainOff c)

  pub Keeps-Entry : (dir : NodeId) (e : Text × NodeId) → Entry old dir e → Entry new dir e
  Keeps-Entry dir (name, c) (m, e, p, q) =
      let (m', e', p', q') = k.kept c m e in (m', e', p' ∙ p, q' ∙ q)

-- What a write at `i` leaves at `j`.
pub get_elem?-set_cases {ℓ} :
    {A : Type ℓ} (xs : List A) (i j : ℕ) (v w : A)
    → get_elem? (set xs i v) j ≡ some w
    → ((i ≡ j) × (w ≡ v)) ⊎ ((i ≢ j) × (get_elem? xs j ≡ some w))
get_elem?-set_cases xs i j v w e = elim (Bool-cases (i == j)) [
  | inl same ↦
      let q : i ≡ j = ground arith in
      let lt : i < length xs =
        omega (arith, length-set {ℓ} xs i v, lt_of_get_elem? {ℓ} (set xs i v) j e) in
      inl (q, ground (arith, get_elem?-set_self xs i v lt))
  | inr other ↦ let ne : i ≢ j = ground arith in inr (ne, sym (get_elem?-set_ne xs i j v ne) ∙ e)
]

pub Keeps-set :
    (nodes : List Node) (id : NodeId) (n m : Node)
    → get_elem? nodes id ≡ some n
    → m.parent ≡ n.parent
    → m.name ≡ n.name
    → Keeps nodes (set nodes id m)
Keeps-set nodes id n m e p q = record {
  kept = λ j x h. elim (Bool-cases (id == j)) [
    | inl same ↦ (
      m,
      ground (arith, get_elem?-set_self nodes id m (lt_of_get_elem? nodes id e)),
      ground arith,
      ground arith,
    )
    | inr other ↦ (x, ground (arith, get_elem?-set_ne nodes id j m), refl, refl)
  ];
}

-- A write that keeps the node's name and parent, and whose entries are right in the new arena.
pub IsTree-set :
    {nodes : List Node} (id : NodeId) (n m : Node)
    → IsTree nodes
    → get_elem? nodes id ≡ some n
    → m.parent ≡ n.parent
    → m.name ≡ n.name
    → All (Entry (set nodes id m) id) (children_of m.kind)
    → DistinctKeys (children_of m.kind)
    → IsTree (set nodes id m)
IsTree-set {nodes} id n m t e p q fits keys =
    let k = Keeps-set nodes id n m e p q in
    record {
      root_node =
          let (r, e0, p0) = t.root_node in let (r', e1, p1, _) = k.kept 0 r e0 in (r', e1, p1 ∙ p0);
      chain = λ j h. Keeps-Chain k (t.chain j (omega (arith, length-set {0} nodes id m)));
      linked = λ j x h. elim (get_elem?-set_cases nodes id j m x h) [
        | inl (same, there) ↦ rw (there, ← same) fits
        | inr (other, there) ↦ All-map (Keeps-Entry k j) (children_of x.kind) (t.linked j x there)
      ];
      distinct = λ j x h. elim (get_elem?-set_cases nodes id j m x h) [
        | inl (same, there) ↦ rw there keys
        | inr (other, there) ↦ t.distinct j x there
      ];
    }

-- A write that also lists no more than the node did.
pub IsTree-set_less :
    {nodes : List Node} (id : NodeId) (n m : Node)
    → IsTree nodes
    → get_elem? nodes id ≡ some n
    → m.parent ≡ n.parent
    → m.name ≡ n.name
    → ((P : Text × NodeId → Type 0) → All P (children_of n.kind) → All P (children_of m.kind))
    → (DistinctKeys (children_of n.kind) → DistinctKeys (children_of m.kind))
    → IsTree (set nodes id m)
IsTree-set_less {nodes} id n m t e p q less keys =
    IsTree-set id n m t e p q
      (less _ (
        All-map (Keeps-Entry (Keeps-set nodes id n m e p q) id) (children_of n.kind)
          (t.linked id n e)))
      (keys (t.distinct id n e))

Keeps-append : (nodes : List Node) (x : Node) → Keeps nodes (nodes ++ x ∷ [])
Keeps-append nodes x = record {
  kept =
      λ j n h. (n, get_elem?-append nodes (x ∷ []) j (lt_of_get_elem? nodes j h) ∙ h, refl, refl);
}

get_elem?-append_cases {ℓ} :
    {A : Type ℓ} (xs : List A) (x : A) (j : ℕ) {y : A}
    → get_elem? (xs ++ x ∷ []) j ≡ some y
    → ((j ≡ length xs) × (y ≡ x)) ⊎ (get_elem? xs j ≡ some y)
get_elem?-append_cases [] x (suc j) e = cc
get_elem?-append_cases [] x _ e = inl (refl, ground arith)
get_elem?-append_cases (a ∷ xs) x (suc j) e = elim (get_elem?-append_cases xs x j e) [
  | inl (q, r) ↦ inl (ap suc q, r)
  | inr h ↦ inr h
]
get_elem?-append_cases (a ∷ xs) x _ e = inr e

-- A new node under a parent of the arena, with no entries, linked by no directory yet.
pub IsTree-append :
    {nodes : List Node} (x : Node) (p : NodeId)
    → IsTree nodes
    → p < length nodes
    → x.parent ≡ some p
    → children_of x.kind ≡ []
    → IsTree (nodes ++ x ∷ [])
IsTree-append {nodes} x p t lt q empty =
    let k = Keeps-append nodes x in
    let size : length (nodes ++ x ∷ []) ≡ suc (length nodes) =
      omega (arith, length-append {0} nodes (x ∷ [])) in
    record {
      root_node =
          let (r, e0, p0) = t.root_node in let (r', e1, p1, _) = k.kept 0 r e0 in (r', e1, p1 ∙ p0);
      chain = λ j h. elim (Bool-cases (j == length nodes)) [
        | inl new ↦
            let at : j ≡ length nodes = ground arith in
            rw at (up (get_elem?-append_end nodes x) q (Keeps-Chain k (t.chain p lt)))
        | inr old ↦ Keeps-Chain k (t.chain j (ground (arith, size)))
      ];
      linked = λ j n h. elim (get_elem?-append_cases nodes x j h) [
        | inl (new, same) ↦ rw (same, empty) tt
        | inr old ↦ All-map (Keeps-Entry k j) (children_of n.kind) (t.linked j n old)
      ];
      distinct = λ j n h. elim (get_elem?-append_cases nodes x j h) [
        | inl (new, same) ↦ rw (same, empty) tt
        | inr old ↦ t.distinct j n old
      ];
    }
