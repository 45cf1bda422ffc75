-- ===== src/Vfs/Resolve/Total.antt =====
-- Path resolution on a tree returns for every path, and paths compose.
use mimic_ssh_honeypot.Prelude.{
  ℕ, zero, suc, ◌+◌, ◌<◌, ◌≡◌, false, ◌||◌, Option, none, some, List, [], ◌∷◌, ◌++◌, length,
  get_elem?, Text, text_eq, split, starts_with, ◌==◌, if◌then◌else◌, arith, refl, ◌∙◌, Bool-cases,
  Option-cases, inl, inr, get_elem?-lt, lt_of_get_elem?,
}
use mimic_ssh_honeypot.Prelude.Outcome.{Outcome, done, panic, exhausted, ◌>>=◌}
use mimic_ssh_honeypot.Vfs.Nodes.{Node, NodeId, NodeKind, directory, file, symlink, dynamic_file}
use mimic_ssh_honeypot.Vfs.Arena.{Vfs, max_symlink_depth}
use mimic_ssh_honeypot.Vfs.Resolve.{
  or_root, follow, resolve_comp, resolve_comps, resolve_inner, resolve,
}
use mimic_ssh_honeypot.Vfs.Tree.{parent-lt}
use mimic_ssh_honeypot.Vfs.Valid.{IsValid, Ends}
use mimic_ssh_honeypot.Vfs.Valid.Create.{child_done}

-- The node found, if one is, is in the arena.
abbrev pub Found : Vfs → Option NodeId → Type 0
Found v r = (id : NodeId) → r ≡ some id → id < length v.nodes

module _ (v : Vfs) (h : IsValid v) where
  root_lt : v.root < length v.nodes
  root_lt = rw h.root_zero (lt_of_get_elem? v.nodes 0 h.tree.root_node.1)

  or_root_lt :
      (id : NodeId) {n : Node} → get_elem? v.nodes id ≡ some n → or_root v n.parent < length v.nodes
  or_root_lt id {n} e = elim (Option-cases n.parent) [
    | inl top ↦ rw top root_lt
    | inr (p, up) ↦ rw up (parent-lt h.tree id e up)
  ]

  module _ (enter : NodeId → Text → Outcome (Option NodeId))
      (deeper : (start : NodeId) (path : Text)
        → start < length v.nodes
        → Ends (Found v) (enter start path)) where
    follow_done : (id : NodeId) → id < length v.nodes → Ends (Found v) (follow v enter id)
    unfolding follow
    follow_done id lt = let (n, e) = get_elem?-lt v.nodes id lt in go n e n.kind refl
      where
        here : Found v (some id)
        here i q = ground arith

        go :
            (n : Node)
            → get_elem? v.nodes id ≡ some n
            → (k : NodeKind) → n.kind ≡ k
            → Ends (Found v) (follow v enter id)
        go n e (symlink target) q =
            let (r, er, f) = deeper (or_root v n.parent) target (or_root_lt id e) in
            (r, ground (arith, e, q, er), f)
        go n e (directory m) q = (some id, ground (arith, e, q), here)
        go n e (file contents) q = (some id, ground (arith, e, q), here)
        go n e (dynamic_file generator) q = (some id, ground (arith, e, q), here)

    resolve_comp_done :
        (comp : Text) (current : NodeId)
        → current < length v.nodes
        → Ends (Found v) (resolve_comp v enter comp current)
    unfolding resolve_comp
    resolve_comp_done comp current lt =
        elim (Bool-cases (text_eq comp [] || text_eq comp (46 ∷ []))) [
          | inl skip ↦ (some current, ground (arith, skip), λ i q. ground arith)
          | inr step ↦ elim (Bool-cases (text_eq comp (46 ∷ 46 ∷ []))) [
            | inl back ↦
                let (n, e) = get_elem?-lt v.nodes current lt in
                let up = or_root_lt current e in
                (
                  some (or_root v n.parent),
                  ground (arith, step, back, e),
                  λ i q. ground (arith, up),
                )
            | inr name ↦
                let (found, e, listed) = child_done v current comp h lt in
                elim (Option-cases found) [
                  | inl missing ↦ (none, ground (arith, step, name, e, missing), λ i q. cc)
                  | inr (c, there) ↦
                      let (m, em, _, _) = listed c there in
                      let (r, er, f) = follow_done c (lt_of_get_elem? v.nodes c em) in
                      (r, ground (arith, step, name, e, there, er), f)
                ]
          ]
        ]

    resolve_comps_done :
        (comps : List Text) (current : NodeId)
        → current < length v.nodes
        → Ends (Found v) (resolve_comps v enter comps current)
    unfolding resolve_comps
    resolve_comps_done [] current lt = (some current, refl, λ i q. ground arith)
    resolve_comps_done (comp ∷ comps) current lt =
        let (r, e, f) = resolve_comp_done comp current lt in
        elim (Option-cases r) [
          | inl gone ↦ (none, ground (arith, e, gone), λ i q. cc)
          | inr (c, there) ↦
              let (r', e', f') = resolve_comps_done comps c (f c there) in
              (r', ground (arith, e, there, e'), f')
        ]

  resolve_inner_done :
      (levels : ℕ) (start : NodeId) (path : Text)
      → start < length v.nodes
      → Ends (Found v) (resolve_inner levels v start path)
  unfolding resolve_inner
  resolve_inner_done zero start path lt = (none, refl, λ i q. cc)
  resolve_inner_done (suc levels) start path lt =
      resolve_comps_done (resolve_inner levels v) (resolve_inner_done levels) (split 47 path)
        (if starts_with 47 path then v.root else start) (ground (arith, root_lt))

  -- On a valid filesystem `resolve` returns for every path, symbolic-link loops included, reading
  -- no index out of range; a node that it finds is in the arena.
  pub resolve_done :
      (start : NodeId) (path : Text)
      → start < length v.nodes
      → Ends (Found v) (resolve v start path)
  unfolding resolve
  resolve_done start path lt = resolve_inner_done (max_symlink_depth + 1) start path lt

-- Text that is split has at least one part.
split_nonempty : (sep : ℕ) (s : Text) → (x : Text) × (rest : List Text) × (split sep s ≡ x ∷ rest)
unfolding split
split_nonempty sep [] = ([], [], refl)
split_nonempty sep (c ∷ s) =
    let (x, rest, e) = split_nonempty sep s in
    elim (Bool-cases (c == sep)) [
      | inl cut ↦ ([], split sep s, ground (arith, cut))
      | inr kept ↦ (c ∷ x, rest, ground (arith, kept, e))
    ]

split-append : (sep : ℕ) (a b : Text) → split sep (a ++ (sep ∷ b)) ≡ split sep a ++ split sep b
unfolding split
split-append sep [] b = ground arith
split-append sep (c ∷ a) b =
    let (x, rest, e) = split_nonempty sep a in
    let ih : split sep (a ++ (sep ∷ b)) ≡ x ∷ (rest ++ split sep b) =
      rw e at (split-append sep a b) in
    elim (Bool-cases (c == sep)) [
      | inl cut ↦ rw (cut, split-append sep a b)
      | inr kept ↦ rw (kept, ih, e)
    ]

abbrev pub then_comps :
    Vfs
    → (NodeId → Text → Outcome (Option NodeId))
    → List Text
    → Option NodeId
    → Outcome (Option NodeId)
then_comps v enter comps none = done none
then_comps v enter comps (some c) = resolve_comps v enter comps c

resolve_comps-append :
    (v : Vfs) (enter : NodeId → Text → Outcome (Option NodeId)) (xs ys : List Text)
    (current : NodeId)
    → resolve_comps v enter (xs ++ ys) current
      ≡ (resolve_comps v enter xs current >>= then_comps v enter ys)
unfolding resolve_comps
resolve_comps-append v enter [] ys current = refl
resolve_comps-append v enter (x ∷ xs) ys current =
    go (resolve_comp v enter x current) refl (resolve_comps-append v enter xs ys)
  where
    go :
        (o : Outcome (Option NodeId))
        → resolve_comp v enter x current ≡ o
        → ((c : NodeId)
            → resolve_comps v enter (xs ++ ys) c
              ≡ (resolve_comps v enter xs c >>= then_comps v enter ys))
        → resolve_comps v enter ((x ∷ xs) ++ ys) current
          ≡ (resolve_comps v enter (x ∷ xs) current >>= then_comps v enter ys)
    go (done none) e ih = rw (e, resolve_comps)
    go (done (some c)) e ih = rw (e, resolve_comps) (ih c)
    go panic e ih = rw (e, resolve_comps)
    go exhausted e ih = rw (e, resolve_comps)

abbrev pub then_resolve : Vfs → Text → Option NodeId → Outcome (Option NodeId)
then_resolve v path none = done none
then_resolve v path (some c) = resolve v c path

-- Resolving `a/b`, with `a` not empty and `b` not absolute, is resolving `a` from the same start
-- and then `b` from where that ends, with `none` and panics passed on.
pub resolve-append :
    (v : Vfs) (start : NodeId) (c : ℕ) (a b : Text)
    → starts_with 47 b ≡ false
    → resolve v start ((c ∷ a) ++ (47 ∷ b)) ≡ (resolve v start (c ∷ a) >>= then_resolve v b)
unfolding resolve resolve_inner
resolve-append v start c a b rel =
    let enter = resolve_inner max_symlink_depth v in
    let from = if c == 47 then v.root else start in
    rw (split-append 47 (c ∷ a) b) (
      resolve_comps-append v enter (split 47 (c ∷ a)) (split 47 b) from
      ∙ go (resolve_comps v enter (split 47 (c ∷ a)) from))
  where
    go :
        (o : Outcome (Option NodeId))
        → (o >>= then_comps v (resolve_inner max_symlink_depth v) (split 47 b))
          ≡ (o >>= then_resolve v b)
    go (done none) = refl
    go (done (some c)) = rw rel
    go panic = refl
    go exhausted = refl
