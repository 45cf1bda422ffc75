-- ===== src/Vfs/Resolve.antt =====
-- Path resolution, of src/vfs/mod.rs.
pub mod Total
use mimic_ssh_honeypot.Prelude.{
  ℕ, zero, suc, ◌+◌, Bool, ◌||◌, Option, none, some, List, [], ◌∷◌, if◌then◌else◌, Text, text_eq,
  split, starts_with, take, drop, ◌==◌,
}
use mimic_ssh_honeypot.Prelude.Outcome.{Outcome, done, ◌>>=◌}
use mimic_ssh_honeypot.Vfs.Nodes.{Node, NodeId, symlink}
use mimic_ssh_honeypot.Vfs.Arena.{Vfs, node, child, max_symlink_depth}

abbrev pub or_root : Vfs → Option NodeId → NodeId
or_root v none = v.root
or_root v (some id) = id

-- `follow`, where `enter` is `resolve_inner` at one level deeper.
unfoldable pub follow :
    Vfs → (NodeId → Text → Outcome (Option NodeId)) → NodeId → Outcome (Option NodeId)
follow v enter id = do
  n ← node v id
  elim n.kind [ symlink target ↦ enter (or_root v n.parent) target | _ ↦ done (some id) ]

-- One round of the loop of `resolve_inner`: the next `current`, or `none` for a return.
unfoldable pub resolve_comp :
    Vfs → (NodeId → Text → Outcome (Option NodeId)) → Text → NodeId → Outcome (Option NodeId)
unfolding follow child
resolve_comp v enter comp current =
    if text_eq comp [] || text_eq comp (46 ∷ [])
    then done (some current)
    else if text_eq comp (46 ∷ 46 ∷ [])
    then (do n ← node v current; done (some (or_root v n.parent)))
    else do
      found ← child v current comp
      elim found [ none ↦ done none | some c ↦ follow v enter c ]

unfoldable pub resolve_comps :
    Vfs → (NodeId → Text → Outcome (Option NodeId)) → List Text → NodeId → Outcome (Option NodeId)
unfolding resolve_comp
resolve_comps v enter [] current = done (some current)
resolve_comps v enter (comp ∷ comps) current = do
  next ← resolve_comp v enter comp current
  elim next [ none ↦ done none | some c ↦ resolve_comps v enter comps c ]

-- `resolve_inner` with `levels` levels of symbolic links left; at 0 the depth is past the limit.
unfoldable pub resolve_inner : ℕ → Vfs → NodeId → Text → Outcome (Option NodeId)
unfolding resolve_comps
resolve_inner zero v start path = done none
resolve_inner (suc levels) v start path =
    resolve_comps v (resolve_inner levels v) (split 47 path)
      (if starts_with 47 path then v.root else start)

unfoldable pub resolve : Vfs → NodeId → Text → Outcome (Option NodeId)
unfolding resolve_inner
resolve v start path = resolve_inner (max_symlink_depth + 1) v start path

-- `rfind('/')`
unfoldable pub rfind_slash : Text → Option ℕ
rfind_slash [] = none
rfind_slash (c ∷ s) = elim (rfind_slash s) [
  | none ↦ if c == 47 then some 0 else none
  | some i ↦ some (suc i)
]

unfoldable pub split_path : Text → Text × Text
unfolding rfind_slash
split_path path = elim (rfind_slash path) [
  | none ↦ (46 ∷ [], path)
  | some i ↦ (if i == 0 then 47 ∷ [] else take i path, drop (i + 1) path)
]
