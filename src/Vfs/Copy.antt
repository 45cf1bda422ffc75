-- ===== src/Vfs/Copy.antt =====
-- `deep_copy` of src/vfs/mod.rs. `levels` counts the levels that the depth limit leaves.
use Prim.Native.Nat.{bit_and}
use mimic_ssh_honeypot.Prelude.{ℕ, zero, suc, ◌+◌, Option, none, some, [], ◌∷◌, Text, ℤ}
use mimic_ssh_honeypot.Prelude.Map.{Map}
use mimic_ssh_honeypot.Prelude.Outcome.{Outcome, done, ◌>>=◌}
use mimic_ssh_honeypot.Vfs.Nodes.{NodeId, directory, file, symlink, dynamic_file}
use mimic_ssh_honeypot.Vfs.Arena.{Vfs, node, entries}
use mimic_ssh_honeypot.Vfs.Change.{stamp, mkdir, add_file, add_dynamic_file, unlink, insert_node}

abbrev pub max_copy_depth : ℕ
max_copy_depth = 64

abbrev pub or_default : Option (Map NodeId) → Map NodeId
or_default none = []
or_default (some children) = children

-- The loop over a directory's entries, where `copy` is the recursive call.
unfoldable pub copy_each :
    (Vfs → NodeId → NodeId → Text → Outcome (Vfs × NodeId))
    → Vfs
    → NodeId
    → Map NodeId
    → Outcome Vfs
copy_each copy v new_dir [] = done v
copy_each copy v new_dir ((name, c) ∷ children) = do
  (v', id) ← copy v c new_dir name
  copy_each copy v' new_dir children

unfoldable pub deep_copy_inner : ℕ → ℤ → Vfs → NodeId → NodeId → Text → Outcome (Vfs × NodeId)
unfolding copy_each
deep_copy_inner zero now v src dst_parent dst_name = done (v, dst_parent)
deep_copy_inner (suc levels) now v src dst_parent dst_name = do
  n ← node v src
  let perms = bit_and n.meta.mode 0o7777
  elim n.kind [
    | file contents ↦ add_file now v dst_parent dst_name contents perms n.meta.uid n.meta.gid
    | dynamic_file generator ↦
        add_dynamic_file now v dst_parent dst_name generator perms n.meta.uid n.meta.gid
    | symlink target ↦ do
      (v', old) ← unlink v dst_parent dst_name
      insert_node v' dst_parent dst_name (symlink target) (stamp now n.meta)
    | directory m ↦ do
      (v', new_dir) ← mkdir now v dst_parent dst_name perms n.meta.uid n.meta.gid
      children ← entries v' src
      v'' ← copy_each (deep_copy_inner levels now) v' new_dir (or_default children)
      done (v'', new_dir)
  ]

unfoldable pub deep_copy : ℤ → Vfs → NodeId → NodeId → Text → Outcome (Vfs × NodeId)
unfolding deep_copy_inner
deep_copy now v src dst_parent dst_name =
    deep_copy_inner (max_copy_depth + 1) now v src dst_parent dst_name
