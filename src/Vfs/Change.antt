-- ===== src/Vfs/Change.antt =====
-- The operations that change the filesystem, of src/vfs/mod.rs. Each returns the new state beside
-- its result; `now` is the clock's reading.
use Prim.Native.Nat.{bit_and, bit_or}
use mimic_ssh_honeypot.Prelude.{
  ℕ, ◌+◌, Bool, true, false, ◌||◌, Option, none, some, List, [], ◌∷◌, ◌++◌, ltb, ◌==◌,
  if◌then◌else◌, Text, ℤ, text_eq, split, length, map, is_empty,
}
use mimic_ssh_honeypot.Prelude.Map.{Map, insert, remove}
use mimic_ssh_honeypot.Prelude.Outcome.{Outcome, done, ◌>>=◌, checked_sub}
use mimic_ssh_honeypot.Vfs.Metadata
use mimic_ssh_honeypot.Vfs.Metadata.{Metadata, s_ifdir, s_ifreg, s_iflnk, s_ifmt}
use mimic_ssh_honeypot.Vfs.Nodes.{Node, NodeId, NodeKind, directory, file, symlink, dynamic_file}
use mimic_ssh_honeypot.Vfs.Arena.{
  Vfs, node, set_node, child, is_full, depth_of, height_of, is_ancestor_of, max_vfs_bytes,
  max_vfs_depth,
}

abbrev pub with_children : (Map NodeId → Map NodeId) → NodeKind → NodeKind
with_children f (directory children) = directory (f children)
with_children f kind = kind

-- `if let Directory { children } = &mut self.nodes[id].kind { .. }`
unfoldable pub edit_children : (Map NodeId → Map NodeId) → Vfs → NodeId → Outcome Vfs
edit_children f v id = do
  n ← node v id
  done (set_node v id (record n { kind = with_children f n.kind }))

-- `insert` past the check of the caps.
unfoldable pub link_new : Vfs → NodeId → Text → NodeKind → Metadata → Outcome (Vfs × NodeId)
unfolding edit_children
link_new v parent name kind meta = do
  let id = length v.nodes
  let n : Node = record { name = name; parent = some parent; kind = kind; meta = meta }
  v' ← edit_children (insert name id) (record v { nodes = v.nodes ++ n ∷ [] }) parent
  done (v', id)

unfoldable pub insert_node : Vfs → NodeId → Text → NodeKind → Metadata → Outcome (Vfs × NodeId)
unfolding link_new
insert_node v parent name kind meta = do
  full ← is_full v parent
  if full then done (v, parent) else link_new v parent name kind meta

unfoldable pub mkdir : ℤ → Vfs → NodeId → Text → ℕ → ℕ → ℕ → Outcome (Vfs × NodeId)
mkdir now v parent name perms uid gid = do
  found ← child v parent name
  elim found [
    | some existing ↦ done (v, existing)
    | none ↦ insert_node v parent name (directory []) (Metadata.new now s_ifdir perms uid gid)
  ]

abbrev pub file_len : NodeKind → ℕ
file_len (file contents) = length contents
file_len _ = 0

-- An overwrite in place, which gives the old buffer back.
unfoldable pub overwrite_file : Vfs → NodeId → List ℕ → Metadata → Outcome (Vfs × NodeId)
overwrite_file v existing contents meta = do
  n ← node v existing
  rest ← checked_sub v.content_bytes (file_len n.kind)
  if ltb max_vfs_bytes (rest + length contents)
      then done (v, existing)
      else done (
        record (set_node v existing (record n { kind = file contents; meta = meta })) {
          content_bytes = rest + length contents;
        },
        existing,
      )

unfoldable pub create_file : Vfs → NodeId → Text → List ℕ → Metadata → Outcome (Vfs × NodeId)
create_file v parent name contents meta =
    if ltb max_vfs_bytes (v.content_bytes + length contents) then done (v, parent) else do
      (v', id) ← insert_node v parent name (file contents) meta
      if id == parent
          then done (v', id)
          else done (record v' { content_bytes = v'.content_bytes + length contents }, id)

unfoldable pub add_file : ℤ → Vfs → NodeId → Text → List ℕ → ℕ → ℕ → ℕ → Outcome (Vfs × NodeId)
add_file now v parent name contents perms uid gid = do
  let meta = Metadata.new now s_ifreg perms uid gid
  found ← child v parent name
  elim found [
    | some existing ↦ overwrite_file v existing contents meta
    | none ↦ create_file v parent name contents meta
  ]

unfoldable pub add_dynamic_file :
    ℤ → Vfs → NodeId → Text → (ℤ → List ℕ) → ℕ → ℕ → ℕ → Outcome (Vfs × NodeId)
add_dynamic_file now v parent name generator perms uid gid = do
  let meta = Metadata.new now s_ifreg perms uid gid
  found ← child v parent name
  elim found [
    | some existing ↦ do
      n ← node v existing
      done (set_node v existing (record n { kind = dynamic_file generator; meta = meta }), existing)
    | none ↦ insert_node v parent name (dynamic_file generator) meta
  ]

abbrev pub contents? : NodeKind → Option (List ℕ)
contents? (file contents) = some contents
contents? _ = none

abbrev pub stamp : ℤ → Metadata → Metadata
stamp now m = record m { mtime = now }

unfoldable pub write_file : ℤ → Vfs → NodeId → List ℕ → Bool → Outcome (Vfs × Bool)
write_file now v id bytes append = do
  n ← node v id
  elim (contents? n.kind) [
    | none ↦ done (v, false)
    | some contents ↦ do
      let next = if append then contents ++ bytes else bytes
      rest ← checked_sub v.content_bytes (length contents)
      if ltb max_vfs_bytes (rest + length next)
          then done (v, false)
          else done (
            record (set_node v id (record n { kind = file next; meta = stamp now n.meta })) {
              content_bytes = rest + length next;
            },
            true,
          )
  ]

unfoldable pub add_symlink : ℤ → Vfs → NodeId → Text → Text → Outcome (Vfs × NodeId)
add_symlink now v parent name target = do
  found ← child v parent name
  elim found [
    | some existing ↦ done (v, existing)
    | none ↦ insert_node v parent name (symlink target) (Metadata.new now s_iflnk 0o777 0 0)
  ]

-- The loop of `mkdir_p`.
unfoldable pub mkdir_each : ℤ → Vfs → NodeId → List Text → ℕ → ℕ → ℕ → Outcome (Vfs × Option NodeId)
mkdir_each now v current [] perms uid gid = done (v, some current)
mkdir_each now v current (comp ∷ comps) perms uid gid =
    elim (is_empty comp || text_eq comp (46 ∷ [])) [
      | true ↦ mkdir_each now v current comps perms uid gid
      | false ↦ do
        (v', next) ← mkdir now v current comp perms uid gid
        elim (next == current) [
          | true ↦ done (v', none)
          | false ↦ mkdir_each now v' next comps perms uid gid
        ]
    ]

unfoldable pub mkdir_p : ℤ → Vfs → Text → ℕ → ℕ → ℕ → Outcome (Vfs × Option NodeId)
unfolding mkdir_each
mkdir_p now v path perms uid gid = mkdir_each now v v.root (split 47 path) perms uid gid

-- `self.nodes[id].meta = f(..)`
unfoldable pub edit_meta : (Metadata → Metadata) → Vfs → NodeId → Outcome Vfs
edit_meta f v id = do n ← node v id; done (set_node v id (record n { meta = f n.meta }))

unfoldable pub touch : ℤ → Vfs → NodeId → Text → ℕ → ℕ → Outcome (Vfs × NodeId)
unfolding edit_meta
touch now v parent name uid gid = do
  found ← child v parent name
  elim found [
    | some existing ↦ do v' ← edit_meta (stamp now) v existing; done (v', existing)
    | none ↦ do
      (v', id) ← add_file now v parent name [] 0o644 uid gid
      v'' ← edit_meta (stamp now) v' id
      done (v'', id)
  ]

abbrev pub stamp_node : ℤ → Node → Node
stamp_node ts n = record n { meta = stamp ts n.meta }

unfoldable pub set_all_mtimes : ℤ → Vfs → Vfs
set_all_mtimes ts v = record v { nodes = map (stamp_node ts) v.nodes }

abbrev pub chmod_meta : ℕ → Metadata → Metadata
chmod_meta perms m = record m { mode = bit_or (bit_and m.mode s_ifmt) (bit_and perms 0o7777) }

unfoldable pub chmod : Vfs → NodeId → ℕ → Outcome Vfs
unfolding edit_meta
chmod v id perms = edit_meta (chmod_meta perms) v id

unfoldable pub chown : Vfs → NodeId → ℕ → ℕ → Outcome Vfs
unfolding edit_meta
chown v id uid gid = edit_meta (λ m. record m { uid = uid; gid = gid }) v id

unfoldable pub set_mtime : Vfs → NodeId → ℤ → Outcome Vfs
unfolding edit_meta
set_mtime v id mtime = edit_meta (stamp mtime) v id

-- The entry that `children.remove(name)` returns, and the state without it.
unfoldable pub unlink : Vfs → NodeId → Text → Outcome (Vfs × Option NodeId)
unfolding edit_children
unlink v parent name = do
  found ← child v parent name
  v' ← edit_children (remove name) v parent
  done (v', found)

-- The mutations of `rename`, past its three refusals.
unfoldable pub move_node : Vfs → NodeId → NodeId → Text → Outcome Vfs
unfolding edit_children
move_node v id new_parent new_name = do
  n ← node v id
  v1 ← elim n.parent [
    | none ↦ done v
    | some old_parent ↦ edit_children (remove n.name) v old_parent
  ]
  v2 ← edit_children (remove new_name) v1 new_parent
  n2 ← node v2 id
  let v3 = set_node v2 id (record n2 { name = new_name; parent = some new_parent })
  edit_children (insert new_name id) v3 new_parent

abbrev pub is_directory : NodeKind → Bool
is_directory (directory children) = true
is_directory _ = false

unfoldable pub rename : Vfs → NodeId → NodeId → Text → Outcome (Vfs × Bool)
unfolding move_node
rename v id new_parent new_name = do
  p ← node v new_parent
  if is_directory p.kind
      then (do
        inside ← is_ancestor_of v id new_parent
        if inside then done (v, false) else do
          depth ← depth_of v new_parent
          height ← height_of v id
          if ltb max_vfs_depth (depth + 1 + height)
              then done (v, false)
              else do v' ← move_node v id new_parent new_name; done (v', true))
      else done (v, false)
