-- ===== src/Vfs/Effect.antt =====
-- What the changing operations of src/vfs/mod.rs do to what the reading ones return.
use mimic_ssh_honeypot.Prelude.{
  ℕ, ◌+◌, ◌-◌, ◌≤◌, ◌≡◌, ◌≢◌, Bool, true, Option, none, some, List, ◌++◌, length, get_elem?, Text,
  text_eq, if◌then◌else◌, arith, refl, lt_of_get_elem?, get_elem?-set_self, get_elem?-set_ne, ℤ,
}
use mimic_ssh_honeypot.Prelude.Map.{Map, lookup, remove, lookup-remove}
use mimic_ssh_honeypot.Prelude.Outcome.{done}
use mimic_ssh_honeypot.Vfs.Nodes.{Node, NodeId, directory, file}
use mimic_ssh_honeypot.Vfs.Arena.{Vfs, set_node, child, max_vfs_bytes}
use mimic_ssh_honeypot.Vfs.Change.{edit_children, unlink, write_file}

abbrev pub ListsChildren : Vfs → NodeId → Type 0
ListsChildren v id =
    (n : Node) × (m : Map NodeId) × (get_elem? v.nodes id ≡ some n) × (n.kind ≡ directory m)

-- After `unlink` of `name` in a directory, `child` finds nothing under that name, and the other
-- names of the directory as before; the returned entry is the one that `child` found.
pub child-unlink :
    (v : Vfs) (parent : NodeId) (name : Text)
    → ListsChildren v parent
    → (v' : Vfs) × (found : Option NodeId) × (unlink v parent name ≡ done (v', found))
      × (child v parent name ≡ done found)
      × ((j : Text) → child v' parent j ≡ (if text_eq name j then done none else child v parent j))
unfolding unlink edit_children child
child-unlink v parent name (n, m, e, q) =
    let lt = lt_of_get_elem? v.nodes parent e in
    let n' = record n { kind = directory (remove name m) } in
    (
      set_node v parent n',
      lookup name m,
      ground (arith, e, q),
      ground (arith, e, q),
      λ j. ground (arith, e, q, get_elem?-set_self v.nodes parent n' lt, lookup-remove name j m),
    )

-- `write_file` on a regular file whose new length keeps the byte count within its cap succeeds,
-- and then the file holds the bytes, after the old ones where it appends; every other node, and the
-- file's name, parent and permissions, stay as they were.
pub contents-write_file :
    (now : ℤ) (v : Vfs) (id : NodeId) (n : Node) (contents bytes : List ℕ) (append : Bool)
    → get_elem? v.nodes id ≡ some n
    → n.kind ≡ file contents
    → length contents ≤ v.content_bytes
    → (v.content_bytes + length (if append then contents ++ bytes else bytes)
        ≤ max_vfs_bytes + length contents)
    → (v' : Vfs) × (n' : Node) × (write_file now v id bytes append ≡ done (v', true))
      × (get_elem? v'.nodes id ≡ some n')
      × (n'.kind ≡ file (if append then contents ++ bytes else bytes))
      × (n'.name ≡ n.name)
      × (n'.parent ≡ n.parent)
      × (n'.meta.mode ≡ n.meta.mode)
      × ((j : NodeId) → id ≢ j → get_elem? v'.nodes j ≡ get_elem? v.nodes j)
unfolding write_file
contents-write_file now v id n contents bytes append e q covered fits =
    let next = if append then contents ++ bytes else bytes in
    let n' : Node = record n { kind = file next; meta = record (n.meta) { mtime = now } } in
    (
      record (set_node v id n') { content_bytes = v.content_bytes - length contents + length next },
      n',
      ground (arith, e, q, covered, fits),
      get_elem?-set_self v.nodes id n' (lt_of_get_elem? v.nodes id e),
      refl,
      refl,
      refl,
      refl,
      λ j ne. get_elem?-set_ne v.nodes id j n' ne,
    )
