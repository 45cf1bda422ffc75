-- ===== src/Vfs/Valid/Meta.antt =====
-- Permissions: `chmod` of src/vfs/mod.rs on a valid filesystem.
use Prim.Native.Nat.{bit_and}
use mimic_ssh_honeypot.Prelude.{
  ℕ, ◌≡◌, ◌≢◌, some, get_elem?, arith, refl, ap, lt_of_get_elem?, get_elem?-set_self,
  get_elem?-set_ne, ◌==◌,
}
use mimic_ssh_honeypot.Prelude.Outcome.{done}
use mimic_ssh_honeypot.Prelude.Bits.{masked}
use mimic_ssh_honeypot.Vfs.Nodes.{Node, NodeId}
use mimic_ssh_honeypot.Vfs.Metadata.{Metadata, is_dir, is_symlink, s_ifmt, s_ifdir, s_iflnk}
use mimic_ssh_honeypot.Vfs.Arena.{Vfs, set_node}
use mimic_ssh_honeypot.Vfs.Change.{edit_meta, chmod, chmod_meta}
use mimic_ssh_honeypot.Vfs.Valid.{IsValid, Same}
use mimic_ssh_honeypot.Vfs.Valid.Edit.{set_node-IsValid}

-- The new mode has the file type of the old one, and the permissions that were asked for.
chmod_meta-bits :
    (m : Metadata) (perms : ℕ)
    → (bit_and (chmod_meta perms m).mode s_ifmt ≡ bit_and m.mode s_ifmt)
      × (bit_and (chmod_meta perms m).mode 0o7777 ≡ bit_and perms 0o7777)
chmod_meta-bits m perms = masked m.mode perms s_ifmt 0o7777 refl refl refl refl

-- `chmod` of a node that a valid filesystem has, with any permissions, returns a valid filesystem with
-- the same nodes; the node's low twelve bits of mode become those of the permissions, the file-type bits of
-- its mode, and with them whether it is a directory or a symbolic link, stay as they were, and so do its
-- name, parent, kind, owner, group and time, and every other node.
pub chmod-Same :
    (v : Vfs) (id : NodeId) (n : Node) (perms : ℕ)
    → IsValid v
    → get_elem? v.nodes id ≡ some n
    → (v' : Vfs) × (n' : Node) × (chmod v id perms ≡ done v')
      × Same v v'
      × (get_elem? v'.nodes id ≡ some n')
      × (bit_and n'.meta.mode 0o7777 ≡ bit_and perms 0o7777)
      × (bit_and n'.meta.mode s_ifmt ≡ bit_and n.meta.mode s_ifmt)
      × (is_dir n'.meta ≡ is_dir n.meta)
      × (is_symlink n'.meta ≡ is_symlink n.meta)
      × (n'.name ≡ n.name)
      × (n'.parent ≡ n.parent)
      × (n'.kind ≡ n.kind)
      × (n'.meta.uid ≡ n.meta.uid)
      × (n'.meta.gid ≡ n.meta.gid)
      × (n'.meta.mtime ≡ n.meta.mtime)
      × ((j : NodeId) → id ≢ j → get_elem? v'.nodes j ≡ get_elem? v.nodes j)
unfolding chmod edit_meta is_dir is_symlink
chmod-Same v id n perms h e =
    let n' = record n { meta = chmod_meta perms n.meta } in
    let (file_type, permissions) = chmod_meta-bits n.meta perms in
    (
      set_node v id n',
      n',
      ground (arith, e),
      set_node-IsValid v id n n' v.content_bytes h e refl refl (λ P k. k) (λ k. k) (omega arith)
          h.bytes_cap,
      get_elem?-set_self v.nodes id n' (lt_of_get_elem? v.nodes id e),
      permissions,
      file_type,
      ap (λ b. b == s_ifdir) file_type,
      ap (λ b. b == s_iflnk) file_type,
      refl,
      refl,
      refl,
      refl,
      refl,
      refl,
      λ j ne. get_elem?-set_ne v.nodes id j n' ne,
    )
