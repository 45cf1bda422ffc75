-- ===== src/Vfs/Metadata.antt =====
-- The metadata of a node, of src/vfs/nodes.rs. A mode is a `u32`; a time is an `i64`. The clock's
-- reading is an argument of what stamps a node.
use Prim.Native.Nat.{bit_and, bit_or}
use mimic_ssh_honeypot.Prelude.{ℕ, Bool, true, not, ◌==◌, if◌then◌else◌, ℤ}

abbrev pub s_ifdir : ℕ
s_ifdir = 0o040000

abbrev pub s_ifreg : ℕ
s_ifreg = 0o100000

abbrev pub s_iflnk : ℕ
s_iflnk = 0o120000

abbrev pub s_ifmt : ℕ
s_ifmt = 0o170000

pub record Metadata : Type 0 where
  pub mode : ℕ
  pub uid : ℕ
  pub gid : ℕ
  pub mtime : ℤ

-- `Metadata::new`, at the time `now`.
unfoldable pub new : ℤ → ℕ → ℕ → ℕ → ℕ → Metadata
new now file_type perms uid gid = record {
  mode = bit_or file_type (bit_and perms 0o7777);
  uid = uid;
  gid = gid;
  mtime = now;
}

unfoldable pub is_dir : Metadata → Bool
is_dir m = bit_and m.mode s_ifmt == s_ifdir

unfoldable pub is_symlink : Metadata → Bool
is_symlink m = bit_and m.mode s_ifmt == s_iflnk

unfoldable pub readable_by : Metadata → ℕ → ℕ → Bool
readable_by m uid gid =
    if uid == 0
    then true
    else if uid == m.uid
    then not (bit_and m.mode 0o400 == 0)
    else if gid == m.gid
    then not (bit_and m.mode 0o040 == 0)
    else not (bit_and m.mode 0o004 == 0)

unfoldable pub writable_by : Metadata → ℕ → ℕ → Bool
writable_by m uid gid =
    if uid == 0
    then true
    else if uid == m.uid
    then not (bit_and m.mode 0o200 == 0)
    else if gid == m.gid
    then not (bit_and m.mode 0o020 == 0)
    else not (bit_and m.mode 0o002 == 0)

unfoldable pub executable_by : Metadata → ℕ → ℕ → Bool
executable_by m uid gid =
    if uid == 0
    then true
    else if uid == m.uid
    then not (bit_and m.mode 0o100 == 0)
    else if gid == m.gid
    then not (bit_and m.mode 0o010 == 0)
    else not (bit_and m.mode 0o001 == 0)
