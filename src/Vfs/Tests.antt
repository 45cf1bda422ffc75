-- ===== src/Vfs/Tests.antt =====
-- A small filesystem, as the tests of src/vfs/mod.rs build it: /tmp, /tmp/a ("hi") and /tmp/d.
use Prim.Native.Nat.{bit_and}
use mimic_ssh_honeypot.Prelude.{
  ◌≢◌, get_elem?, if◌then◌else◌, text_lt, ◌≡◌, Option, none, some, [], ◌∷◌, Text, codes, ℤ, pos,
  arith, refl, true, text_eq, starts_with,
}
use mimic_ssh_honeypot.Prelude.Map.{lookup, insert, contains_key}
use mimic_ssh_honeypot.Prelude.Outcome.{done, ◌>>=◌}
use mimic_ssh_honeypot.Vfs.Nodes.{Node, NodeId, directory, file}
use mimic_ssh_honeypot.Vfs.Metadata.{Metadata, is_dir, is_symlink}
use mimic_ssh_honeypot.Vfs.Metadata
use mimic_ssh_honeypot.Vfs.Arena.{Vfs, new, child, depth_of, is_full}
use mimic_ssh_honeypot.Vfs.Resolve.{resolve, split_path}
use mimic_ssh_honeypot.Vfs.Change.{
  insert_node, create_file, mkdir, add_file, write_file, mkdir_p, unlink, rename, chmod,
}
use mimic_ssh_honeypot.Vfs.Copy.{deep_copy}
use mimic_ssh_honeypot.Vfs.Valid.{IsValid, Ends, Made, Same}
use mimic_ssh_honeypot.Vfs.Valid.New.{Ends-at, new-IsValid}
use mimic_ssh_honeypot.Vfs.Valid.Ops.{mkdir-Made}
use mimic_ssh_honeypot.Vfs.Valid.Rename.{unlink-Same, rename-Same}
use mimic_ssh_honeypot.Vfs.Valid.Copy.{deep_copy-Made}
use mimic_ssh_honeypot.Vfs.Resolve.Total.{Found, resolve_done, resolve-append, then_resolve}
use mimic_ssh_honeypot.Vfs.Effect.{child-unlink, contents-write_file}
use mimic_ssh_honeypot.Vfs.Valid.Meta.{chmod-Same}
use mimic_ssh_honeypot.Vfs.Valid.Files.{MadeAll, add_file-Made, write_file-Same, mkdir_p-MadeAll}

abbrev t0 : ℤ
t0 = pos 0

abbrev dir_meta : Metadata
dir_meta = record { mode = 0o040755; uid = 0; gid = 0; mtime = t0 }

abbrev file_meta : Metadata
file_meta = record { mode = 0o100644; uid = 0; gid = 0; mtime = t0 }

abbrev with_tmp : Vfs
with_tmp = record {
  nodes =
      record { name = []; parent = none; kind = directory ((codes "tmp", 1) ∷ []); meta = dir_meta }
      ∷ record { name = codes "tmp"; parent = some 0; kind = directory []; meta = dir_meta }
      ∷ [];
  root = 0;
  content_bytes = 0;
}

abbrev with_file : Vfs
with_file = record {
  nodes =
      record { name = []; parent = none; kind = directory ((codes "tmp", 1) ∷ []); meta = dir_meta }
      ∷ record {
        name = codes "tmp";
        parent = some 0;
        kind = directory ((codes "a", 2) ∷ []);
        meta = dir_meta;
      }
      ∷ record { name = codes "a"; parent = some 1; kind = file (codes "hi"); meta = file_meta }
      ∷ [];
  root = 0;
  content_bytes = 2;
}

abbrev small : Vfs
small = record {
  nodes =
      record { name = []; parent = none; kind = directory ((codes "tmp", 1) ∷ []); meta = dir_meta }
      ∷ record {
        name = codes "tmp";
        parent = some 0;
        kind = directory ((codes "a", 2) ∷ (codes "d", 3) ∷ []);
        meta = dir_meta;
      }
      ∷ record { name = codes "a"; parent = some 1; kind = file (codes "hi"); meta = file_meta }
      ∷ record { name = codes "d"; parent = some 1; kind = directory []; meta = dir_meta }
      ∷ [];
  root = 0;
  content_bytes = 2;
}

made_tmp : mkdir t0 (new t0) 0 (codes "tmp") 0o755 0 0 ≡ done (with_tmp, 1)
unfolding mkdir new child insert_node is_full depth_of lookup insert Metadata.new contains_key
made_tmp = refl

made_file : add_file t0 with_tmp 1 (codes "a") (codes "hi") 0o644 0 0 ≡ done (with_file, 2)
unfolding add_file create_file child insert_node is_full depth_of lookup insert Metadata.new
    contains_key
made_file = refl

made_d : mkdir t0 with_file 1 (codes "d") 0o755 0 0 ≡ done (small, 3)
unfolding mkdir child insert_node is_full depth_of lookup text_eq insert Metadata.new contains_key
    text_lt
made_d = refl

with_tmp-IsValid : IsValid with_tmp
with_tmp-IsValid =
    (Ends-at
      (mkdir-Made t0 (new t0) 0 (codes "tmp") (new-IsValid t0) (unfold new in omega arith) 0o755 0
        0)
      (with_tmp, 1) made_tmp).valid

with_file-IsValid : IsValid with_file
with_file-IsValid =
    (Ends-at
      (add_file-Made t0 with_tmp 1 (codes "a") with_tmp-IsValid (omega arith) (codes "hi") 0o644 0
        0)
      (with_file, 2) made_file).valid

small-IsValid : IsValid small
small-IsValid =
    (Ends-at (mkdir-Made t0 with_file 1 (codes "d") with_file-IsValid (omega arith) 0o755 0 0)
      (small, 3) made_d).valid

add_file-Made_example : Ends (Made small) (add_file t0 small 1 (codes "a") (codes "bye") 0o644 0 0)
add_file-Made_example =
    add_file-Made t0 small 1 (codes "a") small-IsValid (omega arith) (codes "bye") 0o644 0 0

write_file-Same_example : Ends (λ r. Same small r.0) (write_file (pos 9) small 2 (codes "!") true)
write_file-Same_example =
    write_file-Same (pos 9) small 2 (codes "!") true small-IsValid (omega arith)

mkdir_p-MadeAll_example : Ends (MadeAll small) (mkdir_p t0 small (codes "/tmp/d/x//y") 0o755 0 0)
mkdir_p-MadeAll_example = mkdir_p-MadeAll t0 small (codes "/tmp/d/x//y") 0o755 0 0 small-IsValid

unlink-Same_example : Ends (λ r. Same small r.0) (unlink small 1 (codes "a"))
unlink-Same_example = unlink-Same small 1 (codes "a") small-IsValid (omega arith)

rename-Same_example : Ends (λ r. Same small r.0) (rename small 2 3 (codes "b"))
rename-Same_example = rename-Same small 2 3 (codes "b") small-IsValid (omega arith) (omega arith)

deep_copy-Made_example : Ends (Made small) (deep_copy t0 small 1 3 (codes "copy"))
deep_copy-Made_example =
    deep_copy-Made t0 small 1 3 (codes "copy") small-IsValid (omega arith) (omega arith)

resolve_done_example : Ends (Found small) (resolve small 1 (codes "../tmp/./a"))
resolve_done_example = resolve_done small small-IsValid 1 (codes "../tmp/./a") (omega arith)

resolve-append_example :
    resolve small 0 (codes "tmp/a")
    ≡ (resolve small 0 (codes "tmp") >>= then_resolve small (codes "a"))
unfolding starts_with
resolve-append_example = resolve-append small 0 116 (codes "mp") (codes "a") refl

child-unlink_example :
    (v' : Vfs) × (found : Option NodeId) × (unlink small 1 (codes "a") ≡ done (v', found))
    × (child small 1 (codes "a") ≡ done found)
    × ((j : Text) → child v' 1 j ≡ (if text_eq (codes "a") j then done none else child small 1 j))
child-unlink_example = child-unlink small 1 (codes "a") (_, _, refl, refl)

contents-write_file_example :
    (v' : Vfs) × (n' : Node) × (write_file (pos 9) small 2 (codes "!") true ≡ done (v', true))
    × (get_elem? v'.nodes 2 ≡ some n')
    × (n'.kind ≡ file (codes "hi!"))
    × (n'.name ≡ codes "a")
    × (n'.parent ≡ some 1)
    × (n'.meta.mode ≡ 0o100644)
    × ((j : NodeId) → 2 ≢ j → get_elem? v'.nodes j ≡ get_elem? small.nodes j)
contents-write_file_example =
    contents-write_file (pos 9) small 2
      (record { name = codes "a"; parent = some 1; kind = file (codes "hi"); meta = file_meta })
      (codes "hi") (codes "!") true refl refl (omega arith) (omega arith)

abbrev node_a : Node
node_a = record { name = codes "a"; parent = some 1; kind = file (codes "hi"); meta = file_meta }

chmod-Same_example :
    (v' : Vfs) × (n' : Node) × (chmod small 2 0o040755 ≡ done v')
    × Same small v'
    × (get_elem? v'.nodes 2 ≡ some n')
    × (bit_and n'.meta.mode 0o7777 ≡ 0o755)
    × (bit_and n'.meta.mode 0o170000 ≡ 0o100000)
    × (is_dir n'.meta ≡ is_dir file_meta)
    × (is_symlink n'.meta ≡ is_symlink file_meta)
    × (n'.name ≡ codes "a")
    × (n'.parent ≡ some 1)
    × (n'.kind ≡ file (codes "hi"))
    × (n'.meta.uid ≡ file_meta.uid)
    × (n'.meta.gid ≡ file_meta.gid)
    × (n'.meta.mtime ≡ file_meta.mtime)
    × ((j : NodeId) → 2 ≢ j → get_elem? v'.nodes j ≡ get_elem? small.nodes j)
chmod-Same_example = chmod-Same small 2 node_a 0o040755 small-IsValid refl

split_file : split_path (codes "/tmp/a") ≡ (codes "/tmp", codes "a")
unfolding split_path
split_file = refl

split_root : split_path (codes "/a") ≡ (codes "/", codes "a")
unfolding split_path
split_root = refl

split_bare : split_path (codes "a") ≡ (codes ".", codes "a")
unfolding split_path
split_bare = refl
