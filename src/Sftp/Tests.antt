-- ===== src/Sftp/Tests.antt =====
-- Packets of one node, and the theorems at them.
use mimic_ssh_honeypot.Prelude.{
  ℕ, ◌+◌, ◌≤◌, none, false, length, split, text_eq, ◌≡◌, some, [], ◌∷◌, ◌++◌, refl, arith, pos,
  codes, List, Text, All, if◌then◌else◌, is_empty,
}
use mimic_ssh_honeypot.Scp.{drop_controls}
use mimic_ssh_honeypot.Scp.Sink.{join_slash, Hasher}
use mimic_ssh_honeypot.Sftp.Path.{normalize_path, IsEntryName}
use mimic_ssh_honeypot.Sftp.Normal.{normalize_path-normal}
use mimic_ssh_honeypot.Vfs.Metadata.{Metadata}
use mimic_ssh_honeypot.Sftp.{
  put_bytes, get_bytes, put_attrs, get_attrs, put_handle, be_bytes, put_u64, put_status,
}
use mimic_ssh_honeypot.Prelude.Outcome.{done}
use mimic_ssh_honeypot.Prelude.Map.{lookup, insert, contains_key}
use mimic_ssh_honeypot.Prelude.Map.Sums.{sum}
use mimic_ssh_honeypot.Sftp.Handles
use mimic_ssh_honeypot.Sftp.Handles.{
  SftpSession, write_handle, open_write, write_request, held_bytes,
}
use mimic_ssh_honeypot.Sftp.Reach.{here, next, opens_write, writes, Reach-IsBounded}
use mimic_ssh_honeypot.Sftp.RoundTrip.{get_bytes-put_bytes, get_attrs-put_attrs}

abbrev meta : Metadata
meta = record { mode = 0o100644; uid = 1000; gid = 1000; mtime = pos 1700000000 }

get_bytes-put_bytes_example :
    get_bytes (put_bytes [] (codes "handle") ++ (7 ∷ [])) ≡ some (codes "handle", 7 ∷ [])
get_bytes-put_bytes_example = get_bytes-put_bytes (codes "handle") (7 ∷ []) (omega arith)

get_attrs-put_attrs_example :
    get_attrs (put_attrs [] meta 12 ++ [])
    ≡ some (
      record {
        permissions = some 0o100644;
        uid_gid = some (1000, 1000);
        acmodtime = some (1700000000, 1700000000);
      },
      [],
    )
get_attrs-put_attrs_example =
    get_attrs-put_attrs meta 12 [] (omega arith) (omega arith) (omega arith) (omega arith)

framed :
    put_handle [] 5 (codes "a") ≡ 0 ∷ 0 ∷ 0 ∷ 10 ∷ 102 ∷ 0 ∷ 0 ∷ 0 ∷ 5 ∷ 0 ∷ 0 ∷ 0 ∷ 1 ∷ 97 ∷ []
unfolding put_handle be_bytes
framed = refl

etc : IsEntryName (codes "etc")
etc = record {
  some_byte = λ q. absurd (cc);
  no_dot = λ q. absurd (cc);
  no_dots = λ q. absurd (cc);
  no_slash = ((λ q. omega (arith, q)), ((λ q. omega (arith, q)), ((λ q. omega (arith, q)), tt)));
}

normalize_path-normal_example :
    ((parts : List Text) × (normalize_path (codes "/root") (codes "../etc/./x")
        ≡ (if is_empty parts then 47 ∷ [] else 47 ∷ join_slash parts))
      × All IsEntryName parts)
    × (normalize_path (codes "/root") (codes "/etc") ≡ codes "/etc")
unfolding join_slash
normalize_path-normal_example =
    normalize_path-normal (codes "/root") (codes "../etc/./x") (codes "etc" ∷ []) (etc, tt) refl

climbed : normalize_path (codes "/root") (codes "../../etc/./x") ≡ codes "/etc/x"
unfolding normalize_path drop_controls split text_eq
climbed = refl

abbrev sums : Hasher
sums = record { State = ℕ; start = 0; update = λ state b. state + b; finish = λ state. state ∷ [] }

-- A write of two bytes at offset 1 of the file that handle 1 is open on.
abbrev two_at_one : List ℕ
two_at_one = put_bytes (put_u64 (put_bytes [] (0 ∷ 0 ∷ 0 ∷ 1 ∷ [])) 1) (7 ∷ 8 ∷ [])

abbrev opened : SftpSession sums
opened = (open_write Handles.new 5 (codes "/tmp/a") (codes "a") none []).0

abbrev written : SftpSession sums
written = record {
  buf = [];
  handles =
      (
        0 ∷ 0 ∷ 0 ∷ 1 ∷ [],
        write_handle (record {
          dest_path = codes "/tmp/a";
          name = codes "a";
          contents = 0 ∷ 7 ∷ 8 ∷ [];
          size = 2;
          hasher = 15;
          mode = 0o644;
          truncated = false;
        }),
      )
      ∷ [];
  next_handle = 2;
  buffered_bytes = 3;
}

written_reply :
    write_request 100 opened 6 two_at_one [] ≡ done (written, put_status [] 6 0 (codes "OK"))
unfolding Handles.new open_write write_request put_bytes put_u64 lookup insert text_eq contains_key
written_reply = refl

Reach-IsBounded_example : (sum held_bytes written.handles ≤ 200) × (length written.handles ≤ 64)
Reach-IsBounded_example = Reach-IsBounded 100 (omega arith) (
    next (next here (opens_write 5 (codes "/tmp/a") (codes "a") none []))
      (writes 6 two_at_one [] (written, put_status [] 6 0 (codes "OK")) written_reply))
