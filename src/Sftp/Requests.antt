-- ===== src/Sftp/Requests.antt =====
-- Closing a handle of an SFTP session, its attributes, and paging through a directory: src/network/sftp.rs.
use Prim.Native.Nat.{bit_and}
use mimic_ssh_honeypot.Prelude.{
  ℕ, ◌+◌, ◌-◌, min, Option, none, some, List, [], ◌∷◌, ◌++◌, length, take, drop, leb, if◌then◌else◌,
  ℤ, Text, codes, map,
}
use mimic_ssh_honeypot.Prelude.Outcome.{Outcome, done, ◌>>=◌}
use mimic_ssh_honeypot.Prelude.Map.{lookup, insert, remove}
use mimic_ssh_honeypot.Vfs.Metadata
use mimic_ssh_honeypot.Vfs.Metadata.{Metadata, s_ifdir, s_ifreg}
use mimic_ssh_honeypot.Vfs.Resolve.{split_path}
use mimic_ssh_honeypot.Vfs.Change.{mkdir_p, add_file}
use mimic_ssh_honeypot.Scp.Sink.{Hasher}
use mimic_ssh_honeypot.Sftp.{
  put_status, put_attrs_pkt, put_name_pkt, get_bytes, get_attrs, ParsedAttrs, NameEntry,
}
use mimic_ssh_honeypot.Sftp.Handles.{
  SftpCompletedUpload, Writing, SftpHandle, dir_handle, read_handle, write_handle, SftpSession,
  Shell, Reply, malformed, invalid, held_bytes, max_dir_entries_per_read,
}

-- What is read of the attributes, if they can be.
abbrev pub attrs_of : List ℕ → Option ParsedAttrs
attrs_of cursor = elim (get_attrs cursor) [ none ↦ none | some (attrs, rest) ↦ some attrs ]

abbrev named : Text × Text × Metadata × ℕ → NameEntry
named (name, longname, meta, size) = (name, longname, some (meta, size))

module _ {H : Hasher} where
  -- A handle leaves the session, and gives its bytes back to the budget.
  unfoldable pub release_handle : SftpSession H → List ℕ → SftpHandle H → SftpSession H
  release_handle s handle h = record s {
    handles = remove handle s.handles;
    buffered_bytes = s.buffered_bytes - held_bytes h;
  }

  unfoldable pub completed_upload : Writing H → SftpCompletedUpload
  completed_upload w = record {
    name = w.name;
    dest_path = w.dest_path;
    mode = w.mode;
    contents = w.contents;
    size = w.size;
    payload_sha256 = H.finish w.hasher;
    truncated = w.truncated;
  }

  -- The copy of an upload in the filesystem, under its directory if that can be made.
  unfoldable pub mirror : ℤ → Shell → Writing H → Outcome Shell
  unfolding split_path mkdir_p add_file
  mirror now shell w = do
    (vfs, parent) ← mkdir_p now shell.vfs (split_path w.dest_path).0 0o755 shell.uid shell.gid
    elim parent [
      | none ↦ done (record shell { vfs = vfs })
      | some p ↦ do
        (vfs', made) ← add_file now vfs p w.name w.contents w.mode shell.uid shell.gid
        done (record shell { vfs = vfs' })
    ]

  abbrev unclosed :
      Shell
      → Reply H
      → List SftpCompletedUpload
      → Outcome (Shell × Reply H × List SftpCompletedUpload)
  unclosed shell reply completed = done (shell, reply, completed)

  -- `SSH_FXP_CLOSE`
  unfoldable pub close :
      ℤ
      → Shell
      → SftpSession H
      → ℕ
      → List ℕ
      → List ℕ
      → List SftpCompletedUpload
      → Outcome (Shell × Reply H × List SftpCompletedUpload)
  unfolding get_bytes release_handle completed_upload mirror
  close now shell s id cursor out completed = elim (get_bytes cursor) [
    | none ↦ unclosed shell (malformed s id out) completed
    | some (handle, cursor1) ↦ elim (lookup handle s.handles) [
      | none ↦ unclosed shell (invalid s id out) completed
      | some h ↦ do
        let closed : Reply H = (release_handle s handle h, put_status out id 0 (codes "OK"))
        elim h [
          | write_handle w ↦ do
            shell' ← mirror now shell w
            done (shell', closed, completed ++ (completed_upload w ∷ []))
          | _ ↦ done (shell, closed, completed)
        ]
    ]
  ]

  -- `SSH_FXP_FSTAT`
  unfoldable pub fstat : ℤ → Shell → SftpSession H → ℕ → List ℕ → List ℕ → Reply H
  unfolding get_bytes put_attrs_pkt
  fstat now shell s id cursor out = elim (get_bytes cursor) [
    | none ↦ malformed s id out
    | some (handle, cursor1) ↦ elim (lookup handle s.handles) [
      | some (read_handle contents meta) ↦ (s, put_attrs_pkt out id meta (length contents))
      | some (write_handle w) ↦
          (s, put_attrs_pkt out id (Metadata.new now s_ifreg w.mode shell.uid shell.gid) w.size)
      | some (dir_handle entries offset) ↦
          (s, put_attrs_pkt out id (Metadata.new now s_ifdir 0o755 shell.uid shell.gid) 4096)
      | none ↦ invalid s id out
    ]
  ]

  abbrev pub with_mode : Writing H → Option ParsedAttrs → Writing H
  with_mode w none = w
  with_mode w (some a) = elim a.permissions [
    | none ↦ w
    | some perms ↦ record w { mode = bit_and perms 0o7777 }
  ]

  -- `SSH_FXP_FSETSTAT`
  unfoldable pub fsetstat : SftpSession H → ℕ → List ℕ → List ℕ → Reply H
  unfolding get_bytes get_attrs
  fsetstat s id cursor out = elim (get_bytes cursor) [
    | none ↦ malformed s id out
    | some (handle, cursor1) ↦ elim (lookup handle s.handles) [
      | some (write_handle w) ↦ (
        record s {
          handles = insert handle (write_handle (with_mode w (attrs_of cursor1))) s.handles;
        },
        put_status out id 0 (codes "OK"),
      )
      | some h ↦ (s, put_status out id 0 (codes "OK"))
      | none ↦ invalid s id out
    ]
  ]

  -- `SSH_FXP_READDIR`
  unfoldable pub readdir : SftpSession H → ℕ → List ℕ → List ℕ → Reply H
  unfolding get_bytes put_name_pkt
  readdir s id cursor out = elim (get_bytes cursor) [
    | none ↦ malformed s id out
    | some (handle, cursor1) ↦ elim (lookup handle s.handles) [
      | some (dir_handle entries offset) ↦
          if leb (length entries) offset
          then (s, put_status out id 1 (codes "End of file"))
          else (let end = min (offset + max_dir_entries_per_read) (length entries) in
              (
                record s { handles = insert handle (dir_handle entries end) s.handles },
                put_name_pkt out id (map named (take (end - offset) (drop offset entries))),
              ))
      | _ ↦ invalid s id out
    ]
  ]
