-- ===== src/Sftp/Handles.antt =====
-- The open handles of an SFTP session, src/network/sftp.rs: opening files and directories, reading and writing files. `out`
-- is the response so far; a path has been normalised. The hash of the sha2 crate is a parameter.
use Prim.Native.Nat.{bit_and}
use mimic_ssh_honeypot.Prelude.{
  ℕ, ◌+◌, ◌-◌, ◌*◌, ◌%◌, ◌^◌, min, Bool, false, ◌||◌, Option, none, some, List, [], ◌∷◌, length,
  leb, if◌then◌else◌, Text, codes,
}
use mimic_ssh_honeypot.Prelude.Outcome.{Outcome, done, ◌>>=◌}
use mimic_ssh_honeypot.Prelude.Map.{Map, lookup, insert}
use mimic_ssh_honeypot.Vfs.Metadata.{Metadata}
use mimic_ssh_honeypot.Vfs.Arena.{Vfs}
use mimic_ssh_honeypot.Scp.Sink.{Hasher}
use mimic_ssh_honeypot.Sftp.{be_bytes, put_status, put_handle, ParsedAttrs}
use mimic_ssh_honeypot.Sftp.Transfer.{
  usize_max, saturating_add, write_chunk, read_reply, read_args, write_args,
}

abbrev pub max_sftp_handles : ℕ
max_sftp_handles = 64

abbrev pub sftp_session_buffer_multiplier : ℕ
sftp_session_buffer_multiplier = 2

abbrev pub max_dir_entries_per_read : ℕ
max_dir_entries_per_read = 64

pub record SftpCompletedUpload : Type 0 where
  pub name : Text
  pub dest_path : Text
  pub mode : ℕ
  pub contents : List ℕ
  pub size : ℕ
  pub payload_sha256 : Text
  pub truncated : Bool

-- The fields of `SftpHandle::WriteFile`.
pub record Writing (H : Hasher) : Type 0 where
  pub dest_path : Text
  pub name : Text
  pub contents : List ℕ
  pub size : ℕ
  pub hasher : H.State
  pub mode : ℕ
  pub truncated : Bool

pub data SftpHandle (H : Hasher) : Type 0 where
  dir_handle : (entries : List (Text × Text × Metadata × ℕ)) (offset : ℕ) → SftpHandle H
  read_handle : List ℕ → Metadata → SftpHandle H
  write_handle : Writing H → SftpHandle H

pub record SftpSession (H : Hasher) : Type 0 where
  pub buf : List ℕ
  pub handles : Map (SftpHandle H)
  pub next_handle : ℕ
  pub buffered_bytes : ℕ

-- What the handlers take of the shell.
pub record Shell : Type 0 where
  pub vfs : Vfs
  pub uid : ℕ
  pub gid : ℕ

abbrev pub buffer_cap : ℕ → ℕ
buffer_cap max_upload_bytes = min (max_upload_bytes * sftp_session_buffer_multiplier) usize_max

abbrev pub Reply : Hasher → Type 0
Reply H = SftpSession H × List ℕ

-- `hasher.update`
abbrev pub update_all : (H : Hasher) → H.State → List ℕ → H.State
update_all H state [] = state
update_all H state (b ∷ chunk) = update_all H (H.update state b) chunk

module _ {H : Hasher} where
  unfoldable pub new : SftpSession H
  new = record { buf = []; handles = []; next_handle = 1; buffered_bytes = 0 }

  abbrev pub can_buffer : SftpSession H → ℕ → ℕ → Bool
  can_buffer s extra max_upload_bytes =
      leb (saturating_add s.buffered_bytes extra) (buffer_cap max_upload_bytes)

  -- `alloc_handle`, and the insertion of what it is for.
  unfoldable pub add_handle : SftpSession H → SftpHandle H → SftpSession H × List ℕ
  unfolding be_bytes
  add_handle s h =
      let key = be_bytes 4 s.next_handle in
      (
        record s { handles = insert key h s.handles; next_handle = (s.next_handle + 1) % 2 ^ 32 },
        key,
      )

  abbrev with_handle : ℕ → List ℕ → SftpSession H × List ℕ → Reply H
  with_handle id out (s, key) = (s, put_handle out id key)

  -- `SSH_FXP_OPEN` with the write flag.
  unfoldable pub open_write :
      SftpSession H → ℕ → (path name : Text) → Option ParsedAttrs → List ℕ → Reply H
  unfolding add_handle
  open_write s id path name attrs out =
      if leb max_sftp_handles (length s.handles)
      then (s, put_status out id 4 (codes "Too many open handles"))
      else with_handle id out (
          add_handle s (
            write_handle (record {
              dest_path = path;
              name = name;
              contents = [];
              size = 0;
              hasher = H.start;
              mode = bit_and (permissions_of attrs) 0o7777;
              truncated = false;
            })))
    where
      permissions_of : Option ParsedAttrs → ℕ
      permissions_of none = 0o644
      permissions_of (some a) = elim a.permissions [ none ↦ 0o644 | some p ↦ p ]

  -- `SSH_FXP_OPEN` with the read flag only, on the file that the path names.
  unfoldable pub open_read : ℕ → SftpSession H → ℕ → List ℕ → Metadata → List ℕ → Reply H
  unfolding add_handle
  open_read max_upload_bytes s id contents meta out =
      if leb max_sftp_handles (length s.handles)
      then (s, put_status out id 4 (codes "Too many open handles"))
      else if can_buffer s (length contents) max_upload_bytes
      then with_handle id out (
          add_handle (record s { buffered_bytes = s.buffered_bytes + length contents })
            (read_handle contents meta))
      else (s, put_status out id 4 (codes "Too many open handles"))

  -- A directory opened with the lines of its listing.
  abbrev pub listed_dir :
      SftpSession H → ℕ → (entries : List (Text × Text × Metadata × ℕ)) → List ℕ → Reply H
  listed_dir s id entries out = with_handle id out (add_handle s (dir_handle entries 0))

  -- `SSH_FXP_OPENDIR` on the directory that the path names, with the lines of its listing.
  unfoldable pub open_dir :
      SftpSession H → ℕ → (entries : List (Text × Text × Metadata × ℕ)) → List ℕ → Reply H
  unfolding add_handle
  open_dir s id entries out =
      if leb max_sftp_handles (length s.handles)
      then (s, put_status out id 4 (codes "Too many open handles"))
      else listed_dir s id entries out

  abbrev pub malformed : SftpSession H → ℕ → List ℕ → Reply H
  malformed s id out = (s, put_status out id 5 (codes "Malformed packet"))

  abbrev pub invalid : SftpSession H → ℕ → List ℕ → Reply H
  invalid s id out = (s, put_status out id 4 (codes "Invalid handle"))

  -- `SSH_FXP_READ`
  unfoldable pub read_request : SftpSession H → ℕ → List ℕ → List ℕ → Reply H
  unfolding read_args read_reply
  read_request s id cursor out = elim (read_args cursor) [
    | none ↦ malformed s id out
    | some (handle, raw_offset, len) ↦ elim (lookup handle s.handles) [
      | some (read_handle contents meta) ↦ (s, read_reply id contents raw_offset len out)
      | _ ↦ invalid s id out
    ]
  ]

  -- A write to an open file: the session after it.
  unfoldable pub write_to :
      ℕ → SftpSession H → (handle : List ℕ) → Writing H → ℕ → List ℕ → Outcome (SftpSession H)
  unfolding write_chunk
  write_to max_upload_bytes s handle w raw_offset chunk = do
    written ←
        write_chunk max_upload_bytes (buffer_cap max_upload_bytes - s.buffered_bytes) w.contents
          raw_offset chunk
    done (record s {
      handles =
          insert handle
            (write_handle (record w {
              contents = written.contents;
              size = (w.size + length chunk) % 2 ^ 64;
              hasher = update_all H w.hasher chunk;
              truncated = w.truncated || written.cut;
            }))
            s.handles;
      buffered_bytes = s.buffered_bytes + written.grew;
    })

  abbrev answered : ℕ → List ℕ → Outcome (SftpSession H) → Outcome (Reply H)
  answered id out o = do s ← o; done (s, put_status out id 0 (codes "OK"))

  -- `SSH_FXP_WRITE`
  unfoldable pub write_request : ℕ → SftpSession H → ℕ → List ℕ → List ℕ → Outcome (Reply H)
  unfolding write_args write_to
  write_request max_upload_bytes s id cursor out = elim (write_args cursor) [
    | none ↦ done (malformed s id out)
    | some (handle, raw_offset, chunk) ↦ elim (lookup handle s.handles) [
      | some (write_handle w) ↦
          answered id out (write_to max_upload_bytes s handle w raw_offset chunk)
      | _ ↦ done (invalid s id out)
    ]
  ]

  abbrev pub held_bytes : SftpHandle H → ℕ
  held_bytes (dir_handle entries offset) = 0
  held_bytes (read_handle contents meta) = length contents
  held_bytes (write_handle w) = length w.contents
