-- ===== src/Sftp/Session.antt =====
-- Each request on the handles of an SFTP session keeps the bounds on what they hold, src/network/sftp.rs.
use mimic_ssh_honeypot.Prelude.{
  ℕ, ◌+◌, ◌-◌, ◌≤◌, ◌<◌, ◌≡◌, true, false, ◌||◌, ◌*◌, ◌%◌, ◌^◌, Option, none, some, List, length,
  leb, Text, arith, refl, ap, ◌∙◌, Bool-cases, inl, inr,
}
use mimic_ssh_honeypot.Prelude.Outcome.{done}
use mimic_ssh_honeypot.Prelude.Map.{
  Map, lookup, insert, contains_key, DistinctKeys, insert-DistinctKeys, remove-DistinctKeys,
  length-insert, length-remove_le, contains_key-lookup,
}
use mimic_ssh_honeypot.Prelude.Map.Sums.{sum, sum-insert, sum-insert_le, sum-remove}
use mimic_ssh_honeypot.Scp.Sink.{Hasher}
use mimic_ssh_honeypot.Vfs.Metadata.{Metadata}
use mimic_ssh_honeypot.Sftp.{ParsedAttrs, be_bytes}
use mimic_ssh_honeypot.Sftp.Handles
use mimic_ssh_honeypot.Sftp.Transfer.{usize_max}
use mimic_ssh_honeypot.Sftp.Handles.{
  SftpCompletedUpload, Writing, SftpHandle, dir_handle, read_handle, write_handle, SftpSession,
  Shell, Reply, held_bytes, buffer_cap, can_buffer, add_handle, open_write, open_read, open_dir,
  write_to, write_request, malformed, invalid, max_sftp_handles, update_all,
}
use mimic_ssh_honeypot.Sftp.Requests.{release_handle}
use mimic_ssh_honeypot.Sftp.Budget.{write_chunk-Charged}

module _ {H : Hasher} (max : ℕ) where
  -- The handles hold no more than what is charged, which is within the cap, and are not too many.
  pub record IsBounded (s : SftpSession H) : Type 0 where
    pub distinct : DistinctKeys s.handles
    pub charged : sum held_bytes s.handles ≤ s.buffered_bytes
    pub capped : s.buffered_bytes ≤ buffer_cap max
    pub few : length s.handles ≤ max_sftp_handles

  pub new-IsBounded : IsBounded Handles.new
  unfolding Handles.new
  new-IsBounded = record {
    distinct = tt;
    charged = omega arith;
    capped = omega arith;
    few = omega arith;
  }

  length-insert_le :
      (k : Text) (h : SftpHandle H) (m : Map (SftpHandle H)) → length (insert k h m) ≤ length m + 1
  length-insert_le k h m = ground (arith, length-insert k h m)

  length-insert_same :
      (k : Text) (h w : SftpHandle H) (m : Map (SftpHandle H))
      → lookup k m ≡ some w
      → length (insert k h m) ≡ length m
  length-insert_same k h w m found =
      let there : contains_key k m ≡ true =
        contains_key-lookup k m ∙ ap (λ o. elim o [ none ↦ false | some x ↦ true ]) found in
      length-insert k h m ∙ rw there refl

  add_handle-IsBounded :
      (s : SftpSession H) (h : SftpHandle H)
      → DistinctKeys s.handles
      → sum held_bytes s.handles + held_bytes h ≤ s.buffered_bytes
      → s.buffered_bytes ≤ buffer_cap max
      → length s.handles < max_sftp_handles
      → IsBounded (add_handle s h).0
  unfolding add_handle
  add_handle-IsBounded s h d charged capped few = record {
    distinct = insert-DistinctKeys (be_bytes 4 s.next_handle) h s.handles d;
    charged =
        omega (arith, charged, sum-insert_le held_bytes (be_bytes 4 s.next_handle) h s.handles d);
    capped = capped;
    few = omega (arith, few, length-insert_le (be_bytes 4 s.next_handle) h s.handles);
  }

  pub open_write-IsBounded :
      (s : SftpSession H) (id : ℕ) (path name : Text) (attrs : Option ParsedAttrs) (out : List ℕ)
      → IsBounded s
      → IsBounded (open_write s id path name attrs out).0
  unfolding open_write
  open_write-IsBounded s id path name attrs out b =
      elim (Bool-cases (leb max_sftp_handles (length s.handles))) [
        | inl full ↦ rw full b
        | inr room ↦ rw room (
            add_handle-IsBounded s _ b.distinct (omega (arith, b.charged)) b.capped
              (ground (arith, room)))
      ]

  pub open_read-IsBounded :
      (s : SftpSession H) (id : ℕ) (contents : List ℕ) (meta : Metadata) (out : List ℕ)
      → max * 2 < usize_max
      → IsBounded s
      → IsBounded (open_read max s id contents meta out).0
  unfolding open_read
  open_read-IsBounded s id contents meta out small b =
      elim (Bool-cases (leb max_sftp_handles (length s.handles))) [
        | inl full ↦ rw full b
        | inr room ↦ elim (Bool-cases (can_buffer s (length contents) max)) [
          | inr over ↦ rw (room, over) b
          | inl fits ↦
              rw (room, fits)
                (add_handle-IsBounded
                  (record s { buffered_bytes = s.buffered_bytes + length contents })
                  (read_handle contents meta) b.distinct (omega (arith, b.charged))
                  (ground (arith, fits, small)) (ground (arith, room)))
        ]
      ]

  pub open_dir-IsBounded :
      (s : SftpSession H) (id : ℕ) (entries : List (Text × Text × Metadata × ℕ)) (out : List ℕ)
      → IsBounded s
      → IsBounded (open_dir s id entries out).0
  unfolding open_dir
  open_dir-IsBounded s id entries out b =
      elim (Bool-cases (leb max_sftp_handles (length s.handles))) [
        | inl full ↦ rw full b
        | inr room ↦ rw room (
            add_handle-IsBounded s (dir_handle entries 0) b.distinct (omega (arith, b.charged))
              b.capped (ground (arith, room)))
      ]

  -- A change of an open handle that does not change what it holds.
  kept-IsBounded :
      (s : SftpSession H) (k : Text) (h w : SftpHandle H) (grew : ℕ)
      → lookup k s.handles ≡ some w
      → held_bytes h ≡ held_bytes w + grew
      → s.buffered_bytes + grew ≤ buffer_cap max
      → IsBounded s
      → IsBounded
          (record s { handles = insert k h s.handles; buffered_bytes = s.buffered_bytes + grew })
  kept-IsBounded s k h w grew found more room b = record {
    distinct = insert-DistinctKeys k h s.handles b.distinct;
    charged =
        omega (arith, b.charged, more, sum-insert held_bytes k h w s.handles b.distinct found);
    capped = room;
    few = omega (arith, b.few, length-insert_same k h w s.handles found);
  }

  pub same-IsBounded :
      (s : SftpSession H) (k : Text) (h w : SftpHandle H)
      → lookup k s.handles ≡ some w
      → held_bytes h ≡ held_bytes w
      → IsBounded s
      → IsBounded (record s { handles = insert k h s.handles })
  same-IsBounded s k h w found same b = record {
    distinct = insert-DistinctKeys k h s.handles b.distinct;
    charged =
        omega (arith, b.charged, same, sum-insert held_bytes k h w s.handles b.distinct found);
    capped = b.capped;
    few = omega (arith, b.few, length-insert_same k h w s.handles found);
  }

  -- A write to an open file succeeds and keeps the bounds.
  pub write_to-IsBounded :
      (s : SftpSession H) (handle : List ℕ) (w : Writing H) (raw_offset : ℕ) (chunk : List ℕ)
      → max * 2 < usize_max
      → lookup handle s.handles ≡ some (write_handle w)
      → IsBounded s
      → (s' : SftpSession H) × (write_to max s handle w raw_offset chunk ≡ done s') × IsBounded s'
  unfolding write_to
  write_to-IsBounded s handle w raw_offset chunk small found b =
      let (written, e, (longer, within)) =
        write_chunk-Charged max (buffer_cap max - s.buffered_bytes) w.contents raw_offset chunk
          (omega (arith, small)) in
      let h = write_handle (record w {
        contents = written.contents;
        size = (w.size + length chunk) % 2 ^ 64;
        hasher = update_all H w.hasher chunk;
        truncated = w.truncated || written.cut;
      }) in
      (
        record s {
          handles = insert handle h s.handles;
          buffered_bytes = s.buffered_bytes + written.grew;
        },
        rw e refl,
        kept-IsBounded s handle h (write_handle w) written.grew found longer
            (omega (arith, within, b.capped)) b,
      )

  pub release_handle-IsBounded :
      (s : SftpSession H) (handle : List ℕ) (h : SftpHandle H)
      → lookup handle s.handles ≡ some h
      → IsBounded s
      → IsBounded (release_handle s handle h)
  unfolding release_handle
  release_handle-IsBounded s handle h found b = record {
    distinct = remove-DistinctKeys handle s.handles b.distinct;
    charged = omega (arith, b.charged, sum-remove held_bytes handle h s.handles b.distinct found);
    capped = omega (arith, b.capped);
    few = omega (arith, b.few, length-remove_le handle s.handles);
  }
