-- ===== src/Sftp/Answers.antt =====
-- The answers to requests on the open handles of an SFTP session keep the bounds: src/network/sftp.rs.
use mimic_ssh_honeypot.Prelude.{
  ℕ, ◌<◌, ◌≡◌, ◌*◌, Option, none, some, List, length, leb, codes, refl, Bool-cases, Option-cases,
  inl, inr,
}
use mimic_ssh_honeypot.Prelude.Outcome.{done}
use mimic_ssh_honeypot.Prelude.Map.{lookup}
use mimic_ssh_honeypot.Scp.Sink.{Hasher}
use mimic_ssh_honeypot.Sftp.{ParsedAttrs, put_status, get_bytes}
use mimic_ssh_honeypot.Sftp.Transfer.{usize_max, write_args}
use mimic_ssh_honeypot.Sftp.Handles.{
  Writing, SftpHandle, dir_handle, read_handle, write_handle, SftpSession, Reply, held_bytes,
  write_request, malformed, invalid,
}
use mimic_ssh_honeypot.Sftp.Requests.{fsetstat, readdir, with_mode, attrs_of}
use mimic_ssh_honeypot.Sftp.Session.{IsBounded, write_to-IsBounded, same-IsBounded}

module _ {H : Hasher} (max : ℕ) where
  pub write_request-IsBounded :
      (s : SftpSession H) (id : ℕ) (cursor out : List ℕ)
      → max * 2 < usize_max
      → IsBounded max s
      → (r : Reply H) × (write_request max s id cursor out ≡ done r) × IsBounded max r.0
  unfolding write_request put_status
  write_request-IsBounded s id cursor out small b = elim (Option-cases (write_args cursor)) [
    | inl bad ↦ (malformed s id out, rw (write_request, bad) refl, b)
    | inr ((handle, raw_offset, chunk), args) ↦
        opened handle raw_offset chunk args (lookup handle s.handles) refl
  ]
    where
      opened :
          (handle : List ℕ) (raw_offset : ℕ) (chunk : List ℕ)
          → write_args cursor ≡ some (handle, raw_offset, chunk)
          → (o : Option (SftpHandle H)) → lookup handle s.handles ≡ o
          → (r : Reply H) × (write_request max s id cursor out ≡ done r) × IsBounded max r.0
      opened handle raw_offset chunk args none found =
          (invalid s id out, rw (write_request, args, found) refl, b)
      opened handle raw_offset chunk args (some (dir_handle entries offset)) found =
          (invalid s id out, rw (write_request, args, found) refl, b)
      opened handle raw_offset chunk args (some (read_handle contents meta)) found =
          (invalid s id out, rw (write_request, args, found) refl, b)
      opened handle raw_offset chunk args (some (write_handle w)) found =
          let (s', e, b') = write_to-IsBounded max s handle w raw_offset chunk small found b in
          ((s', put_status out id 0 (codes "OK")), rw (write_request, args, found, e) refl, b')

  mode_only :
      (w : Writing H) (attrs : Option ParsedAttrs)
      → held_bytes (write_handle (with_mode w attrs)) ≡ held_bytes (write_handle w)
  mode_only w none = refl
  mode_only w (some a) = moded a.permissions refl
    where
      moded :
          (p : Option ℕ)
          → a.permissions ≡ p
          → held_bytes (write_handle (with_mode w (some a))) ≡ length w.contents
      moded none e = rw e refl
      moded (some perms) e = rw e refl

  pub fsetstat-IsBounded :
      (s : SftpSession H) (id : ℕ) (cursor out : List ℕ)
      → IsBounded max s
      → IsBounded max (fsetstat s id cursor out).0
  unfolding fsetstat
  fsetstat-IsBounded s id cursor out b = elim (Option-cases (get_bytes cursor)) [
    | inl bad ↦ rw (fsetstat, bad) b
    | inr ((handle, rest), args) ↦ opened handle rest args (lookup handle s.handles) refl
  ]
    where
      opened :
          (handle rest : List ℕ)
          → get_bytes cursor ≡ some (handle, rest)
          → (o : Option (SftpHandle H)) → lookup handle s.handles ≡ o
          → IsBounded max (fsetstat s id cursor out).0
      opened handle rest args none found = rw (fsetstat, args, found) b
      opened handle rest args (some (dir_handle entries offset)) found =
          rw (fsetstat, args, found) b
      opened handle rest args (some (read_handle contents meta)) found =
          rw (fsetstat, args, found) b
      opened handle rest args (some (write_handle w)) found =
          rw (fsetstat, args, found)
            (same-IsBounded max s handle (write_handle (with_mode w (attrs_of rest)))
              (write_handle w) found (mode_only w (attrs_of rest)) b)

  pub readdir-IsBounded :
      (s : SftpSession H) (id : ℕ) (cursor out : List ℕ)
      → IsBounded max s
      → IsBounded max (readdir s id cursor out).0
  unfolding readdir
  readdir-IsBounded s id cursor out b = elim (Option-cases (get_bytes cursor)) [
    | inl bad ↦ rw (readdir, bad) b
    | inr ((handle, rest), args) ↦ opened handle rest args (lookup handle s.handles) refl
  ]
    where
      opened :
          (handle rest : List ℕ)
          → get_bytes cursor ≡ some (handle, rest)
          → (o : Option (SftpHandle H)) → lookup handle s.handles ≡ o
          → IsBounded max (readdir s id cursor out).0
      opened handle rest args none found = rw (readdir, args, found) b
      opened handle rest args (some (write_handle w)) found = rw (readdir, args, found) b
      opened handle rest args (some (read_handle contents meta)) found = rw (readdir, args, found) b
      opened handle rest args (some (dir_handle entries offset)) found =
          elim (Bool-cases (leb (length entries) offset)) [
            | inl over ↦ rw (readdir, args, found, over) b
            | inr more ↦
                rw (readdir, args, found, more)
                  (same-IsBounded max s handle _ (dir_handle entries offset) found refl b)
          ]
