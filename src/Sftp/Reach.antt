-- ===== src/Sftp/Reach.antt =====
-- Any sequence of requests on the handles of an SFTP session, src/network/sftp.rs.
use mimic_ssh_honeypot.Prelude.{
  ℕ, ◌≤◌, ◌<◌, ◌≡◌, ◌*◌, Option, none, some, List, length, ℤ, Text, arith, refl, sym, ◌∙◌, subst,
  Option-cases, inl, inr,
}
use mimic_ssh_honeypot.Prelude.Outcome.{Outcome, done, panic, exhausted}
use mimic_ssh_honeypot.Prelude.Map.{lookup}
use mimic_ssh_honeypot.Prelude.Map.Sums.{sum}
use mimic_ssh_honeypot.Scp.Sink.{Hasher}
use mimic_ssh_honeypot.Vfs.Metadata.{Metadata}
use mimic_ssh_honeypot.Sftp.{ParsedAttrs, put_status, get_bytes}
use mimic_ssh_honeypot.Sftp.Handles
use mimic_ssh_honeypot.Sftp.Transfer.{usize_max}
use mimic_ssh_honeypot.Sftp.Handles.{
  SftpCompletedUpload, Writing, SftpHandle, dir_handle, read_handle, write_handle, SftpSession,
  Shell, Reply, held_bytes, buffer_cap, can_buffer, add_handle, open_write, open_read, open_dir,
  write_to, write_request, malformed, invalid, max_sftp_handles, update_all,
}
use mimic_ssh_honeypot.Sftp.Requests.{close, fsetstat, readdir}
use mimic_ssh_honeypot.Sftp.Requests.{mirror}
use mimic_ssh_honeypot.Sftp.Session.{
  IsBounded, new-IsBounded, open_write-IsBounded, open_read-IsBounded, open_dir-IsBounded,
  release_handle-IsBounded,
}
use mimic_ssh_honeypot.Sftp.Answers.{write_request-IsBounded, fsetstat-IsBounded, readdir-IsBounded}

module _ {H : Hasher} (max : ℕ) where
  -- A request on a session, with the replies and the filesystem left out.
  pub data Request : SftpSession H → SftpSession H → Type 1 where
    opens_write :
        {s : SftpSession H} (id : ℕ) (path name : Text) (attrs : Option ParsedAttrs) (out : List ℕ)
        → Request s (open_write s id path name attrs out).0
    opens_read :
        {s : SftpSession H} (id : ℕ) (contents : List ℕ) (meta : Metadata) (out : List ℕ)
        → Request s (open_read max s id contents meta out).0
    opens_dir :
        {s : SftpSession H} (id : ℕ) (entries : List (Text × Text × Metadata × ℕ)) (out : List ℕ)
        → Request s (open_dir s id entries out).0
    writes :
        {s : SftpSession H} (id : ℕ) (cursor out : List ℕ) (r : Reply H)
        → write_request max s id cursor out ≡ done r
        → Request s r.0
    closes :
        {s : SftpSession H} (now : ℤ) (shell shell' : Shell) (id : ℕ) (cursor out : List ℕ)
        (completed completed' : List SftpCompletedUpload) (r : Reply H)
        → close now shell s id cursor out completed ≡ done (shell', r, completed')
        → Request s r.0
    sets_stat :
        {s : SftpSession H} (id : ℕ) (cursor out : List ℕ) → Request s (fsetstat s id cursor out).0
    pages :
        {s : SftpSession H} (id : ℕ) (cursor out : List ℕ) → Request s (readdir s id cursor out).0

  -- The sessions that requests lead to.
  pub data Reach : SftpSession H → Type 1 where
    here : Reach Handles.new
    next : {s t : SftpSession H} → Reach s → Request s t → Reach t

  -- The session in a result of `close`.
  abbrev session_of :
      SftpSession H → Outcome (Shell × Reply H × List SftpCompletedUpload) → SftpSession H
  session_of s (done (shell, r, completed)) = r.0
  session_of s o = s

  close-IsBounded :
      (now : ℤ) (shell : Shell) (s : SftpSession H) (id : ℕ) (cursor out : List ℕ)
      (completed : List SftpCompletedUpload)
      → IsBounded max s
      → IsBounded max (session_of s (close now shell s id cursor out completed))
  unfolding close put_status
  close-IsBounded now shell s id cursor out completed b = elim (Option-cases (get_bytes cursor)) [
    | inl bad ↦ rw (close, bad) b
    | inr ((handle, rest), args) ↦ opened handle rest args (lookup handle s.handles) refl
  ]
    where
      mirrored :
          (handle rest : List ℕ) (w : Writing H)
          → get_bytes cursor ≡ some (handle, rest)
          → lookup handle s.handles ≡ some (write_handle w)
          → (o : Outcome Shell) → mirror now shell w ≡ o
          → IsBounded max (session_of s (close now shell s id cursor out completed))
      mirrored handle rest w args found (done shell') e =
          rw (close, args, found, e)
            (release_handle-IsBounded max s handle (write_handle w) found b)
      mirrored handle rest w args found panic e = rw (close, args, found, e) b
      mirrored handle rest w args found exhausted e = rw (close, args, found, e) b

      opened :
          (handle rest : List ℕ)
          → get_bytes cursor ≡ some (handle, rest)
          → (o : Option (SftpHandle H)) → lookup handle s.handles ≡ o
          → IsBounded max (session_of s (close now shell s id cursor out completed))
      opened handle rest args none found = rw (close, args, found) b
      opened handle rest args (some (dir_handle entries offset)) found =
          rw (close, args, found)
            (release_handle-IsBounded max s handle (dir_handle entries offset) found b)
      opened handle rest args (some (read_handle contents meta)) found =
          rw (close, args, found)
            (release_handle-IsBounded max s handle (read_handle contents meta) found b)
      opened handle rest args (some (write_handle w)) found =
          mirrored handle rest w args found (mirror now shell w) refl

  Request-IsBounded :
      max * 2 < usize_max → {s t : SftpSession H} → Request s t → IsBounded max s → IsBounded max t
  Request-IsBounded small {s} (opens_write id path name attrs out) b =
      open_write-IsBounded max s id path name attrs out b
  Request-IsBounded small {s} (opens_read id contents meta out) b =
      open_read-IsBounded max s id contents meta out small b
  Request-IsBounded small {s} (opens_dir id entries out) b =
      open_dir-IsBounded max s id entries out b
  Request-IsBounded small {s} (writes id cursor out r e) b =
      let (r', e', b') = write_request-IsBounded max s id cursor out small b in
      subst (λ o. IsBounded max (replied o)) (sym e' ∙ e) b'
    where
      replied : Outcome (Reply H) → SftpSession H
      replied (done x) = x.0
      replied o = s
  Request-IsBounded small {s} (closes now shell shell' id cursor out completed completed' r e) b =
      subst (λ o. IsBounded max (session_of s o)) e
        (close-IsBounded now shell s id cursor out completed b)
  Request-IsBounded small {s} (sets_stat id cursor out) b = fsetstat-IsBounded max s id cursor out b
  Request-IsBounded small {s} (pages id cursor out) b = readdir-IsBounded max s id cursor out b

  -- With an upload cap whose double is below `u64::MAX`, in every session that opens of files and of
  -- directories, writes, closes, changes of attributes and directory reads lead to, in any order, the open handles hold at most twice
  -- the upload cap between them, and there are at most 64.
  pub Reach-IsBounded :
      max * 2 < usize_max
      → {s : SftpSession H} → Reach s
      → (sum held_bytes s.handles ≤ max * 2) × (length s.handles ≤ 64)
  Reach-IsBounded small {s} reach =
      let b = bounded reach in (omega (arith, b.charged, b.capped, small), b.few)
    where
      bounded : {t : SftpSession H} → Reach t → IsBounded max t
      bounded here = new-IsBounded max
      bounded (next r q) = Request-IsBounded small q (bounded r)
