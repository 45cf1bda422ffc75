-- ===== src/Scp/Sound.antt =====
-- The sink of src/network/scp.rs stays sound on every byte, and captures every file that it completes.
mod Control
use mathlib.Core.List.{append_assoc, append-nil}
use mimic_ssh_honeypot.Prelude.{
  ℕ, ◌≤◌, ◌≡◌, Bool, false, Option, none, some, List, [], ◌∷◌, ◌++◌, length, ltb, ◌==◌, Text, arith,
  refl, Bool-cases, Option-cases, inl, inr, All, subst, length-append, ap, sym, ◌∙◌,
}
use mimic_ssh_honeypot.Prelude.Utf8.{from_utf8_lossy}
use mimic_ssh_honeypot.Scp.Lines.{
  Pending, Pending-nil, Pending-snoc, Begun-newline, without_returns,
}
use mimic_ssh_honeypot.Scp.Capture.{
  Partial, Captured, IsSound, store-Partial, finished-Captured, Captured-more,
}
use mimic_ssh_honeypot.Scp.Sink.{
  Hasher, Incoming, ScpSink, CompletedFile, new, handle_control, store, control_byte, feed_byte,
  feed, max_control_line,
}
use mimic_ssh_honeypot.Scp.Sound.Control.{control-IsSound}

module _ (H : Hasher) (max_bytes : ℕ) (fed : List ℕ) (s : ScpSink H)
    (h : IsSound H max_bytes fed s) where
  -- A sink outside a file, with another line buffer.
  rebuffered :
      (b : ℕ) (buf : List ℕ)
      → s.file ≡ none
      → length buf ≤ max_control_line
      → Pending (fed ++ (b ∷ [])) buf
      → IsSound H max_bytes (fed ++ (b ∷ [])) (record s { buf = buf })
  rebuffered b buf outside le pending = record {
    cap = h.cap;
    line_cap = le;
    safe_dirs = h.safe_dirs;
    shallow = h.shallow;
    pending = pending;
    idle = λ f q. absurd (cc);
    partial = λ f q. absurd (cc);
  }

  newline-IsSound :
      s.file ≡ none
      → IsSound H max_bytes (fed ++ (10 ∷ [])) (handle_control (record s { buf = [] }) s.buf)
  unfolding handle_control
  newline-IsSound outside =
      control-IsSound H max_bytes (fed ++ (10 ∷ [])) (record s { buf = [] })
        (rebuffered 10 [] outside (omega arith) (Pending-nil (fed ++ (10 ∷ [])))) refl
        (from_utf8_lossy s.buf)
        (λ mode size name rest is_c parsed.
          Begun-newline fed s.buf mode size name rest h.pending is_c parsed)

  -- A byte of a control line that is not the newline.
  line_byte :
      (b : ℕ) → b == 10 ≡ false → Pending (fed ++ (b ∷ [])) (s.buf ++ without_returns (b ∷ []))
  line_byte b inside = Pending-snoc fed s.buf b (λ q. ground (arith, inside, q)) h.pending

  control_byte-IsSound :
      (b : ℕ) → s.file ≡ none → IsSound H max_bytes (fed ++ (b ∷ [])) (control_byte s b).0
  unfolding control_byte
  control_byte-IsSound b outside = elim (Bool-cases (b == 10)) [
    | inl newline ↦
        let same : 10 ≡ b = ground (arith, newline) in
        rw newline (
          subst
            (λ c.
              IsSound H max_bytes (fed ++ (c ∷ [])) (handle_control (record s { buf = [] }) s.buf))
            same (newline-IsSound outside))
    | inr inside ↦ elim (Bool-cases (b == 13)) [
      | inl return ↦
          let pending : Pending (fed ++ (b ∷ [])) s.buf =
            subst (Pending (fed ++ (b ∷ [])))
              (ap (λ l. s.buf ++ l) (rw return refl) ∙ append-nil s.buf) (line_byte b inside) in
          rw (inside, return) (rebuffered b s.buf outside h.line_cap pending)
      | inr byte ↦ elim (Bool-cases (ltb (length s.buf) max_control_line)) [
        | inl room ↦
            let pending : Pending (fed ++ (b ∷ [])) (s.buf ++ (b ∷ [])) =
              subst (Pending (fed ++ (b ∷ []))) (ap (λ l. s.buf ++ l) (rw byte refl))
                (line_byte b inside) in
            rw (inside, byte, room)
              (rebuffered b (s.buf ++ (b ∷ [])) outside
                (ground (arith, room, length-append s.buf (b ∷ []))) pending)
        | inr full ↦
            rw (inside, byte, full)
              (record {
                cap = h.cap;
                line_cap = omega arith;
                safe_dirs = tt;
                shallow = omega arith;
                pending = Pending-nil (fed ++ (b ∷ []));
                idle = λ f q. refl;
                partial = λ f q. cc;
              })
      ]
    ]
  ]

  -- The sink after a byte of a file.
  with_file :
      (b : ℕ) (o : Option (Incoming H))
      → s.buf ≡ []
      → ((f : Incoming H) → o ≡ some f → Partial H max_bytes (fed ++ (b ∷ [])) f)
      → IsSound H max_bytes (fed ++ (b ∷ [])) (record s { file = o })
  with_file b o empty p = record {
    cap = h.cap;
    line_cap = h.line_cap;
    safe_dirs = h.safe_dirs;
    shallow = h.shallow;
    pending = rw empty (Pending-nil (fed ++ (b ∷ [])));
    idle = λ f q. empty;
    partial = p;
  }

  feed_byte-IsSound :
      (b : ℕ)
      → IsSound H max_bytes (fed ++ (b ∷ [])) (feed_byte s b).0
        × All (Captured H max_bytes (fed ++ (b ∷ []))) (feed_byte s b).2
  unfolding feed_byte
  feed_byte-IsSound b = elim (Option-cases s.file) [
    | inl idle ↦ rw (feed_byte, idle) (control_byte-IsSound b idle, tt)
    | inr (f, open') ↦ elim (Bool-cases (ltb 0 f.remaining)) [
      | inl more ↦
          let p : Partial H max_bytes (fed ++ (b ∷ [])) (store s.max_bytes f b) =
            rw h.cap
              (store-Partial H max_bytes fed f b (ground (arith, more)) (h.partial f open')) in
          rw (feed_byte, open', more)
            (
              with_file b (some (store s.max_bytes f b)) (h.idle f open') (λ g q.
                  let same : store s.max_bytes f b ≡ g = cc in
                  subst (Partial H max_bytes (fed ++ (b ∷ []))) same p),
              tt,
            )
      | inr last ↦
          rw (feed_byte, open', last)
            (
              with_file b none (h.idle f open') (λ g q. cc),
              (
                finished-Captured H max_bytes fed s.dirs f b (ground (arith, last))
                    (h.partial f open') h.safe_dirs h.shallow,
                tt,
              ),
            )
    ]
  ]

All-append {ℓ κ} :
    {A : Type ℓ} (P : A → Type κ) (xs ys : List A) → All P xs → All P ys → All P (xs ++ ys)
All-append P [] ys p q = q
All-append P (x ∷ xs) ys p q = (p.0, All-append P xs ys p.1 q)

All-Captured-more :
    (H : Hasher) (max_bytes : ℕ) (fed more : List ℕ) (files : List CompletedFile)
    → All (Captured H max_bytes fed) files
    → All (Captured H max_bytes (fed ++ more)) files
All-Captured-more H max_bytes fed more [] a = tt
All-Captured-more H max_bytes fed more (c ∷ files) a =
    (Captured-more H max_bytes fed more c a.0, All-Captured-more H max_bytes fed more files a.1)

-- A sound sink stays sound whatever bytes it is fed, and captures every file that it completes on the way.
feed-IsSound :
    (H : Hasher) (max_bytes : ℕ) (fed : List ℕ) (s : ScpSink H) (bytes : List ℕ)
    → IsSound H max_bytes fed s
    → IsSound H max_bytes (fed ++ bytes) (feed s bytes).0
      × All (Captured H max_bytes (fed ++ bytes)) (feed s bytes).2
unfolding feed
feed-IsSound H max_bytes fed s [] h = rw (append-nil fed) (h, tt)
feed-IsSound H max_bytes fed s (b ∷ bytes) h =
    let (h1, files1) = feed_byte-IsSound H max_bytes fed s h b in
    let (h2, files2) = feed-IsSound H max_bytes (fed ++ (b ∷ [])) (feed_byte s b).0 bytes h1 in
    let files1' = All-Captured-more H max_bytes (fed ++ (b ∷ [])) bytes (feed_byte s b).2 files1 in
    subst
      (λ l.
        IsSound H max_bytes l (feed s (b ∷ bytes)).0
        × All (Captured H max_bytes l) (feed s (b ∷ bytes)).2)
      (append_assoc fed (b ∷ []) bytes)
      (
        h2,
        All-append (Captured H max_bytes ((fed ++ (b ∷ [])) ++ bytes)) (feed_byte s b).2
            (feed (feed_byte s b).0 bytes).2 files1' files2,
      )

-- Whatever bytes a new sink is fed, with any hash and any cap: its control line, its directories and
-- its file in progress stay within their caps, and for each file that it completes there is a body, a run
-- of the bytes fed, as long as the declared size, with at least one more byte after it, that starts right
-- after the newline of a line whose bytes without its carriage returns decode to a text that starts with
-- `C` and that `parse_cd` reads as the file's mode, size and name; the file holds the bytes of that body
-- up to the cap and the hash of all of them, with `truncated` telling whether the body is longer than the
-- cap; the file's name and the at most 32 directories of its path have no separator, no control character
-- of one byte, and no two dots in a row.
pub feed-Captured :
    (H : Hasher) (target : Text) (recursive : Bool) (max_bytes : ℕ) (bytes : List ℕ)
    → IsSound H max_bytes bytes (feed {H = H} (new target recursive max_bytes) bytes).0
      × All (Captured H max_bytes bytes) (feed {H = H} (new target recursive max_bytes) bytes).2
unfolding new
feed-Captured H target recursive max_bytes bytes =
    feed-IsSound H max_bytes [] (new target recursive max_bytes) bytes (record {
      cap = refl;
      line_cap = omega arith;
      safe_dirs = tt;
      shallow = omega arith;
      pending = Pending-nil [];
      idle = λ f q. refl;
      partial = λ f q. cc;
    })
