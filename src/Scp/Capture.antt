-- ===== src/Scp/Capture.antt =====
-- What the sink of src/network/scp.rs captures of the bytes that it was fed, and the invariant behind it.
use mathlib.Core.List.{append_assoc}
use mimic_ssh_honeypot.Prelude.{
  ℕ, zero, suc, ◌+◌, ◌≤◌, ◌<◌, ◌≡◌, some, List, [], ◌∷◌, ◌++◌, length, take, ltb, Text, arith, refl,
  Bool-cases, inl, inr, All, length-append, length-take, min, ap, sym, ◌∙◌, subst,
}
use mimic_ssh_honeypot.Scp.Lines.{Begun, Begun-more, Pending}
use mimic_ssh_honeypot.Scp.Names.{IsSafeName}
use mimic_ssh_honeypot.Scp.Sink.{
  Hasher, Incoming, ScpSink, CompletedFile, store, finished, join_slash, pop_dir, max_control_line,
  max_scp_depth,
}

take-append_room {ℓ} :
    {A : Type ℓ} (n : ℕ) (xs : List A) (x : A)
    → length xs < n
    → take n (xs ++ (x ∷ [])) ≡ take n xs ++ (x ∷ [])
take-append_room zero xs x h = elim h [ ]
take-append_room (suc zero) [] x h = refl
take-append_room (suc (suc n)) [] x h = refl
take-append_room (suc n) (y ∷ xs) x h = ap (λ l. y ∷ l) (take-append_room n xs x (omega arith))

take-append_full {ℓ} :
    {A : Type ℓ} (n : ℕ) (xs : List A) (x : A) → n ≤ length xs → take n (xs ++ (x ∷ [])) ≡ take n xs
take-append_full zero xs x h = refl
take-append_full (suc n) [] x h = absurd (omega arith)
take-append_full (suc n) (y ∷ xs) x h = ap (λ l. y ∷ l) (take-append_full n xs x (omega arith))

module _ (H : Hasher) where
  -- The hash of a whole body.
  unfoldable pub hash_from : H.State → List ℕ → H.State
  hash_from state [] = state
  hash_from state (b ∷ body) = hash_from (H.update state b) body

  hash_from-append :
      (state : H.State) (body : List ℕ) (b : ℕ)
      → hash_from state (body ++ (b ∷ [])) ≡ H.update (hash_from state body) b
  unfolding hash_from
  hash_from-append state [] b = refl
  hash_from-append state (c ∷ body) b = hash_from-append (H.update state c) body b

  -- A file in progress: the bytes fed since its control line, kept up to the cap and hashed in full.
  pub record Partial (max_bytes : ℕ) (fed : List ℕ) (f : Incoming H) : Type 0 where
    pub received : List ℕ
    pub begun : Begun fed f.mode f.size f.name received
    pub kept : f.stored ≡ take max_bytes received
    pub hashed : f.hasher ≡ hash_from H.start received
    pub cut : f.truncated ≡ ltb max_bytes (length received)
    pub counted : length received + f.remaining ≡ f.size
    pub safe : IsSafeName f.name

  pub store-Partial :
      (max_bytes : ℕ) (fed : List ℕ) (f : Incoming H) (b : ℕ)
      → 0 < f.remaining
      → Partial max_bytes fed f
      → Partial max_bytes (fed ++ (b ∷ [])) (store max_bytes f b)
  unfolding store
  store-Partial max_bytes fed f b more p =
      let received = p.received ++ (b ∷ []) in
      let begun = Begun-more fed f.mode f.size f.name p.received (b ∷ []) p.begun in
      let size : length received ≡ length p.received + 1 =
        omega (arith, length-append p.received (b ∷ [])) in
      let stored : length f.stored ≡ min max_bytes (length p.received) =
        ap length p.kept ∙ length-take max_bytes p.received in
      let hashed = ap (λ h. H.update h b) p.hashed ∙ sym (hash_from-append H.start p.received b) in
      elim (Bool-cases (ltb (length f.stored) max_bytes)) [
        | inl room ↦ rw room (record {
          received = received;
          begun = begun;
          kept =
              ap (λ l. l ++ (b ∷ [])) p.kept
              ∙ sym (take-append_room max_bytes p.received b (ground (arith, room, stored)));
          hashed = hashed;
          cut = p.cut ∙ ground (arith, room, stored, size);
          counted = omega (arith, size, p.counted, more);
          safe = p.safe;
        })
        | inr full ↦ rw full (record {
          received = received;
          begun = begun;
          kept =
              p.kept ∙ sym (take-append_full max_bytes p.received b (ground (arith, full, stored)));
          hashed = hashed;
          cut = ground (arith, full, stored, size);
          counted = omega (arith, size, p.counted, more);
          safe = p.safe;
        })
      ]

  -- A completed file: its body is the run of the bytes fed right after the newline of its control
  -- line, as long as the declared size, and one more byte follows it. The file holds the bytes of the
  -- body up to the cap, the hash of all of it, and whether it was cut; under a safe name, in a path of
  -- at most 32 safe names.
  pub record Captured (max_bytes : ℕ) (fed : List ℕ) (c : CompletedFile) : Type 0 where
    pub body : List ℕ
    pub last : ℕ
    pub later : List ℕ
    pub begun : Begun fed c.mode c.size c.name (body ++ (last ∷ later))
    pub kept : c.contents ≡ take max_bytes body
    pub hashed : c.payload_sha256 ≡ H.finish (hash_from H.start body)
    pub cut : c.truncated ≡ ltb max_bytes (length body)
    pub whole : length body ≡ c.size
    pub safe : IsSafeName c.name
    pub dirs : List Text
    pub path : c.rel_dir ≡ join_slash dirs
    pub safe_dirs : All IsSafeName dirs
    pub shallow : length dirs ≤ max_scp_depth

  pub Captured-more :
      (max_bytes : ℕ) (fed more : List ℕ) (c : CompletedFile)
      → Captured max_bytes fed c
      → Captured max_bytes (fed ++ more) c
  Captured-more max_bytes fed more c p = record {
    body = p.body;
    last = p.last;
    later = p.later ++ more;
    begun =
        subst (Begun (fed ++ more) c.mode c.size c.name)
          (append_assoc p.body (p.last ∷ p.later) more)
          (Begun-more fed c.mode c.size c.name (p.body ++ (p.last ∷ p.later)) more p.begun);
    kept = p.kept;
    hashed = p.hashed;
    cut = p.cut;
    whole = p.whole;
    safe = p.safe;
    dirs = p.dirs;
    path = p.path;
    safe_dirs = p.safe_dirs;
    shallow = p.shallow;
  }

  -- A sink that has been fed these bytes.
  pub record IsSound (max_bytes : ℕ) (fed : List ℕ) (s : ScpSink H) : Type 0 where
    pub cap : s.max_bytes ≡ max_bytes
    pub line_cap : length s.buf ≤ max_control_line
    pub safe_dirs : All IsSafeName s.dirs
    pub shallow : length s.dirs ≤ max_scp_depth
    pub pending : Pending fed s.buf
    pub idle : (f : Incoming H) → s.file ≡ some f → s.buf ≡ []
    pub partial : (f : Incoming H) → s.file ≡ some f → Partial max_bytes fed f

  pub finished-Captured :
      (max_bytes : ℕ) (fed : List ℕ) (dirs : List Text) (f : Incoming H) (b : ℕ)
      → f.remaining ≡ 0
      → Partial max_bytes fed f
      → All IsSafeName dirs
      → length dirs ≤ max_scp_depth
      → Captured max_bytes (fed ++ (b ∷ [])) (finished dirs f)
  unfolding finished
  finished-Captured max_bytes fed dirs f b last p safe shallow = record {
    body = p.received;
    last = b;
    later = [];
    begun = Begun-more fed f.mode f.size f.name p.received (b ∷ []) p.begun;
    kept = p.kept;
    hashed = ap H.finish p.hashed;
    cut = p.cut;
    whole = omega (arith, p.counted, last);
    safe = p.safe;
    dirs = dirs;
    path = refl;
    safe_dirs = safe;
    shallow = shallow;
  }

  pub pop_dir-safe :
      (dirs : List Text)
      → All IsSafeName dirs
      → All IsSafeName (pop_dir dirs) × (length (pop_dir dirs) ≤ length dirs)
  unfolding pop_dir
  pop_dir-safe [] a = (tt, omega arith)
  pop_dir-safe (x ∷ []) a = (tt, omega arith)
  pop_dir-safe (x ∷ y ∷ rest) a =
      let ih = pop_dir-safe (y ∷ rest) a.1 in ((a.0, ih.0), omega (arith, ih.1))

  pub All-snoc :
      (dirs : List Text) (name : Text)
      → All IsSafeName dirs
      → IsSafeName name
      → All IsSafeName (dirs ++ (name ∷ []))
  All-snoc [] name a p = (p, tt)
  All-snoc (x ∷ dirs) name a p = (a.0, All-snoc dirs name a.1 p)
