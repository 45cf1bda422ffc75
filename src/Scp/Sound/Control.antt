-- ===== src/Scp/Sound/Control.antt =====
-- What a control line does to the sink of src/network/scp.rs: `handle_control` on a sound sink.
use mimic_ssh_honeypot.Prelude.{
  ℕ, zero, suc, ◌≡◌, false, some, List, [], ◌∷◌, length, take, ltb, ◌==◌, Text, arith, refl,
  Bool-cases, Option-cases, inl, inr, subst, length-append, ap, sym, ◌∙◌,
}
use mimic_ssh_honeypot.Scp.{parse_cd}
use mimic_ssh_honeypot.Scp.Names.{parse_cd-IsSafeName}
use mimic_ssh_honeypot.Scp.Lines.{Begun}
use mimic_ssh_honeypot.Scp.Capture.{hash_from, Partial, IsSound, pop_dir-safe, All-snoc}
use mimic_ssh_honeypot.Scp.Sink.{
  Hasher, ScpSink, pop_dir, begin_file, enter_dir, control, max_scp_depth,
}

-- A sink outside a file, right after a newline.
module _ (H : Hasher) (max_bytes : ℕ) (fed : List ℕ) (s : ScpSink H) (h : IsSound H max_bytes fed s)
    (empty : s.buf ≡ []) where
  begin_file-IsSound :
      (line : Text)
      → ((mode size : ℕ) (name : Text)
          → parse_cd line ≡ some (mode, size, name)
          → Begun fed mode size name [])
      → IsSound H max_bytes fed (begin_file s (parse_cd line))
  unfolding begin_file hash_from
  begin_file-IsSound line begun = elim (Option-cases (parse_cd line)) [
    | inl bad ↦ rw bad h
    | inr ((mode, size, name), good) ↦ rw good (record {
      cap = h.cap;
      line_cap = h.line_cap;
      safe_dirs = h.safe_dirs;
      shallow = h.shallow;
      pending = h.pending;
      idle = λ f q. empty;
      partial = λ f q.
          let same : record {
            name = name;
            mode = mode;
            size = size;
            remaining = size;
            stored = [];
            hasher = H.start;
            truncated = false;
          }
              ≡ f =
            cc in
          subst (Partial H max_bytes fed) same (record {
            received = [];
            begun = begun mode size name good;
            kept = nothing max_bytes;
            hashed = refl;
            cut = ground arith;
            counted = omega arith;
            safe = parse_cd-IsSafeName line (mode, size, name) good;
          });
    })
  ]
    where
      nothing : (n : ℕ) → ◌≡◌ {A = List ℕ} [] (take n [])
      nothing zero = refl
      nothing (suc n) = refl

  enter_dir-IsSound : (line : Text) → IsSound H max_bytes fed (enter_dir s (parse_cd line))
  unfolding enter_dir
  enter_dir-IsSound line = elim (Option-cases (parse_cd line)) [
    | inl bad ↦ rw bad h
    | inr ((mode, size, name), good) ↦ elim (Bool-cases (ltb (length s.dirs) max_scp_depth)) [
      | inl room ↦
          rw (good, room)
            (record {
              cap = h.cap;
              line_cap = h.line_cap;
              safe_dirs =
                  All-snoc H s.dirs name h.safe_dirs
                    (parse_cd-IsSafeName line (mode, size, name) good);
              shallow = ground (arith, room, length-append s.dirs (name ∷ []));
              pending = h.pending;
              idle = h.idle;
              partial = h.partial;
            })
      | inr full ↦ rw (good, full) h
    ]
  ]

  leave_dir-IsSound : IsSound H max_bytes fed (record s { dirs = pop_dir s.dirs })
  leave_dir-IsSound =
      let (safe, fewer) = pop_dir-safe H s.dirs h.safe_dirs in
      record {
        cap = h.cap;
        line_cap = h.line_cap;
        safe_dirs = safe;
        shallow = omega (arith, h.shallow, fewer);
        pending = h.pending;
        idle = h.idle;
        partial = h.partial;
      }

  pub control-IsSound :
      (text : Text)
      → ((mode size : ℕ) (name rest : Text)
          → text ≡ 67 ∷ rest
          → parse_cd (67 ∷ rest) ≡ some (mode, size, name)
          → Begun fed mode size name [])
      → IsSound H max_bytes fed (control s text)
  unfolding control
  control-IsSound [] begun = h
  control-IsSound (kind ∷ rest) begun = elim (Bool-cases (kind == 67)) [
    | inl c ↦
        let is_c : kind ≡ 67 = ground (arith, c) in
        rw c (
          begin_file-IsSound (kind ∷ rest) (λ mode size name good.
            begun mode size name rest (ap (λ k. k ∷ rest) is_c)
              (ap (λ k. parse_cd (k ∷ rest)) (sym is_c) ∙ good)))
    | inr not_c ↦ elim (Bool-cases (kind == 68)) [
      | inl d ↦ rw (not_c, d) (enter_dir-IsSound (kind ∷ rest))
      | inr not_d ↦ elim (Bool-cases (kind == 69)) [
        | inl e ↦ rw (not_c, not_d, e) leave_dir-IsSound
        | inr other ↦ rw (not_c, not_d, other) h
      ]
    ]
  ]
