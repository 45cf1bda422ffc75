-- ===== src/Sftp/Path.antt =====
-- `normalize_path` of src/network/sftp.rs.
use mimic_ssh_honeypot.Prelude.{
  ℕ, false, ◌||◌, List, [], ◌∷◌, ◌++◌, ◌==◌, if◌then◌else◌, Text, text_eq, text_eq_iff, split,
  starts_with, map, is_empty, cons_head, ◌≡◌, ◌≢◌, refl, All, arith, Bool-cases, inl, inr,
}
use mimic_ssh_honeypot.Scp.{drop_controls}
use mimic_ssh_honeypot.Scp.Sink.{join_slash, pop_dir}

abbrev pub forward : ℕ → ℕ
forward b = if b == 92 then 47 else b

-- The loop over the components, with the parts so far.
unfoldable pub walk : (parts comps : List Text) → List Text
unfolding pop_dir
walk parts [] = parts
walk parts (comp ∷ comps) =
    let same = walk parts comps in
    let up = walk (pop_dir parts) comps in
    let down = walk (parts ++ (comp ∷ [])) comps in
    if is_empty comp || text_eq comp (46 ∷ [])
    then same
    else if text_eq comp (46 ∷ 46 ∷ [])
    then up
    else down

-- The absolute path before its components are looked at.
unfoldable pub raw_path : (cwd path : Text) → Text
raw_path cwd path =
    let sanitized = drop_controls (map forward path) in
    if starts_with 47 sanitized
    then sanitized
    else if text_eq cwd (47 ∷ [])
    then 47 ∷ sanitized
    else cwd ++ (47 ∷ sanitized)

-- The parts of the path, from the root.
unfoldable pub normal_parts : (cwd path : Text) → List Text
unfolding walk raw_path
normal_parts cwd path = walk [] (split 47 (raw_path cwd path))

unfoldable pub normalize_path : (cwd path : Text) → Text
unfolding normal_parts join_slash
normalize_path cwd path =
    let parts = normal_parts cwd path in if is_empty parts then 47 ∷ [] else 47 ∷ join_slash parts

-- A component that names an entry.
pub record IsEntryName (comp : Text) : Type 0 where
  pub some_byte : comp ≢ []
  pub no_dot : comp ≢ 46 ∷ []
  pub no_dots : comp ≢ 46 ∷ 46 ∷ []
  pub no_slash : All (λ b. b ≢ 47) comp

pop_dir-IsEntryName : (parts : List Text) → All IsEntryName parts → All IsEntryName (pop_dir parts)
unfolding pop_dir
pop_dir-IsEntryName [] a = tt
pop_dir-IsEntryName (x ∷ []) a = tt
pop_dir-IsEntryName (x ∷ y ∷ rest) a = (a.0, pop_dir-IsEntryName (y ∷ rest) a.1)

append-IsEntryName :
    (parts : List Text) (comp : Text)
    → All IsEntryName parts
    → IsEntryName comp
    → All IsEntryName (parts ++ (comp ∷ []))
append-IsEntryName [] comp a p = (p, tt)
append-IsEntryName (x ∷ parts) comp a p = (a.0, append-IsEntryName parts comp a.1 p)

-- No `/` in a text.
abbrev pub HasNoSlash : Text → Type 0
HasNoSlash comp = All (λ b. b ≢ 47) comp

cons_head-HasNoSlash :
    (c : ℕ) (comps : List Text)
    → c == 47 ≡ false
    → All HasNoSlash comps
    → All HasNoSlash (cons_head c comps)
cons_head-HasNoSlash c [] byte a = (((λ q. ground (arith, byte, q)), tt), tt)
cons_head-HasNoSlash c (comp ∷ comps) byte a = (((λ q. ground (arith, byte, q)), a.0), a.1)

-- The components between the `/` of a text.
split-HasNoSlash : (s : Text) → All HasNoSlash (split 47 s)
unfolding split
split-HasNoSlash [] = (tt, tt)
split-HasNoSlash (c ∷ s) = elim (Bool-cases (c == 47)) [
  | inl slash ↦ rw slash (tt, split-HasNoSlash s)
  | inr byte ↦ rw byte (cons_head-HasNoSlash c (split 47 s) byte (split-HasNoSlash s))
]

walk-IsEntryName :
    (parts comps : List Text)
    → All IsEntryName parts
    → All HasNoSlash comps
    → All IsEntryName (walk parts comps)
unfolding walk
walk-IsEntryName parts [] a c = a
walk-IsEntryName parts (comp ∷ comps) a c =
    elim (Bool-cases (is_empty comp || text_eq comp (46 ∷ []))) [
      | inl skip ↦ rw skip (walk-IsEntryName parts comps a c.1)
      | inr real ↦ elim (Bool-cases (text_eq comp (46 ∷ 46 ∷ []))) [
        | inl up ↦
            rw (real, up) (walk-IsEntryName (pop_dir parts) comps (pop_dir-IsEntryName parts a) c.1)
        | inr down ↦
            rw (real, down)
              (walk-IsEntryName (parts ++ (comp ∷ [])) comps
                (append-IsEntryName parts comp a (record {
                  some_byte = nonempty comp real;
                  no_dot = λ q. ground (arith, real, q, text_eq_iff comp (46 ∷ []));
                  no_dots = λ q. ground (arith, down, q, text_eq_iff comp (46 ∷ 46 ∷ []));
                  no_slash = c.0;
                }))
                c.1)
      ]
    ]
  where
    nonempty : (comp : Text) → is_empty comp || text_eq comp (46 ∷ []) ≡ false → comp ≢ []
    nonempty [] q r = cc
    nonempty (x ∷ comp) q r = cc

-- Whatever the directory and the path, the normalised path is `/`, or `/` before components that
-- are joined by `/`, none of which is empty, is `.` or `..`, or contains `/`.
pub normalize_path-IsEntryName :
    (cwd path : Text)
    → (parts : List Text) × (normalize_path cwd path
        ≡ (if is_empty parts then 47 ∷ [] else 47 ∷ join_slash parts))
      × All IsEntryName parts
unfolding normalize_path normal_parts
normalize_path-IsEntryName cwd path = (
  normal_parts cwd path,
  refl,
  walk-IsEntryName [] (split 47 (raw_path cwd path)) tt (split-HasNoSlash (raw_path cwd path)),
)
