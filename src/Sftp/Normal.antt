-- ===== src/Sftp/Normal.antt =====
-- Paths that `normalize_path` of src/network/sftp.rs leaves as they are.
use mathlib.Core.List.{append_assoc, append-nil}
use mimic_ssh_honeypot.Prelude.{
  ℕ, Bool, true, false, not, ◌&&◌, List, [], ◌∷◌, ◌++◌, ◌==◌, if◌then◌else◌, Text, text_eq,
  text_eq_iff, split, map, is_empty, cons_head, all, leb, ltb, ◌≡◌, refl, All, arith, ap, sym, ◌∙◌,
  Bool-cases, inl, inr,
}
use mimic_ssh_honeypot.Scp.{drop_controls}
use mimic_ssh_honeypot.Scp.Sink.{join_slash}
use mimic_ssh_honeypot.Sftp.Path.{
  forward, walk, raw_path, normal_parts, normalize_path, IsEntryName, HasNoSlash,
  normalize_path-IsEntryName,
}

-- A printable ASCII character but the backslash.
abbrev pub is_clean : ℕ → Bool
is_clean b = leb 0x20 b && ltb b 0x7f && not (b == 92)

drop_controls-clean : (s : Text) → all is_clean s ≡ true → drop_controls s ≡ s
unfolding drop_controls
drop_controls-clean [] h = refl
drop_controls-clean (a ∷ []) h = ground (arith, h)
drop_controls-clean (a ∷ b ∷ s) h =
    let ih = drop_controls-clean (b ∷ s) (ground (arith, h)) in ground (arith, h, ih)

map-forward : (s : Text) → all is_clean s ≡ true → map forward s ≡ s
map-forward [] h = refl
map-forward (b ∷ s) h =
    let other : b == 92 ≡ false = ground (arith, h) in
    rw other (ap (λ t. b ∷ t) (map-forward s (ground (arith, h))))

all-append :
    (p : ℕ → Bool) (xs ys : Text) → all p xs ≡ true → all p ys ≡ true → all p (xs ++ ys) ≡ true
all-append p [] ys h k = k
all-append p (x ∷ xs) ys h k =
    let rest = all-append p xs ys (ground (arith, h)) k in ground (arith, h, rest)

join_slash-clean :
    (names : List Text) → all (all is_clean) names ≡ true → all is_clean (join_slash names) ≡ true
unfolding join_slash
join_slash-clean [] h = refl
join_slash-clean (x ∷ []) h = ground (arith, h)
join_slash-clean (x ∷ y ∷ rest) h =
    let later = join_slash-clean (y ∷ rest) (ground (arith, h)) in
    all-append is_clean x (47 ∷ join_slash (y ∷ rest)) (ground (arith, h)) later

split-name : (x : Text) → HasNoSlash x → split 47 x ≡ x ∷ []
unfolding split
split-name [] h = refl
split-name (c ∷ x) h =
    let byte : c == 47 ≡ false = ground (arith, h.0) in
    rw byte (ap (cons_head c) (split-name x h.1))

split-before : (x rest : Text) → HasNoSlash x → split 47 (x ++ (47 ∷ rest)) ≡ x ∷ split 47 rest
unfolding split
split-before [] rest h = refl
split-before (c ∷ x) rest h =
    let byte : c == 47 ≡ false = ground (arith, h.0) in
    rw byte (ap (cons_head c) (split-before x rest h.1))

-- A component that names an entry is a part.
walk-name :
    (parts comps : List Text) (x : Text)
    → IsEntryName x
    → walk parts (x ∷ comps) ≡ walk (parts ++ (x ∷ [])) comps
unfolding walk
walk-name parts comps [] p = absurd (p.some_byte refl)
walk-name parts comps (c ∷ x) p = elim (Bool-cases (text_eq (c ∷ x) (46 ∷ []))) [
  | inl dot ↦ absurd (p.no_dot ((text_eq_iff (c ∷ x) (46 ∷ [])).0 dot))
  | inr real ↦ elim (Bool-cases (text_eq (c ∷ x) (46 ∷ 46 ∷ []))) [
    | inl dots ↦ absurd (p.no_dots ((text_eq_iff (c ∷ x) (46 ∷ 46 ∷ [])).0 dots))
    | inr name ↦ rw (real, name) refl
  ]
]

-- The walk over the components of joined names appends them.
walk-join_slash :
    (parts names : List Text)
    → All IsEntryName names
    → walk parts (split 47 (join_slash names)) ≡ parts ++ names
unfolding walk split join_slash
walk-join_slash parts [] a = sym (append-nil parts)
walk-join_slash parts (x ∷ []) a =
    ap (walk parts) (split-name x a.0.no_slash) ∙ walk-name parts [] x a.0
walk-join_slash parts (x ∷ y ∷ rest) a =
    ap (walk parts) (split-before x (join_slash (y ∷ rest)) a.0.no_slash)
    ∙ walk-name parts (split 47 (join_slash (y ∷ rest))) x a.0
    ∙ walk-join_slash (parts ++ (x ∷ [])) (y ∷ rest) a.1
    ∙ append_assoc parts (x ∷ []) (y ∷ rest)

normalize_path-kept :
    (cwd : Text) (names : List Text)
    → All IsEntryName names
    → all (all is_clean) names ≡ true
    → normalize_path cwd (47 ∷ join_slash names) ≡ 47 ∷ join_slash names
unfolding normalize_path normal_parts raw_path split
normalize_path-kept cwd names a clean =
    let path = 47 ∷ join_slash names in
    let printable : all is_clean path ≡ true = join_slash-clean names clean in
    let sanitized : drop_controls (map forward path) ≡ path =
      ap drop_controls (map-forward path printable) ∙ drop_controls-clean path printable in
    let parts : normal_parts cwd path ≡ names = rw sanitized (walk-join_slash [] names a) in
    ap (λ l. if is_empty l then 47 ∷ [] else 47 ∷ join_slash l) parts ∙ same names
  where
    same : (l : List Text) → (if is_empty l then 47 ∷ [] else 47 ∷ join_slash l) ≡ 47 ∷ join_slash l
    same [] = refl
    same (x ∷ l) = refl

-- Whatever the directory and the path, the normalised path is `/`, or `/` before components that
-- are joined by `/`, none of which is empty, is `.` or `..`, or contains `/`; and the absolute path of
-- any such components, of printable ASCII characters but the backslash, is left as it is.
pub normalize_path-normal :
    (cwd path : Text) (names : List Text)
    → All IsEntryName names
    → all (all is_clean) names ≡ true
    → ((parts : List Text) × (normalize_path cwd path
          ≡ (if is_empty parts then 47 ∷ [] else 47 ∷ join_slash parts))
        × All IsEntryName parts)
      × (normalize_path cwd (47 ∷ join_slash names) ≡ 47 ∷ join_slash names)
normalize_path-normal cwd path names a clean =
    (normalize_path-IsEntryName cwd path, normalize_path-kept cwd names a clean)
