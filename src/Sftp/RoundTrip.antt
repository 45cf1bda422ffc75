-- ===== src/Sftp/RoundTrip.antt =====
-- What the encoding helpers of src/network/sftp.rs write, the decoding ones read back.
use mimic_ssh_honeypot.Prelude.{
  ℕ, zero, suc, ◌+◌, ◌*◌, ◌/◌, ◌%◌, ◌^◌, ◌<◌, ◌≡◌, some, List, [], ◌∷◌, ◌++◌, length, take, drop,
  arith, refl, ap, ◌∙◌, length-append, ℤ, pos, negsuc,
}
use mimic_ssh_honeypot.Vfs.Metadata.{Metadata}
use mimic_ssh_honeypot.Sftp.{
  be_bytes, from_be, put_u32, put_u64, put_bytes, put_attrs, as_u32, get_be, get_u32, get_u64,
  get_bytes, get_attrs,
}

-- 256 to the power `n`.
abbrev limit : ℕ → ℕ
limit zero = 1
limit (suc n) = limit n * 256

length-be_bytes : (n v : ℕ) → length (be_bytes n v) ≡ n
unfolding be_bytes
length-be_bytes zero v = refl
length-be_bytes (suc n) v =
    omega (arith, length-append (be_bytes n (v / 256)) (v % 256 ∷ []), length-be_bytes n (v / 256))

from_be-append : (v : ℕ) (xs : List ℕ) (b : ℕ) → from_be v (xs ++ (b ∷ [])) ≡ from_be v xs * 256 + b
unfolding from_be
from_be-append v [] b = refl
from_be-append v (x ∷ xs) b = from_be-append (v * 256 + x) xs b

from_be-be_bytes : (n v : ℕ) → v < limit n → from_be 0 (be_bytes n v) ≡ v
unfolding be_bytes from_be
from_be-be_bytes zero v lt = omega arith
from_be-be_bytes (suc n) v lt = omega (
  arith,
  from_be-append 0 (be_bytes n (v / 256)) (v % 256),
  from_be-be_bytes n (v / 256) (omega (arith, lt)),
)

module _ {ℓ} {A : Type ℓ} where
  take_exact : (xs ys : List A) (n : ℕ) → length xs ≡ n → take n (xs ++ ys) ≡ xs
  take_exact [] ys zero q = refl
  take_exact [] ys (suc n) q = absurd (omega (arith, q))
  take_exact (x ∷ xs) ys zero q = absurd (omega (arith, q))
  take_exact (x ∷ xs) ys (suc n) q = ap (λ l. x ∷ l) (take_exact xs ys n (omega (arith, q)))

  drop_exact : (xs ys : List A) (n : ℕ) → length xs ≡ n → drop n (xs ++ ys) ≡ ys
  drop_exact [] ys zero q = refl
  drop_exact [] ys (suc n) q = absurd (omega (arith, q))
  drop_exact (x ∷ xs) ys zero q = absurd (omega (arith, q))
  drop_exact (x ∷ xs) ys (suc n) q = drop_exact xs ys n (omega (arith, q))

  append_assoc : (xs ys zs : List A) → (xs ++ ys) ++ zs ≡ xs ++ (ys ++ zs)
  append_assoc [] ys zs = refl
  append_assoc (x ∷ xs) ys zs = ap (λ l. x ∷ l) (append_assoc xs ys zs)

get_be-be_bytes :
    (n v : ℕ) (rest : List ℕ) → v < limit n → get_be n (be_bytes n v ++ rest) ≡ some (v, rest)
unfolding get_be
get_be-be_bytes n v rest lt =
    let size = length-be_bytes n v in
    ground (
      arith,
      length-append (be_bytes n v) rest,
      size,
      take_exact (be_bytes n v) rest n size,
      drop_exact (be_bytes n v) rest n size,
      from_be-be_bytes n v lt,
    )

-- A 32-bit number is read back as it was put, with what follows it left over.
pub get_u32-put_u32 :
    (val : ℕ) (rest : List ℕ) → val < 2 ^ 32 → get_u32 (put_u32 [] val ++ rest) ≡ some (val, rest)
unfolding get_u32 put_u32
get_u32-put_u32 val rest lt = get_be-be_bytes 4 val rest lt

get_u64-put_u64 :
    (val : ℕ) (rest : List ℕ) → val < 2 ^ 64 → get_u64 (put_u64 [] val ++ rest) ≡ some (val, rest)
unfolding get_u64 put_u64
get_u64-put_u64 val rest lt = get_be-be_bytes 8 val rest lt

-- A byte string shorter than 2^32 is read back as it was put, with what follows it left over.
pub get_bytes-put_bytes :
    (bytes rest : List ℕ)
    → length bytes < 2 ^ 32
    → get_bytes (put_bytes [] bytes ++ rest) ≡ some (bytes, rest)
unfolding get_bytes put_bytes
get_bytes-put_bytes bytes rest lt =
    let len : length bytes % 2 ^ 32 ≡ length bytes = omega (arith, lt) in
    let head = get_u32-put_u32 (length bytes) (bytes ++ rest) lt in
    let split = append_assoc (put_u32 [] (length bytes)) bytes rest in
    ground (
      arith,
      len,
      head,
      split,
      length-append bytes rest,
      take_exact bytes rest (length bytes) refl,
      drop_exact bytes rest (length bytes) refl,
    )

as_u32-lt : (t : ℤ) → as_u32 t < 2 ^ 32
as_u32-lt (pos n) = omega arith
as_u32-lt (negsuc n) = omega arith

-- The attributes of a node whose owner, group and mode are 32-bit, with a 64-bit size, are read back
-- as they were put: the mode, both ids and the time twice, with what follows them left over.
pub get_attrs-put_attrs :
    (meta : Metadata) (size : ℕ) (rest : List ℕ)
    → meta.uid < 2 ^ 32
    → meta.gid < 2 ^ 32
    → meta.mode < 2 ^ 32
    → size < 2 ^ 64
    → get_attrs (put_attrs [] meta size ++ rest)
      ≡ some (
        record {
          permissions = some meta.mode;
          uid_gid = some (meta.uid, meta.gid);
          acmodtime = some (as_u32 meta.mtime, as_u32 meta.mtime);
        },
        rest,
      )
unfolding get_attrs put_attrs put_u32 put_u64
get_attrs-put_attrs meta size rest u g m z =
    let fifteen : 0x0f < 2 ^ 32 = omega arith in
    let t = as_u32 meta.mtime in
    let w6 = be_bytes 4 t ++ rest in
    let w5 = be_bytes 4 t ++ w6 in
    let w4 = be_bytes 4 meta.mode ++ w5 in
    let w3 = be_bytes 4 meta.gid ++ w4 in
    let w2 = be_bytes 4 meta.uid ++ w3 in
    let w1 = be_bytes 8 size ++ w2 in
    let p1 = be_bytes 4 0x0f ++ be_bytes 8 size in
    let p2 = p1 ++ be_bytes 4 meta.uid in
    let p3 = p2 ++ be_bytes 4 meta.gid in
    let p4 = p3 ++ be_bytes 4 meta.mode in
    let p5 = p4 ++ be_bytes 4 t in
    let layout : put_attrs [] meta size ++ rest ≡ be_bytes 4 0x0f ++ w1 =
      append_assoc p5 (be_bytes 4 t) rest
      ∙ append_assoc p4 (be_bytes 4 t) w6
      ∙ append_assoc p3 (be_bytes 4 meta.mode) w5
      ∙ append_assoc p2 (be_bytes 4 meta.gid) w4
      ∙ append_assoc p1 (be_bytes 4 meta.uid) w3
      ∙ append_assoc (be_bytes 4 0x0f) (be_bytes 8 size) w2 in
    let r0 = get_u32-put_u32 0x0f w1 fifteen in
    let r1 = get_u64-put_u64 size w2 z in
    let r2 = get_u32-put_u32 meta.uid w3 u in
    let r3 = get_u32-put_u32 meta.gid w4 g in
    let r4 = get_u32-put_u32 meta.mode w5 m in
    let r5 = get_u32-put_u32 t w6 (as_u32-lt meta.mtime) in
    let r6 = get_u32-put_u32 t rest (as_u32-lt meta.mtime) in
    ap get_attrs layout ∙ rw (get_attrs, r0, r1, r2, r3, r4, r5, r6) refl
