-- ===== src/Sftp.antt =====
-- The packet codec of src/network/sftp.rs: the framing and decoding helpers. `out` is the packet so
-- far and a cursor the bytes still to read.
pub mod RoundTrip
pub mod Path
pub mod Normal
pub mod Transfer
pub mod Handles
pub mod Requests
pub mod Budget
pub mod Session
pub mod Answers
pub mod Reach
mod Tests
use Prim.Native.Nat.{bit_and}
use mimic_ssh_honeypot.Prelude.{
  ℕ, zero, suc, ◌+◌, ◌-◌, ◌*◌, ◌/◌, ◌%◌, ◌^◌, Bool, true, false, not, Option, none, some, List, [],
  ◌∷◌, ◌++◌, length, take, drop, ltb, ◌==◌, if◌then◌else◌, ℤ, pos, negsuc, Text,
}
use mimic_ssh_honeypot.Vfs.Metadata.{Metadata}

-- `to_be_bytes` of a number of `n` bytes.
unfoldable pub be_bytes : ℕ → ℕ → List ℕ
be_bytes zero v = []
be_bytes (suc n) v = be_bytes n (v / 256) ++ (v % 256 ∷ [])

-- `from_be_bytes`, with the value of the bytes before.
unfoldable pub from_be : ℕ → List ℕ → ℕ
from_be v [] = v
from_be v (b ∷ bytes) = from_be (v * 256 + b) bytes

unfoldable pub put_u32 : List ℕ → ℕ → List ℕ
unfolding be_bytes
put_u32 out val = out ++ be_bytes 4 val

unfoldable pub put_u64 : List ℕ → ℕ → List ℕ
unfolding be_bytes
put_u64 out val = out ++ be_bytes 8 val

-- `data.len() as u32`
unfoldable pub put_bytes : List ℕ → List ℕ → List ℕ
unfolding put_u32
put_bytes out bytes = put_u32 out (length bytes % 2 ^ 32) ++ bytes

unfoldable pub put_str : List ℕ → Text → List ℕ
unfolding put_bytes
put_str out s = put_bytes out s

-- `mtime as u32`
abbrev pub as_u32 : ℤ → ℕ
as_u32 (pos n) = n % 2 ^ 32
as_u32 (negsuc n) = 2 ^ 32 - 1 - n % 2 ^ 32

unfoldable pub put_attrs : List ℕ → Metadata → ℕ → List ℕ
unfolding put_u32 put_u64
put_attrs out meta size =
    let flagged = put_u64 (put_u32 out 0x0f) size in
    let owned = put_u32 (put_u32 flagged meta.uid) meta.gid in
    put_u32 (put_u32 (put_u32 owned meta.mode) (as_u32 meta.mtime)) (as_u32 meta.mtime)

-- A packet after `out`: the length of what follows it, the type and the payload.
unfoldable pub send_packet : List ℕ → ℕ → (List ℕ → List ℕ) → List ℕ
unfolding be_bytes
send_packet out pkt_type payload_fn =
    let start = length out in
    let filled = payload_fn (out ++ (0 ∷ 0 ∷ 0 ∷ 0 ∷ pkt_type ∷ [])) in
    take start filled
    ++ (be_bytes 4 ((length filled - start - 4) % 2 ^ 32) ++ drop (start + 4) filled)

unfoldable pub put_status : List ℕ → (id code : ℕ) → Text → List ℕ
unfolding send_packet put_str put_u32
put_status out id code msg =
    send_packet out 101 (λ p. put_str (put_str (put_u32 (put_u32 p id) code) msg) [])

unfoldable pub put_handle : List ℕ → ℕ → List ℕ → List ℕ
unfolding send_packet put_u32 put_bytes
put_handle out id handle = send_packet out 102 (λ p. put_bytes (put_u32 p id) handle)

unfoldable pub put_data : List ℕ → ℕ → List ℕ → List ℕ
unfolding send_packet put_u32 put_bytes
put_data out id bytes = send_packet out 103 (λ p. put_bytes (put_u32 p id) bytes)

unfoldable pub put_attrs_pkt : List ℕ → ℕ → Metadata → ℕ → List ℕ
unfolding send_packet put_u32 put_attrs
put_attrs_pkt out id meta size = send_packet out 105 (λ p. put_attrs (put_u32 p id) meta size)

-- A name, its long form, and its attributes with a size where there are any.
abbrev pub NameEntry : Type 0
NameEntry = Text × Text × Option (Metadata × ℕ)

abbrev put_optional_attrs : List ℕ → Option (Metadata × ℕ) → List ℕ
put_optional_attrs p none = put_u32 p 0
put_optional_attrs p (some (meta, size)) = put_attrs p meta size

-- The loop of `put_name_pkt`.
unfoldable pub put_entries : List ℕ → List NameEntry → List ℕ
unfolding put_str put_u32 put_attrs
put_entries p [] = p
put_entries p ((name, longname, attrs) ∷ entries) =
    put_entries (put_optional_attrs (put_str (put_str p name) longname) attrs) entries

unfoldable pub put_name_pkt : List ℕ → ℕ → List NameEntry → List ℕ
unfolding send_packet put_u32 put_entries
put_name_pkt out id entries =
    send_packet out 104
      (λ p. put_entries (put_u32 (put_u32 p id) (length entries % 2 ^ 32)) entries)

abbrev pub Read : Type 0 → Type 0
Read A = Option (A × List ℕ)

infixl 5 ◌>>=◌
abbrev pub ◌>>=◌ : {A B : Type 0} → Read A → (A × List ℕ → Read B) → Read B
none >>= f = none
some a >>= f = f a

-- A number of `n` bytes.
unfoldable pub get_be : ℕ → List ℕ → Read ℕ
unfolding from_be
get_be n cursor =
    if ltb (length cursor) n then none else some (from_be 0 (take n cursor), drop n cursor)

unfoldable pub get_u32 : List ℕ → Read ℕ
unfolding get_be
get_u32 cursor = get_be 4 cursor

unfoldable pub get_u64 : List ℕ → Read ℕ
unfolding get_be
get_u64 cursor = get_be 8 cursor

unfoldable pub get_bytes : List ℕ → Read (List ℕ)
unfolding get_u32
get_bytes cursor = do
  (len, cursor1) ← get_u32 cursor
  if ltb (length cursor1) len then none else some (take len cursor1, drop len cursor1)

pub record ParsedAttrs : Type 0 where
  pub permissions : Option ℕ
  pub uid_gid : Option (ℕ × ℕ)
  pub acmodtime : Option (ℕ × ℕ)

abbrev pub has_flag : ℕ → ℕ → Bool
has_flag flags bit = not (bit_and flags bit == 0)

abbrev pub get_pair : List ℕ → Read (ℕ × ℕ)
get_pair cursor = do
  (a, cursor1) ← get_u32 cursor
  (b, cursor2) ← get_u32 cursor1
  some ((a, b), cursor2)

-- A part that its flag announces.
abbrev pub optional : {A : Type 0} → Bool → (List ℕ → Read A) → List ℕ → Read (Option A)
optional false get cursor = some (none, cursor)
optional true get cursor = do (a, cursor1) ← get cursor; some (some a, cursor1)

-- The extensions, read and dropped.
unfoldable pub skip_pairs : ℕ → List ℕ → Read Unit
unfolding get_bytes
skip_pairs zero cursor = some (tt, cursor)
skip_pairs (suc count) cursor = do
  (a, cursor1) ← get_bytes cursor
  (b, cursor2) ← get_bytes cursor1
  skip_pairs count cursor2

abbrev pub skip_extended : List ℕ → Read Unit
skip_extended cursor = do (count, cursor1) ← get_u32 cursor; skip_pairs count cursor1

unfoldable pub get_attrs : List ℕ → Read ParsedAttrs
unfolding get_u32 get_u64 skip_pairs
get_attrs cursor = do
  (flags, cursor1) ← get_u32 cursor
  (size, cursor2) ← optional (has_flag flags 1) get_u64 cursor1
  (uid_gid, cursor3) ← optional (has_flag flags 2) get_pair cursor2
  (permissions, cursor4) ← optional (has_flag flags 4) get_u32 cursor3
  (acmodtime, cursor5) ← optional (has_flag flags 8) get_pair cursor4
  (extended, cursor6) ← optional (has_flag flags 0x80000000) skip_extended cursor5
  some (record { permissions = permissions; uid_gid = uid_gid; acmodtime = acmodtime }, cursor6)
