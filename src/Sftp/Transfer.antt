-- ===== src/Sftp/Transfer.antt =====
-- The bytes of an SFTP transfer, src/network/sftp.rs: what a write makes of the contents of an open file,
-- and the reply to a read. `out` is the response so far.
use mimic_ssh_honeypot.Prelude.{
  ℕ, zero, suc, ◌+◌, ◌-◌, ◌*◌, min, Bool, true, false, ◌&&◌, ◌||◌, Option, none, some, List, [],
  ◌∷◌, ◌++◌, length, take, drop, ltb, leb, ◌==◌, if◌then◌else◌, codes,
}
use mimic_ssh_honeypot.Prelude.Outcome.{Outcome, done, panic, ◌>>=◌}
use mimic_ssh_honeypot.Sftp.{put_status, put_data, get_bytes, get_u32, get_u64}

abbrev pub max_read_chunk : ℕ
max_read_chunk = 32 * 1024

-- `u64::MAX`, and `usize::MAX` on a 64-bit target.
abbrev pub usize_max : ℕ
usize_max = 0xffffffffffffffff

abbrev pub saturating_add : ℕ → ℕ → ℕ
saturating_add a b = min (a + b) usize_max

-- Whether a file of the session grew, to which contents and by how much.
abbrev pub Grown : Type 0
Grown = Option (List ℕ × ℕ)

abbrev pub zeros : ℕ → List ℕ
zeros zero = []
zeros (suc n) = 0 ∷ zeros n

-- `grow_to`, which one write calls at most once.
unfoldable pub grow_to : (budget_left : ℕ) → List ℕ → (end : ℕ) → Grown
grow_to budget_left contents end =
    if leb end (length contents)
    then some (contents, 0)
    else if ltb budget_left (end - length contents)
    then none
    else some (contents ++ zeros (end - length contents), end - length contents)

-- `data[offset..end].copy_from_slice(chunk)`
unfoldable pub copy_into : List ℕ → (offset end : ℕ) → List ℕ → Outcome (List ℕ)
copy_into contents offset end chunk =
    if leb offset end && leb end (length contents) && length chunk == end - offset
    then done (take offset contents ++ (chunk ++ drop end contents))
    else panic

-- The contents after a write, whether something was cut off, and by how much the buffer grew.
pub record Written : Type 0 where
  pub contents : List ℕ
  pub cut : Bool
  pub grew : ℕ

abbrev pub place : List ℕ → Bool → (offset end : ℕ) → List ℕ → Grown → Outcome Written
place contents cut offset end chunk none =
    done (record { contents = contents; cut = true; grew = 0 })
place contents cut offset end chunk (some (grown, extra)) = do
  copied ← copy_into grown offset end chunk
  done (record { contents = copied; cut = cut; grew = extra })

unfoldable pub write_chunk :
    (max_upload_bytes budget_left : ℕ)
    → List ℕ
    → (raw_offset : ℕ) → (chunk : List ℕ) → Outcome Written
unfolding grow_to copy_into
write_chunk max_upload_bytes budget_left contents raw_offset chunk =
    let raw_end = saturating_add raw_offset (length chunk) in
    if leb raw_end max_upload_bytes && leb raw_end usize_max
    then place contents false raw_offset raw_end chunk (grow_to budget_left contents raw_end)
    else if ltb raw_offset max_upload_bytes && ltb raw_offset usize_max
    then (let kept =
          min (min (max_upload_bytes - raw_offset) (usize_max - raw_offset)) (length chunk) in
        place contents true raw_offset (raw_offset + kept) (take kept chunk)
          (grow_to budget_left contents (raw_offset + kept)))
    else done (record { contents = contents; cut = true; grew = 0 })

-- The reply to a read of `len` bytes at an offset.
unfoldable pub read_reply : ℕ → List ℕ → (raw_offset len : ℕ) → List ℕ → List ℕ
read_reply id contents raw_offset len out =
    if ltb usize_max raw_offset || leb (length contents) raw_offset
    then put_status out id 1 (codes "End of file")
    else put_data out id (
        take (min (min len max_read_chunk) (length contents - raw_offset))
          (drop raw_offset contents))

-- The handle, the offset and the length of a read.
unfoldable pub read_args : List ℕ → Option (List ℕ × ℕ × ℕ)
unfolding get_bytes get_u64 get_u32
read_args cursor = elim (get_bytes cursor) [
  | none ↦ none
  | some (handle, cursor1) ↦ elim (get_u64 cursor1) [
    | none ↦ none
    | some (offset, cursor2) ↦ elim (get_u32 cursor2) [
      | none ↦ none
      | some (len, cursor3) ↦ some (handle, offset, len)
    ]
  ]
]

-- The handle, the offset and the bytes of a write.
unfoldable pub write_args : List ℕ → Option (List ℕ × ℕ × List ℕ)
unfolding get_bytes get_u64
write_args cursor = elim (get_bytes cursor) [
  | none ↦ none
  | some (handle, cursor1) ↦ elim (get_u64 cursor1) [
    | none ↦ none
    | some (offset, cursor2) ↦ elim (get_bytes cursor2) [
      | none ↦ none
      | some (chunk, cursor3) ↦ some (handle, offset, chunk)
    ]
  ]
]
