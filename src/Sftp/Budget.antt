-- ===== src/Sftp/Budget.antt =====
-- The memory that the open handles of an SFTP session hold: src/network/sftp.rs.
use mimic_ssh_honeypot.Prelude.{
  ℕ, zero, suc, ◌+◌, ◌-◌, ◌≤◌, ◌<◌, ◌≡◌, min, Bool, true, false, ◌&&◌, none, some, List, ◌++◌,
  length, take, drop, ltb, leb, ◌==◌, arith, refl, Bool-cases, inl, inr, length-append, length-take,
  length-drop,
}
use mimic_ssh_honeypot.Prelude.Outcome.{done}
use mimic_ssh_honeypot.Sftp.Transfer.{
  usize_max, saturating_add, Grown, zeros, grow_to, copy_into, Written, place, write_chunk,
}

length-zeros : (n : ℕ) → length (zeros n) ≡ n
length-zeros zero = refl
length-zeros (suc n) = omega (arith, length-zeros n)

-- A file grows within what is left of the budget, up to the end that was asked for.
abbrev Grows : ℕ → List ℕ → ℕ → Grown → Type 0
Grows budget contents end none = Unit
Grows budget contents end (some (grown, extra)) =
    (length grown ≡ length contents + extra) × (extra ≤ budget) × (end ≤ length grown)

grow_to-Grows :
    (budget : ℕ) (contents : List ℕ) (end : ℕ)
    → Grows budget contents end (grow_to budget contents end)
unfolding grow_to
grow_to-Grows budget contents end = elim (Bool-cases (leb end (length contents))) [
  | inl inside ↦ rw inside (omega arith, omega arith, ground (arith, inside))
  | inr past ↦ elim (Bool-cases (ltb budget (end - length contents))) [
    | inl refused ↦ rw (past, refused) tt
    | inr granted ↦
        let sum_length = length-append contents (zeros (end - length contents)) in
        let added = length-zeros (end - length contents) in
        rw (past, granted)
          (
            omega (arith, sum_length, added),
            ground (arith, granted),
            ground (arith, past, sum_length, added),
          )
  ]
]

-- The contents after a write have grown by what is charged, which is within the budget.
abbrev Charged : ℕ → List ℕ → Written → Type 0
Charged budget contents w = (length w.contents ≡ length contents + w.grew) × (w.grew ≤ budget)

place-Charged :
    (budget : ℕ) (contents : List ℕ) (cut : Bool) (offset end : ℕ) (chunk : List ℕ) (g : Grown)
    → offset + length chunk ≡ end
    → Grows budget contents end g
    → (w : Written) × (place contents cut offset end chunk g ≡ done w) × Charged budget contents w
unfolding copy_into
place-Charged budget contents cut offset end chunk none fits grows =
    (record { contents = contents; cut = true; grew = 0 }, refl, (omega arith, omega arith))
place-Charged budget contents cut offset end chunk (some (grown, extra)) fits
      (longer, within, reaches) =
    let whole : (leb offset end && leb end (length grown) && length chunk == end - offset) ≡ true =
      ground (arith, fits, reaches) in
    (
      record { contents = take offset grown ++ (chunk ++ drop end grown); cut = cut; grew = extra },
      rw whole refl,
      (
        omega (
          arith,
          fits,
          longer,
          reaches,
          length-append (take offset grown) (chunk ++ drop end grown),
          length-append chunk (drop end grown),
          length-take offset grown,
          length-drop end grown,
        ),
        within,
      ),
    )

-- A write never panics, and charges what it adds, within the budget.
pub write_chunk-Charged :
    (max_upload_bytes budget : ℕ) (contents : List ℕ) (offset : ℕ) (chunk : List ℕ)
    → max_upload_bytes < usize_max
    → (w : Written) × (write_chunk max_upload_bytes budget contents offset chunk ≡ done w)
      × Charged budget contents w
unfolding write_chunk
write_chunk-Charged max budget contents offset chunk small =
    let raw_end = saturating_add offset (length chunk) in
    elim (Bool-cases (leb raw_end max && leb raw_end usize_max)) [
      | inl fits ↦
          let (w, e, c) =
            place-Charged budget contents false offset raw_end chunk
              (grow_to budget contents raw_end) (ground (arith, fits, small))
              (grow_to-Grows budget contents raw_end) in
          (w, rw fits e, c)
      | inr long ↦ elim (Bool-cases (ltb offset max && ltb offset usize_max)) [
        | inl starts ↦
            let kept = min (min (max - offset) (usize_max - offset)) (length chunk) in
            let (w, e, c) =
              place-Charged budget contents true offset (offset + kept) (take kept chunk)
                (grow_to budget contents (offset + kept)) (omega (arith, length-take kept chunk))
                (grow_to-Grows budget contents (offset + kept)) in
            (w, rw (long, starts) e, c)
        | inr past ↦ (
          record { contents = contents; cut = true; grew = 0 },
          rw (long, past) refl,
          (omega arith, omega arith),
        )
      ]
    ]
