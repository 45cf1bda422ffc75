-- ===== src/Prelude/Pigeonhole.antt =====
-- A list of distinct numbers below `n` has at most `n` items.
use Prim.Native.Nat.{ℕ, zero, suc, ◌≤◌, ◌<◌}
use mathlib.Core.Path.{◌≡◌, refl}
use mathlib.Core.Logic.{◌≢◌, inl, inr}
use mathlib.Core.List.{List, [], ◌∷◌}
use native.Mathlib.Omega.{arith}
use mimic_ssh_honeypot.Prelude.Tests.{◌==◌, if◌then◌else◌, Bool-cases}
use mimic_ssh_honeypot.Prelude.Lists.{length, All}

abbrev pub Absent : ℕ → List ℕ → Type 0
Absent x ys = All (λ y. y ≢ x) ys

abbrev pub AllDistinct : List ℕ → Type 0
AllDistinct [] = Unit
AllDistinct (x ∷ xs) = Absent x xs × AllDistinct xs

without : ℕ → List ℕ → List ℕ
without k [] = []
without k (x ∷ xs) = if x == k then without k xs else x ∷ without k xs

length-without-Absent : (k : ℕ) (xs : List ℕ) → Absent k xs → length (without k xs) ≡ length xs
unfolding without
length-without-Absent k [] h = refl
length-without-Absent k (x ∷ xs) h = ground (arith, length-without-Absent k xs h.1, h.0)

length-without : (k : ℕ) (xs : List ℕ) → AllDistinct xs → length xs ≤ suc (length (without k xs))
unfolding without
length-without k [] h = omega arith
length-without k (x ∷ xs) h = elim (Bool-cases (x == k)) [
  | inl same ↦
      let at : k ≡ x = ground arith in rw at (ground (arith, length-without-Absent x xs h.0))
  | inr other ↦ ground (arith, length-without k xs h.1)
]

All-without {κ} : (P : ℕ → Type κ) (k : ℕ) (xs : List ℕ) → All P xs → All P (without k xs)
unfolding without
All-without P k [] h = h
All-without P k (x ∷ xs) h = elim (Bool-cases (x == k)) [
  | inl same ↦ rw same (All-without P k xs h.1)
  | inr other ↦ rw other (h.0, All-without P k xs h.1)
]

without-AllDistinct : (k : ℕ) (xs : List ℕ) → AllDistinct xs → AllDistinct (without k xs)
unfolding without
without-AllDistinct k [] h = h
without-AllDistinct k (x ∷ xs) h = elim (Bool-cases (x == k)) [
  | inl same ↦ rw same (without-AllDistinct k xs h.1)
  | inr other ↦ rw other (All-without (λ y. y ≢ x) k xs h.0, without-AllDistinct k xs h.1)
]

-- Without the bound itself, the items are below one less.
below_without : (n : ℕ) (xs : List ℕ) → All (λ x. x < suc n) xs → All (λ x. x < n) (without n xs)
unfolding without
below_without n [] h = h
below_without n (x ∷ xs) h = elim (Bool-cases (x == n)) [
  | inl same ↦ rw same (below_without n xs h.1)
  | inr other ↦ rw other (ground (arith, h.0), below_without n xs h.1)
]

pub length-le_of_AllDistinct :
    (n : ℕ) (xs : List ℕ) → AllDistinct xs → All (λ x. x < n) xs → length xs ≤ n
length-le_of_AllDistinct zero [] d h = omega arith
length-le_of_AllDistinct zero (x ∷ xs) d h = absurd (omega (arith, h.0))
length-le_of_AllDistinct (suc n) xs d h = omega (
  arith,
  length-without n xs d,
  length-le_of_AllDistinct n (without n xs) (without-AllDistinct n xs d) (below_without n xs h),
)
