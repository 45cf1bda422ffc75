-- ===== src/Prelude/Bits.antt =====
-- Laws of `bit_and` and `bit_or`, digit by digit.
use Prim.Native.Nat.{
  min, max, ◌/◌, digits, bitwise, bit_and, bit_or, bit_and-bitwise, bit_or-bitwise,
}
use mimic_ssh_honeypot.Prelude.{
  ℕ, zero, suc, ◌+◌, ◌*◌, ◌%◌, ◌≤◌, ◌≡◌, arith, refl, sym, ap, ◌∙◌, leb, Bool-cases, inl, inr,
}

-- Induction that halves the number.
by_halves {ℓ} : (P : ℕ → Type ℓ) → P 0 → ((a : ℕ) → P (a / 2) → P a) → (a : ℕ) → P a
by_halves P base step a = go a a (omega arith)
  where
    go : (bound a : ℕ) → a ≤ bound → P a
    go bound zero le = base
    go zero (suc a) le = absurd (omega arith)
    go (suc bound) (suc a) le = step (suc a) (go bound (suc a / 2) (omega (arith, le)))

-- An operation on digits `f`, where `z` is what it makes of 0 and a number.
module _ (z : ℕ → ℕ) (f : ℕ → ℕ → ℕ) where
  one_more : (n a b : ℕ) → a ≤ n → digits z f (suc n) a b ≡ digits z f n a b
  one_more zero zero b le = refl
  one_more (suc n) zero b le = refl
  one_more zero (suc a) b le = absurd (omega arith)
  one_more (suc n) (suc a) b le =
      ap (λ d. d * 2 + f (suc a % 2) (b % 2)) (one_more n (suc a / 2) (b / 2) (omega (arith, le)))

  settled : (n a b : ℕ) → a ≤ n → digits z f n a b ≡ bitwise z f a b
  settled zero zero b le = refl
  settled zero (suc a) b le = absurd (omega arith)
  settled (suc n) a b le = elim (Bool-cases (leb a n)) [
    | inl below ↦ one_more n a b (ground (arith, below)) ∙ settled n a b (ground (arith, below))
    | inr top ↦ let same : suc n ≡ a = ground (arith, top, le) in ap (λ k. digits z f k a b) same
  ]

  bitwise_step :
      ((b : ℕ) → z b ≡ z (b / 2) * 2 + f 0 (b % 2))
      → (a b : ℕ) → bitwise z f a b ≡ bitwise z f (a / 2) (b / 2) * 2 + f (a % 2) (b % 2)
  bitwise_step zeros zero b = zeros b
  bitwise_step zeros (suc a) b =
      ap (λ d. d * 2 + f (suc a % 2) (b % 2)) (settled a (suc a / 2) (b / 2) (omega arith))

bit_and_digits : (a b : ℕ) → bit_and a b ≡ bit_and (a / 2) (b / 2) * 2 + min (a % 2) (b % 2)
bit_and_digits a b =
    bit_and-bitwise a b
    ∙ bitwise_step (λ y. 0) min (λ y. omega arith) a b
    ∙ ap (λ d. d * 2 + min (a % 2) (b % 2)) (sym (bit_and-bitwise (a / 2) (b / 2)))

bit_or_digits : (a b : ℕ) → bit_or a b ≡ bit_or (a / 2) (b / 2) * 2 + max (a % 2) (b % 2)
bit_or_digits a b =
    bit_or-bitwise a b
    ∙ bitwise_step (λ y. y) max (λ y. omega arith) a b
    ∙ ap (λ d. d * 2 + max (a % 2) (b % 2)) (sym (bit_or-bitwise (a / 2) (b / 2)))

none-bit_and : (b : ℕ) → bit_and 0 b ≡ 0
none-bit_and b = bit_and-bitwise 0 b

none-bit_or : (b : ℕ) → bit_or 0 b ≡ b
none-bit_or b = bit_or-bitwise 0 b

bit_and_none : (a : ℕ) → bit_and a 0 ≡ 0
bit_and_none =
    by_halves (λ a. bit_and a 0 ≡ 0) (none-bit_and 0)
      (λ a half. omega (arith, bit_and_digits a 0, half))

bit_or_none : (a : ℕ) → bit_or a 0 ≡ a
bit_or_none =
    by_halves (λ a. bit_or a 0 ≡ a) (none-bit_or 0)
      (λ a half. omega (arith, bit_or_digits a 0, half))

bit_and_halves :
    (a b : ℕ)
    → (bit_and a b / 2 ≡ bit_and (a / 2) (b / 2)) × (bit_and a b % 2 ≡ min (a % 2) (b % 2))
bit_and_halves a b = (omega (arith, bit_and_digits a b), omega (arith, bit_and_digits a b))

bit_or_halves :
    (a b : ℕ) → (bit_or a b / 2 ≡ bit_or (a / 2) (b / 2)) × (bit_or a b % 2 ≡ max (a % 2) (b % 2))
bit_or_halves a b = (omega (arith, bit_or_digits a b), omega (arith, bit_or_digits a b))

-- `&` distributes over `|`.
bit_and-bit_or : (a b m : ℕ) → bit_and (bit_or a b) m ≡ bit_or (bit_and a m) (bit_and b m)
bit_and-bit_or =
    by_halves (λ a. (b m : ℕ) → bit_and (bit_or a b) m ≡ bit_or (bit_and a m) (bit_and b m))
      (λ b m.
        ap (λ x. bit_and x m) (none-bit_or b)
        ∙ sym (none-bit_or (bit_and b m))
        ∙ ap (λ x. bit_or x (bit_and b m)) (sym (none-bit_and m)))
      step
  where
    step :
        (a : ℕ)
        → ((b m : ℕ) → bit_and (bit_or (a / 2) b) m ≡ bit_or (bit_and (a / 2) m) (bit_and b m))
        → (b m : ℕ) → bit_and (bit_or a b) m ≡ bit_or (bit_and a m) (bit_and b m)
    step a half b m =
        let (or_half, or_digit) = bit_or_halves a b in
        let (a_half, a_digit) = bit_and_halves a m in
        let (b_half, b_digit) = bit_and_halves b m in
        let left : bit_and (bit_or a b / 2) (m / 2) ≡ bit_and (bit_or (a / 2) (b / 2)) (m / 2) =
          ap (λ x. bit_and x (m / 2)) or_half in
        let right : bit_or (bit_and a m / 2) (bit_and b m / 2)
            ≡ bit_or (bit_and (a / 2) (m / 2)) (bit_and (b / 2) (m / 2)) =
          ap (λ x. bit_or x (bit_and b m / 2)) a_half
          ∙ ap (bit_or (bit_and (a / 2) (m / 2))) b_half in
        omega (
          arith,
          bit_and_digits (bit_or a b) m,
          bit_or_digits (bit_and a m) (bit_and b m),
          half (b / 2) (m / 2),
        )

bit_and_assoc : (a b c : ℕ) → bit_and (bit_and a b) c ≡ bit_and a (bit_and b c)
bit_and_assoc =
    by_halves (λ a. (b c : ℕ) → bit_and (bit_and a b) c ≡ bit_and a (bit_and b c))
      (λ b c.
        ap (λ x. bit_and x c) (none-bit_and b) ∙ none-bit_and c ∙ sym (none-bit_and (bit_and b c)))
      step
  where
    step :
        (a : ℕ)
        → ((b c : ℕ) → bit_and (bit_and (a / 2) b) c ≡ bit_and (a / 2) (bit_and b c))
        → (b c : ℕ) → bit_and (bit_and a b) c ≡ bit_and a (bit_and b c)
    step a half b c =
        let (ab_half, ab_digit) = bit_and_halves a b in
        let (bc_half, bc_digit) = bit_and_halves b c in
        let left : bit_and (bit_and a b / 2) (c / 2) ≡ bit_and (bit_and (a / 2) (b / 2)) (c / 2) =
          ap (λ x. bit_and x (c / 2)) ab_half in
        let right : bit_and (a / 2) (bit_and b c / 2) ≡ bit_and (a / 2) (bit_and (b / 2) (c / 2)) =
          ap (bit_and (a / 2)) bc_half in
        omega (
          arith,
          bit_and_digits (bit_and a b) c,
          bit_and_digits a (bit_and b c),
          half (b / 2) (c / 2),
        )

-- Two numbers under masks that share no bit: each is read back through its mask.
pub masked :
    (x y m k : ℕ)
    → bit_and m m ≡ m
    → bit_and k k ≡ k
    → bit_and m k ≡ 0
    → bit_and k m ≡ 0
    → (bit_and (bit_or (bit_and x m) (bit_and y k)) m ≡ bit_and x m)
      × (bit_and (bit_or (bit_and x m) (bit_and y k)) k ≡ bit_and y k)
masked x y m k mm kk mk km = (
  bit_and-bit_or (bit_and x m) (bit_and y k) m
      ∙ ap (λ z. bit_or z (bit_and (bit_and y k) m)) (bit_and_assoc x m m ∙ ap (bit_and x) mm)
      ∙ ap (bit_or (bit_and x m)) (bit_and_assoc y k m ∙ ap (bit_and y) km ∙ bit_and_none y)
      ∙ bit_or_none (bit_and x m),
  bit_and-bit_or (bit_and x m) (bit_and y k) k
      ∙ ap (λ z. bit_or z (bit_and (bit_and y k) k))
          (bit_and_assoc x m k ∙ ap (bit_and x) mk ∙ bit_and_none x)
      ∙ none-bit_or (bit_and (bit_and y k) k)
      ∙ bit_and_assoc y k k
      ∙ ap (bit_and y) kk,
)
