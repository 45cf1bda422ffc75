-- ===== src/Parser/Bounds/Lists.antt =====
-- Reading a line at an index and dropping what is before it.
use mimic_ssh_honeypot.Prelude.{
  ℕ, zero, suc, ◌+◌, ◌-◌, ◌≤◌, ◌≡◌, true, some, List, [], ◌∷◌, ◌++◌, length, take, drop, get_elem?,
  arith, refl, ap, Text, sym, take-append-drop, length-drop, ◌∙◌,
}
use mimic_ssh_honeypot.Prelude.Outcome.{done}
use mimic_ssh_honeypot.Parser.{slice}
use mimic_ssh_honeypot.Parser.Substitution.{is_at}

module _ {ℓ} {A : Type ℓ} where
  drop-suc :
      (xs : List A) (i : ℕ) (c : A) (rest : List A)
      → drop i xs ≡ c ∷ rest
      → (get_elem? xs i ≡ some c) × (drop (suc i) xs ≡ rest)
  drop-suc [] zero c rest h = absurd (cc)
  drop-suc [] (suc i) c rest h = absurd (cc)
  drop-suc (x ∷ xs) zero c rest h = (cc, cc)
  drop-suc (x ∷ xs) (suc i) c rest h = drop-suc xs i c rest h

  -- What a non-empty rest of a list says of the list.
  pub drop_cons :
      (xs : List A) (i : ℕ) (c : A) (rest : List A)
      → drop i xs ≡ c ∷ rest
      → (get_elem? xs i ≡ some c) × (drop (i + 1) xs ≡ rest)
  drop_cons xs i c rest h = let one : i + 1 ≡ suc i = omega arith in rw one (drop-suc xs i c rest h)

  drop_at_suc :
      (xs : List A) (i : ℕ) (c : A) → get_elem? xs i ≡ some c → drop i xs ≡ c ∷ drop (suc i) xs
  drop_at_suc [] i c h = absurd (cc)
  drop_at_suc (x ∷ xs) zero c h = let same : x ≡ c = cc in ap (λ y. y ∷ xs) same
  drop_at_suc (x ∷ xs) (suc i) c h = drop_at_suc xs i c h

  pub drop_at :
      (xs : List A) (i : ℕ) (c : A) → get_elem? xs i ≡ some c → drop i xs ≡ c ∷ drop (i + 1) xs
  drop_at xs i c h = let one : i + 1 ≡ suc i = omega arith in rw one (drop_at_suc xs i c h)

  take_at_suc :
      (xs : List A) (i : ℕ) (c : A)
      → get_elem? xs i ≡ some c
      → take (suc i) xs ≡ take i xs ++ (c ∷ [])
  take_at_suc [] i c h = absurd (cc)
  take_at_suc (x ∷ xs) zero c h = let same : x ≡ c = cc in ap (λ y. y ∷ []) same
  take_at_suc (x ∷ xs) (suc i) c h = ap (λ l. x ∷ l) (take_at_suc xs i c h)

  pub take_at :
      (xs : List A) (i : ℕ) (c : A)
      → get_elem? xs i ≡ some c
      → take (i + 1) xs ≡ take i xs ++ (c ∷ [])
  take_at xs i c h = let one : i + 1 ≡ suc i = omega arith in rw one (take_at_suc xs i c h)

  pub take_split :
      (xs : List A) (a b : ℕ) → a ≤ b → take b xs ≡ take a xs ++ take (b - a) (drop a xs)
  take_split xs zero b h = let same : b - 0 ≡ b = omega arith in rw same refl
  take_split [] (suc a) zero h = absurd (omega arith)
  take_split [] (suc a) (suc b) h = nothing (suc b - suc a)
    where
      nothing : (n : ℕ) → ◌≡◌ {A = List A} [] (take n [])
      nothing zero = refl
      nothing (suc n) = refl
  take_split (x ∷ xs) (suc a) zero h = absurd (omega arith)
  take_split (x ∷ xs) (suc a) (suc b) h =
      let less : suc b - suc a ≡ b - a = omega arith in
      rw less (ap (λ l. x ∷ l) (take_split xs a b (omega arith)))

  pub take-length : (xs : List A) → take (length xs) xs ≡ xs
  take-length [] = refl
  take-length (x ∷ xs) = ap (λ l. x ∷ l) (take-length xs)

-- Reading a byte that is there.
pub is_at_get : (line : Text) (i b : ℕ) → is_at line i b ≡ true → get_elem? line i ≡ some b
is_at_get [] i b h = cc
is_at_get (x ∷ line) zero b h = ground (arith, h)
is_at_get (x ∷ line) (suc i) b h = is_at_get line i b h

pub slice_done :
    (line : Text) (a b : ℕ)
    → a ≤ b
    → b ≤ length line
    → slice line a b ≡ done (take (b - a) (drop a line))
slice_done line a b h k = ground (arith, h, k)

module _ {ℓ} {A : Type ℓ} where
  pub drop_split :
      (xs : List A) (a b : ℕ) → a ≤ b → drop a xs ≡ take (b - a) (drop a xs) ++ drop b xs
  drop_split xs zero b h =
      let same : b - 0 ≡ b = omega arith in rw same (sym (take-append-drop b xs))
  drop_split [] (suc a) zero h = absurd (omega arith)
  drop_split [] (suc a) (suc b) h = nothing (suc b - suc a)
    where
      nothing : (n : ℕ) → ◌≡◌ {A = List A} [] (take n [] ++ [])
      nothing zero = refl
      nothing (suc n) = refl
  drop_split (x ∷ xs) (suc a) zero h = absurd (omega arith)
  drop_split (x ∷ xs) (suc a) (suc b) h =
      let less : suc b - suc a ≡ b - a = omega arith in rw less (drop_split xs a b (omega arith))

  pub take-drop-length : (xs : List A) (a : ℕ) → take (length xs - a) (drop a xs) ≡ drop a xs
  take-drop-length xs a =
      ap (λ n. take n (drop a xs)) (sym (length-drop a xs)) ∙ take-length (drop a xs)
