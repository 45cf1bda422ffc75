-- ===== src/Prelude/Map.antt =====
-- `BTreeMap<String, V>`: an association list kept in key order, so that iteration is sorted.
pub mod Sums
use Prim.Native.Nat.{◌+◌, ◌≤◌}
use mathlib.Core.Path.{◌≡◌, refl, ◌∙◌, subst}
use mathlib.Core.Logic.{◌≢◌, inl, inr}
use mathlib.Core.Bool.{Bool, true, false, ◌&&◌, ◌||◌}
use mathlib.Core.List.{List, [], ◌∷◌}
use mathlib.Core.Option.{Option, none, some}
use native.Mathlib.Omega.{arith}
use mimic_ssh_honeypot.Prelude.Tests.{if◌then◌else◌, Bool-cases}
use mimic_ssh_honeypot.Prelude.Bytes.{Text, text_eq, text_eq_iff, text_lt}
use mimic_ssh_honeypot.Prelude.Lists.{length, All}

abbrev pub Map {ℓ} : Type ℓ → Type ℓ
Map V = List (Text × V)

module _ {ℓ} {V : Type ℓ} where
  -- `get`
  unfoldable pub lookup : Text → Map V → Option V
  lookup k [] = none
  lookup k ((j, v) ∷ m) = if text_eq j k then some v else lookup k m

  -- `contains_key`
  unfoldable pub contains_key : Text → Map V → Bool
  contains_key k [] = false
  contains_key k ((j, v) ∷ m) = text_eq j k || contains_key k m

  replace : Text → V → Map V → Map V
  replace k v [] = []
  replace k v ((j, w) ∷ m) = (j, if text_eq j k then v else w) ∷ replace k v m

  insert_new : Text → V → Map V → Map V
  insert_new k v [] = (k, v) ∷ []
  insert_new k v ((j, w) ∷ m) =
      if text_lt k j then (k, v) ∷ (j, w) ∷ m else (j, w) ∷ insert_new k v m

  -- `insert`: overwrites in place, or takes the key's place in the order.
  unfoldable pub insert : Text → V → Map V → Map V
  unfolding replace insert_new
  insert k v m = if contains_key k m then replace k v m else insert_new k v m

  -- `remove`
  unfoldable pub remove : Text → Map V → Map V
  remove k [] = []
  remove k ((j, v) ∷ m) = if text_eq j k then remove k m else (j, v) ∷ remove k m

  length-replace : (k : Text) (v : V) (m : Map V) → length (replace k v m) ≡ length m
  unfolding replace
  length-replace k v [] = refl
  length-replace k v ((j, w) ∷ m) = omega (arith, length-replace k v m)

  length-insert_new : (k : Text) (v : V) (m : Map V) → length (insert_new k v m) ≡ length m + 1
  unfolding insert_new
  length-insert_new k v [] = omega arith
  length-insert_new k v ((j, w) ∷ m) = ground (arith, length-insert_new k v m)

  lookup-replace :
      (k j : Text) (v : V) (m : Map V)
      → lookup j (replace k v m) ≡ (if text_eq k j && contains_key k m then some v else lookup j m)
  unfolding lookup replace contains_key
  lookup-replace k j v [] = ground arith
  lookup-replace k j v ((i, w) ∷ m) =
      ground (arith, lookup-replace k j v m, text_eq_iff i k, text_eq_iff i j, text_eq_iff k j)

  lookup-insert_new :
      (k j : Text) (v : V) (m : Map V)
      → contains_key k m ≡ false
      → lookup j (insert_new k v m) ≡ (if text_eq k j then some v else lookup j m)
  unfolding lookup insert_new contains_key
  lookup-insert_new k j v [] h = ground arith
  lookup-insert_new k j v ((i, w) ∷ m) h =
      ground (arith, lookup-insert_new k j v m, text_eq_iff i k, text_eq_iff i j, text_eq_iff k j)

  pub lookup-insert :
      (k j : Text) (v : V) (m : Map V)
      → lookup j (insert k v m) ≡ (if text_eq k j then some v else lookup j m)
  unfolding insert
  lookup-insert k j v m = ground (arith, lookup-replace k j v m, lookup-insert_new k j v m)

  pub length-insert :
      (k : Text) (v : V) (m : Map V)
      → length (insert k v m) ≡ (if contains_key k m then length m else length m + 1)
  unfolding insert
  length-insert k v m = ground (arith, length-replace k v m, length-insert_new k v m)

  pub contains_key-lookup :
      (k : Text) (m : Map V) → contains_key k m ≡ elim (lookup k m) [ none ↦ false | some v ↦ true ]
  unfolding contains_key lookup
  contains_key-lookup k [] = refl
  contains_key-lookup k ((j, v) ∷ m) = ground (arith, contains_key-lookup k m)

  pub length-remove_le : (k : Text) (m : Map V) → length (remove k m) ≤ length m
  unfolding remove
  length-remove_le k [] = omega arith
  length-remove_le k ((j, v) ∷ m) = ground (arith, length-remove_le k m)

  pub lookup-remove :
      (k j : Text) (m : Map V) → lookup j (remove k m) ≡ (if text_eq k j then none else lookup j m)
  unfolding lookup remove
  lookup-remove k j [] = ground arith
  lookup-remove k j ((i, v) ∷ m) =
      ground (arith, lookup-remove k j m, text_eq_iff i k, text_eq_iff i j, text_eq_iff k j)

  pub All-lookup {κ} :
      (P : Text × V → Type κ) (k : Text) {v : V} (m : Map V)
      → All P m
      → lookup k m ≡ some v
      → P (k, v)
  unfolding lookup
  All-lookup P k [] h e = cc
  All-lookup P k {v} ((j, w) ∷ m) h e = elim (Bool-cases (text_eq j k)) [
    | inl same ↦ subst P (ground (arith, text_eq_iff j k)) h.0
    | inr other ↦ All-lookup P k m h.1 (ground arith)
  ]

  pub All-remove {κ} : (P : Text × V → Type κ) (k : Text) (m : Map V) → All P m → All P (remove k m)
  unfolding remove
  All-remove P k [] h = h
  All-remove P k ((j, w) ∷ m) h = elim (Bool-cases (text_eq j k)) [
    | inl same ↦ rw same (All-remove P k m h.1)
    | inr other ↦ rw other (h.0, All-remove P k m h.1)
  ]

  -- What is left after a removal has other keys.
  pub All-remove_ne : (k : Text) (m : Map V) → All (λ e. e.0 ≢ k) (remove k m)
  unfolding remove
  All-remove_ne k [] = tt
  All-remove_ne k ((j, w) ∷ m) = elim (Bool-cases (text_eq j k)) [
    | inl same ↦ rw same (All-remove_ne k m)
    | inr other ↦ rw other (ground (arith, text_eq_iff j k), All-remove_ne k m)
  ]

  All-replace {κ} :
      (P : Text × V → Type κ) (k : Text) (v : V) (m : Map V)
      → P (k, v)
      → All P m
      → All P (replace k v m)
  unfolding replace
  All-replace P k v [] p h = h
  All-replace P k v ((j, w) ∷ m) p h = elim (Bool-cases (text_eq j k)) [
    | inl same ↦ rw same (rw ((text_eq_iff j k).0 same) p, All-replace P k v m p h.1)
    | inr other ↦ rw other (h.0, All-replace P k v m p h.1)
  ]

  All-insert_new {κ} :
      (P : Text × V → Type κ) (k : Text) (v : V) (m : Map V)
      → P (k, v)
      → All P m
      → All P (insert_new k v m)
  unfolding insert_new
  All-insert_new P k v [] p h = (p, tt)
  All-insert_new P k v ((j, w) ∷ m) p h = elim (Bool-cases (text_lt k j)) [
    | inl first ↦ rw first (p, h)
    | inr later ↦ rw later (h.0, All-insert_new P k v m p h.1)
  ]

  pub All-insert {κ} :
      (P : Text × V → Type κ) (k : Text) (v : V) (m : Map V)
      → P (k, v)
      → All P m
      → All P (insert k v m)
  unfolding insert
  All-insert P k v m p h = elim (Bool-cases (contains_key k m)) [
    | inl old ↦ rw old (All-replace P k v m p h)
    | inr new ↦ rw new (All-insert_new P k v m p h)
  ]

  -- No key has two entries.
  abbrev pub DistinctKeys : Map V → Type 0
  DistinctKeys [] = Unit
  DistinctKeys ((k, v) ∷ m) = (contains_key k m ≡ false) × DistinctKeys m

  contains_key-replace :
      (k j : Text) (v : V) (m : Map V) → contains_key j (replace k v m) ≡ contains_key j m
  unfolding contains_key replace
  contains_key-replace k j v [] = refl
  contains_key-replace k j v ((i, w) ∷ m) = ground (arith, contains_key-replace k j v m)

  contains_key-insert_new :
      (k j : Text) (v : V) (m : Map V)
      → contains_key j (insert_new k v m) ≡ (text_eq k j || contains_key j m)
  unfolding contains_key insert_new
  contains_key-insert_new k j v [] = refl
  contains_key-insert_new k j v ((i, w) ∷ m) = ground (arith, contains_key-insert_new k j v m)

  contains_key-remove :
      (k j : Text) (m : Map V) → contains_key j m ≡ false → contains_key j (remove k m) ≡ false
  unfolding contains_key remove
  contains_key-remove k j [] h = h
  contains_key-remove k j ((i, w) ∷ m) h = ground (arith, contains_key-remove k j m)

  replace-DistinctKeys :
      (k : Text) (v : V) (m : Map V) → DistinctKeys m → DistinctKeys (replace k v m)
  unfolding replace
  replace-DistinctKeys k v [] h = h
  replace-DistinctKeys k v ((j, w) ∷ m) h =
      (contains_key-replace k j v m ∙ h.0, replace-DistinctKeys k v m h.1)

  insert_new-DistinctKeys :
      (k : Text) (v : V) (m : Map V)
      → contains_key k m ≡ false
      → DistinctKeys m
      → DistinctKeys (insert_new k v m)
  unfolding insert_new contains_key
  insert_new-DistinctKeys k v [] new h = (refl, tt)
  insert_new-DistinctKeys k v ((j, w) ∷ m) new h = elim (Bool-cases (text_lt k j)) [
    | inl first ↦ rw first (new, h)
    | inr later ↦ rw later (
      ground (arith, contains_key-insert_new k j v m, text_eq_iff j k, text_eq_iff k j),
      insert_new-DistinctKeys k v m (ground arith) h.1,
    )
  ]

  pub insert-DistinctKeys :
      (k : Text) (v : V) (m : Map V) → DistinctKeys m → DistinctKeys (insert k v m)
  unfolding insert
  insert-DistinctKeys k v m h = elim (Bool-cases (contains_key k m)) [
    | inl old ↦ rw old (replace-DistinctKeys k v m h)
    | inr new ↦ rw new (insert_new-DistinctKeys k v m new h)
  ]

  pub remove-DistinctKeys : (k : Text) (m : Map V) → DistinctKeys m → DistinctKeys (remove k m)
  unfolding remove
  remove-DistinctKeys k [] h = h
  remove-DistinctKeys k ((j, w) ∷ m) h = elim (Bool-cases (text_eq j k)) [
    | inl same ↦ rw same (remove-DistinctKeys k m h.1)
    | inr other ↦ rw other (contains_key-remove k j m h.0, remove-DistinctKeys k m h.1)
  ]

  -- An absent key differs from each key.
  pub All-ne_of_absent : (k : Text) (m : Map V) → contains_key k m ≡ false → All (λ e. e.0 ≢ k) m
  unfolding contains_key
  All-ne_of_absent k [] h = tt
  All-ne_of_absent k ((j, w) ∷ m) h =
      (ground (arith, text_eq_iff j k), All-ne_of_absent k m (ground arith))
