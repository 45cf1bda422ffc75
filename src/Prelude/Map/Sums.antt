-- ===== src/Prelude/Map/Sums.antt =====
-- A measure of the values of a map, summed up: what an insertion and a removal do to it.
use Prim.Native.Nat.{ℕ, ◌+◌, ◌≤◌}
use mathlib.Core.Path.{◌≡◌, refl, ap, ◌∙◌}
use mathlib.Core.Logic.{inl, inr}
use mathlib.Core.Bool.{Bool, true, false}
use mathlib.Core.List.{[], ◌∷◌}
use mathlib.Core.Option.{Option, some, none}
use native.Mathlib.Omega.{arith}
use mimic_ssh_honeypot.Prelude.Tests.{if◌then◌else◌, Bool-cases, Option-cases}
use mimic_ssh_honeypot.Prelude.Bytes.{Text, text_eq, text_eq_iff}
use mimic_ssh_honeypot.Prelude.Map.{
  Map, lookup, contains_key, replace, insert_new, insert, remove, DistinctKeys, contains_key-lookup,
}

module _ {V : Type 0} (f : V → ℕ) where
  abbrev pub sum : Map V → ℕ
  sum [] = 0
  sum ((k, v) ∷ m) = f v + sum m

  sum-replace_none :
      (k : Text) (v : V) (m : Map V) → contains_key k m ≡ false → sum (replace k v m) ≡ sum m
  unfolding contains_key replace
  sum-replace_none k v [] h = refl
  sum-replace_none k v ((j, w) ∷ m) h = ground (arith, h, sum-replace_none k v m)

  sum-insert_new : (k : Text) (v : V) (m : Map V) → sum (insert_new k v m) ≡ sum m + f v
  unfolding insert_new
  sum-insert_new k v [] = omega arith
  sum-insert_new k v ((j, w) ∷ m) = ground (arith, sum-insert_new k v m)

  same_key :
      (j k : Text) (m : Map V)
      → text_eq j k ≡ true
      → contains_key j m ≡ false
      → contains_key k m ≡ false
  same_key j k m e h = rw (sym_key ((text_eq_iff j k).0 e)) h
    where
      sym_key : j ≡ k → k ≡ j
      sym_key p = cc

  taken :
      (b : Bool) (x w : V) (o : Option V)
      → b ≡ true
      → (if b then some x else o) ≡ some w
      → f x ≡ f w
  taken true x w o e h = let same : x ≡ w = cc in ap f same
  taken false x w o e h = absurd (cc)

  left_over :
      (b : Bool) (x w : V) (o : Option V)
      → b ≡ false
      → (if b then some x else o) ≡ some w
      → o ≡ some w
  left_over true x w o e h = absurd (cc)
  left_over false x w o e h = h

  sum-replace :
      (k : Text) (v w : V) (m : Map V)
      → DistinctKeys m
      → lookup k m ≡ some w
      → sum (replace k v m) + f w ≡ sum m + f v
  unfolding lookup replace
  sum-replace k v w [] d h = cc
  sum-replace k v w ((j, x) ∷ m) (fresh, d) h = elim (Bool-cases (text_eq j k)) [
    | inl same ↦
        let absent = same_key j k m same fresh in
        rw same (
          omega (arith, sum-replace_none k v m absent, taken (text_eq j k) x w (lookup k m) same h))
    | inr other ↦
        rw other
          (omega (arith, sum-replace k v w m d (left_over (text_eq j k) x w (lookup k m) other h)))
  ]

  sum-remove_none : (k : Text) (m : Map V) → contains_key k m ≡ false → sum (remove k m) ≡ sum m
  unfolding contains_key remove
  sum-remove_none k [] h = refl
  sum-remove_none k ((j, w) ∷ m) h = ground (arith, h, sum-remove_none k m)

  -- A key that is there loses its value.
  pub sum-remove :
      (k : Text) (w : V) (m : Map V)
      → DistinctKeys m
      → lookup k m ≡ some w
      → sum (remove k m) + f w ≡ sum m
  unfolding lookup remove
  sum-remove k w [] d h = cc
  sum-remove k w ((j, x) ∷ m) (fresh, d) h = elim (Bool-cases (text_eq j k)) [
    | inl same ↦
        let absent = same_key j k m same fresh in
        rw same
          (omega (arith, sum-remove_none k m absent, taken (text_eq j k) x w (lookup k m) same h))
    | inr other ↦
        rw other
          (omega (arith, sum-remove k w m d (left_over (text_eq j k) x w (lookup k m) other h)))
  ]

  -- A key that is there changes its value.
  pub sum-insert :
      (k : Text) (v w : V) (m : Map V)
      → DistinctKeys m
      → lookup k m ≡ some w
      → sum (insert k v m) + f w ≡ sum m + f v
  unfolding insert
  sum-insert k v w m d h =
      let there : contains_key k m ≡ true = contains_key-lookup k m ∙ found (lookup k m) h in
      rw there (sum-replace k v w m d h)
    where
      found : (o : Option V) → o ≡ some w → elim o [ none ↦ false | some x ↦ true ] ≡ true
      found none e = absurd (cc)
      found (some x) e = refl

  -- Whatever was there, no more than the new value is added.
  pub sum-insert_le :
      (k : Text) (v : V) (m : Map V) → DistinctKeys m → sum (insert k v m) ≤ sum m + f v
  unfolding insert
  sum-insert_le k v m d = elim (Option-cases (lookup k m)) [
    | inr (w, found) ↦ omega (arith, sum-insert k v w m d found)
    | inl none_there ↦
        let absent : contains_key k m ≡ false =
          contains_key-lookup k m ∙ missing (lookup k m) none_there in
        rw absent (omega (arith, sum-insert_new k v m))
  ]
    where
      missing : (o : Option V) → o ≡ none → elim o [ none ↦ false | some x ↦ true ] ≡ false
      missing none e = refl
      missing (some x) e = absurd (cc)
