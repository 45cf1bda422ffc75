-- ===== src/Vfs/Valid/New.antt =====
-- A new filesystem is valid.
use mimic_ssh_honeypot.Prelude.{
  zero, suc, ◌≡◌, some, [], ◌∷◌, get_elem?, arith, refl, ℤ, subst, All,
}
use mimic_ssh_honeypot.Prelude.Map.{DistinctKeys}
use mimic_ssh_honeypot.Prelude.Outcome.{Outcome, done}
use mimic_ssh_honeypot.Vfs.Nodes.{NodeId}
use mimic_ssh_honeypot.Vfs.Arena.{new}
use mimic_ssh_honeypot.Vfs.Tree.{top, Entry, children_of}
use mimic_ssh_honeypot.Vfs.Valid.{IsValid, total_bytes, Ends}

-- A property of what a call returns, read at a value that it is known to return.
pub Ends-at {ℓ} :
    {A : Type 0} {P : A → Type ℓ} {o : Outcome A} (e : Ends P o) (a : A) → o ≡ done a → P a
Ends-at {P} {o} (b, q, p) a r = let same : b ≡ a = cc in subst P same p

only_item {ℓ} : {A : Type ℓ} (x y : A) (i : NodeId) → get_elem? (x ∷ []) i ≡ some y → x ≡ y
only_item x y zero h = cc
only_item x y (suc i) h = cc

-- A new filesystem is valid.
pub new-IsValid : (now : ℤ) → IsValid (new now)
unfolding new total_bytes
new-IsValid now = record {
  root_zero = refl;
  tree = record {
    root_node = (_, refl, refl);
    chain = elim [ zero ↦ λ h. top refl refl refl | suc id ↦ λ h. absurd (omega arith) ];
    linked = λ id n h.
        subst (λ m. All (Entry (new now).nodes id) (children_of m.kind)) (only_item _ n id h) tt;
    distinct = λ id n h. subst (λ m. DistinctKeys (children_of m.kind)) (only_item _ n id h) tt;
  };
  nodes_cap = omega arith;
  covered = omega arith;
  bytes_cap = omega arith;
}
