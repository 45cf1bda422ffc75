-- ===== src/Limiter.antt =====
-- The connection limiter, src/network/limiter.rs.
-- An `IpAddr` is the list of its octets, and is only compared. A `usize` is below 2^64, and the
-- atomic `fetch_sub` wraps at that width. `none` from `release_entry` is the overflow panic of
-- `*count -= 1`. The two atomic parts of `try_acquire` and of `release` are functions of their
-- own, since other tasks run between them (module Interleaving). A release build wraps there.
pub mod Interleaving
mod Invariant
pub mod Caps
mod Tests
use mimic_ssh_honeypot.Prelude.{
  ℕ, zero, suc, ◌+◌, ◌-◌, ◌%◌, ◌^◌, Bool, true, false, Option, none, some, [], leb, ◌==◌,
  if◌then◌else◌, Text,
}
use mimic_ssh_honeypot.Prelude.Map.{Map, lookup, insert, remove, contains_key}

abbrev pub IpAddr : Type 0
IpAddr = Text

pub data RejectReason : Type 0 where
  global_limit per_ip_limit : RejectReason

pub record Registry : Type 0 where
  pub per_ip_counts : Map ℕ
  pub total : ℕ
  pub max_sessions : ℕ
  pub per_ip : ℕ

-- `ConnectionRegistry::new`
unfoldable pub new : ℕ → ℕ → Registry
new max_sessions per_ip = record {
  per_ip_counts = [];
  total = 0;
  max_sessions = max_sessions;
  per_ip = per_ip;
}

-- `total.fetch_sub(1, ..)`
unfoldable pub fetch_sub : ℕ → ℕ
fetch_sub total = (total + (2 ^ 64 - 1)) % 2 ^ 64

-- The `fetch_update` on `total`; `none` is its error.
unfoldable pub reserve : Registry → Option Registry
reserve r = if leb r.max_sessions r.total then none else some (record r { total = r.total + 1 })

-- `entry(ip).or_insert(0)`
unfoldable pub or_insert : IpAddr → Map ℕ → Map ℕ
or_insert ip m = if contains_key ip m then m else insert ip 0 m

abbrev pub count_or_zero : Option ℕ → ℕ
count_or_zero none = 0
count_or_zero (some n) = n

unfoldable pub count_of : IpAddr → Map ℕ → ℕ
count_of ip m = count_or_zero (lookup ip m)

-- The part of `try_acquire` under the lock, up to the branch on the per-source cap: the registry,
-- and whether the connection is admitted.
unfoldable pub enter : Registry → IpAddr → Registry × Bool
unfolding or_insert count_of
enter r ip =
    let counts = or_insert ip r.per_ip_counts in
    let count = count_of ip counts in
    if leb r.per_ip count
    then (record r { per_ip_counts = counts }, false)
    else (record r { per_ip_counts = insert ip (count + 1) counts }, true)

-- `self.total.fetch_sub(1, ..)`, which gives a reserved slot back.
unfoldable pub free_slot : Registry → Registry
unfolding fetch_sub
free_slot r = record r { total = fetch_sub r.total }

pub data Acquired : Type 0 where
  guard : IpAddr → Acquired
  rejected : RejectReason → Acquired

finish_acquire : IpAddr → Registry × Bool → Registry × Acquired
finish_acquire ip (r, true) = (r, guard ip)
finish_acquire ip (r, false) = (free_slot r, rejected per_ip_limit)

-- `try_acquire`, run with no other task between its parts.
unfoldable pub try_acquire : Registry → IpAddr → Registry × Acquired
unfolding reserve enter free_slot finish_acquire
try_acquire r ip = elim (reserve r) [
  | none ↦ (r, rejected global_limit)
  | some r' ↦ finish_acquire ip (enter r' ip)
]

decrement : IpAddr → Map ℕ → Option ℕ → Option (Map ℕ)
decrement ip m none = some m
decrement ip m (some zero) = none
decrement ip m (some (suc n)) = some (if n == 0 then remove ip m else insert ip n m)

-- The part of `release` under the lock.
unfoldable pub release_entry : Registry → IpAddr → Option Registry
unfolding decrement
release_entry r ip = elim (decrement ip r.per_ip_counts (lookup ip r.per_ip_counts)) [
  | none ↦ none
  | some m ↦ some (record r { per_ip_counts = m })
]

-- `release`, which dropping a guard runs, with no other task between its parts.
unfoldable pub release : Registry → IpAddr → Option Registry
unfolding release_entry free_slot
release r ip = elim (release_entry r ip) [ none ↦ none | some r' ↦ some (free_slot r') ]

-- `active`
unfoldable pub active : Registry → ℕ
active r = r.total
