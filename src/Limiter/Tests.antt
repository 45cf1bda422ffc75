-- ===== src/Limiter/Tests.antt =====
-- Runs of the limiter on one host, and the theorems at them.
use mimic_ssh_honeypot.Prelude.{◌≡◌, ◌≤◌, refl, some, [], ◌∷◌, arith, text_eq}
use mimic_ssh_honeypot.Prelude.Map.{lookup, insert, contains_key}
use mimic_ssh_honeypot.Limiter.{
  IpAddr, Registry, reserve, enter, release_entry, release, try_acquire, rejected, global_limit,
  per_ip_limit,
}
use mimic_ssh_honeypot.Limiter.Interleaving.{
  System, start, Reach, here, next, arrive, check_in, holding, holders,
}
use mimic_ssh_honeypot.Limiter.Invariant.{shown}
use mimic_ssh_honeypot.Limiter.Caps.{
  Reach-caps, Reach-entries, release_entry_total, try_acquire_lem, release-try_acquire, outcome,
}

abbrev host : IpAddr
host = 10 ∷ 0 ∷ 0 ∷ 1 ∷ []

abbrev busy : Registry
busy = record { per_ip_counts = (host, 1) ∷ []; total = 1; max_sessions = 2; per_ip = 2 }

abbrev one : System
one = record { registry = busy; tasks = holding host ∷ [] }

one_reached : Reach (start 2 2) one
unfolding start reserve enter insert lookup contains_key text_eq
one_reached = next (next here (arrive host refl)) (check_in [] [] host refl)

busy_entry : lookup host busy.per_ip_counts ≡ shown 1
unfolding lookup text_eq
busy_entry = refl

Reach-caps_example :
    (one.registry.total ≡ 1) × (one.registry.total ≤ 2) × ((ip : IpAddr) → holders ip one.tasks ≤ 2)
Reach-caps_example = Reach-caps 2 2 (omega arith) (omega arith) one_reached

Reach-entries_example : lookup host one.registry.per_ip_counts ≡ shown (holders host one.tasks)
Reach-entries_example = Reach-entries 2 2 (omega arith) (omega arith) one_reached host

release_entry_total_example : (r : Registry) × (release_entry busy host ≡ some r)
release_entry_total_example =
    release_entry_total 2 2 (omega arith) (omega arith) [] [] host one_reached refl

try_acquire_lem_example :
    ((try_acquire busy host).1 ≡ outcome busy host 1) × ((try_acquire busy host).0.total ≡ 2)
try_acquire_lem_example = try_acquire_lem busy host 1 (omega arith) (omega arith) busy_entry

release-try_acquire_example :
    (r : Registry) × (release (try_acquire busy host).0 host ≡ some r)
    × (r.total ≡ 1)
    × ((j : IpAddr) → lookup j r.per_ip_counts ≡ lookup j busy.per_ip_counts)
release-try_acquire_example =
    release-try_acquire busy host 1 (omega arith) (omega arith) busy_entry (omega arith)
      (omega arith)

third_refused : (try_acquire (record busy { total = 2 }) host).1 ≡ rejected global_limit
unfolding try_acquire
third_refused = refl

crowded_refused : (try_acquire (record busy { per_ip = 1 }) host).1 ≡ rejected per_ip_limit
unfolding try_acquire lookup text_eq contains_key
crowded_refused = refl
