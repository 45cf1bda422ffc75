-- ===== src/Limiter/Caps.antt =====
-- What the registry promises, of limiter.rs: the caps under every interleaving, and the outcome of
-- each call.
use mimic_ssh_honeypot.Prelude.{
  ℕ, suc, ◌+◌, ◌^◌, ◌≤◌, ◌<◌, ◌≡◌, some, List, ◌∷◌, ◌++◌, ltb, leb, ◌&&◌, if◌then◌else◌,
  text_eq_iff, ◌==◌, length, arith,
}
use mimic_ssh_honeypot.Prelude.Map.{lookup, lookup-insert, lookup-remove, insert, remove}
use mimic_ssh_honeypot.Limiter.{
  IpAddr, Registry, enter, release_entry, release, free_slot, try_acquire, Acquired, guard,
  rejected, global_limit, per_ip_limit,
}
use mimic_ssh_honeypot.Limiter.Interleaving.{holding, Task, System, start, Reach, holders}
use mimic_ssh_honeypot.Limiter.Invariant.{
  Inv-Reach, release_entry_lem, shown, holders-append, enter-admits, lookup-enter, enter-total,
}

module _ (max_sessions per_ip : ℕ) (positive : 0 < per_ip) (word : max_sessions < 2 ^ 64) where
  -- However the atomic parts of any number of connections interleave, starting from a new registry
  -- with a positive per-source cap and a global one below 2^64, `total` is the number of
  -- connections that hold a slot, it is at most `max_sessions`, and no address has more than
  -- `per_ip` live guards.
  pub Reach-caps :
      {s : System}
      → Reach (start max_sessions per_ip) s
      → (s.registry.total ≡ length s.tasks)
        × (s.registry.total ≤ max_sessions)
        × ((ip : IpAddr) → holders ip s.tasks ≤ per_ip)
  Reach-caps r =
      let h = Inv-Reach max_sessions per_ip positive word r in
      (h.counted, omega (arith, h.counted, h.within), h.fair)

  -- Under the same two bounds on the caps, in every reachable state the map has an entry for an
  -- address exactly when it has live guards, and the entry is their number; so the map is pruned as
  -- connections end.
  pub Reach-entries :
      {s : System}
      → Reach (start max_sessions per_ip) s
      → (ip : IpAddr) → lookup ip s.registry.per_ip_counts ≡ shown (holders ip s.tasks)
  Reach-entries r = (Inv-Reach max_sessions per_ip positive word r).entries

  -- Under the same two bounds on the caps, in every reachable state, dropping any live guard passes
  -- the locked part of `release` with no overflow.
  pub release_entry_total :
      {s : System} (before after : List Task) (ip : IpAddr)
      → Reach (start max_sessions per_ip) s
      → s.tasks ≡ before ++ (holding ip ∷ after)
      → (r : Registry) × (release_entry s.registry ip ≡ some r)
  unfolding holders
  release_entry_total {s} before after ip r e =
      let n = holders ip before + holders ip after in
      let held : holders ip s.tasks ≡ suc n =
        rw e (ground (arith, holders-append ip before (holding ip ∷ after), text_eq_iff ip ip)) in
      let found : lookup ip s.registry.per_ip_counts ≡ some (suc n) =
        ground (arith, Reach-entries r ip, held) in
      (_, release_entry_lem s.registry ip n found)

-- Which result `try_acquire` has, and in which order the caps are asked: the global one first.
abbrev pub outcome : Registry → IpAddr → ℕ → Acquired
outcome r ip n =
    if leb r.max_sessions r.total
    then rejected global_limit
    else if leb r.per_ip n
    then rejected per_ip_limit
    else guard ip

module _ (r : Registry) (ip : IpAddr) (n : ℕ) (positive : 0 < r.per_ip)
    (word : r.max_sessions < 2 ^ 64) (entry : lookup ip r.per_ip_counts ≡ shown n) where
  -- On an address whose entry says `n` live guards, with a positive per-source cap and a global one
  -- below 2^64, `try_acquire` is refused by the global cap if it is reached, else by the per-source
  -- cap if `n` reaches it, and else returns a guard; a refusal leaves `total` as it was, and a
  -- guard adds one.
  pub try_acquire_lem :
      ((try_acquire r ip).1 ≡ outcome r ip n)
      × ((try_acquire r ip).0.total
          ≡ (if ltb r.total r.max_sessions && ltb n r.per_ip then r.total + 1 else r.total))
  unfolding try_acquire
  try_acquire_lem =
      let r' = record r { total = r.total + 1 } in
      ground (arith, enter-admits r' ip n positive entry, enter-total r' ip)

  -- Under the same conditions, with neither cap reached, a connection that is admitted and then
  -- dropped leaves the registry as it was: the same total and the same count for every address; and
  -- dropping it does not overflow.
  pub release-try_acquire :
      r.total < r.max_sessions
      → n < r.per_ip
      → (r' : Registry) × (release (try_acquire r ip).0 ip ≡ some r')
        × (r'.total ≡ r.total)
        × ((j : IpAddr) → lookup j r'.per_ip_counts ≡ lookup j r.per_ip_counts)
  unfolding try_acquire release
  release-try_acquire room fair =
      let r1 = record r { total = r.total + 1 } in
      let r2 = (enter r1 ip).0 in
      let got : lookup ip r2.per_ip_counts ≡ some (suc n) =
        ground (arith, lookup-enter r1 ip n positive entry ip, text_eq_iff ip ip) in
      let m = if n == 0 then remove ip r2.per_ip_counts else insert ip n r2.per_ip_counts in
      (
        free_slot (record r2 { per_ip_counts = m }),
        ground (arith, release_entry_lem r2 ip n got, enter-admits r1 ip n positive entry),
        omega (arith, enter-total r1 ip),
        λ j. ground (
          arith,
          lookup-enter r1 ip n positive entry j,
          lookup-insert ip j n r2.per_ip_counts,
          lookup-remove ip j r2.per_ip_counts,
          text_eq_iff ip j,
          entry,
        ),
      )
