-- ===== src/Limiter/Invariant.antt =====
-- What every interleaving keeps.
use mimic_ssh_honeypot.Prelude.{
  ℕ, suc, ◌+◌, ◌^◌, ◌≤◌, ◌<◌, ◌≡◌, refl, ◌∙◌, sym, Option, none, some, List, [], ◌∷◌, ◌++◌, ◌==◌,
  ltb, ◌&&◌, if◌then◌else◌, text_eq, text_eq_iff, length, length-append, arith,
}
use mimic_ssh_honeypot.Prelude.Map.{
  lookup, insert, remove, lookup-insert, lookup-remove, contains_key-lookup,
}
use mimic_ssh_honeypot.Limiter.{
  IpAddr, Registry, reserve, enter, or_insert, count_of, release_entry, free_slot, decrement,
}
use mimic_ssh_honeypot.Limiter.Interleaving.{
  Task, reserved, holding, leaving, System, start, entered, Step, arrive, check_in, drop_guard,
  leave, Reach, here, next, holders,
}

-- The count that the map shows for an address with `n` guards: no entry for none.
abbrev pub shown : ℕ → Option ℕ
shown n = if n == 0 then none else some n

pub record Inv (max_sessions per_ip : ℕ) (s : System) : Type 0 where
  pub sessions_cap : s.registry.max_sessions ≡ max_sessions
  pub ip_cap : s.registry.per_ip ≡ per_ip
  pub counted : s.registry.total ≡ length s.tasks
  pub within : length s.tasks ≤ max_sessions
  pub entries : (ip : IpAddr) → lookup ip s.registry.per_ip_counts ≡ shown (holders ip s.tasks)
  pub fair : (ip : IpAddr) → holders ip s.tasks ≤ per_ip

pub holders-append :
    (ip : IpAddr) (xs ys : List Task) → holders ip (xs ++ ys) ≡ holders ip xs + holders ip ys
unfolding holders
holders-append ip [] ys = omega arith
holders-append ip (holding j ∷ xs) ys = omega (arith, holders-append ip xs ys)
holders-append ip (reserved j ∷ xs) ys = holders-append ip xs ys
holders-append ip (leaving ∷ xs) ys = holders-append ip xs ys

-- The locked part of `try_acquire`, seen from the counts.
module _ (r : Registry) (ip : IpAddr) (n : ℕ) (positive : 0 < r.per_ip)
    (entry : lookup ip r.per_ip_counts ≡ shown n) where
  count-or_insert : count_of ip (or_insert ip r.per_ip_counts) ≡ n
  unfolding count_of or_insert
  count-or_insert = ground (
    arith,
    contains_key-lookup ip r.per_ip_counts,
    lookup-insert ip ip 0 r.per_ip_counts,
    text_eq_iff ip ip,
  )

  lookup-or_insert :
      (j : IpAddr)
      → lookup j (or_insert ip r.per_ip_counts)
        ≡ (if n == 0 && text_eq ip j then some 0 else lookup j r.per_ip_counts)
  unfolding or_insert
  lookup-or_insert j =
      ground (arith, contains_key-lookup ip r.per_ip_counts, lookup-insert ip j 0 r.per_ip_counts)

  pub enter-admits : (enter r ip).1 ≡ ltb n r.per_ip
  unfolding enter
  enter-admits = ground (arith, count-or_insert)

  pub lookup-enter :
      (j : IpAddr)
      → lookup j (enter r ip).0.per_ip_counts
        ≡ (if ltb n r.per_ip && text_eq ip j then some (n + 1) else lookup j r.per_ip_counts)
  unfolding enter
  lookup-enter j = ground (
    arith,
    count-or_insert,
    lookup-or_insert j,
    text_eq_iff ip j,
    lookup-insert ip j (n + 1) (or_insert ip r.per_ip_counts),
  )

pub enter-total : (r : Registry) (ip : IpAddr) → (enter r ip).0.total ≡ r.total
unfolding enter
enter-total r ip = ground arith

pub enter-max_sessions : (r : Registry) (ip : IpAddr) → (enter r ip).0.max_sessions ≡ r.max_sessions
unfolding enter
enter-max_sessions r ip = ground arith

pub enter-per_ip : (r : Registry) (ip : IpAddr) → (enter r ip).0.per_ip ≡ r.per_ip
unfolding enter
enter-per_ip r ip = ground arith

-- The locked part of `release` of an address with `n + 1` guards does not overflow.
pub release_entry_lem :
    (r : Registry) (ip : IpAddr) (n : ℕ)
    → lookup ip r.per_ip_counts ≡ some (suc n)
    → release_entry r ip
      ≡ some (record r {
        per_ip_counts = if n == 0 then remove ip r.per_ip_counts else insert ip n r.per_ip_counts;
      })
unfolding release_entry
release_entry_lem r ip n e = rw (e, release_entry, decrement)

module _ (max_sessions per_ip : ℕ) where
  Inv-arrive :
      {s : System} {r : Registry} (ip : IpAddr)
      → Inv max_sessions per_ip s
      → reserve s.registry ≡ some r
      → Inv max_sessions per_ip (record { registry = r; tasks = reserved ip ∷ s.tasks })
  unfolding reserve holders
  Inv-arrive {s} {r} ip h e = record {
    sessions_cap = ground arith;
    ip_cap = ground arith;
    counted = ground arith;
    within = ground arith;
    entries = λ j. ground (arith, h.entries j);
    fair = h.fair;
  }

  Inv-check_in :
      {s : System} (before after : List Task) (ip : IpAddr)
      → 0 < per_ip
      → Inv max_sessions per_ip s
      → s.tasks ≡ before ++ (reserved ip ∷ after)
      → Inv max_sessions per_ip (record {
        registry = (enter s.registry ip).0;
        tasks = before ++ (entered ip (enter s.registry ip).1 ∷ after);
      })
  unfolding holders
  Inv-check_in {s} before after ip pos h e =
      let same : (j : IpAddr) → holders j s.tasks ≡ holders j before + holders j after =
        λ j. rw e (holders-append j before (reserved ip ∷ after)) in
      let t = entered ip (enter s.registry ip).1 in
      let now : (j : IpAddr)
          → holders j (before ++ (t ∷ after)) ≡ holders j before + holders j (t ∷ after) =
        λ j. holders-append j before (t ∷ after) in
      let p : 0 < s.registry.per_ip = rw h.ip_cap pos in
      let size : length (before ++ (t ∷ after)) ≡ length s.tasks = rw e (
        omega (
          arith,
          length-append {0} before (t ∷ after),
          length-append {0} before (reserved ip ∷ after),
        )) in
      let admits = enter-admits s.registry ip (holders ip s.tasks) p (h.entries ip) in
      record {
        sessions_cap = enter-max_sessions s.registry ip ∙ h.sessions_cap;
        ip_cap = enter-per_ip s.registry ip ∙ h.ip_cap;
        counted = enter-total s.registry ip ∙ h.counted ∙ sym size;
        within = rw size h.within;
        entries = λ j. ground (
          arith,
          lookup-enter s.registry ip (holders ip s.tasks) p (h.entries ip) j,
          admits,
          now j,
          same j,
          h.entries j,
          text_eq_iff ip j,
        );
        fair = λ j. ground (arith, admits, now j, same j, h.fair j, h.ip_cap, text_eq_iff ip j);
      }

  Inv-drop_guard :
      {s : System} {r : Registry} (before after : List Task) (ip : IpAddr)
      → Inv max_sessions per_ip s
      → s.tasks ≡ before ++ (holding ip ∷ after)
      → release_entry s.registry ip ≡ some r
      → Inv max_sessions per_ip (record { registry = r; tasks = before ++ (leaving ∷ after) })
  unfolding holders
  Inv-drop_guard {s} {r} before after ip h e d =
      let same : (j : IpAddr)
          → holders j s.tasks
            ≡ holders j before + ((if text_eq ip j then 1 else 0) + holders j after) =
        λ j. rw e (holders-append j before (holding ip ∷ after)) in
      let now : (j : IpAddr)
          → holders j (before ++ (leaving ∷ after)) ≡ holders j before + holders j after =
        λ j. holders-append j before (leaving ∷ after) in
      let size : length (before ++ (leaving ∷ after)) ≡ length s.tasks = rw e (
        omega (
          arith,
          length-append {0} before (leaving ∷ after),
          length-append {0} before (holding ip ∷ after),
        )) in
      let n = holders ip before + holders ip after in
      let held : holders ip s.tasks ≡ suc n = ground (arith, same ip, text_eq_iff ip ip) in
      let found : lookup ip s.registry.per_ip_counts ≡ some (suc n) =
        ground (arith, h.entries ip, held) in
      let done = sym d ∙ release_entry_lem s.registry ip n found in
      record {
        sessions_cap = ground (arith, h.sessions_cap);
        ip_cap = ground (arith, h.ip_cap);
        counted = ground (arith, h.counted, size);
        within = rw size h.within;
        entries = λ j. ground (
          arith,
          now j,
          same j,
          h.entries j,
          text_eq_iff ip j,
          lookup-insert ip j n s.registry.per_ip_counts,
          lookup-remove ip j s.registry.per_ip_counts,
        );
        fair = λ j. ground (arith, now j, same j, h.fair j);
      }

  Inv-leave :
      {s : System} (before after : List Task)
      → max_sessions < 2 ^ 64
      → Inv max_sessions per_ip s
      → s.tasks ≡ before ++ (leaving ∷ after)
      → Inv max_sessions per_ip
          (record { registry = free_slot s.registry; tasks = before ++ after })
  unfolding holders free_slot
  Inv-leave {s} before after bound h e =
      let size : length s.tasks ≡ suc (length (before ++ after)) = rw e (
        omega
          (arith, length-append {0} before after, length-append {0} before (leaving ∷ after))) in
      let same : (j : IpAddr) → holders j (before ++ after) ≡ holders j s.tasks = λ j.
        rw e (holders-append j before after ∙ sym (holders-append j before (leaving ∷ after))) in
      record {
        sessions_cap = h.sessions_cap;
        ip_cap = h.ip_cap;
        counted = omega (arith, h.counted, size, h.within);
        within = omega (arith, h.within, size);
        entries = λ j. rw same (h.entries j);
        fair = λ j. rw same (h.fair j);
      }

  Inv-Step :
      {s t : System}
      → 0 < per_ip
      → max_sessions < 2 ^ 64
      → Inv max_sessions per_ip s
      → Step s t
      → Inv max_sessions per_ip t
  Inv-Step pos bound h (arrive ip e) = Inv-arrive ip h e
  Inv-Step pos bound h (check_in before after ip e) = Inv-check_in before after ip pos h e
  Inv-Step pos bound h (drop_guard before after ip e d) = Inv-drop_guard before after ip h e d
  Inv-Step pos bound h (leave before after e) = Inv-leave before after bound h e

  Inv-start : Inv max_sessions per_ip (start max_sessions per_ip)
  unfolding start holders lookup
  Inv-start = record {
    sessions_cap = refl;
    ip_cap = refl;
    counted = refl;
    within = omega arith;
    entries = λ j. refl;
    fair = λ j. omega arith;
  }

  pub Inv-Reach :
      {t : System}
      → 0 < per_ip
      → max_sessions < 2 ^ 64
      → Reach (start max_sessions per_ip) t
      → Inv max_sessions per_ip t
  Inv-Reach pos bound here = Inv-start
  Inv-Reach pos bound (next r st) = Inv-Step pos bound (Inv-Reach pos bound r) st
