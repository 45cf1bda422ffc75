-- ===== src/Limiter/Interleaving.antt =====
-- The registry shared by many tasks, at the grain of its atomic operations. Each connection that
-- holds a slot of `total` is a task; a refused connection holds its slot until its `fetch_sub`,
-- and so does a dropped guard. A connection turned away by the global cap changes nothing.
use mimic_ssh_honeypot.Prelude.{
  ℕ, ◌+◌, ◌≡◌, Bool, true, false, some, List, [], ◌∷◌, ◌++◌, if◌then◌else◌, text_eq,
}
use mimic_ssh_honeypot.Limiter.{IpAddr, Registry, new, reserve, enter, release_entry, free_slot}

pub data Task : Type 0 where
  reserved holding : IpAddr → Task
  leaving : Task

pub record System : Type 0 where
  pub registry : Registry
  pub tasks : List Task

unfoldable pub start : ℕ → ℕ → System
unfolding new
start max_sessions per_ip = record { registry = new max_sessions per_ip; tasks = [] }

-- What a task becomes when it leaves the locked part of `try_acquire`.
abbrev pub entered : IpAddr → Bool → Task
entered ip true = holding ip
entered ip false = leaving

pub data Step : System → System → Type 0 where
  arrive :
      {s : System} {r : Registry} (ip : IpAddr)
      → reserve s.registry ≡ some r
      → Step s (record { registry = r; tasks = reserved ip ∷ s.tasks })
  check_in :
      {s : System} (before after : List Task) (ip : IpAddr)
      → s.tasks ≡ before ++ (reserved ip ∷ after)
      → Step s (record {
        registry = (enter s.registry ip).0;
        tasks = before ++ (entered ip (enter s.registry ip).1 ∷ after);
      })
  drop_guard :
      {s : System} {r : Registry} (before after : List Task) (ip : IpAddr)
      → s.tasks ≡ before ++ (holding ip ∷ after)
      → release_entry s.registry ip ≡ some r
      → Step s (record { registry = r; tasks = before ++ (leaving ∷ after) })
  leave :
      {s : System} (before after : List Task)
      → s.tasks ≡ before ++ (leaving ∷ after)
      → Step s (record { registry = free_slot s.registry; tasks = before ++ after })

pub data Reach (s : System) : System → Type 0 where
  here : Reach s s
  next : {t u : System} → Reach s t → Step t u → Reach s u

-- How many guards of `ip` are alive.
unfoldable pub holders : IpAddr → List Task → ℕ
holders ip [] = 0
holders ip (holding j ∷ ts) = (if text_eq j ip then 1 else 0) + holders ip ts
holders ip (t ∷ ts) = holders ip ts
