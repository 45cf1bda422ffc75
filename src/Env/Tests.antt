-- ===== src/Env/Tests.antt =====
-- A short environment, and the theorem at it.
use mimic_ssh_honeypot.Prelude.{[], ◌∷◌, codes}
use mimic_ssh_honeypot.Env.{Env}

abbrev env : Env
env = record { vars = (codes "A", codes "1") ∷ [] }
