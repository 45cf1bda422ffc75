-- ===== src/Env/Caps.antt =====
-- What setting a variable does to src/shell/env.rs.
use mimic_ssh_honeypot.Env.{Env}
