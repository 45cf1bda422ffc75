-- ===== src/Env.antt =====
-- The shell's environment variables, src/shell/env.rs. Names and values are lists of characters.
pub mod Caps
mod Tests
use mimic_ssh_honeypot.Prelude.{
  ℕ, Bool, true, false, not, ◌&&◌, Option, none, some, List, [], ◌∷◌, ◌++◌, length, take, leb,
  if◌then◌else◌, Text, codes,
}
use mimic_ssh_honeypot.Prelude.Map.{Map, lookup, insert, remove, contains_key}

pub record Env : Type 0 where
  pub vars : Map Text

abbrev pub max_env_vars : ℕ
max_env_vars = 256

abbrev pub max_env_value_len : ℕ
max_env_value_len = 4096

-- `vars.insert` in a row.
unfoldable pub insert_all : List (Text × Text) → Map Text → Map Text
insert_all [] vars = vars
insert_all ((key, value) ∷ rest) vars = insert_all rest (insert key value vars)

unfoldable pub login : (user home hostname : Text) → Env
unfolding insert_all
login user home hostname = record {
  vars =
      insert_all
        ((codes "USER", user)
          ∷ (codes "LOGNAME", user)
          ∷ (codes "HOME", home)
          ∷ (codes "PWD", home)
          ∷ (codes "SHELL", codes "/bin/bash")
          ∷ (
            codes "PATH",
            codes
                "/usr/local/sbin:/usr/local/bin:/usr/sbin:/usr/bin:/sbin:/bin:/usr/games:/usr/local/games",
          )
          ∷ (codes "TERM", codes "xterm-256color")
          ∷ (codes "LANG", codes "en_US.UTF-8")
          ∷ (codes "MAIL", codes "/var/mail/" ++ user)
          ∷ (codes "HOSTNAME", hostname)
          ∷ (codes "SHLVL", codes "1")
          ∷ (codes "_", codes "/usr/bin/bash")
          ∷ [])
        [];
}

unfoldable pub get : Env → Text → Option Text
get env key = lookup key env.vars

unfoldable pub set : Env → (key value : Text) → Env
set env key value =
    if not (contains_key key env.vars) && leb max_env_vars (length env.vars)
    then env
    else record { vars = insert key (take max_env_value_len value) env.vars }

abbrev is_some : Option Text → Bool
is_some none = false
is_some (some value) = true

unfoldable pub unset : Env → Text → Env × Bool
unset env key = (record { vars = remove key env.vars }, is_some (lookup key env.vars))
