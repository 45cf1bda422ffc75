-- ===== src/Scp/Command.antt =====
-- `parse_scp` of src/network/scp.rs, past the shell's tokenizer, whose tokens are the argument.
use mimic_ssh_honeypot.Prelude.{
  Bool, true, false, ◌||◌, Option, none, some, List, [], ◌∷◌, ◌==◌, if◌then◌else◌, Text, text_eq,
  codes, ◌≡◌, refl,
}

pub data ScpMode : Type 0 where
  receive : (target : Text) (recursive : Bool) → ScpMode
  send : (path : Text) → ScpMode

-- `rsplit(['/', '\\']).next()`, where `current` is what follows the last separator so far.
unfoldable pub after_separator : (current s : Text) → Text
after_separator current [] = current
after_separator current (b ∷ s) =
    let cut = after_separator s s in
    let kept = after_separator current s in if b == 47 || b == 92 then cut else kept

pub record Flags : Type 0 where
  pub sink : Bool
  pub source : Bool
  pub recursive : Bool
  pub path : Option Text

unfoldable pub read_flags : Flags → Text → Flags
read_flags f [] = f
read_flags f (ch ∷ flags) =
    if ch == 116
    then read_flags (record f { sink = true }) flags
    else if ch == 102
    then read_flags (record f { source = true }) flags
    else if ch == 114
    then read_flags (record f { recursive = true }) flags
    else read_flags f flags

abbrev read_token : Flags → Text → Flags
read_token f [] = record f { path = some [] }
read_token f (b ∷ tok) =
    if text_eq (b ∷ tok) (codes "--")
    then f
    else if b == 45
    then read_flags f tok
    else record f { path = some (b ∷ tok) }

unfoldable pub read_tokens : Flags → List Text → Flags
unfolding read_flags
read_tokens f [] = f
read_tokens f (tok ∷ argv) = read_tokens (read_token f tok) argv

abbrev mode_of : Flags → Option Text → Option ScpMode
mode_of f none = none
mode_of f (some path) =
    if f.sink then some (receive path f.recursive) else if f.source then some (send path) else none

unfoldable pub parse_scp : List Text → Option ScpMode
unfolding after_separator read_tokens
parse_scp [] = none
parse_scp (first ∷ argv) =
    let f =
      read_tokens (record { sink = false; source = false; recursive = false; path = none }) argv in
    if text_eq (after_separator first first) (codes "scp") then mode_of f f.path else none

upload_mode :
    parse_scp (codes "/usr/bin/scp" ∷ codes "-r" ∷ codes "-t" ∷ codes "--" ∷ codes "/tmp" ∷ [])
    ≡ some (receive (codes "/tmp") true)
unfolding parse_scp text_eq
upload_mode = refl
