-- ===== src/Parser.antt =====
-- The shell's lexer, src/shell/parser.rs: the quoting rules that its loops share and the loop itself.
-- A line is its bytes. Each loop of the source steps over a line in the same way: an escaped byte, a
-- substitution, and a quote or backslash are passed over, and any other byte is looked at. `scan` is
-- that loop and `Handlers` what a loop does of its own.
pub mod Substitution
pub mod Scan
pub mod Segments
pub mod Redirects
pub mod Words
pub mod Bounds
mod Tests
use mimic_ssh_honeypot.Prelude.{
  ℕ, ◌+◌, ◌-◌, Bool, true, false, not, ◌&&◌, Option, none, some, List, length, take, drop, leb,
  ◌==◌, if◌then◌else◌, Text,
}
use mimic_ssh_honeypot.Prelude.Outcome.{Outcome, done, panic}

pub record Quotes : Type 0 where
  pub in_single : Bool
  pub in_double : Bool
  pub escaped : Bool

abbrev pub unquoted : Quotes
unquoted = record { in_single = false; in_double = false; escaped = false }

-- `!in_single && !in_double`
abbrev pub bare : Quotes → Bool
bare q = not q.in_single && not q.in_double

-- The arms for a backslash and the two quotes; `none` is any other arm.
unfoldable pub quote_step : ℕ → Quotes → Option Quotes
quote_step c q =
    if c == b'\\' && not q.in_single
    then some (record q { escaped = true })
    else if c == b'\'' && not q.in_double
    then some (record q { in_single = not q.in_single })
    else if c == b'"' && not q.in_single
    then some (record q { in_double = not q.in_double })
    else none

-- `&line[a..b]`
abbrev pub slice : Text → ℕ → ℕ → Outcome Text
slice line a b = if leb a b && leb b (length line) then done (take (b - a) (drop a line)) else panic
