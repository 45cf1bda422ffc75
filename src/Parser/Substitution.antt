-- ===== src/Parser/Substitution.antt =====
-- `substitution_at` of src/shell/parser.rs.
use mimic_ssh_honeypot.Prelude.{
  ℕ, ◌+◌, ◌-◌, Bool, true, false, ◌&&◌, Option, none, some, List, [], ◌∷◌, drop, get_elem?, ◌==◌,
  if◌then◌else◌, Text,
}
use mimic_ssh_honeypot.Prelude.Outcome.{Outcome, done, ◌>>=◌, checked_sub}
use mimic_ssh_honeypot.Parser.{Quotes, unquoted, bare, quote_step}

pub record Substitution : Type 0 where
  pub end : ℕ
  pub body : ℕ × ℕ
  pub arithmetic : Bool

-- The scan for the closing backtick from index `j` on, and whether a backslash stands before it.
unfoldable pub find_backtick : List ℕ → ℕ → Bool → Option ℕ
find_backtick [] j skip = none
find_backtick (b ∷ rest) j true = find_backtick rest (j + 1) false
find_backtick (b ∷ rest) j false =
    let escaped = find_backtick rest (j + 1) true in
    let later = find_backtick rest (j + 1) false in
    if b == b'\\' then escaped else if b == b'`' then some j else later

pub data Paren : Type 0 where
  opened closed other : Paren

unfoldable pub paren : ℕ → Quotes → Paren
paren b q = if b == b'(' && bare q then opened else if b == b')' && bare q then closed else other

-- The scan for the closing parenthesis from index `j` on.
unfoldable pub find_close : List ℕ → ℕ → ℕ → Quotes → Outcome (Option ℕ)
find_close [] j depth q = done none
find_close (b ∷ rest) j depth q = elim q.escaped [
  | true ↦ find_close rest (j + 1) depth (record q { escaped = false })
  | false ↦ elim (quote_step b q) [
    | some q' ↦ find_close rest (j + 1) depth q'
    | none ↦ elim (paren b q) [
      | opened ↦ find_close rest (j + 1) (depth + 1) q
      | closed ↦ do
        left ← checked_sub depth 1
        elim (left == 0) [ true ↦ done (some j) | false ↦ find_close rest (j + 1) left q ]
      | other ↦ find_close rest (j + 1) depth q
    ]
  ]
]

abbrev pub is_at : Text → ℕ → ℕ → Bool
is_at line i b = elim (get_elem? line i) [ none ↦ false | some c ↦ c == b ]

abbrev pub backtick_region : ℕ → Option ℕ → Option Substitution
backtick_region i none = none
backtick_region i (some j) = some (record { end = j + 1; body = (i + 1, j); arithmetic = false })

abbrev pub paren_region : ℕ → Bool → Option ℕ → Option Substitution
paren_region i arithmetic none = none
paren_region i arithmetic (some j) = some (record {
  end = j + 1;
  body = if arithmetic then (i + 3, j - 1) else (i + 2, j);
  arithmetic = arithmetic;
})

unfoldable pub substitution_at : Text → ℕ → Outcome (Option Substitution)
unfolding find_backtick find_close
substitution_at line i =
    if is_at line i b'`'
    then done (backtick_region i (find_backtick (drop (i + 1) line) (i + 1) false))
    else if is_at line i b'$' && is_at line (i + 1) b'('
    then (do
      close ← find_close (drop (i + 1) line) (i + 1) 0 unquoted
      done (paren_region i (is_at line (i + 2) b'(') close))
    else done none
