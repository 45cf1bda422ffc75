-- ===== src/Parser/Scan.antt =====
-- The loop over a line that the splitters of src/shell/parser.rs share.
use mimic_ssh_honeypot.Prelude.{
  ℕ, zero, suc, ◌+◌, ◌-◌, true, false, Option, none, some, List, [], ◌∷◌, drop, Text,
}
use mimic_ssh_honeypot.Prelude.Outcome.{Outcome, done, ◌>>=◌}
use mimic_ssh_honeypot.Parser.{Quotes, unquoted, quote_step}
use mimic_ssh_honeypot.Parser.Substitution.{Substitution, substitution_at}

-- How the shared arms take a byte: it was escaped, a substitution starts there, it changes the
-- quotes, or the loop has to look at it.
pub data Lexed : Type 0 where
  escape_over look : Lexed
  jump : ℕ → Lexed
  quoting : Quotes → Lexed

abbrev pub region_or_byte : ℕ → Quotes → Option Substitution → Lexed
region_or_byte c q (some s) = jump s.end
region_or_byte c q none = elim (quote_step c q) [ some q' ↦ quoting q' | none ↦ look ]

unfoldable pub lex : Text → ℕ → ℕ → Quotes → Outcome Lexed
unfolding substitution_at quote_step
lex line i c q = elim q.escaped [
  | true ↦ done escape_over
  | false ↦ elim q.in_single [
    | true ↦ done (region_or_byte c q none)
    | false ↦ do s ← substitution_at line i; done (region_or_byte c q s)
  ]
]

-- What a loop does with a byte that it looks at: it returns, or it goes on past that byte and `skip`
-- further ones.
pub data Next (S R : Type 0) : Type 0 where
  stop : R → Next S R
  next : S → (skip : ℕ) → Next S R

pub record Handlers (S R : Type 0) : Type 0 where
  pub passed : S → S
  pub jumped : S → S
  pub quoted : S → S
  pub looked : S → ℕ → ℕ → Quotes → Outcome (Next S R)
  pub finish : S → ℕ → Outcome R

-- The loop at index `i`, with the bytes from there on, of which `skip` are to be stepped over.
unfoldable pub scan_from :
    {S R : Type 0} → Handlers S R → Text → List ℕ → ℕ → ℕ → Quotes → S → Outcome R
scan_from h line [] i skip q s = h.finish s i
scan_from h line (c ∷ rest) i (suc skip) q s = scan_from h line rest (i + 1) skip q s
scan_from h line (c ∷ rest) i zero q s = do
  l ← lex line i c q
  elim l [
    | escape_over ↦ scan_from h line rest (i + 1) 0 (record q { escaped = false }) (h.passed s)
    | jump end ↦ scan_from h line rest (i + 1) (end - i - 1) q (h.jumped s)
    | quoting q' ↦ scan_from h line rest (i + 1) 0 q' (h.quoted s)
    | look ↦ do
      n ← h.looked s i c q
      elim n [ stop r ↦ done r | next s' skip ↦ scan_from h line rest (i + 1) skip q s' ]
  ]

-- The loop from index `start` on.
unfoldable pub scan : {S R : Type 0} → Handlers S R → Text → ℕ → S → Outcome R
unfolding scan_from lex
scan h line start s = scan_from h line (drop start line) start 0 unquoted s
