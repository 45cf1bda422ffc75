-- ===== src/Scp/Lines.antt =====
-- The control lines of src/network/scp.rs among the bytes that the sink was fed.
use mathlib.Core.List.{append_assoc, append-nil}
use mimic_ssh_honeypot.Prelude.{
  ℕ, ◌≡◌, ◌≢◌, some, List, [], ◌∷◌, ◌++◌, ◌==◌, if◌then◌else◌, Text, refl, All, ap, sym, ◌∙◌,
  Bool-cases, inl, inr,
}
use mimic_ssh_honeypot.Prelude.Utf8.{from_utf8_lossy}
use mimic_ssh_honeypot.Scp.{parse_cd}

-- The bytes of a line but for its carriage returns, which the sink drops.
abbrev pub without_returns : List ℕ → List ℕ
without_returns [] = []
without_returns (b ∷ line) = let rest = without_returns line in if b == 13 then rest else b ∷ rest

-- No newline in a run of bytes.
abbrev pub OneLine : List ℕ → Type 0
OneLine line = All (λ b. b ≢ 10) line

-- The bytes fed end in `after`, right before which a newline ends a `C` line that parses to the mode,
-- the size and the name.
pub record Begun (fed : List ℕ) (mode size : ℕ) (name : Text) (after : List ℕ) : Type 0 where
  pub before : List ℕ
  pub line : List ℕ
  pub one_line : OneLine line
  pub fed_whole : before ++ (line ++ (10 ∷ after)) ≡ fed
  pub rest : Text
  pub is_c : from_utf8_lossy (without_returns line) ≡ 67 ∷ rest
  pub parsed : parse_cd (67 ∷ rest) ≡ some (mode, size, name)

-- The bytes fed end in a line without a newline, of which `buf` is what the sink keeps.
pub record Pending (fed : List ℕ) (buf : List ℕ) : Type 0 where
  pub before : List ℕ
  pub line : List ℕ
  pub one_line : OneLine line
  pub fed_whole : before ++ line ≡ fed
  pub kept : without_returns line ≡ buf

pub Begun-more :
    (fed : List ℕ) (mode size : ℕ) (name : Text) (after more : List ℕ)
    → Begun fed mode size name after
    → Begun (fed ++ more) mode size name (after ++ more)
Begun-more fed mode size name after more p = record {
  before = p.before;
  line = p.line;
  one_line = p.one_line;
  fed_whole =
      ap (λ l. p.before ++ l) (sym (append_assoc p.line (10 ∷ after) more))
      ∙ sym (append_assoc p.before (p.line ++ (10 ∷ after)) more)
      ∙ ap (λ l. l ++ more) p.fed_whole;
  rest = p.rest;
  is_c = p.is_c;
  parsed = p.parsed;
}

-- Nothing is pending after the bytes of a file, or a line that was given up.
pub Pending-nil : (fed : List ℕ) → Pending fed []
Pending-nil fed = record {
  before = fed;
  line = [];
  one_line = tt;
  fed_whole = append-nil fed;
  kept = refl;
}

OneLine-snoc : (line : List ℕ) (b : ℕ) → OneLine line → b ≢ 10 → OneLine (line ++ (b ∷ []))
OneLine-snoc [] b a p = (p, tt)
OneLine-snoc (c ∷ line) b a p = (a.0, OneLine-snoc line b a.1 p)

without_returns-append :
    (xs ys : List ℕ) → without_returns (xs ++ ys) ≡ without_returns xs ++ without_returns ys
without_returns-append [] ys = refl
without_returns-append (b ∷ xs) ys = elim (Bool-cases (b == 13)) [
  | inl return ↦ rw return (without_returns-append xs ys)
  | inr byte ↦ rw byte (ap (λ l. b ∷ l) (without_returns-append xs ys))
]

-- A byte of the line: it is dropped, or kept.
pub Pending-snoc :
    (fed buf : List ℕ) (b : ℕ)
    → b ≢ 10
    → Pending fed buf
    → Pending (fed ++ (b ∷ [])) (buf ++ without_returns (b ∷ []))
Pending-snoc fed buf b inside p = record {
  before = p.before;
  line = p.line ++ (b ∷ []);
  one_line = OneLine-snoc p.line b p.one_line inside;
  fed_whole = sym (append_assoc p.before p.line (b ∷ [])) ∙ ap (λ l. l ++ (b ∷ [])) p.fed_whole;
  kept = without_returns-append p.line (b ∷ []) ∙ ap (λ l. l ++ without_returns (b ∷ [])) p.kept;
}

-- The newline after a pending `C` line.
pub Begun-newline :
    (fed buf : List ℕ) (mode size : ℕ) (name rest : Text)
    → Pending fed buf
    → from_utf8_lossy buf ≡ 67 ∷ rest
    → parse_cd (67 ∷ rest) ≡ some (mode, size, name)
    → Begun (fed ++ (10 ∷ [])) mode size name []
Begun-newline fed buf mode size name rest p is_c parsed = record {
  before = p.before;
  line = p.line;
  one_line = p.one_line;
  fed_whole = sym (append_assoc p.before p.line (10 ∷ [])) ∙ ap (λ l. l ++ (10 ∷ [])) p.fed_whole;
  rest = rest;
  is_c = ap from_utf8_lossy p.kept ∙ is_c;
  parsed = parsed;
}
