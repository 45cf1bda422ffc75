-- ===== src/Parser/Redirects/Targets.antt =====
-- What a redirection of src/shell/parser.rs may name.
use mimic_ssh_honeypot.Prelude.{
  ℕ, ◌+◌, ◌-◌, ◌≤◌, ◌<◌, ◌≡◌, Bool, false, not, ◌&&◌, List, [], ◌∷◌, ◌++◌, length, drop, take,
  arith, refl, Bool-cases, inl, inr, ◌⊎◌, Text, codes, text_eq, lt_of_get_elem?, ◌==◌,
  is_ascii_whitespace, is_ascii_digit, length-take, length-drop,
}
use mimic_ssh_honeypot.Prelude.Outcome.{done}
use mimic_ssh_honeypot.Parser.Substitution.{is_at}
use mimic_ssh_honeypot.Parser.Redirects.{
  Target, file, dup, Redirect, Aim, at, bad, read_target, dup_target, skip_while,
}
use mimic_ssh_honeypot.Parser.Redirects.Words.{word_end-within, skip_while_within}
use mimic_ssh_honeypot.Parser.Bounds.Lists.{slice_done, is_at_get}

abbrev pub no_target : Text
no_target = codes "-bash: syntax error near unexpected token `newline'" ++ (10 ∷ [])

abbrev pub bad_descriptor : Text → Text
bad_descriptor fd = codes "-bash: " ++ (fd ++ (codes ": Bad file descriptor" ++ (10 ∷ [])))

-- The two error texts.
abbrev pub Message : Text → Type 0
Message m = (m ≡ no_target) ⊎ ((fd : Text) × (m ≡ bad_descriptor fd))

abbrev pub path_length : Target → ℕ
path_length (file path append) = length path
path_length (dup s) = 0

-- The bytes that the target paths take.
abbrev pub paths_length : List Redirect → ℕ
paths_length [] = 0
paths_length (r ∷ redirects) = path_length r.target + paths_length redirects

pub paths_length-append :
    (redirects : List Redirect) (r : Redirect)
    → paths_length (redirects ++ (r ∷ [])) ≡ paths_length redirects + path_length r.target
paths_length-append [] r = omega arith
paths_length-append (x ∷ redirects) r = omega (arith, paths_length-append redirects r)

abbrev pub Aimed : Text → ℕ → Aim → Type 0
Aimed stage j (at target e) = (j < e) × (e ≤ length stage) × (j + path_length target ≤ e)
Aimed stage j (bad m) = Message m

dup_target-Aimed :
    (stage fd : Text) (j k : ℕ) → j < k → k ≤ length stage → Aimed stage j (dup_target fd k)
dup_target-Aimed stage fd j k less le = elim (Bool-cases (text_eq fd (codes "1"))) [
  | inl one ↦ rw one (less, le, omega (arith, less))
  | inr other1 ↦ elim (Bool-cases (text_eq fd (codes "2"))) [
    | inl two ↦ rw (other1, two) (less, le, omega (arith, less))
    | inr other2 ↦ rw (other1, other2) (inr (fd, refl))
  ]
]

read_path :
    (stage : Text) (j : ℕ) (append : Bool)
    → j ≤ length stage
    → (not append && is_at stage j b'&') ≡ false
    → (aim : Aim) × (read_target stage j append ≡ done aim) × Aimed stage j aim
unfolding read_target
read_path stage j append le path =
    let k = skip_while is_ascii_whitespace (drop j stage) j in
    let (from, to) = skip_while_within is_ascii_whitespace stage j le in
    let (e, ends, start, within) = word_end-within stage k to in
    elim (Bool-cases (e == k)) [
      | inl empty ↦ (bad no_target, rw (path, ends, empty) refl, inl refl)
      | inr word ↦ (
        at (file (take (e - k) (drop k stage)) append) e,
        rw (path, ends, word, slice_done stage k e start within) refl,
        (
          ground (arith, word, from, start),
          within,
          omega
              (arith, from, start, within, length-take (e - k) (drop k stage), length-drop k stage),
        ),
      )
    ]

pub read_target-Aimed :
    (stage : Text) (j : ℕ) (append : Bool)
    → j ≤ length stage
    → (aim : Aim) × (read_target stage j append ≡ done aim) × Aimed stage j aim
unfolding read_target
read_target-Aimed stage j append le = elim (Bool-cases (not append && is_at stage j b'&')) [
  | inr path ↦ read_path stage j append le path
  | inl amp ↦
      let less = lt_of_get_elem? stage j (is_at_get stage j b'&' (ground (arith, amp))) in
      let k = skip_while is_ascii_digit (drop (j + 1) stage) (j + 1) in
      let (from, to) = skip_while_within is_ascii_digit stage (j + 1) (omega (arith, less)) in
      let fd = take (k - (j + 1)) (drop (j + 1) stage) in
      (
        dup_target fd k,
        rw (amp, slice_done stage (j + 1) k from to) refl,
        dup_target-Aimed stage fd j k (omega (arith, from)) to,
      )
]
