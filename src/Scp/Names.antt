-- ===== src/Scp/Names.antt =====
-- The names that src/network/scp.rs takes from control lines are sanitised.
use mimic_ssh_honeypot.Prelude.{
  ℕ, ◌≡◌, ◌≢◌, false, none, some, [], ◌∷◌, ◌==◌, ◌&&◌, ◌||◌, is_empty, codes, Text, arith, refl,
  Bool-cases, Option-cases, inl, inr, ◌^◌, subst, All,
}
use mimic_ssh_honeypot.Prelude.Utf8.{trim, between}
use mimic_ssh_honeypot.Scp.{
  CdLine, split_space, after_first, from_str_radix, is_control, drop_controls, flatten_separators,
  collapse_dots, sanitised, read_fields, parse_cd,
}

-- A byte that a name may hold: no control character of one byte, no `/` and no `\`.
abbrev pub IsPlain : ℕ → Type 0
IsPlain b = (is_control b ≡ false) × (b ≢ 47) × (b ≢ 92)

-- No two dots stand next to each other.
abbrev pub NoDots : Text → Type 0
NoDots [] = Unit
NoDots (a ∷ []) = Unit
NoDots (a ∷ b ∷ s) = (a == 46 && b == 46 ≡ false) × NoDots (b ∷ s)

pub record IsSafeName (name : Text) : Type 0 where
  pub nonempty : is_empty name ≡ false
  pub plain : All IsPlain name
  pub no_dots : NoDots name

drop_controls-plain : (s : Text) → All (λ b. is_control b ≡ false) (drop_controls s)
unfolding drop_controls
drop_controls-plain [] = tt
drop_controls-plain (a ∷ []) = elim (Bool-cases (is_control a)) [
  | inl yes' ↦ rw yes' tt
  | inr no' ↦ rw no' (no', tt)
]
drop_controls-plain (a ∷ b ∷ s) =
    let rest = drop_controls-plain (b ∷ s) in
    let past = drop_controls-plain s in
    elim (Bool-cases (is_control a)) [
      | inl yes' ↦ rw yes' rest
      | inr no' ↦ elim (Bool-cases (a == 0xc2 && between 0x80 0x9f b)) [
        | inl pair ↦ rw (no', pair) past
        | inr single ↦ rw (no', single) (no', rest)
      ]
    ]

flatten_separators-IsPlain :
    (s : Text) → All (λ b. is_control b ≡ false) s → All IsPlain (flatten_separators s)
unfolding flatten_separators
flatten_separators-IsPlain [] h = tt
flatten_separators-IsPlain (b ∷ s) h =
    let rest = flatten_separators-IsPlain s h.1 in
    elim (Bool-cases (b == 47 || b == 92)) [
      | inl cut ↦ rw cut ((refl, omega arith, omega arith), rest)
      | inr kept ↦ rw kept ((h.0, ground (arith, kept), ground (arith, kept)), rest)
    ]

collapse_dots-IsPlain : (s : Text) → All IsPlain s → All IsPlain (collapse_dots s)
unfolding collapse_dots
collapse_dots-IsPlain [] h = tt
collapse_dots-IsPlain (a ∷ []) h = h
collapse_dots-IsPlain (a ∷ b ∷ s) h =
    let rest = collapse_dots-IsPlain (b ∷ s) h.1 in
    let past = collapse_dots-IsPlain s h.1.1 in
    elim (Bool-cases (a == 46 && b == 46)) [
      | inl two ↦ rw two ((refl, omega arith, omega arith), past)
      | inr one ↦ rw one (h.0, rest)
    ]

-- What `collapse_dots` starts with where the text starts with a byte that is no dot, or a dot that
-- another byte follows.
after_dot :
    (a b : ℕ) (s : Text)
    → a == 46 && b == 46 ≡ false
    → NoDots (collapse_dots (b ∷ s))
    → NoDots (a ∷ collapse_dots (b ∷ s))
unfolding collapse_dots
after_dot a b [] apart h = (apart, tt)
after_dot a b (c ∷ s) apart h = elim (Bool-cases (b == 46 && c == 46)) [
  | inl two ↦ rw two (joined a (collapse_dots s) (rw two at h))
  | inr one ↦ rw one (apart, rw one at h)
]
  where
    joined : (a : ℕ) (t : Text) → NoDots (95 ∷ t) → NoDots (a ∷ 95 ∷ t)
    joined a t h = (ground arith, h)

joined_under : (t : Text) → NoDots t → NoDots (95 ∷ t)
joined_under [] h = tt
joined_under (b ∷ t) h = (refl, h)

collapse_dots-NoDots : (s : Text) → NoDots (collapse_dots s)
unfolding collapse_dots
collapse_dots-NoDots [] = tt
collapse_dots-NoDots (a ∷ []) = tt
collapse_dots-NoDots (a ∷ b ∷ s) =
    let rest = collapse_dots-NoDots (b ∷ s) in
    let past = collapse_dots-NoDots s in
    elim (Bool-cases (a == 46 && b == 46)) [
      | inl two ↦ rw two (joined_under (collapse_dots s) past)
      | inr one ↦ rw one (after_dot a b s one rest)
    ]

-- Every name comes out of the sanitising with at least one byte, no one-byte control character, no
-- path separator, and no two dots in a row.
pub sanitised-IsSafeName : (raw_name : Text) → IsSafeName (sanitised raw_name)
unfolding sanitised
sanitised-IsSafeName raw_name =
    let name = collapse_dots (flatten_separators (drop_controls raw_name)) in
    let plain =
      collapse_dots-IsPlain (flatten_separators (drop_controls raw_name))
        (flatten_separators-IsPlain (drop_controls raw_name) (drop_controls-plain raw_name)) in
    elim (Bool-cases (is_empty name)) [
      | inl bare ↦ rw bare default_name
      | inr real ↦ rw real (record {
        nonempty = real;
        plain = plain;
        no_dots = collapse_dots-NoDots (flatten_separators (drop_controls raw_name));
      })
    ]
  where
    default_name : IsSafeName (codes "unnamed")
    default_name = record { nonempty = refl; plain = ground arith; no_dots = ground arith }

safe_field :
    (raw_name : Text) (m z : ℕ) (c : CdLine)
    → (m, z, sanitised (trim raw_name)) ≡ c
    → IsSafeName c.2
safe_field raw_name m z c same =
    subst (λ x. IsSafeName x.2) same (sanitised-IsSafeName (trim raw_name))

read_fields-IsSafeName :
    (mode_field size_field raw_name : Text) (c : CdLine)
    → read_fields mode_field size_field raw_name ≡ some c
    → IsSafeName c.2
unfolding read_fields
read_fields-IsSafeName mode_field size_field raw_name c q =
    elim (Option-cases (after_first mode_field)) [
      | inl none1 ↦ let stuck : none ≡ some c = rw (read_fields, none1) at q in cc
      | inr (digits, one) ↦ elim (Option-cases (from_str_radix 8 (2 ^ 32) digits)) [
        | inl none2 ↦ let stuck : none ≡ some c = rw (read_fields, one, none2) at q in cc
        | inr (m, two) ↦ elim (Option-cases (from_str_radix 10 (2 ^ 64) size_field)) [
          | inl none3 ↦ let stuck : none ≡ some c = rw (read_fields, one, two, none3) at q in cc
          | inr (z, three) ↦
              let read : some (m, z, sanitised (trim raw_name)) ≡ some c =
                rw (read_fields, one, two, three) at q in
              safe_field raw_name m z c cc
        ]
      ]
    ]

-- The name of a control line that parses is safe, whatever bytes the line holds: at least one byte,
-- no one-byte control character, no path separator, and no two dots in a row.
pub parse_cd-IsSafeName : (line : Text) (c : CdLine) → parse_cd line ≡ some c → IsSafeName c.2
unfolding parse_cd
parse_cd-IsSafeName line c q = elim (Option-cases (split_space line)) [
  | inl none1 ↦ let stuck : none ≡ some c = rw (parse_cd, none1) at q in cc
  | inr ((mode_field, rest), one) ↦ elim (Option-cases (split_space rest)) [
    | inl none2 ↦ let stuck : none ≡ some c = rw (parse_cd, one, none2) at q in cc
    | inr ((size_field, raw_name), two) ↦
        read_fields-IsSafeName mode_field size_field raw_name c (rw (parse_cd, one, two) at q)
  ]
]
