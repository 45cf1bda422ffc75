-- ===== src/Parser/Redirects/Heredocs.antt =====
-- What `split_heredoc` of src/shell/parser.rs makes of any line.
use mimic_ssh_honeypot.Prelude.{
  ℕ, ◌+◌, ◌-◌, ◌≤◌, ◌<◌, ◌≡◌, Bool, true, false, not, ◌&&◌, ◌||◌, Option, none, some, ◌∷◌, ◌++◌,
  length, drop, all, take, arith, refl, Bool-cases, inl, inr, ◌⊎◌, Text, lt_of_get_elem?, get_elem?,
  sym, ap, ◌∙◌, if◌then◌else◌, ◌==◌, is_ascii_whitespace, take-append-drop, length-drop,
  length-take, starts_with,
}
use mimic_ssh_honeypot.Prelude.Outcome.{done}
use mimic_ssh_honeypot.Parser.{Quotes, bare}
use mimic_ssh_honeypot.Parser.Substitution.{is_at}
use mimic_ssh_honeypot.Parser.Scan.{Next, stop, next}
use mimic_ssh_honeypot.Parser.Redirects.{
  Heredoc, heredoc_at, heredoc_handlers, split_heredoc, skip_while, unquote, word_end,
  has_backslash,
}
use mimic_ssh_honeypot.Parser.Redirects.Words.{word_end-within, skip_while_within, skip_while-all}
use mimic_ssh_honeypot.Parser.Bounds.Lists.{
  slice_done, is_at_get, drop_at, drop_split, take-drop-length,
}
use mimic_ssh_honeypot.Parser.Bounds.Rule.{Rule, After, scan_rule}

-- The operator, its word and the space between them, in front of `after`.
abbrev pub opening : Bool → Text → Text → Text → Text
opening true space word after = b'<' ∷ b'<' ∷ b'-' ∷ space ++ (word ++ after)
opening false space word after = b'<' ∷ b'<' ∷ space ++ (word ++ after)

-- The line is `before`, the operator with its word, and `after`; what is left of it is `before` and
-- `after`.
abbrev pub Opened : Text → Heredoc × Text → Type 0
Opened line (doc, rest) =
    (before : Text) × (space : Text) × (word : Text) × (after : Text) × (line
      ≡ before ++ opening doc.strip_tabs space word after)
    × (rest ≡ before ++ after)
    × (all is_ascii_whitespace space ≡ true)
    × (doc.delimiter ≡ unquote word)
    × (0 < length word)

abbrev pub Found : Text → Option (Heredoc × Text) → Type 0
Found line none = Unit
Found line (some found) = Opened line found

-- The line from the operator on, up to the space.
operator_text :
    (line : Text) (i : ℕ)
    → get_elem? line i ≡ some b'<'
    → get_elem? line (i + 1) ≡ some b'<'
    → (strip_tabs : Bool) → is_at line (i + 2) b'-' ≡ strip_tabs
    → (space word after : Text)
    → drop (if strip_tabs then i + 3 else i + 2) line ≡ space ++ (word ++ after)
    → line ≡ take i line ++ opening strip_tabs space word after
operator_text line i at at1 strip_tabs dash space word after e =
    sym (take-append-drop i line)
    ∙ ap (λ t. take i line ++ t)
        (drop_at line i b'<' at
          ∙ ap (λ t. b'<' ∷ t) (drop_at line (i + 1) b'<' at1)
          ∙ rest strip_tabs dash e)
  where
    rest :
        (d : Bool)
        → is_at line (i + 2) b'-' ≡ d
        → drop (if d then i + 3 else i + 2) line ≡ space ++ (word ++ after)
        → b'<' ∷ b'<' ∷ drop (i + 1 + 1) line ≡ opening d space word after
    rest true is e' =
        let two : i + 1 + 1 ≡ i + 2 = omega arith in
        let three : i + 2 + 1 ≡ i + 3 = omega arith in
        rw (two, drop_at line (i + 2) b'-' (is_at_get line (i + 2) b'-' is), three, e') refl
    rest false is e' = let two : i + 1 + 1 ≡ i + 2 = omega arith in rw (two, e') refl

after_operator :
    (line : Text) (i : ℕ)
    → i + 1 < length line
    → (strip_tabs : Bool) → is_at line (i + 2) b'-' ≡ strip_tabs
    → (if strip_tabs then i + 3 else i + 2) ≤ length line
after_operator line i less true here =
    omega (arith, lt_of_get_elem? line (i + 2) (is_at_get line (i + 2) b'-' here))
after_operator line i less false here = omega (arith, less)

heredoc_at-Found :
    (line : Text) (i : ℕ)
    → get_elem? line i ≡ some b'<'
    → get_elem? line (i + 1) ≡ some b'<'
    → (found : Option (Heredoc × Text)) × (heredoc_at line i ≡ done found) × Found line found
unfolding heredoc_at
heredoc_at-Found line i at at1 =
    let strip_tabs = is_at line (i + 2) b'-' in
    let j = if strip_tabs then i + 3 else i + 2 in
    let k = skip_while is_ascii_whitespace (drop j line) j in
    let (from, to) =
      skip_while_within is_ascii_whitespace line j
        (after_operator line i (lt_of_get_elem? line (i + 1) at1) strip_tabs refl) in
    let (e, ends, start, within) = word_end-within line k to in
    elim (Bool-cases (e == k)) [
      | inl empty ↦ (none, rw (ends, empty) refl, tt)
      | inr word ↦ named e ends start within word from (lt_of_get_elem? line i at)
    ]
  where
    j : ℕ
    j = if is_at line (i + 2) b'-' then i + 3 else i + 2

    k : ℕ
    k = skip_while is_ascii_whitespace (drop j line) j

    named :
        (e : ℕ)
        → word_end line k ≡ done e
        → k ≤ e
        → e ≤ length line
        → (e == k) ≡ false
        → j ≤ k
        → i < length line
        → (found : Option (Heredoc × Text)) × (heredoc_at line i ≡ done found) × Found line found
    named e ends start within word from less =
        let raw = take (e - k) (drop k line) in
        let quoted = starts_with b'\'' raw || starts_with b'"' raw || has_backslash raw in
        let doc : Heredoc = record {
          delimiter = unquote raw;
          strip_tabs = is_at line (i + 2) b'-';
          expand = not quoted;
        } in
        let whole : i - 0 ≡ i = omega arith in
        (
          some (doc, take i line ++ drop e line),
          rw
              (
                heredoc_at,
                ends,
                word,
                slice_done line k e start within,
                slice_done line 0 i (omega arith) (omega (arith, less)),
                slice_done line e (length line) within (omega arith),
                whole,
                take-drop-length line e,
              )
              refl,
          (
            take i line,
            take (k - j) (drop j line),
            raw,
            drop e line,
            operator_text line i at at1 (is_at line (i + 2) b'-') refl (take (k - j) (drop j line))
                raw (drop e line)
                (drop_split line j k from
                  ∙ ap (λ t. take (k - j) (drop j line) ++ t) (drop_split line k e start)),
            refl,
            skip_while-all is_ascii_whitespace (drop j line) j,
            refl,
            ground
                (arith, word, start, within, length-take (e - k) (drop k line), length-drop k line),
          ),
        )

heredoc_handlers-Rule :
    (line : Text) → Rule line (λ i s. Unit {0}) (Found line) (heredoc_handlers line)
unfolding heredoc_handlers
heredoc_handlers-Rule line = record {
  passed-keeps = λ i s p. tt;
  quoted-keeps = λ i s p. tt;
  jumped-keeps = λ i e s less ends p. tt;
  looked-keeps = λ i c q s here p.
      looked i c q s here (Bool-cases (c == b'<' && (bare q && is_at line (i + 1) b'<')))
        (Bool-cases (is_at line (i + 2) b'<'));
  finish-keeps = λ s p. (none, refl, tt);
}
  where
    looked :
        (i c : ℕ) (q : Quotes) (s : Unit {0})
        → get_elem? line i ≡ some c
        → ((c == b'<' && (bare q && is_at line (i + 1) b'<')) ≡ true)
          ⊎ ((c == b'<' && (bare q && is_at line (i + 1) b'<')) ≡ false)
        → (is_at line (i + 2) b'<' ≡ true) ⊎ (is_at line (i + 2) b'<' ≡ false)
        → (n : Next (Unit {0}) (Option (Heredoc × Text))) × ((heredoc_handlers line).looked s i c q
            ≡ done n)
          × After line (λ j t. Unit {0}) (Found line) i n
    looked i c q s here (inr other) third =
        (next s 0, rw other refl, (omega (arith, lt_of_get_elem? line i here), tt))
    looked i c q s here (inl doubled) (inl tripled) = (
      next s 2,
      rw (doubled, tripled) refl,
      (omega (arith, lt_of_get_elem? line (i + 2) (is_at_get line (i + 2) b'<' tripled)), tt),
    )
    looked i c q s here (inl doubled) (inr ends) =
        let at : get_elem? line i ≡ some b'<' = here ∙ ap some (ground (arith, doubled)) in
        let (found, e, good) =
          heredoc_at-Found line i at (is_at_get line (i + 1) b'<' (ground (arith, doubled))) in
        (stop found, rw (doubled, ends, e) refl, good)

-- `split_heredoc` returns on every line. When it finds a here-document, the line is a text, `<<`, a `-`
-- when tabs are stripped, whitespace, a word that is not empty and a further text; the delimiter is
-- the word unquoted, and what remains of the line is the first text and the last one.
pub split_heredoc-Found :
    (line : Text)
    → (found : Option (Heredoc × Text)) × (split_heredoc line ≡ done found) × Found line found
unfolding split_heredoc
split_heredoc-Found line =
    scan_rule (heredoc_handlers line) line (λ i s. Unit {0}) (Found line)
      (heredoc_handlers-Rule line) 0 tt (omega arith) tt
