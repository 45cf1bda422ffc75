-- ===== src/Parser/Segments/Quoted.antt =====
-- The loop of `strip_comment` of src/shell/parser.rs over one piece of a line.
use mimic_ssh_honeypot.Prelude.{
  ℕ, ◌+◌, ◌≡◌, Bool, true, false, not, ◌&&◌, ◌||◌, [], ◌∷◌, ◌++◌, length, drop, take, all,
  length-append, arith, refl, Bool-cases, inl, inr, Text, sym, ap, ◌∙◌, ◌==◌, none,
  is_ascii_whitespace,
}
use mathlib.Core.List.{append_assoc, append-nil}
use mimic_ssh_honeypot.Prelude.Outcome.{Outcome, done}
use mimic_ssh_honeypot.Parser.{Quotes, unquoted, bare, quote_step}
use mimic_ssh_honeypot.Parser.Substitution.{substitution_at}
use mimic_ssh_honeypot.Parser.Scan.{look, quoting, lex, scan_from}
use mimic_ssh_honeypot.Parser.Segments.{is_operator, comment_handlers}
use mimic_ssh_honeypot.Parser.Bounds.Lists.{take_at, drop_cons}
use mimic_ssh_honeypot.Parser.Segments.Pieces.{
  Piece, plain, escape, variable, single_quoted, double_quoted, written, is_plain_byte,
  is_double_text, is_piece, starts_after, opens_comment,
}

-- What a run of bytes at an index says of the text before it and after it.
pub run_at :
    (line : Text) (i : ℕ) (xs rest : Text)
    → drop i line ≡ xs ++ rest
    → (take (i + length xs) line ≡ take i line ++ xs) × (drop (i + length xs) line ≡ rest)
run_at line i [] rest h =
    let same : i + 0 ≡ i = omega arith in rw same (sym (append-nil (take i line)), h)
run_at line i (x ∷ xs) rest h =
    let (here, on) = drop_cons line i x (xs ++ rest) h in
    let (before, after) = run_at line (i + 1) xs rest on in
    let same : i + length (x ∷ xs) ≡ i + 1 + length xs = omega arith in
    rw same (
      before ∙ ap (λ l. l ++ xs) (take_at line i x here) ∙ append_assoc (take i line) (x ∷ []) xs,
      after,
    )

-- The loop of `strip_comment` at an index.
abbrev pub loop_at : Text → Text → ℕ → Quotes → Bool → Outcome Text
loop_at line rest i q word_start = scan_from (comment_handlers line) line rest i 0 q word_start

abbrev in_single_quotes : Quotes
in_single_quotes = record { in_single = true; in_double = false; escaped = false }

abbrev in_double_quotes : Bool → Quotes
in_double_quotes after = record { in_single = false; in_double = true; escaped = after }

module _ (line : Text) where
  pub no_region :
      (i c : ℕ) (rest : Text)
      → drop i line ≡ c ∷ rest
      → (c == b'`' || c == b'$') ≡ false
      → substitution_at line i ≡ done none
  unfolding substitution_at
  no_region i c rest h other = ground (arith, other, (drop_cons line i c rest h).0)

  no_region_variable :
      (i c : ℕ) (rest : Text)
      → drop i line ≡ b'$' ∷ c ∷ rest
      → c == b'(' ≡ false
      → substitution_at line i ≡ done none
  unfolding substitution_at
  no_region_variable i c rest h other =
      let (here, on) = drop_cons line i b'$' (c ∷ rest) h in
      ground (arith, other, here, (drop_cons line (i + 1) c rest on).0)

  -- A byte that is looked at and opens no comment.
  looked_step :
      (i c : ℕ) (rest : Text) (q : Quotes) (s : Bool)
      → lex line i c q ≡ done look
      → (c == b'#' && (s && bare q)) ≡ false
      → loop_at line (c ∷ rest) i q s
        ≡ loop_at line rest (i + 1) q ((is_operator c || is_ascii_whitespace c) && bare q)
  unfolding scan_from comment_handlers
  looked_step i c rest q s l other = rw (scan_from, l, other) refl

  quoting_step :
      (i c : ℕ) (rest : Text) (q q' : Quotes) (s : Bool)
      → lex line i c q ≡ done (quoting q')
      → loop_at line (c ∷ rest) i q s ≡ loop_at line rest (i + 1) q' false
  unfolding scan_from comment_handlers
  quoting_step i c rest q q' s l = rw (scan_from, l) refl

  single_run :
      (t rest : Text) (i : ℕ) (s : Bool)
      → all (λ c. not (c == b'\'')) t ≡ true
      → loop_at line (t ++ (b'\'' ∷ rest)) i in_single_quotes s
        ≡ loop_at line rest (i + length t + 1) unquoted false
  unfolding lex quote_step
  single_run [] rest i s h =
      let same : i + 0 + 1 ≡ i + 1 = omega arith in
      rw same (quoting_step i b'\'' rest in_single_quotes unquoted s refl)
  single_run (c ∷ t) rest i s h =
      let same : i + length (c ∷ t) + 1 ≡ i + 1 + length t + 1 = omega arith in
      rw same (
        looked_step i c (t ++ (b'\'' ∷ rest)) in_single_quotes s (ground (arith, h)) (ground arith)
        ∙ single_run t rest (i + 1) _ (ground (arith, h)))

  over_step :
      (i c : ℕ) (rest : Text) (q : Quotes) (s : Bool)
      → q.escaped ≡ true
      → loop_at line (c ∷ rest) i q s
        ≡ loop_at line rest (i + 1) (record q { escaped = false }) false
  unfolding scan_from lex comment_handlers
  over_step i c rest q s after = rw (scan_from, lex, after) refl

  double_run :
      (after : Bool) (t rest : Text) (i : ℕ) (s : Bool)
      → drop i line ≡ t ++ (b'"' ∷ rest)
      → is_double_text after t ≡ true
      → loop_at line (t ++ (b'"' ∷ rest)) i (in_double_quotes after) s
        ≡ loop_at line rest (i + length t + 1) unquoted false
  unfolding lex quote_step
  double_run true [] rest i s here h = absurd (cc)
  double_run false [] rest i s here h =
      let same : i + 0 + 1 ≡ i + 1 = omega arith in
      let none_here = no_region i b'"' rest here refl in
      rw same (quoting_step i b'"' rest (in_double_quotes false) unquoted s (rw none_here refl))
  double_run true (c ∷ t) rest i s here h =
      let same : i + length (c ∷ t) + 1 ≡ i + 1 + length t + 1 = omega arith in
      rw same (
        over_step i c (t ++ (b'"' ∷ rest)) (in_double_quotes true) s refl
        ∙ double_run false t rest (i + 1) false (drop_cons line i c (t ++ (b'"' ∷ rest)) here).1 h)
  double_run false (c ∷ t) rest i s here h =
      let same : i + length (c ∷ t) + 1 ≡ i + 1 + length t + 1 = omega arith in
      let rest' = t ++ (b'"' ∷ rest) in
      let on = (drop_cons line i c rest' here).1 in
      elim (Bool-cases (c == b'\\')) [
        | inl backslash ↦
            let none_here = no_region i c rest' here (ground (arith, backslash)) in
            let lexed : lex line i c (in_double_quotes false)
                ≡ done (quoting (in_double_quotes true)) =
              rw (lex, none_here) (ground (arith, backslash)) in
            rw same (
              quoting_step i c rest' (in_double_quotes false) (in_double_quotes true) s lexed
              ∙ double_run true t rest (i + 1) false on (ground (arith, h, backslash)))
        | inr byte ↦
            let none_here = no_region i c rest' here (ground (arith, h, byte)) in
            let lexed : lex line i c (in_double_quotes false) ≡ done look =
              rw (lex, none_here) (ground (arith, byte, h)) in
            rw same (
              looked_step i c rest' (in_double_quotes false) s lexed (ground arith)
              ∙ double_run false t rest (i + 1) _ on (ground (arith, h, byte)))
      ]

  -- A plain byte outside quotes.
  plain_look :
      (i c : ℕ) (rest : Text)
      → drop i line ≡ c ∷ rest
      → is_plain_byte c ≡ true
      → lex line i c unquoted ≡ done look
  unfolding lex quote_step
  plain_look i c rest here h =
      rw (lex, no_region i c rest here (ground (arith, h))) (ground (arith, h))

  -- A piece that opens no comment is passed, and tells whether a word starts after it.
  pub piece_step :
      (p : Piece) (rest : Text) (i : ℕ) (s : Bool)
      → drop i line ≡ written p ++ rest
      → is_piece p ≡ true
      → opens_comment s p ≡ false
      → loop_at line (written p ++ rest) i unquoted s
        ≡ loop_at line rest (i + length (written p)) unquoted (starts_after p)
  unfolding lex quote_step is_ascii_whitespace
  piece_step (plain c) rest i s here h keeps =
      looked_step i c rest unquoted s (plain_look i c rest here h) (ground (arith, keeps))
      ∙ ap (loop_at line rest (i + 1) unquoted) (ground arith)
  piece_step (escape c) rest i s here h keeps =
      let same : i + 2 ≡ i + 1 + 1 = omega arith in
      let none_here = no_region i b'\\' (c ∷ rest) here refl in
      rw same (
        quoting_step i b'\\' (c ∷ rest) unquoted (record unquoted { escaped = true }) s
          (rw none_here refl)
        ∙ over_step (i + 1) c rest (record unquoted { escaped = true }) false refl)
  piece_step (variable c) rest i s here h keeps =
      let same : i + 2 ≡ i + 1 + 1 = omega arith in
      let none_here = no_region_variable i c rest here (ground (arith, h)) in
      let on = (drop_cons line i b'$' (c ∷ rest) here).1 in
      rw same (
        looked_step i b'$' (c ∷ rest) unquoted s (rw none_here refl) refl
        ∙ looked_step (i + 1) c rest unquoted false
            (plain_look (i + 1) c rest on (ground (arith, h))) (ground arith)
        ∙ ap (loop_at line rest (i + 1 + 1) unquoted) (ground arith))
  piece_step (single_quoted t) rest i s here h keeps =
      let none_here = no_region i b'\'' (t ++ (b'\'' ∷ []) ++ rest) here refl in
      let same : i + length (written (single_quoted t)) ≡ i + 1 + length t + 1 =
        omega (arith, length-append t (b'\'' ∷ [])) in
      rw (same, append_assoc t (b'\'' ∷ []) rest)
        (quoting_step i b'\'' (t ++ (b'\'' ∷ rest)) unquoted in_single_quotes s (rw none_here refl)
          ∙ single_run t rest (i + 1) false h)
  piece_step (double_quoted t) rest i s here h keeps =
      let shaped = append_assoc t (b'"' ∷ []) rest in
      let here' : drop i line ≡ b'"' ∷ t ++ (b'"' ∷ rest) = here ∙ ap (λ l. b'"' ∷ l) shaped in
      let none_here = no_region i b'"' (t ++ (b'"' ∷ rest)) here' refl in
      let same : i + length (written (double_quoted t)) ≡ i + 1 + length t + 1 =
        omega (arith, length-append t (b'"' ∷ [])) in
      rw (same, shaped)
        (quoting_step i b'"' (t ++ (b'"' ∷ rest)) unquoted (in_double_quotes false) s
            (rw none_here refl)
          ∙ double_run false t rest (i + 1) false
              (drop_cons line i b'"' (t ++ (b'"' ∷ rest)) here').1 h)
