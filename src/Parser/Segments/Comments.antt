-- ===== src/Parser/Segments/Comments.antt =====
-- Where `strip_comment` of src/shell/parser.rs cuts a line that is made of plain bytes, escaped bytes,
-- variables and quoted texts.
use mimic_ssh_honeypot.Prelude.{
  ℕ, ◌+◌, ◌-◌, ◌≡◌, Bool, true, List, [], ◌∷◌, ◌++◌, length, drop, take, all, arith, refl,
  Bool-cases, inl, inr, Text, sym, ap, ◌∙◌, take-append-drop, lt_of_get_elem?,
}
use mathlib.Core.List.{append_assoc, append-nil}
use mimic_ssh_honeypot.Prelude.Outcome.{done}
use mimic_ssh_honeypot.Parser.{unquoted, quote_step}
use mimic_ssh_honeypot.Parser.Scan.{lex, scan_from, scan}
use mimic_ssh_honeypot.Parser.Segments.{comment_handlers, strip_comment}
use mimic_ssh_honeypot.Parser.Bounds.Lists.{drop_cons, slice_done}
use mimic_ssh_honeypot.Parser.Segments.Pieces.{
  Piece, plain, escape, variable, single_quoted, double_quoted, written, print, is_piece,
  starts_after, opens_comment, before_comment,
}
use mimic_ssh_honeypot.Parser.Segments.Quoted.{run_at, loop_at, no_region, piece_step}

module _ (line : Text) where
  stop_step :
      (i : ℕ) (rest : Text)
      → drop i line ≡ b'#' ∷ rest
      → loop_at line (b'#' ∷ rest) i unquoted true ≡ done (take i line)
  unfolding scan_from lex comment_handlers quote_step
  stop_step i rest here =
      let none_here = no_region line i b'#' rest here refl in
      let less = lt_of_get_elem? line i (drop_cons line i b'#' rest here).0 in
      let same : i - 0 ≡ i = omega arith in
      rw (scan_from, lex, none_here, slice_done line 0 i (omega arith) (omega (arith, less)), same)
        refl

  strip_from :
      (pieces : List Piece) (i : ℕ) (s : Bool)
      → drop i line ≡ print pieces
      → all is_piece pieces ≡ true
      → loop_at line (print pieces) i unquoted s
        ≡ done (take i line ++ print (before_comment s pieces))
  unfolding scan_from comment_handlers
  strip_from [] i s here h =
      ap done (sym (take-append-drop i line) ∙ ap (λ l. take i line ++ l) here)
  strip_from (p ∷ pieces) i s here h = elim (Bool-cases (opens_comment s p)) [
    | inl opens ↦ opened p opens here
    | inr keeps ↦
        let (before, after) = run_at line i (written p) (print pieces) here in
        rw keeps (
          piece_step line p (print pieces) i s here (ground (arith, h)) keeps
          ∙ strip_from pieces (i + length (written p)) (starts_after p) after (ground (arith, h))
          ∙ ap (λ l. done (l ++ print (before_comment (starts_after p) pieces))) before
          ∙ ap done (
              append_assoc (take i line) (written p)
                (print (before_comment (starts_after p) pieces))))
  ]
    where
      opened :
          (p : Piece)
          → opens_comment s p ≡ true
          → drop i line ≡ written p ++ print pieces
          → loop_at line (written p ++ print pieces) i unquoted s
            ≡ done (take i line ++ print (before_comment s (p ∷ pieces)))
      opened (plain c) opens here =
          let hash : c ≡ b'#' = ground (arith, opens) in
          let starts : s ≡ true = ground (arith, opens) in
          rw (opens, append-nil (take i line))
            (ap (λ d. loop_at line (d ∷ print pieces) i unquoted s) hash
              ∙ ap (loop_at line (b'#' ∷ print pieces) i unquoted) starts
              ∙ stop_step i (print pieces) (here ∙ ap (λ d. d ∷ print pieces) hash))
      opened (escape c) opens here = absurd (cc)
      opened (variable c) opens here = absurd (cc)
      opened (single_quoted t) opens here = absurd (cc)
      opened (double_quoted t) opens here = absurd (cc)

-- On a line made of pieces - plain bytes, a byte after a backslash, a plain byte other than `(` after a
-- `$`, a text without single quotes between single quotes, and a text between double quotes in which
-- quotes, backquotes and `$` are escaped; plain bytes are all but backslashes, quotes, backquotes
-- and `$` - `strip_comment` returns the pieces before the first plain `#` that is a piece of its own and
-- stands at the start of the line or right after `;`, `&`, `|` or white space outside quotes and
-- escapes, and the whole line where there is none.
pub strip_comment-print :
    (pieces : List Piece)
    → all is_piece pieces ≡ true
    → strip_comment (print pieces) ≡ done (print (before_comment true pieces))
unfolding strip_comment scan
strip_comment-print pieces h = strip_from (print pieces) pieces 0 true refl h
