-- ===== src/Parser/Tests.antt =====
-- The lexer at lines that a session types, and the theorems at them.
use mimic_ssh_honeypot.Prelude.{
  ◌≡◌, ◌++◌, List, [], ◌∷◌, Option, some, true, false, refl, codes, Text, text_eq,
  is_ascii_whitespace, is_ascii_digit,
}
use mimic_ssh_honeypot.Prelude.Outcome.{done}
use mimic_ssh_honeypot.Parser.{quote_step}
use mimic_ssh_honeypot.Parser.Substitution.{
  Substitution, substitution_at, find_close, find_backtick, paren,
}
use mimic_ssh_honeypot.Parser.Segments.Pieces.{
  Piece, plain, escape, variable, single_quoted, double_quoted, print, before_comment,
}
use mimic_ssh_honeypot.Parser.Segments.Comments.{strip_comment-print}
use mimic_ssh_honeypot.Parser.Scan.{scan, scan_from, lex}
use mimic_ssh_honeypot.Parser.Segments.{
  Segment, always, and_if, split_segments, segment_handlers, separator_at, cut_segment,
  split_pipeline, stage_handlers, strip_comment, comment_handlers,
}
use mimic_ssh_honeypot.Parser.Segments.Joined.{written, split_segments-joined}
use mimic_ssh_honeypot.Parser.Segments.Stages.{piped, split_pipeline-piped}
use mimic_ssh_honeypot.Parser.Redirects.{
  Stripped, ok, Heredoc, split_redirects, split_heredoc, stdout, stderr, file, dup,
  redirect_handlers, take_redirect, operator_start, read_target, skip_while, word_end,
  word_handlers, heredoc_handlers, heredoc_at, unquote, unquote_from,
}
use mimic_ssh_honeypot.Parser.Redirects.Result.{Stripped-Fits, split_redirects-Fits}
use mimic_ssh_honeypot.Parser.Redirects.Heredocs.{Found, split_heredoc-Found}
use mimic_ssh_honeypot.Parser.Words.{tokenize, tokenize_from, token_char, is_whitespace}
use mimic_ssh_honeypot.Parser.Words.Quoting.{quoted_line, tokenize-quoted_line}
use mimic_ssh_honeypot.Parser.Bounds.Regions.{Within, substitution_at-Within}
use mimic_ssh_honeypot.Parser.Bounds.Double.{double, substitution_at-double}

abbrev compound : Text
compound = codes "cd /tmp && echo '&&' $(a; b); ls"

splits :
    split_segments compound
    ≡ done (
        (record { run_if = always; text = codes "cd /tmp " })
        ∷ (record { run_if = and_if; text = codes " echo '&&' $(a; b)" })
        ∷ (record { run_if = always; text = codes " ls" })
        ∷ [])
unfolding split_segments segment_handlers separator_at cut_segment scan scan_from lex quote_step
    substitution_at find_close find_backtick paren
splits = refl

split_segments-joined_example :
    (first : Segment) × (rest : List Segment) × (split_segments compound ≡ done (first ∷ rest))
    × (first.run_if ≡ always)
    × (first.text ++ written rest ≡ compound)
split_segments-joined_example = split_segments-joined compound

abbrev pipeline : Text
pipeline = codes "cat f | grep '|' | wc -l"

stages : split_pipeline pipeline ≡ done (codes "cat f " ∷ codes " grep '|' " ∷ codes " wc -l" ∷ [])
unfolding split_pipeline stage_handlers scan scan_from lex quote_step substitution_at find_close
    find_backtick paren
stages = refl

split_pipeline-piped_example :
    (first : Text) × (rest : List Text) × (split_pipeline pipeline ≡ done (first ∷ rest))
    × (first ++ piped rest ≡ pipeline)
split_pipeline-piped_example = split_pipeline-piped pipeline

abbrev commented : Text
commented = codes "echo a#b '#' # c"

comment : strip_comment commented ≡ done (codes "echo a#b '#' ")
unfolding strip_comment comment_handlers scan scan_from lex quote_step substitution_at find_close
    find_backtick paren is_ascii_whitespace
comment = refl

abbrev commented_pieces : List Piece
commented_pieces =
    plain 97
    ∷ plain b'#'
    ∷ plain b' '
    ∷ single_quoted (codes "#")
    ∷ plain b' '
    ∷ escape b'#'
    ∷ variable b'#'
    ∷ double_quoted (codes "\\\"#")
    ∷ plain b';'
    ∷ plain b'#'
    ∷ plain 99
    ∷ []

strip_comment-print_example :
    strip_comment (print commented_pieces) ≡ done (print (before_comment true commented_pieces))
strip_comment-print_example = strip_comment-print commented_pieces refl

-- The line is a# '#' \#$#"\"#";#c and loses its last two bytes.
kept_pieces : print (before_comment true commented_pieces) ≡ codes "a# '#' \\#$#\"\\\"#\";"
unfolding is_ascii_whitespace
kept_pieces = refl

abbrev redirected : Text
redirected = codes "ls '>' 2>&1 >> out"

strips :
    split_redirects redirected
    ≡ done (
        ok (codes "ls '>'  ") (
          (record { stream = stderr; target = dup stdout })
          ∷ (record { stream = stdout; target = file (codes "out") true })
          ∷ []))
unfolding split_redirects redirect_handlers take_redirect operator_start read_target skip_while
    word_end word_handlers scan scan_from lex quote_step substitution_at find_close find_backtick
    paren is_ascii_whitespace is_ascii_digit text_eq
strips = refl

split_redirects-Fits_example :
    (result : Stripped) × (split_redirects redirected ≡ done result)
    × Stripped-Fits redirected result
split_redirects-Fits_example = split_redirects-Fits redirected

abbrev script : Text
script = codes "cat <<-'EOF' > f"

heredoc :
    split_heredoc script
    ≡ done (
        some
          (record { delimiter = codes "EOF"; strip_tabs = true; expand = false }, codes "cat  > f"))
unfolding split_heredoc heredoc_handlers heredoc_at unquote unquote_from skip_while word_end
    word_handlers scan scan_from lex quote_step substitution_at find_close find_backtick paren
    is_ascii_whitespace
heredoc = refl

split_heredoc-Found_example :
    (found : Option (Heredoc × Text)) × (split_heredoc script ≡ done found) × Found script found
split_heredoc-Found_example = split_heredoc-Found script

abbrev args : List Text
args = codes "don't" ∷ [] ∷ codes "a \\b" ∷ []

tokens :
    tokenize (codes "echo -e \"a\\tb\" c\\ d'e f'")
    ≡ codes "echo" ∷ codes "-e" ∷ codes "a\\tb" ∷ codes "c de f" ∷ []
unfolding tokenize tokenize_from token_char is_whitespace
tokens = refl

tokenize-quoted_line_example : tokenize (quoted_line args) ≡ args
tokenize-quoted_line_example = tokenize-quoted_line args

abbrev substituted : Text
substituted = codes "echo $(ls)"

substitution_at-Within_example :
    (o : Option Substitution) × (substitution_at substituted 5 ≡ done o) × Within substituted 5 o
substitution_at-Within_example = substitution_at-Within substituted 5

-- `$((1)b)`: the body is `1)`, without the `b`.
substitution_at-double_example :
    substitution_at (double (codes "1") (codes "b")) 0
    ≡ done (some (record { end = 7; body = (3, 5); arithmetic = true }))
substitution_at-double_example = substitution_at-double (codes "1") (codes "b") refl refl
