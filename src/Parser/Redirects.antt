-- ===== src/Parser/Redirects.antt =====
-- Redirections and here-documents of src/shell/parser.rs.
pub mod Words
pub mod Targets
pub mod Result
pub mod Heredocs
use mimic_ssh_honeypot.Prelude.{
  ℕ, ◌+◌, ◌-◌, Bool, true, false, not, ◌&&◌, ◌||◌, Option, none, some, List, [], ◌∷◌, ◌++◌, take,
  drop, length, ◌==◌, if◌then◌else◌, Text, text_eq, codes, starts_with, is_ascii_whitespace,
  is_ascii_digit,
}
use mimic_ssh_honeypot.Prelude.Outcome.{Outcome, done, ◌>>=◌}
use mimic_ssh_honeypot.Parser.{Quotes, unquoted, bare, quote_step, slice}
use mimic_ssh_honeypot.Parser.Substitution.{is_at}
use mimic_ssh_honeypot.Parser.Scan.{Handlers, Next, stop, next, scan}

unfoldable pub word_handlers : Handlers (Unit {0}) ℕ
word_handlers = record {
  passed = λ s. s;
  jumped = λ s. s;
  quoted = λ s. s;
  looked = λ s i c q.
      done
        (if bare q && (c == b'>' || c == b'<' || is_ascii_whitespace c) then stop i else next s 0);
  finish = λ s i. done i;
}

unfoldable pub word_end : Text → ℕ → Outcome ℕ
unfolding scan word_handlers
word_end s start = scan word_handlers s start tt

-- `while k < bytes.len() && test(bytes[k]) { k += 1 }`, on the bytes from `k` on.
unfoldable pub skip_while : (ℕ → Bool) → List ℕ → ℕ → ℕ
skip_while test [] k = k
skip_while test (b ∷ rest) k =
    let later = skip_while test rest (k + 1) in if test b then later else k

pub data Stream : Type 0 where
  stdout stderr both : Stream

pub data Target : Type 0 where
  file : (path : Text) (append : Bool) → Target
  dup : Stream → Target

pub record Redirect : Type 0 where
  pub stream : Stream
  pub target : Target

pub record Stripping : Type 0 where
  pub command : Text
  pub redirects : List Redirect
  pub copy_from : ℕ
  pub word_from : ℕ
  pub plain_word : Bool

-- `Ok` and `Err` of `split_redirects`.
pub data Stripped : Type 0 where
  ok : Text → List Redirect → Stripped
  err : Text → Stripped

-- What is before a `>` at `i`: the stream, and where the operator starts.
unfoldable pub operator_start : Stripping → ℕ → Text → Stream × ℕ
operator_start s i prefix =
    if text_eq prefix (codes "1")
    then (stdout, s.word_from)
    else if text_eq prefix (codes "2")
    then (stderr, s.word_from)
    else if text_eq prefix (codes "&")
    then (both, s.word_from)
    else (stdout, i)

-- What is after a `>`: the target and where it ends, or the error text.
pub data Aim : Type 0 where
  at : Target → ℕ → Aim
  bad : Text → Aim

abbrev dup_target : Text → ℕ → Aim
dup_target fd k =
    if text_eq fd (codes "1")
    then at (dup stdout) k
    else if text_eq fd (codes "2")
    then at (dup stderr) k
    else bad (codes "-bash: " ++ (fd ++ (codes ": Bad file descriptor" ++ (10 ∷ []))))

unfoldable pub read_target : Text → ℕ → Bool → Outcome Aim
unfolding skip_while word_end
read_target stage j append =
    if not append && is_at stage j b'&'
    then (do
      let k = skip_while is_ascii_digit (drop (j + 1) stage) (j + 1)
      fd ← slice stage (j + 1) k
      done (dup_target fd k))
    else do
      let k = skip_while is_ascii_whitespace (drop j stage) j
      end ← word_end stage k
      if end == k
          then done (bad (codes "-bash: syntax error near unexpected token `newline'" ++ (10 ∷ [])))
          else do path ← slice stage k end; done (at (file path append) end)

-- The `>` arm.
unfoldable pub take_redirect : Text → Stripping → ℕ → Outcome (Next Stripping Stripped)
unfolding operator_start read_target
take_redirect stage s i = do
  prefix ← if s.plain_word then slice stage s.word_from i else done []
  let (stream, op_start) = operator_start s i prefix
  let append = is_at stage (i + 1) b'>'
  aim ← read_target stage (if append then i + 2 else i + 1) append
  elim aim [
    | bad message ↦ done (stop (err message))
    | at target end ↦ do
      kept ← slice stage s.copy_from op_start
      done (
          next
            (record {
              command = s.command ++ kept;
              redirects = s.redirects ++ (record { stream = stream; target = target } ∷ []);
              copy_from = end;
              word_from = end;
              plain_word = true;
            })
            (end - i - 1))
  ]

abbrev not_plain : Stripping → Stripping
not_plain s = record s { plain_word = false }

unfoldable pub redirect_handlers : Text → Handlers Stripping Stripped
unfolding take_redirect
redirect_handlers stage = record {
  passed = λ s. s;
  jumped = not_plain;
  quoted = not_plain;
  looked = λ s i c q.
      if c == b'>' && bare q
      then take_redirect stage s i
      else done (
          next
            (if is_ascii_whitespace c && bare q
              then record s { word_from = i + 1; plain_word = true }
              else s)
            0);
  finish = λ s i. (do
    kept ← slice stage s.copy_from (length stage)
    done (ok (s.command ++ kept) s.redirects));
}

unfoldable pub split_redirects : Text → Outcome Stripped
unfolding scan redirect_handlers
split_redirects stage =
    scan (redirect_handlers stage) stage 0
      (record { command = []; redirects = []; copy_from = 0; word_from = 0; plain_word = true })

pub record Heredoc : Type 0 where
  pub delimiter : Text
  pub strip_tabs : Bool
  pub expand : Bool

unfoldable pub unquote_from : Quotes → Text → Text
unfolding quote_step
unquote_from q [] = []
unquote_from q (c ∷ word) = elim q.escaped [
  | true ↦ c ∷ unquote_from (record q { escaped = false }) word
  | false ↦ elim (quote_step c q) [
    | some q' ↦ unquote_from q' word
    | none ↦ c ∷ unquote_from q word
  ]
]

unfoldable pub unquote : Text → Text
unfolding unquote_from
unquote word = unquote_from unquoted word

abbrev has_backslash : Text → Bool
has_backslash [] = false
has_backslash (c ∷ word) = c == b'\\' || has_backslash word

-- The here-document whose operator stands at `i`, and the line without it; `none` is no delimiter.
unfoldable pub heredoc_at : Text → ℕ → Outcome (Option (Heredoc × Text))
unfolding skip_while word_end unquote
heredoc_at line i = do
  let strip_tabs = is_at line (i + 2) b'-'
  let j = if strip_tabs then i + 3 else i + 2
  let k = skip_while is_ascii_whitespace (drop j line) j
  end ← word_end line k
  if end == k then done none else do
    raw ← slice line k end
    before ← slice line 0 i
    after ← slice line end (length line)
    let quoted = starts_with b'\'' raw || starts_with b'"' raw || has_backslash raw
    done (
        some (
          record { delimiter = unquote raw; strip_tabs = strip_tabs; expand = not quoted },
          before ++ after,
        ))

unfoldable pub heredoc_handlers : Text → Handlers (Unit {0}) (Option (Heredoc × Text))
unfolding heredoc_at
heredoc_handlers line = record {
  passed = λ s. s;
  jumped = λ s. s;
  quoted = λ s. s;
  looked = λ s i c q.
      if c == b'<' && (bare q && is_at line (i + 1) b'<')
      then (if is_at line (i + 2) b'<'
          then done (next s 2)
          else (do found ← heredoc_at line i; done (stop found)))
      else done (next s 0);
  finish = λ s i. done none;
}

unfoldable pub split_heredoc : Text → Outcome (Option (Heredoc × Text))
unfolding scan heredoc_handlers
split_heredoc line = scan (heredoc_handlers line) line 0 tt
