-- ===== src/Parser/Segments.antt =====
-- Comments, compound lines and pipelines of src/shell/parser.rs.
pub mod Joined
pub mod Stages
pub mod Pieces
pub mod Quoted
pub mod Comments
use mimic_ssh_honeypot.Prelude.{
  ℕ, ◌+◌, ◌-◌, Bool, true, false, not, ◌&&◌, ◌||◌, Option, none, some, List, [], ◌∷◌, ◌++◌, take,
  length, ◌==◌, if◌then◌else◌, Text, is_ascii_whitespace,
}
use mimic_ssh_honeypot.Prelude.Outcome.{Outcome, done, ◌>>=◌}
use mimic_ssh_honeypot.Parser.{Quotes, bare, slice}
use mimic_ssh_honeypot.Parser.Substitution.{is_at}
use mimic_ssh_honeypot.Parser.Scan.{Handlers, Next, stop, next, scan}

-- `b';' | b'&' | b'|'`
abbrev is_operator : ℕ → Bool
is_operator c = c == b';' || c == b'&' || c == b'|'

-- The state is `word_start`.
unfoldable pub comment_handlers : Text → Handlers Bool Text
comment_handlers line = record {
  passed = λ word_start. false;
  jumped = λ word_start. false;
  quoted = λ word_start. false;
  looked = λ word_start i c q.
      if c == b'#' && (word_start && bare q)
      then (do text ← slice line 0 i; done (stop text))
      else done (next ((is_operator c || is_ascii_whitespace c) && bare q) 0);
  finish = λ word_start i. done line;
}

unfoldable pub strip_comment : Text → Outcome Text
unfolding scan comment_handlers
strip_comment line = scan (comment_handlers line) line 0 true

pub data Separator : Type 0 where
  always and_if or_if : Separator

pub record Segment : Type 0 where
  pub run_if : Separator
  pub text : Text

pub record Splitting : Type 0 where
  pub segments : List Segment
  pub run_if : Separator
  pub start : ℕ

-- The operator at `i`, if there is one: its width, and what it makes of the next segment.
unfoldable pub separator_at : Text → ℕ → ℕ → Option (ℕ × Separator)
separator_at line i c =
    if c == b';'
    then some (1, always)
    else if c == b'&' && is_at line (i + 1) b'&'
    then some (2, and_if)
    else if c == b'|' && is_at line (i + 1) b'|'
    then some (2, or_if)
    else none

-- `segments.push(..)` of the text up to `i`.
abbrev pub push_segment : Text → Splitting → ℕ → Outcome (List Segment)
push_segment line s i = do
  text ← slice line s.start i
  done (s.segments ++ (record { run_if = s.run_if; text = text } ∷ []))

unfoldable pub cut_segment :
    Text → Splitting → ℕ → Option (ℕ × Separator) → Outcome (Next Splitting (List Segment))
cut_segment line s i none = done (next s 0)
cut_segment line s i (some (width, after)) = do
  segments ← push_segment line s i
  done (next (record { segments = segments; run_if = after; start = i + width }) (width - 1))

unfoldable pub segment_handlers : Text → Handlers Splitting (List Segment)
unfolding separator_at cut_segment
segment_handlers line = record {
  passed = λ s. s;
  jumped = λ s. s;
  quoted = λ s. s;
  looked = λ s i c q. cut_segment line s i (if bare q then separator_at line i c else none);
  finish = λ s i. push_segment line s (length line);
}

unfoldable pub split_segments : Text → Outcome (List Segment)
unfolding scan segment_handlers
split_segments line =
    scan (segment_handlers line) line 0 (record { segments = []; run_if = always; start = 0 })

pub record Staging : Type 0 where
  pub stages : List Text
  pub start : ℕ

abbrev pub push_stage : Text → Staging → ℕ → Outcome (List Text)
push_stage segment s i = do text ← slice segment s.start i; done (s.stages ++ (text ∷ []))

unfoldable pub stage_handlers : Text → Handlers Staging (List Text)
stage_handlers segment = record {
  passed = λ s. s;
  jumped = λ s. s;
  quoted = λ s. s;
  looked = λ s i c q.
      if c == b'|' && bare q
      then (do
        stages ← push_stage segment s i
        done (next (record { stages = stages; start = i + 1 }) 0))
      else done (next s 0);
  finish = λ s i. push_stage segment s (length segment);
}

unfoldable pub split_pipeline : Text → Outcome (List Text)
unfolding scan stage_handlers
split_pipeline segment = scan (stage_handlers segment) segment 0 (record { stages = []; start = 0 })
