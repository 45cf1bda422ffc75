-- ===== src/Line/Screen.antt =====
-- What src/shell/line.rs writes to the terminal, and completion.
use mimic_ssh_honeypot.Prelude.{
  ℕ, ◌+◌, ◌-◌, Bool, true, false, not, Option, none, some, List, [], ◌∷◌, ◌++◌, length, take, drop,
  ltb, if◌then◌else◌, all, codes, Text, is_ascii_whitespace, get_elem?,
}
use mimic_ssh_honeypot.Prelude.Utf8.{decimal, from_utf8_lossy}
use mimic_ssh_honeypot.Prelude.Outcome.{Outcome, done, ◌>>=◌, or_panic}
use mimic_ssh_honeypot.Line.{LineEditor, Search, Reaction, write}
use mimic_ssh_honeypot.Line.Slices.{
  tail_from, back_while, char_start, count_chars, crlf, ends_with_newline,
}

abbrev cursor_back : ℕ → List ℕ
cursor_back back = if ltb 0 back then 27 ∷ 91 ∷ (decimal back ++ codes "D") else []

-- What `redraw` writes, where `tail` is the line from the cursor on.
abbrev pub line_drawn : LineEditor → List ℕ → List ℕ
line_drawn e tail =
    13 ∷ (e.prompt ++ (e.buf ++ (27 ∷ codes "[K") ++ cursor_back (count_chars tail)))

unfoldable pub redraw : LineEditor → Outcome (List ℕ)
redraw e = do tail ← tail_from e.buf e.cursor; done (line_drawn e tail)

unfoldable pub render : LineEditor → Outcome (List ℕ)
unfolding redraw
render e = redraw e

-- `Reaction::Write(self.redraw())`
abbrev pub redrawn : LineEditor → Outcome (LineEditor × Reaction)
redrawn e = do out ← redraw e; done (e, write out)

abbrev pub in_word : ℕ → Bool
in_word b = not (is_ascii_whitespace b)

unfoldable pub word_start : LineEditor → Outcome ℕ
unfolding back_while
word_start e = back_while in_word e.buf e.cursor

unfoldable pub current_word : LineEditor → Outcome (Text × Bool)
unfolding word_start
current_word e = do
  start ← word_start e
  done (
    from_utf8_lossy (take (e.cursor - start) (drop start e.buf)),
    all is_ascii_whitespace (take start e.buf),
  )

-- What of `tail` is kept where the line is too long: the first `room` bytes, less a character that the
-- cut would break.
unfoldable pub cut_tail : List ℕ → ℕ → Bool → Outcome (List ℕ)
unfolding char_start
cut_tail tail room false = done tail
cut_tail tail room true = do keep ← char_start tail room; done (take keep tail)

unfoldable pub apply_completion : LineEditor → Text → Bool → Outcome (LineEditor × List ℕ)
unfolding word_start redraw cut_tail
apply_completion e replacement add_space = do
  start ← word_start e
  tail ← tail_from e.buf e.cursor
  let buf = take start (take e.cursor e.buf) ++ replacement ++ (if add_space then 32 ∷ [] else [])
  tail' ← cut_tail tail (e.max_line - length buf) (ltb e.max_line (length buf + length tail))
  let e' = record e { buf = buf ++ tail'; cursor = length buf }
  out ← redraw e'
  done (e', out)

unfoldable pub show_listing : LineEditor → Text → Outcome (List ℕ)
show_listing e listing = do
  out ← redraw e
  done (13 ∷ 10 ∷ (crlf listing ++ (if ends_with_newline listing then [] else 13 ∷ 10 ∷ []) ++ out))

-- `history[i]` of the match, or an empty line.
abbrev pub matched_line : List Text → Option ℕ → Outcome Text
matched_line history none = done []
matched_line history (some i) = or_panic (get_elem? history i)

-- What `render_search` writes, where `line` is the match.
abbrev pub search_drawn : Search → Text → List ℕ
search_drawn s line =
    13 ∷ (codes "(reverse-i-search)`" ++ (s.query ++ (codes "': " ++ (line ++ (27 ∷ codes "[K")))))

unfoldable pub render_search : LineEditor → Outcome (List ℕ)
unfolding redraw
render_search e = elim e.search [
  | none ↦ redraw e
  | some s ↦ do line ← matched_line e.history s.matched; done (search_drawn s line)
]
