-- ===== src/Parser/Redirects/Result.antt =====
-- What `split_redirects` of src/shell/parser.rs makes of any stage.
use mimic_ssh_honeypot.Prelude.{
  ℕ, ◌+◌, ◌-◌, ◌≤◌, ◌<◌, ◌≡◌, Bool, true, false, ◌&&◌, List, [], ◌∷◌, ◌++◌, length, drop, take,
  arith, refl, Bool-cases, inl, inr, ◌⊎◌, Text, lt_of_get_elem?, if◌then◌else◌, ◌==◌,
  is_ascii_whitespace, length-append, length-take, length-drop,
}
use mimic_ssh_honeypot.Prelude.Outcome.{done}
use mimic_ssh_honeypot.Parser.{Quotes, bare, slice}
use mimic_ssh_honeypot.Parser.Substitution.{is_at}
use mimic_ssh_honeypot.Parser.Scan.{Next, stop, next}
use mimic_ssh_honeypot.Parser.Redirects.{
  Redirect, Stripping, Stripped, ok, err, Aim, at, bad, read_target, operator_start, take_redirect,
  redirect_handlers, split_redirects,
}
use mimic_ssh_honeypot.Parser.Bounds.Lists.{slice_done, is_at_get, take-length}
use mimic_ssh_honeypot.Parser.Bounds.Rule.{Rule, After, scan_rule}
use mimic_ssh_honeypot.Parser.Redirects.Targets.{
  Message, paths_length, paths_length-append, Aimed, read_target-Aimed,
}

abbrev Fits : Text → ℕ → Stripping → Type 0
Fits stage i s =
    (s.copy_from ≤ s.word_from)
    × (s.word_from ≤ i)
    × (length s.command + paths_length s.redirects ≤ s.copy_from)
    × (s.redirects ≡ [] → (s.command ≡ []) × (s.copy_from ≡ 0))

-- What `split_redirects` promises of a result.
abbrev pub Stripped-Fits : Text → Stripped → Type 0
Stripped-Fits stage (ok command redirects) =
    (length command + paths_length redirects ≤ length stage) × (redirects ≡ [] → command ≡ stage)
Stripped-Fits stage (err message) = Message message

operator_start-within :
    (s : Stripping) (i : ℕ) (prefix : Text)
    → s.word_from ≤ i
    → (s.word_from ≤ (operator_start s i prefix).1) × ((operator_start s i prefix).1 ≤ i)
unfolding operator_start
operator_start-within s i prefix le = ground (arith, le)

prefix_done :
    (stage : Text) (s : Stripping) (i : ℕ) (b : Bool)
    → s.word_from ≤ i
    → i ≤ length stage
    → (prefix : Text) × ((if b then slice stage s.word_from i else done []) ≡ done prefix)
prefix_done stage s i true from to =
    (take (i - s.word_from) (drop s.word_from stage), slice_done stage s.word_from i from to)
prefix_done stage s i false from to = ([], refl)

cons_end : (redirects : List Redirect) (r : Redirect) → redirects ++ (r ∷ []) ≡ [] → ⊥
cons_end [] r h = cc
cons_end (x ∷ redirects) r h = cc

abbrev Taken : Text → ℕ → Next Stripping Stripped → Type 0
Taken stage i n = After stage (Fits stage) (Stripped-Fits stage) i n

after_operator :
    (stage : Text) (i : ℕ)
    → i < length stage
    → (append : Bool) → is_at stage (i + 1) b'>' ≡ append
    → (i < (if append then i + 2 else i + 1)) × ((if append then i + 2 else i + 1) ≤ length stage)
after_operator stage i less true here =
    omega (arith, lt_of_get_elem? stage (i + 1) (is_at_get stage (i + 1) b'>' here))
after_operator stage i less false here = omega (arith, less)

take_redirect-Taken :
    (stage : Text) (s : Stripping) (i : ℕ)
    → i < length stage
    → Fits stage i s
    → (n : Next Stripping Stripped) × (take_redirect stage s i ≡ done n) × Taken stage i n
unfolding take_redirect
take_redirect-Taken stage s i less fits =
    let (prefix, e) = prefix_done stage s i s.plain_word fits.1 (omega (arith, less)) in
    let append = is_at stage (i + 1) b'>' in
    let (past, le) = after_operator stage i less append refl in
    let (aim, e', aimed) = read_target-Aimed stage (if append then i + 2 else i + 1) append le in
    let (from, to) = operator_start-within s i prefix fits.1 in
    taken prefix e past from to aim e' aimed
  where
    next_at : ℕ
    next_at = if is_at stage (i + 1) b'>' then i + 2 else i + 1

    taken :
        (prefix : Text)
        → (if s.plain_word then slice stage s.word_from i else done []) ≡ done prefix
        → i < next_at
        → s.word_from ≤ (operator_start s i prefix).1
        → (operator_start s i prefix).1 ≤ i
        → (aim : Aim) → read_target stage next_at (is_at stage (i + 1) b'>') ≡ done aim
        → Aimed stage next_at aim
        → (n : Next Stripping Stripped) × (take_redirect stage s i ≡ done n) × Taken stage i n
    taken prefix e past from to (bad m) e' message =
        (stop (err m), rw (take_redirect, e, e') refl, message)
    taken prefix e past from to (at target end) e' (ahead, within, fit) =
        let op_start = (operator_start s i prefix).1 in
        let kept = take (op_start - s.copy_from) (drop s.copy_from stage) in
        let redirect : Redirect = record {
          stream = (operator_start s i prefix).0;
          target = target;
        } in
        let taken_whole =
          slice_done stage s.copy_from op_start (omega (arith, fits.0, from))
            (omega (arith, to, less)) in
        let on : i + 1 + (end - i - 1) ≡ end = omega (arith, past, ahead) in
        (
          next
              (record {
                command = s.command ++ kept;
                redirects = s.redirects ++ (redirect ∷ []);
                copy_from = end;
                word_from = end;
                plain_word = true;
              })
              (end - i - 1),
          rw (take_redirect, e, e', taken_whole) refl,
          (
            omega (arith, on, within),
            (
              omega arith,
              omega (arith, on),
              omega (
                arith,
                fits.2,
                fits.0,
                from,
                to,
                past,
                fit,
                length-append s.command kept,
                length-take (op_start - s.copy_from) (drop s.copy_from stage),
                length-drop s.copy_from stage,
                paths_length-append s.redirects redirect,
              ),
              λ none_left. absurd (cons_end s.redirects redirect none_left),
            ),
          ),
        )

redirect_handlers-Rule :
    (stage : Text) → Rule stage (Fits stage) (Stripped-Fits stage) (redirect_handlers stage)
unfolding redirect_handlers
redirect_handlers-Rule stage = record {
  passed-keeps = λ i s p. (p.0, omega (arith, p.1), p.2, p.3);
  quoted-keeps = λ i s p. (p.0, omega (arith, p.1), p.2, p.3);
  jumped-keeps = λ i e s less ends p. (p.0, omega (arith, p.1, less), p.2, p.3);
  looked-keeps = λ i c q s here p.
      looked i c q s (lt_of_get_elem? stage i here) p (Bool-cases (c == b'>' && bare q));
  finish-keeps = λ s p.
      let kept = take (length stage - s.copy_from) (drop s.copy_from stage) in
      (
        ok (s.command ++ kept) s.redirects,
        rw (slice_done stage s.copy_from (length stage) (omega (arith, p.0, p.1)) (omega arith))
            refl,
        (
          omega (
            arith,
            p.0,
            p.1,
            p.2,
            length-append s.command kept,
            length-take (length stage - s.copy_from) (drop s.copy_from stage),
            length-drop s.copy_from stage,
          ),
          λ none_left. untouched s (p.3 none_left),
        ),
      );
}
  where
    untouched :
        (s : Stripping)
        → (s.command ≡ []) × (s.copy_from ≡ 0)
        → s.command ++ take (length stage - s.copy_from) (drop s.copy_from stage) ≡ stage
    untouched s (nothing, start) =
        let all : length stage - 0 ≡ length stage = omega arith in
        rw (nothing, start, all) (take-length stage)

    looked :
        (i c : ℕ) (q : Quotes) (s : Stripping)
        → i < length stage
        → Fits stage i s
        → ((c == b'>' && bare q) ≡ true) ⊎ ((c == b'>' && bare q) ≡ false)
        → (n : Next Stripping Stripped) × ((redirect_handlers stage).looked s i c q ≡ done n)
          × Taken stage i n
    looked i c q s less p (inl operator) = rw operator (take_redirect-Taken stage s i less p)
    looked i c q s less p (inr other) = rw other (moved (is_ascii_whitespace c && bare q))
      where
        moved :
            (space : Bool)
            → (n : Next Stripping Stripped) × (done
                  (next (if space then record s { word_from = i + 1; plain_word = true } else s) 0)
                ≡ done n)
              × Taken stage i n
        moved true = (
          next (record s { word_from = i + 1; plain_word = true }) 0,
          refl,
          (omega (arith, less), (omega (arith, p.0, p.1), omega arith, p.2, p.3)),
        )
        moved false = (next s 0, refl, (omega (arith, less), (p.0, omega (arith, p.1), p.2, p.3)))

-- `split_redirects` returns on every stage: an error is one of its two texts, and the command and the
-- target paths that it returns take no more bytes than the stage, with the command the whole stage when
-- no redirection was found.
pub split_redirects-Fits :
    (stage : Text)
    → (result : Stripped) × (split_redirects stage ≡ done result) × Stripped-Fits stage result
unfolding split_redirects
split_redirects-Fits stage =
    scan_rule (redirect_handlers stage) stage (Fits stage) (Stripped-Fits stage)
      (redirect_handlers-Rule stage) 0
      (record { command = []; redirects = []; copy_from = 0; word_from = 0; plain_word = true })
      (omega arith) (omega arith, omega arith, omega arith, λ e. (refl, refl))
