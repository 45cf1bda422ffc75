-- ===== src/Line/Typing.antt =====
-- Typing a line into the editor of src/shell/line.rs and submitting it.
use mimic_ssh_honeypot.Prelude.{
  ℕ, ◌+◌, ◌≤◌, ◌<◌, ◌≡◌, none, some, List, [], ◌∷◌, ◌++◌, length, take, drop, arith, refl, ◌∙◌, ap,
  sym, length-append, ◌||◌, All, Text, map, inl, inr, Bool-cases, is_empty,
}
use mimic_ssh_honeypot.Prelude.Utf8.{from_utf8_lossy, lossy_from, lead, trim}
use mimic_ssh_honeypot.Prelude.Outcome.{done}
use mimic_ssh_honeypot.Line.{LineEditor, Reaction, write, submitted, idle}
use mimic_ssh_honeypot.Line.Edit
use mimic_ssh_honeypot.Line.History.{submit, push_history, is_last}
use mimic_ssh_honeypot.Line.Input.{input, input_calls, input_key, feed}

abbrev pub IsPrintable : ℕ → Type 0
IsPrintable b = (0x20 ≤ b) × (b ≤ 0x7e)

append_nil {ℓ} : {A : Type ℓ} (xs : List A) → xs ++ [] ≡ xs
append_nil [] = refl
append_nil (x ∷ xs) = ap (λ l. x ∷ l) (append_nil xs)

append_assoc {ℓ} : {A : Type ℓ} (xs ys zs : List A) → (xs ++ ys) ++ zs ≡ xs ++ (ys ++ zs)
append_assoc [] ys zs = refl
append_assoc (x ∷ xs) ys zs = ap (λ l. x ∷ l) (append_assoc xs ys zs)

lossy_from-ascii : (pending s : Text) → All IsPrintable s → lossy_from pending [] s ≡ pending ++ s
unfolding lossy_from lead
lossy_from-ascii pending [] a = sym (append_nil pending)
lossy_from-ascii pending (b ∷ s) a =
    let one : lead b ≡ some [] = ground (arith, a.0) in
    rw (lossy_from, one) (ap (λ l. pending ++ l) (lossy_from-ascii (b ∷ []) s a.1))

-- Printable ASCII is valid UTF-8: nothing is replaced.
pub from_utf8_lossy-ascii : (s : Text) → All IsPrintable s → from_utf8_lossy s ≡ s
unfolding from_utf8_lossy
from_utf8_lossy-ascii s a = lossy_from-ascii [] s a

-- The editor takes keys as they are, and the cursor is at the end of the line.
pub record IsReady (e : LineEditor) : Type 0 where
  pub calm : e.esc ≡ idle
  pub quiet : e.search ≡ none
  pub at_end : e.cursor ≡ length e.buf

input-insert : (e : LineEditor) (b : ℕ) → IsReady e → IsPrintable b → input e b ≡ Edit.insert e b
unfolding input input_calls input_key
input-insert e b ready p = ground (arith, ready.calm, ready.quiet, p.0, p.1)

input-submit : (e : LineEditor) → IsReady e → input e 13 ≡ submit e
unfolding input input_calls input_key
input-submit e ready = ground (arith, ready.calm, ready.quiet)

take_all {ℓ} : {A : Type ℓ} (xs : List A) → take (length xs) xs ≡ xs
take_all [] = refl
take_all (x ∷ xs) = ap (λ l. x ∷ l) (take_all xs)

drop_all {ℓ} : {A : Type ℓ} (xs : List A) → drop (length xs) xs ≡ []
drop_all [] = refl
drop_all (x ∷ xs) = drop_all xs

insert-at_end :
    (e : LineEditor) (b : ℕ)
    → e.cursor ≡ length e.buf
    → length e.buf < e.max_line
    → Edit.insert e b
      ≡ done (
        record e { buf = e.buf ++ (b ∷ []); cursor = e.cursor + 1; hist_pos = none },
        write (b ∷ []),
      )
unfolding Edit.insert
insert-at_end e b at room =
    ground (arith, at, room, take_all e.buf, drop_all e.buf, length-append e.buf (b ∷ []))

abbrev pub echoes : Text → List Reaction
echoes text = map (λ b. write (b ∷ [])) text

typed :
    (text : Text) (e : LineEditor)
    → IsReady e
    → All IsPrintable text
    → length e.buf + length text ≤ e.max_line
    → (e' : LineEditor) × (feed e (text ++ (13 ∷ []))
        ≡ done
            (e', echoes text ++ (submitted (13 ∷ 10 ∷ []) (from_utf8_lossy (e.buf ++ text)) ∷ [])))
      × (e'.buf ≡ [])
      × (e'.cursor ≡ 0)
      × (e'.history ≡ (push_history e (from_utf8_lossy (e.buf ++ text))).history)
unfolding feed submit push_history
typed [] e ready a room =
    let line = from_utf8_lossy (e.buf ++ []) in
    let same : from_utf8_lossy e.buf ≡ line = ap from_utf8_lossy (sym (append_nil e.buf)) in
    (
      record (push_history e line) { buf = []; cursor = 0; hist_pos = none; stash = [] },
      ground (arith, input-submit e ready, same),
      refl,
      refl,
      refl,
    )
typed (b ∷ text) e ready a room =
    let e1 = record e { buf = e.buf ++ (b ∷ []); cursor = e.cursor + 1; hist_pos = none } in
    let ready1 : IsReady e1 = record {
      calm = ready.calm;
      quiet = ready.quiet;
      at_end = omega (arith, ready.at_end, length-append e.buf (b ∷ []));
    } in
    let (e2, h2, p, q, r) =
      typed text e1 ready1 a.1 (omega (arith, room, length-append e.buf (b ∷ []))) in
    let line : (e.buf ++ (b ∷ [])) ++ text ≡ e.buf ++ (b ∷ text) =
      append_assoc e.buf (b ∷ []) text in
    let one = input-insert e b ready a.0 ∙ insert-at_end e b ready.at_end (omega (arith, room)) in
    (
      e2,
      ground (arith, one, rw line at h2),
      p,
      q,
      rw line at r
          ∙ kept e (from_utf8_lossy (e.buf ++ (b ∷ text))) (e.buf ++ (b ∷ [])) (e.cursor + 1),
    )
  where
    kept :
        (e : LineEditor) (line : Text) (buf : List ℕ) (cursor : ℕ)
        → (push_history (record e { buf = buf; cursor = cursor; hist_pos = none }) line).history
          ≡ (push_history e line).history
    kept e line buf cursor =
        elim (Bool-cases (is_empty (trim line) || is_last (trim line) e.history)) [
          | inl same ↦ ground (arith, same)
          | inr new ↦ ground (arith, new)
        ]

-- Printable ASCII that fits the cap, typed into an empty line and followed by Enter: each byte is
-- echoed as it is typed, the submitted line is exactly the text, the line is empty again, and the
-- history is what remembering the text makes of it.
pub feed-typed :
    (e : LineEditor) (text : Text)
    → IsReady e
    → e.buf ≡ []
    → All IsPrintable text
    → length text ≤ e.max_line
    → (e' : LineEditor) × (feed e (text ++ (13 ∷ []))
        ≡ done (e', echoes text ++ (submitted (13 ∷ 10 ∷ []) text ∷ [])))
      × (e'.buf ≡ [])
      × (e'.cursor ≡ 0)
      × (e'.history ≡ (push_history e text).history)
feed-typed e text ready bare a room =
    let (e', h, p, q, r) = typed text e ready a (ground (arith, bare, room)) in
    let line : from_utf8_lossy (e.buf ++ text) ≡ text =
      ap (λ l. from_utf8_lossy (l ++ text)) bare ∙ from_utf8_lossy-ascii text a in
    (e', rw line at h, p, q, rw line at r)
