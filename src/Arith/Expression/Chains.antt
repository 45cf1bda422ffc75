-- ===== src/Arith/Expression/Chains.antt =====
-- One level of the evaluator of src/shell/arith.rs, on any operand.
use mimic_ssh_honeypot.Prelude.{
  ℕ, zero, suc, ◌≤◌, ◌<◌, ◌≡◌, Bool, true, Option, none, some, List, ◌∷◌, length, arith, refl, ◌∙◌,
  Option-cases, inl, inr,
}
use mimic_ssh_honeypot.Prelude.Outcome.{done}
use mimic_ssh_honeypot.Arith.Tokens.{Op, Token, op}
use mimic_ssh_honeypot.Arith.Evaluate.{Parsed, and_then, eat_any, chain_loop, level}
use mimic_ssh_honeypot.Arith.Total.{IsTotal, Within, eat_any_lt}
use mimic_ssh_honeypot.Arith.Expression.{combine}

module _ (operand : List Token → Parsed) (ops : Op → Bool) (f : Op → ℕ → ℕ → Option ℕ) where
  -- More fuel than tokens is enough.
  chain_fuel :
      IsTotal operand
      → (m n left : ℕ) (tokens : List Token) → length tokens < m
      → length tokens < n
      → chain_loop operand ops f m left tokens ≡ chain_loop operand ops f n left tokens
  unfolding chain_loop
  chain_fuel total zero n left tokens hm hn = absurd (omega (arith, hm))
  chain_fuel total (suc m) zero left tokens hm hn = absurd (omega (arith, hn))
  chain_fuel total (suc m) (suc n) left tokens hm hn = elim (Option-cases (eat_any ops tokens)) [
    | inl stops ↦ rw (chain_loop, stops) refl
    | inr ((o, rest), goes) ↦
        let (r, e, w) = total rest in
        operated o rest goes r e w (λ v tokens' le.
          chain_fuel total m n v tokens' (omega (arith, hm, le, eat_any_lt ops tokens o rest goes))
            (omega (arith, hn, le, eat_any_lt ops tokens o rest goes)))
  ]
    where
      operated :
          (o : Op) (rest : List Token)
          → eat_any ops tokens ≡ some (o, rest)
          → (r : Option (ℕ × List Token)) → operand rest ≡ done r
          → Within rest r
          → ((v : ℕ) (tokens' : List Token)
              → length tokens' ≤ length rest
              → chain_loop operand ops f m v tokens' ≡ chain_loop operand ops f n v tokens')
          → chain_loop operand ops f (suc m) left tokens
            ≡ chain_loop operand ops f (suc n) left tokens
      operated o rest goes none e w onwards = rw (chain_loop, goes, e) refl
      operated o rest goes (some (right, tokens')) e w onwards =
          elim (Option-cases (f o left right)) [
            | inl fails ↦ rw (chain_loop, goes, e, fails) refl
            | inr (v, gives) ↦ rw (chain_loop, goes, e, gives) (onwards v tokens' w)
          ]

  -- The loop on the tokens after a value.
  abbrev pub loop : List Token → ℕ → Parsed
  loop rest v = chain_loop operand ops f (suc (length rest)) v rest

  abbrev pub stopped : List Token → ℕ → Parsed
  stopped rest v = done (some (v, rest))

  -- The loop ends where no operator of the level stands.
  pub loop-stopped :
      (rest : List Token) (v : ℕ) → eat_any ops rest ≡ none → loop rest v ≡ stopped rest v
  unfolding chain_loop
  loop-stopped rest v h = rw (chain_loop, h) refl

  pub level_lift :
      (tokens rest : List Token) (o : Option ℕ)
      → operand tokens ≡ and_then (done o) (stopped rest)
      → level operand ops f tokens ≡ and_then (done o) (loop rest)
  unfolding level
  level_lift tokens rest none e = rw e refl
  level_lift tokens rest (some v) e = rw e refl

  -- A left operand, an operator of the level and a right operand.
  pub level_binary :
      IsTotal operand
      → (o : Op) (start right rest : List Token) (x y : Option ℕ) → ops o ≡ true
      → level operand ops f start ≡ and_then (done x) (loop (op o ∷ right))
      → operand right ≡ and_then (done y) (stopped rest)
      → length rest ≤ length right
      → level operand ops f start ≡ and_then (done (combine (f o) x y)) (loop rest)
  unfolding chain_loop
  level_binary total o start right rest none y h left e le = left
  level_binary total o start right rest (some x) none h left e le =
      left ∙ rw (chain_loop, h, e) refl
  level_binary total o start right rest (some x) (some y) h left e le =
      left ∙ elim (Option-cases (f o x y)) [
        | inl fails ↦ rw (chain_loop, h, e, fails) refl
        | inr (v, gives) ↦
            rw (chain_loop, h, e, gives)
              (chain_fuel total (suc (length right)) (suc (length rest)) v rest (omega (arith, le))
                (omega arith))
      ]
