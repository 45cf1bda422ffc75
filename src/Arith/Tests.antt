-- ===== src/Arith/Tests.antt =====
-- Expressions of the tests of src/shell/arith.rs, and the theorems at concrete inputs.
use mimic_ssh_honeypot.Prelude.{
  ℕ, arith, Text, ◌≡◌, ◌-◌, Option, none, some, [], ◌∷◌, refl, codes, leb, ◌&&◌, ◌||◌, text_eq,
}
use mimic_ssh_honeypot.Prelude.Map.{lookup}
use mimic_ssh_honeypot.Prelude.Outcome.{done}
use mimic_ssh_honeypot.Env.{Env}
use mimic_ssh_honeypot.Arith.Int64.{modulus}
use mimic_ssh_honeypot.Arith.Tokens.{Unicode, tokenize, star, minus}
use mimic_ssh_honeypot.Arith.Evaluate.{eval}
use mimic_ssh_honeypot.Arith.Total.{eval-done}
use mimic_ssh_honeypot.Arith.Expression.{
  Expr, literal, variable, negated, binary, multiplying, adding, print, value,
}
use mimic_ssh_honeypot.Arith.Expression.Reads.{eval-print}

abbrev ascii : Unicode
ascii = record {
  is_alphabetic = λ c. (leb b'a' c && leb c b'z') || (leb b'A' c && leb c b'Z');
  is_numeric = λ c. leb b'0' c && leb c b'9';
}

abbrev env : Env
env = record { vars = (codes "n", codes " 7 ") ∷ [] }

precedence : eval ascii env (codes "2+3*4") ≡ done (some 14)
unfolding eval
precedence = refl

parentheses : eval ascii env (codes "(2+3)*4-n*-2") ≡ done (some 34)
unfolding eval lookup text_eq
parentheses = refl

truncated : eval ascii env (codes "-7/2") ≡ done (some (modulus - 3))
unfolding eval
truncated = refl

by_zero : eval ascii env (codes "1/0") ≡ done none
unfolding eval
by_zero = refl

hexadecimal : eval ascii env (codes "0x1F % 10 >= 1") ≡ done (some 1)
unfolding eval
hexadecimal = refl

too_large : eval ascii env (codes "9223372036854775808") ≡ done none
unfolding eval
too_large = refl

eval-done_example : (o : Option ℕ) × (eval ascii env (codes "1 +") ≡ done o)
eval-done_example = eval-done ascii env (codes "1 +")

-- `(2 - 3) * -(n - 1)`
abbrev tree : Expr
tree =
    binary multiplying star refl (binary adding minus refl (literal 2) (literal 3))
      (negated (binary adding minus refl (variable (codes "n")) (literal 1)))

abbrev written_tree : Text
written_tree = codes "(2 - 3) * -(n - 1)"

tree_read : tokenize ascii written_tree ≡ done (some (print tree))
unfolding tokenize
tree_read = refl

eval-print_example : eval ascii env written_tree ≡ done (value env tree)
eval-print_example = eval-print ascii env written_tree tree tree_read (omega arith)
