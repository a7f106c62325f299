-- ===== src/Armor/Expressions/Measure.antt =====
-- What a call of the parser of Cloud Armor's expressions leaves, by length, and what chains of calls leave.
use mathlib.Core.List.{tail}
use kinglet.Base.{
  ℕ, suc, ◌≤◌, ◌≡◌, ◌≢◌, refl, Bool, true, false, Option, none, some, [], ◌∷◌, arith, ok, err,
  ◌>>=◌, length,
}
use kinglet.Armor.Expressions.{
  Tokens, Mark, Comparison, Ast, next_is, comparison_op, ident_token, number_token, string_token,
  boolean_token, compare_token, mark, out_of_fuel, expected,
}
use kinglet.Armor.Expressions.Parser
use kinglet.Armor.Expressions.Parser.{Parsed}

-- The call has not run out of fuel, and what it leaves is shorter than the number.
abbrev pub Fine : {A : Type 0} → ℕ → Parsed A → Type 0
Fine n (ok (a, rest)) = suc (length rest) ≤ n
Fine n (err e) = e ≢ out_of_fuel

pub Fine-bind :
    {A B : Type 0} (n m : ℕ) (r : Parsed A) (q : A × Tokens → Parsed B)
    → Fine n r
    → ((a : A) (rest : Tokens) → suc (length rest) ≤ n → Fine m (q (a, rest)))
    → Fine m (r >>= q)
Fine-bind n m (ok (a, rest)) q fine next = next a rest fine
Fine-bind n m (err e) q fine next = fine

pub Fine-if :
    {A : Type 0} (n : ℕ) (b : Bool) (x y : Parsed A)
    → (b ≡ true → Fine n x)
    → (b ≡ false → Fine n y)
    → Fine n (elim b [ true ↦ x | false ↦ y ])
Fine-if n true x y yes_case no_case = yes_case refl
Fine-if n false x y yes_case no_case = no_case refl

pub shorter : (m : Mark) (ts : Tokens) → next_is m ts ≡ true → suc (length (tail ts)) ≤ length ts
shorter m [] h = absurd (ground (arith, h))
shorter m (t ∷ ts) h = omega arith

expected_or :
    {B : Type 0} (n : ℕ) (b : Bool) (ts rest : Tokens) (q : Tokens → Parsed B) (m : Mark)
    → (b ≡ true → Fine n (q rest))
    → Fine n (elim b [ true ↦ ok rest | false ↦ err (expected m ts) ] >>= q)
expected_or n true ts rest q m next = next refl
expected_or n false ts rest q m next = λ e. ground (arith, e)

pub expect-bind :
    {B : Type 0} (m : Mark) (n : ℕ) (ts : Tokens) (q : Tokens → Parsed B)
    → ((rest : Tokens) → suc (length rest) ≤ length ts → Fine n (q rest))
    → Fine n (Parser.expect m ts >>= q)
unfolding Parser.expect
expect-bind m n ts q next =
    expected_or n (next_is m ts) ts (tail ts) q m (λ hit. next (tail ts) (shorter m ts hit))

pub operand-Fine :
    (n : ℕ) (o : Option Comparison) (e : Ast) (ts : Tokens) (x : Comparison → Parsed Ast)
    → suc (length ts) ≤ n
    → ((op : Comparison) → o ≡ some op → Fine n (x op))
    → Fine n (elim o [ none ↦ ok (e, ts) | some op ↦ x op ])
operand-Fine n none e ts x le next = le
operand-Fine n (some op) e ts x le next = next op refl

pub ident-Fine : (ts : Tokens) → Fine (length ts) (Parser.expect_ident ts)
unfolding Parser.expect_ident
ident-Fine [] = λ e. ground (arith, e)
ident-Fine (ident_token s ∷ ts) = omega arith
ident-Fine (string_token s ∷ ts) = λ e. ground (arith, e)
ident-Fine (number_token s ∷ ts) = λ e. ground (arith, e)
ident-Fine (boolean_token b ∷ ts) = λ e. ground (arith, e)
ident-Fine (compare_token c ∷ ts) = λ e. ground (arith, e)
ident-Fine (mark m ∷ ts) = λ e. ground (arith, e)

pub comparison-tail :
    (c : Comparison) (ts : Tokens) → comparison_op ts ≡ some c → suc (length (tail ts)) ≤ length ts
comparison-tail c [] h = absurd (ground (arith, h))
comparison-tail c (t ∷ ts) h = omega arith
