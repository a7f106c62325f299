-- ===== src/Armor/Expressions/Operators.antt =====
-- The parser of Cloud Armor's expressions on what each operator is written as.
use mathlib.Core.List.{append_assoc}
use kinglet.Base.{ℕ, String, refl, sym, subst, [], ◌∷◌, ◌++◌, Result, ok, ◌>>=◌}
use kinglet.Armor.Expressions.{
  Tokens, Comparison, UnaryOp, Ast, Failure, ident_token, compare_token, mark, and_mark, or_mark,
  plus, dot, lbrack, rbrack, string_lit, number, boolean, bang, negate, or_op, and_op, add_op,
  compare, lit, ident, member, index, unary, binary, Literal,
}
use kinglet.Armor.Expressions.Parser
use kinglet.Armor.Expressions.Printer.{literal_token, unary_token}
use kinglet.Armor.Expressions.Steps.{
  Yields, Yields-then, Yields-suc, Yields-now, Yields-ok, add_stops, and_stops, comparison_of_add,
}
use kinglet.Armor.Expressions.Levels.{
  AsPrimary, AsPostfix, AsUnary, AsAdd, AsComparison, AsAnd, AsOr, AsWhole,
}

pub literal-AsPrimary : (l : Literal) → AsPrimary (literal_token l ∷ []) (lit l)
unfolding Parser.parse_primary
literal-AsPrimary (string_lit s) rest = Yields-now _ (lit (string_lit s), rest) (λ f. refl)
literal-AsPrimary (number n) rest = Yields-now _ (lit (number n), rest) (λ f. refl)
literal-AsPrimary (boolean b) rest = Yields-now _ (lit (boolean b), rest) (λ f. refl)

pub ident-AsPrimary : (name : String) → AsPrimary (ident_token name ∷ []) (ident name)
unfolding Parser.parse_primary
ident-AsPrimary name rest = Yields-now _ (ident name, rest) (λ f. refl)

-- The tree that a part of the tokens gives, with the rest of the tokens moved out.
module _ (r : ℕ → Tokens → Result Failure (Ast × Tokens)) (x : Ast × Tokens) where
  pub regroup :
      (a b rest : Tokens)
      → Yields (λ f. r f (a ++ (b ++ rest))) x
      → Yields (λ f. r f ((a ++ b) ++ rest)) x
  regroup a b rest = subst (λ (l : Tokens). Yields (λ f. r f l) x) (sym (append_assoc a b rest))

pub member-AsPostfix :
    (t : Tokens) (object : Ast) (name : String)
    → AsPostfix t object
    → AsPostfix (t ++ mark dot ∷ ident_token name ∷ []) (member object name)
unfolding Parser.postfix_loop Parser.expect_ident
member-AsPostfix t object name p rest x loop =
    regroup Parser.parse_postfix x t (mark dot ∷ ident_token name ∷ []) rest (
      p (mark dot ∷ ident_token name ∷ rest) x
        (Yields-suc _ (λ f. Parser.postfix_loop f (member object name) rest) x (λ f. refl) loop))

pub index-AsPostfix :
    (t k : Tokens) (object key : Ast)
    → AsPostfix t object
    → AsWhole k key
    → AsPostfix (t ++ mark lbrack ∷ (k ++ mark rbrack ∷ [])) (index object key)
unfolding Parser.postfix_loop Parser.expect
index-AsPostfix t k object key p whole rest x loop =
    regroup Parser.parse_postfix x t (mark lbrack ∷ (k ++ mark rbrack ∷ [])) rest (
      p (mark lbrack ∷ ((k ++ mark rbrack ∷ []) ++ rest)) x (
        Yields-then _ (λ f. Parser.parse_or f ((k ++ mark rbrack ∷ []) ++ rest))
          (λ y f.
            Parser.expect rbrack y.1 >>= λ after. Parser.postfix_loop f (index object y.0) after)
          (key, mark rbrack ∷ rest) x (λ f. refl)
          (regroup Parser.parse_or (key, mark rbrack ∷ rest) k (mark rbrack ∷ []) rest
            (whole (mark rbrack ∷ rest) (((((refl, refl, refl), refl), refl, refl), refl), refl)))
          loop))

pub unary-AsUnary :
    (op : UnaryOp) (t : Tokens) (arg : Ast)
    → AsUnary t arg
    → AsUnary (unary_token op ∷ t) (unary op arg)
unfolding Parser.parse_unary
unary-AsUnary bang t arg p rest ends =
    Yields-then _ (λ f. Parser.parse_unary f (t ++ rest)) (λ y f. ok (unary bang y.0, y.1))
      (arg, rest) (unary bang arg, rest) (λ f. refl) (p rest ends)
      (Yields-ok (unary bang arg, rest))
unary-AsUnary negate t arg p rest ends =
    Yields-then _ (λ f. Parser.parse_unary f (t ++ rest)) (λ y f. ok (unary negate y.0, y.1))
      (arg, rest) (unary negate arg, rest) (λ f. refl) (p rest ends)
      (Yields-ok (unary negate arg, rest))

pub add-AsAdd :
    (t u : Tokens) (left right : Ast)
    → AsAdd t left
    → AsUnary u right
    → AsAdd (t ++ mark plus ∷ u) (binary add_op left right)
unfolding Parser.add_loop
add-AsAdd t u left right p q rest x ends loop = regroup Parser.parse_add x t (mark plus ∷ u) rest (
    p (mark plus ∷ (u ++ rest)) x (refl, refl, refl)
      (Yields-then _ (λ f. Parser.parse_unary f (u ++ rest))
        (λ y f. Parser.add_loop f (binary add_op left y.0) y.1) (right, rest) x (λ f. refl)
        (q rest ends) loop))

pub comparison-AsComparison :
    (c : Comparison) (t u : Tokens) (left right : Ast)
    → AsAdd t left
    → AsAdd u right
    → AsComparison (t ++ compare_token c ∷ u) (binary (compare c) left right)
unfolding Parser.comparison_rest
comparison-AsComparison c t u left right p q rest ((ends, a), b, d) =
    let x : Ast × Tokens = (binary (compare c) left right, rest) in
    let after : Tokens = compare_token c ∷ (u ++ rest) in
    regroup Parser.parse_comparison x t (compare_token c ∷ u) rest (
      comparison_of_add left (t ++ after) after x
        (p after (left, after) (refl, refl, refl) (add_stops left after refl))
        (Yields-then _ (λ f. Parser.parse_add f (u ++ rest))
          (λ y f. ok (binary (compare c) left y.0, y.1)) (right, rest) x (λ f. refl)
          (q rest (right, rest) ends (add_stops right rest a)) (Yields-ok x)))

pub and-AsAnd :
    (t u : Tokens) (left right : Ast)
    → AsAnd t left
    → AsComparison u right
    → AsAnd (t ++ mark and_mark ∷ u) (binary and_op left right)
unfolding Parser.and_loop
and-AsAnd t u left right p q rest x ends loop =
    regroup Parser.parse_and x t (mark and_mark ∷ u) rest (
      p (mark and_mark ∷ (u ++ rest)) x (((refl, refl, refl), refl), refl, refl)
        (Yields-then _ (λ f. Parser.parse_comparison f (u ++ rest))
          (λ y f. Parser.and_loop f (binary and_op left y.0) y.1) (right, rest) x (λ f. refl)
          (q rest ends) loop))

pub or-AsOr :
    (t u : Tokens) (left right : Ast)
    → AsOr t left
    → AsAnd u right
    → AsOr (t ++ mark or_mark ∷ u) (binary or_op left right)
unfolding Parser.or_loop
or-AsOr t u left right p q rest x (ends, a) loop =
    regroup Parser.parse_or x t (mark or_mark ∷ u) rest (
      p (mark or_mark ∷ (u ++ rest)) x ((((refl, refl, refl), refl), refl, refl), refl)
        (Yields-then _ (λ f. Parser.parse_and f (u ++ rest))
          (λ y f. Parser.or_loop f (binary or_op left y.0) y.1) (right, rest) x (λ f. refl)
          (q rest (right, rest) ends (and_stops right rest a)) loop))
