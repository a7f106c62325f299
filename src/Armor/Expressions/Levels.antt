-- ===== src/Armor/Expressions/Levels.antt =====
-- What it is for a text of tokens to be read back as a tree, at each level of the parser of Cloud Armor's
-- expressions, and that each level gives the looser ones.
use mathlib.Core.List.{append_assoc}
use kinglet.Base.{ℕ, ◌≡◌, refl, sym, ap, subst, [], ◌∷◌, ◌++◌, ok, ◌>>=◌}
use kinglet.Armor.Expressions.{Tokens, Ast, lparen, rparen, mark}
use kinglet.Armor.Expressions.Parser
use kinglet.Armor.Expressions.Printer.{guarded, in_parens}
use kinglet.Armor.Expressions.Steps.{
  Yields, Yields-then, Yields-ok, postfix_of_primary, unary_of_postfix, add_of_unary,
  comparison_of_add, and_of_comparison, or_of_and, EndsPostfix, EndsComparison, EndsAnd, EndsOr,
  postfix_stops, add_stops, comparison_stops, and_stops, or_stops,
}

module _ (t : Tokens) (e : Ast) where
  abbrev pub AsPrimary : Type 0
  AsPrimary = (rest : Tokens) → Yields (λ f. Parser.parse_primary f (t ++ rest)) (e, rest)

  abbrev pub AsPostfix : Type 0
  AsPostfix =
      (rest : Tokens) (x : Ast × Tokens)
      → Yields (λ f. Parser.postfix_loop f e rest) x
      → Yields (λ f. Parser.parse_postfix f (t ++ rest)) x

  abbrev pub AsUnary : Type 0
  AsUnary =
      (rest : Tokens) → EndsPostfix rest → Yields (λ f. Parser.parse_unary f (t ++ rest)) (e, rest)

  abbrev pub AsAdd : Type 0
  AsAdd =
      (rest : Tokens) (x : Ast × Tokens)
      → EndsPostfix rest
      → Yields (λ f. Parser.add_loop f e rest) x
      → Yields (λ f. Parser.parse_add f (t ++ rest)) x

  abbrev pub AsComparison : Type 0
  AsComparison =
      (rest : Tokens)
      → EndsComparison rest
      → Yields (λ f. Parser.parse_comparison f (t ++ rest)) (e, rest)

  abbrev pub AsAnd : Type 0
  AsAnd =
      (rest : Tokens) (x : Ast × Tokens)
      → EndsComparison rest
      → Yields (λ f. Parser.and_loop f e rest) x
      → Yields (λ f. Parser.parse_and f (t ++ rest)) x

  abbrev pub AsOr : Type 0
  AsOr =
      (rest : Tokens) (x : Ast × Tokens)
      → EndsAnd rest
      → Yields (λ f. Parser.or_loop f e rest) x
      → Yields (λ f. Parser.parse_or f (t ++ rest)) x

  abbrev pub AsWhole : Type 0
  AsWhole = (rest : Tokens) → EndsOr rest → Yields (λ f. Parser.parse_or f (t ++ rest)) (e, rest)

  pub postfix_from : AsPrimary → AsPostfix
  postfix_from p rest x loop = postfix_of_primary e (t ++ rest) rest x (p rest) loop

  pub unary_from : AsPostfix → AsUnary
  unary_from p rest ends =
      unary_of_postfix (t ++ rest) (e, rest) (p rest (e, rest) (postfix_stops e rest ends))

  pub add_from : AsUnary → AsAdd
  add_from p rest x ends loop = add_of_unary e (t ++ rest) rest x (p rest ends) loop

  pub comparison_from : AsAdd → AsComparison
  comparison_from p rest ((ends, a), b, c) =
      comparison_of_add e (t ++ rest) rest (e, rest) (p rest (e, rest) ends (add_stops e rest a))
        (comparison_stops e rest b c)

  pub and_from : AsComparison → AsAnd
  and_from p rest x ends loop = and_of_comparison e (t ++ rest) rest x (p rest ends) loop

  pub or_from : AsAnd → AsOr
  or_from p rest x (ends, a) loop =
      or_of_and e (t ++ rest) rest x (p rest (e, rest) ends (and_stops e rest a)) loop

  pub whole_from : AsOr → AsWhole
  whole_from p rest (ends, a) = p rest (e, rest) ends (or_stops e rest a)

parens_rest : (t rest : Tokens) → in_parens t ++ rest ≡ mark lparen ∷ (t ++ mark rparen ∷ rest)
parens_rest t rest = ap (λ l. mark lparen ∷ l) (append_assoc t (mark rparen ∷ []) rest)

-- In parentheses, a whole expression is a primary.
pub parens_from : (t : Tokens) (e : Ast) → AsWhole t e → AsPrimary (in_parens t) e
unfolding Parser.parse_primary Parser.expect
parens_from t e whole rest =
    subst (λ (l : Tokens). Yields (λ f. Parser.parse_primary f l) (e, rest))
      (sym (parens_rest t rest))
      (Yields-then (λ f. Parser.parse_primary f (mark lparen ∷ (t ++ mark rparen ∷ rest)))
        (λ f. Parser.parse_or f (t ++ mark rparen ∷ rest))
        (λ p f. Parser.expect rparen p.1 >>= λ after. ok (p.0, after)) (e, mark rparen ∷ rest)
        (e, rest) (λ f. refl)
        (whole (mark rparen ∷ rest) (((((refl, refl, refl), refl), refl, refl), refl), refl))
        (Yields-ok (e, rest)))

-- A tree of a level that is written as the tokens, where each level is due.
pub record Reads (level : ℕ) (t : Tokens) (e : Ast) : Type 0 where
  pub as_or : AsOr t e
  pub as_and : AsAnd (guarded 2 level t) e
  pub as_comparison : AsComparison (guarded 3 level t) e
  pub as_add : AsAdd (guarded 4 level t) e
  pub as_unary : AsUnary (guarded 5 level t) e
  pub as_postfix : AsPostfix (guarded 6 level t) e

module _ (t : Tokens) (e : Ast) where
  wrapped : AsOr t e → AsPostfix (in_parens t) e
  wrapped p = postfix_from (in_parens t) e (parens_from t e (whole_from t e p))

  wrapped_unary : AsOr t e → AsUnary (in_parens t) e
  wrapped_unary p = unary_from (in_parens t) e (wrapped p)

  wrapped_add : AsOr t e → AsAdd (in_parens t) e
  wrapped_add p = add_from (in_parens t) e (wrapped_unary p)

  wrapped_comparison : AsOr t e → AsComparison (in_parens t) e
  wrapped_comparison p = comparison_from (in_parens t) e (wrapped_add p)

  wrapped_and : AsOr t e → AsAnd (in_parens t) e
  wrapped_and p = and_from (in_parens t) e (wrapped_comparison p)

  pub or-Reads : AsOr t e → Reads 1 t e
  or-Reads p = record {
    as_or = p;
    as_and = wrapped_and p;
    as_comparison = wrapped_comparison p;
    as_add = wrapped_add p;
    as_unary = wrapped_unary p;
    as_postfix = wrapped p;
  }

  pub and-Reads : AsAnd t e → Reads 2 t e
  and-Reads p =
      let q = or_from t e p in
      record {
        as_or = q;
        as_and = p;
        as_comparison = wrapped_comparison q;
        as_add = wrapped_add q;
        as_unary = wrapped_unary q;
        as_postfix = wrapped q;
      }

  pub comparison-Reads : AsComparison t e → Reads 3 t e
  comparison-Reads p =
      let q = or_from t e (and_from t e p) in
      record {
        as_or = q;
        as_and = and_from t e p;
        as_comparison = p;
        as_add = wrapped_add q;
        as_unary = wrapped_unary q;
        as_postfix = wrapped q;
      }

  pub add-Reads : AsAdd t e → Reads 4 t e
  add-Reads p =
      let c = comparison_from t e p in
      let q = or_from t e (and_from t e c) in
      record {
        as_or = q;
        as_and = and_from t e c;
        as_comparison = c;
        as_add = p;
        as_unary = wrapped_unary q;
        as_postfix = wrapped q;
      }

  pub unary-Reads : AsUnary t e → Reads 5 t e
  unary-Reads p =
      let c = comparison_from t e (add_from t e p) in
      let q = or_from t e (and_from t e c) in
      record {
        as_or = q;
        as_and = and_from t e c;
        as_comparison = c;
        as_add = add_from t e p;
        as_unary = p;
        as_postfix = wrapped q;
      }

  pub postfix-Reads : AsPostfix t e → Reads 6 t e
  postfix-Reads p =
      let u = unary_from t e p in
      let c = comparison_from t e (add_from t e u) in
      record {
        as_or = or_from t e (and_from t e c);
        as_and = and_from t e c;
        as_comparison = c;
        as_add = add_from t e u;
        as_unary = u;
        as_postfix = p;
      }

  pub primary-Reads : AsPrimary t e → Reads 7 t e
  primary-Reads p =
      let r = postfix-Reads (postfix_from t e p) in
      record {
        as_or = r.as_or;
        as_and = r.as_and;
        as_comparison = r.as_comparison;
        as_add = r.as_add;
        as_unary = r.as_unary;
        as_postfix = r.as_postfix;
      }

  pub key_from : AsOr t e → AsWhole (in_parens t) e
  key_from p = whole_from (in_parens t) e (or_from (in_parens t) e (wrapped_and p))
