-- ===== src/Armor/Expressions/Sequences.antt =====
-- The parser of Cloud Armor's expressions on what lists of elements are written as.
use mathlib.Core.List.{append_assoc}
use kinglet.Base.{◌≡◌, refl, sym, subst, true, false, [], ◌∷◌, ◌++◌, arith, ok, ◌>>=◌, nat_beq}
use kinglet.Armor.Expressions.{
  Tokens, Mark, Ast, Asts, next_is, is_mark, mark, comma, rparen, rbrack, rbrace, no_asts, ast,
  code,
}
use kinglet.Armor.Expressions.Parser
use kinglet.Armor.Expressions.Printer.{show, show_elements, show_more}
use kinglet.Armor.Expressions.Steps.{Yields, Yields-then, Yields-now, Yields-ok, EndsOr}
use kinglet.Armor.Expressions.Levels.{AsWhole}

-- The first token is no closing one.
abbrev pub Begins : Tokens → Type 0
Begins [] = true ≡ false
Begins (t ∷ ts) =
    (is_mark rparen t ≡ false) × (is_mark rbrack t ≡ false) × (is_mark rbrace t ≡ false)

-- A token that closes a list.
pub record IsClose (close : Mark) : Type 0 where
  pub ends : (rest : Tokens) → EndsOr (mark close ∷ rest)
  pub no_comma : nat_beq (code close) (code comma) ≡ false
  pub own : nat_beq (code close) (code close) ≡ true
  pub opens : (ts rest : Tokens) → Begins ts → next_is close (ts ++ rest) ≡ false

rparen-opens : (ts rest : Tokens) → Begins ts → next_is rparen (ts ++ rest) ≡ false
rparen-opens [] rest b = absurd (ground (arith, b))
rparen-opens (t ∷ ts) rest (a, b, c) = a

pub rparen-IsClose : IsClose rparen
rparen-IsClose = record {
  ends = λ rest. (((((refl, refl, refl), refl), refl, refl), refl), refl);
  no_comma = refl;
  own = refl;
  opens = rparen-opens;
}

rbrack-opens : (ts rest : Tokens) → Begins ts → next_is rbrack (ts ++ rest) ≡ false
rbrack-opens [] rest b = absurd (ground (arith, b))
rbrack-opens (t ∷ ts) rest (a, b, c) = b

pub rbrack-IsClose : IsClose rbrack
rbrack-IsClose = record {
  ends = λ rest. (((((refl, refl, refl), refl), refl, refl), refl), refl);
  no_comma = refl;
  own = refl;
  opens = rbrack-opens;
}

-- What follows an element of a list.
more-EndsOr : (es : Asts) (rest : Tokens) → EndsOr rest → EndsOr (show_more es ++ rest)
unfolding show_more
more-EndsOr no_asts rest ends = ends
more-EndsOr (ast e es) rest ends = (((((refl, refl, refl), refl), refl, refl), refl), refl)

abbrev pub AsMore : Asts → Type 0
AsMore es =
    (e : Ast) (rest : Tokens)
    → EndsOr rest
    → next_is comma rest ≡ false
    → Yields (λ f. Parser.more_elements f e (show_more es ++ rest)) (ast e es, rest)

pub loop-read :
    (e : Ast) (es : Asts) (rest : Tokens)
    → AsWhole (show e) e
    → AsMore es
    → EndsOr rest
    → next_is comma rest ≡ false
    → Yields (λ f. Parser.element_loop f ((show e ++ show_more es) ++ rest)) (ast e es, rest)
unfolding Parser.element_loop
loop-read e es rest whole more ends last =
    subst (λ (l : Tokens). Yields (λ f. Parser.element_loop f l) (ast e es, rest))
      (sym (append_assoc (show e) (show_more es) rest))
      (Yields-then _ (λ f. Parser.parse_or f (show e ++ (show_more es ++ rest)))
        (λ y f. Parser.more_elements f y.0 y.1) (e, show_more es ++ rest) (ast e es, rest)
        (λ f. refl) (whole (show_more es ++ rest) (more-EndsOr es rest ends))
        (more e rest ends last))

pub no_more : AsMore no_asts
unfolding show_more Parser.more_elements
no_more e rest ends last = Yields-now _ (ast e no_asts, rest) (λ f. ground (arith, last))

pub one_more : (e : Ast) (es : Asts) → AsWhole (show e) e → AsMore es → AsMore (ast e es)
unfolding show_more Parser.more_elements
one_more e es whole more d rest ends last =
    Yields-then _ (λ f. Parser.element_loop f ((show e ++ show_more es) ++ rest))
      (λ y f. ok (ast d y.0, y.1)) (ast e es, rest) (ast d (ast e es), rest) (λ f. refl)
      (loop-read e es rest whole more ends last) (Yields-ok (ast d (ast e es), rest))

-- Up to the closing token.
abbrev pub AsElements : Asts → Type 0
AsElements es =
    (close : Mark) (rest : Tokens)
    → IsClose close
    → Yields (λ f. Parser.parse_elements f close ((show_elements es ++ mark close ∷ []) ++ rest))
        (es, rest)

pub empty-AsElements : AsElements no_asts
unfolding show_elements Parser.parse_elements
empty-AsElements close rest c = Yields-now _ (no_asts, rest) (λ f. ground (arith, c.own))

pub elements-read :
    (e : Ast) (es : Asts)
    → AsWhole (show e) e
    → AsMore es
    → Begins (show e ++ show_more es)
    → AsElements (ast e es)
unfolding show_elements Parser.parse_elements Parser.expect
elements-read e es whole more begins close rest c =
    let ts = show e ++ show_more es in
    let after : Tokens = mark close ∷ rest in
    subst (λ (l : Tokens). Yields (λ f. Parser.parse_elements f close l) (ast e es, rest))
      (sym (append_assoc ts (mark close ∷ []) rest))
      (Yields-then _ (λ f. Parser.element_loop f (ts ++ after))
        (λ y f. Parser.expect close y.1 >>= λ r. ok (y.0, r)) (ast e es, after) (ast e es, rest)
        (λ f. ground (arith, c.opens ts after begins))
        (loop-read e es after whole more (c.ends rest) c.no_comma)
        (0, λ f h. ground (arith, c.own)))
