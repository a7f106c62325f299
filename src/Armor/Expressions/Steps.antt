-- ===== src/Armor/Expressions/Steps.antt =====
-- The parser of Cloud Armor's expressions without its fuel: what it gives for all fuel from some amount on.
use kinglet.Base.{
  ℕ, zero, suc, max, ◌≤◌, ◌≡◌, refl, ap, ◌∙◌, false, none, [], ◌∷◌, arith, Result, ok, ◌>>=◌,
  >>=-eq-ok,
}
use kinglet.Armor.Expressions.{
  Tokens, Ast, Failure, next_is, comparison_op, or_mark, and_mark, in_mark, not_mark, minus, plus,
  dot, lbrack, lparen,
}
use kinglet.Armor.Expressions.Parser

-- From some amount of fuel on, the result is the value.
abbrev pub Yields : {A : Type 0} → (ℕ → Result Failure A) → A → Type 0
Yields r x = (least : ℕ) × ((f : ℕ) → least ≤ f → r f ≡ ok x)

Yields-after :
    {A : Type 0} (r : ℕ → Result Failure A) (x : A) (least : ℕ)
    → ((f : ℕ) → least ≤ f → r (suc f) ≡ ok x)
    → (f : ℕ) → suc least ≤ f
    → r f ≡ ok x
Yields-after r x least step zero h = absurd (omega (arith, h))
Yields-after r x least step (suc f) h = step f (omega (arith, h))

-- A call that costs one unit and does one thing after another.
pub Yields-then :
    {A B : Type 0} (r : ℕ → Result Failure B) (p : ℕ → Result Failure A)
    (q : A → ℕ → Result Failure B) (a : A) (x : B)
    → ((f : ℕ) → r (suc f) ≡ (p f >>= λ b. q b f))
    → Yields p a
    → Yields (q a) x
    → Yields r x
Yields-then r p q a x step (m, first) (n, second) = (
  suc (max m n),
  Yields-after r x (max m n) λ f h.
      step f
      ∙ ap (λ o. o >>= λ b. q b f) (first f (omega (arith, h)))
      ∙ second f (omega (arith, h)),
)

-- A call that costs one unit and does one thing.
pub Yields-suc :
    {A : Type 0} (r p : ℕ → Result Failure A) (x : A)
    → ((f : ℕ) → r (suc f) ≡ p f)
    → Yields p x
    → Yields r x
Yields-suc r p x step (m, first) = (suc m, Yields-after r x m λ f h. step f ∙ first f h)

pub Yields-now :
    {A : Type 0} (r : ℕ → Result Failure A) (x : A) → ((f : ℕ) → r (suc f) ≡ ok x) → Yields r x
Yields-now r x step = Yields-suc r (λ f. ok x) x step (0, λ f h. refl)

-- One thing after another in the same call.
pub Yields-bind :
    {A B : Type 0} (p : ℕ → Result Failure A) (q : A → ℕ → Result Failure B) (a : A) (x : B)
    → Yields p a
    → Yields (q a) x
    → Yields (λ f. p f >>= λ b. q b f) x
Yields-bind p q a x (m, first) (n, second) = (
  max m n,
  λ f h. ap (λ o. o >>= λ b. q b f) (first f (omega (arith, h))) ∙ second f (omega (arith, h)),
)

pub Yields-ok : {A : Type 0} (x : A) → Yields (λ f. ok x) x
Yields-ok x = (0, λ f h. refl)

module _ (e : Ast) (ts rest : Tokens) (x : Ast × Tokens) where
  pub postfix_of_primary :
      Yields (λ f. Parser.parse_primary f ts) (e, rest)
      → Yields (λ f. Parser.postfix_loop f e rest) x
      → Yields (λ f. Parser.parse_postfix f ts) x
  unfolding Parser.parse_postfix
  postfix_of_primary =
      Yields-then (λ f. Parser.parse_postfix f ts) (λ f. Parser.parse_primary f ts)
        (λ p f. Parser.postfix_loop f p.0 p.1) (e, rest) x (λ f. refl)

  pub add_of_unary :
      Yields (λ f. Parser.parse_unary f ts) (e, rest)
      → Yields (λ f. Parser.add_loop f e rest) x
      → Yields (λ f. Parser.parse_add f ts) x
  unfolding Parser.parse_add
  add_of_unary =
      Yields-then (λ f. Parser.parse_add f ts) (λ f. Parser.parse_unary f ts)
        (λ p f. Parser.add_loop f p.0 p.1) (e, rest) x (λ f. refl)

  pub comparison_of_add :
      Yields (λ f. Parser.parse_add f ts) (e, rest)
      → Yields (λ f. Parser.comparison_rest f e rest) x
      → Yields (λ f. Parser.parse_comparison f ts) x
  unfolding Parser.parse_comparison
  comparison_of_add =
      Yields-then (λ f. Parser.parse_comparison f ts) (λ f. Parser.parse_add f ts)
        (λ p f. Parser.comparison_rest f p.0 p.1) (e, rest) x (λ f. refl)

  pub and_of_comparison :
      Yields (λ f. Parser.parse_comparison f ts) (e, rest)
      → Yields (λ f. Parser.and_loop f e rest) x
      → Yields (λ f. Parser.parse_and f ts) x
  unfolding Parser.parse_and
  and_of_comparison =
      Yields-then (λ f. Parser.parse_and f ts) (λ f. Parser.parse_comparison f ts)
        (λ p f. Parser.and_loop f p.0 p.1) (e, rest) x (λ f. refl)

  pub or_of_and :
      Yields (λ f. Parser.parse_and f ts) (e, rest)
      → Yields (λ f. Parser.or_loop f e rest) x
      → Yields (λ f. Parser.parse_or f ts) x
  unfolding Parser.parse_or
  or_of_and =
      Yields-then (λ f. Parser.parse_or f ts) (λ f. Parser.parse_and f ts)
        (λ p f. Parser.or_loop f p.0 p.1) (e, rest) x (λ f. refl)

-- What follows goes on with no operator of a level, nor of a tighter one.
abbrev pub EndsPostfix : Tokens → Type 0
EndsPostfix ts =
    (next_is dot ts ≡ false) × (next_is lbrack ts ≡ false) × (next_is lparen ts ≡ false)

abbrev pub EndsAdd : Tokens → Type 0
EndsAdd ts = EndsPostfix ts × (next_is plus ts ≡ false)

abbrev pub EndsComparison : Tokens → Type 0
EndsComparison ts = EndsAdd ts × (next_is in_mark ts ≡ false) × (comparison_op ts ≡ none)

abbrev pub EndsAnd : Tokens → Type 0
EndsAnd ts = EndsComparison ts × (next_is and_mark ts ≡ false)

abbrev pub EndsOr : Tokens → Type 0
EndsOr ts = EndsAnd ts × (next_is or_mark ts ≡ false)

module _ (e : Ast) (rest : Tokens) where
  pub postfix_stops : EndsPostfix rest → Yields (λ f. Parser.postfix_loop f e rest) (e, rest)
  unfolding Parser.postfix_loop
  postfix_stops (a, b, c) =
      Yields-now (λ f. Parser.postfix_loop f e rest) (e, rest) (λ f. ground (arith, a, b, c))

  pub add_stops : next_is plus rest ≡ false → Yields (λ f. Parser.add_loop f e rest) (e, rest)
  unfolding Parser.add_loop
  add_stops a = Yields-now (λ f. Parser.add_loop f e rest) (e, rest) (λ f. ground (arith, a))

  pub comparison_stops :
      next_is in_mark rest ≡ false
      → comparison_op rest ≡ none
      → Yields (λ f. Parser.comparison_rest f e rest) (e, rest)
  unfolding Parser.comparison_rest
  comparison_stops a b =
      Yields-now (λ f. Parser.comparison_rest f e rest) (e, rest) (λ f. ground (arith, a, b))

  pub and_stops : next_is and_mark rest ≡ false → Yields (λ f. Parser.and_loop f e rest) (e, rest)
  unfolding Parser.and_loop
  and_stops a = Yields-now (λ f. Parser.and_loop f e rest) (e, rest) (λ f. ground (arith, a))

  pub or_stops : next_is or_mark rest ≡ false → Yields (λ f. Parser.or_loop f e rest) (e, rest)
  unfolding Parser.or_loop
  or_stops a = Yields-now (λ f. Parser.or_loop f e rest) (e, rest) (λ f. ground (arith, a))

-- A primary begins with no operator.
primary-starts :
    (f : ℕ) (ts : Tokens) (x : Ast × Tokens)
    → Parser.parse_primary f ts ≡ ok x
    → (next_is not_mark ts ≡ false) × (next_is minus ts ≡ false)
unfolding Parser.parse_primary
primary-starts zero ts x h = cc
primary-starts (suc f) [] x h = (refl, refl)
primary-starts (suc f) (t ∷ ts) x h = ground (arith, h)

postfix-starts :
    (f : ℕ) (ts : Tokens) (x : Ast × Tokens)
    → Parser.parse_postfix f ts ≡ ok x
    → (next_is not_mark ts ≡ false) × (next_is minus ts ≡ false)
unfolding Parser.parse_postfix
postfix-starts zero ts x h = cc
postfix-starts (suc f) ts x h =
    let (a, first, _) =
      >>=-eq-ok (Parser.parse_primary f ts) (λ p. Parser.postfix_loop f p.0 p.1) h in
    primary-starts f ts a first

pub unary_of_postfix :
    (ts : Tokens) (x : Ast × Tokens)
    → Yields (λ f. Parser.parse_postfix f ts) x
    → Yields (λ f. Parser.parse_unary f ts) x
unfolding Parser.parse_unary
unary_of_postfix ts x (m, first) =
    let (a, b) = postfix-starts m ts x (first m (omega arith)) in
    Yields-suc (λ f. Parser.parse_unary f ts) (λ f. Parser.parse_postfix f ts) x
      (λ f. ground (arith, a, b)) (m, first)
