-- ===== src/Armor/Expressions/MoreFuel.antt =====
-- The parser of Cloud Armor's expressions with more fuel than it had.
use mathlib.Core.List.{tail}
use kinglet.Base.{
  ℕ, zero, suc, ◌+◌, ◌*◌, ◌≤◌, ◌≡◌, ◌⊎◌, inl, inr, refl, ap, ◌∙◌, subst, Bool, true, false, Option,
  none, some, [], ◌∷◌, arith, Result, ok, err, ◌>>=◌, length,
}
use kinglet.Armor.Expressions.{
  Tokens, Mark, Comparison, Ast, Failure, next_is, comparison_op, ident_token, number_token,
  string_token, boolean_token, compare_token, mark, and_mark, or_mark, not_mark, in_mark, plus,
  minus, dot, comma, colon, lparen, rparen, lbrack, rbrack, lbrace, rbrace, or_op, and_op, add_op,
  binary, member, index, call, out_of_fuel,
}
use kinglet.Armor.Expressions.Parser
use kinglet.Armor.Expressions.Parser.{Parsed}
use kinglet.Armor.Expressions.Printer.{show}
use kinglet.Armor.Expressions.RoundTrip.{parse_tokens-show}
use kinglet.Armor.Expressions.Fuel.{parse_tokens-ends}

-- The first has run out of fuel, or both are the same.
abbrev Grows : {A : Type 0} → Result Failure A → Result Failure A → Type 0
Grows r s = (r ≡ err out_of_fuel) ⊎ (r ≡ s)

Grows-same : {A : Type 0} (r : Result Failure A) → Grows r r
Grows-same r = inr refl

Grows-bind :
    {A B : Type 0} (r s : Result Failure A) (p q : A → Result Failure B)
    → Grows r s
    → ((a : A) → Grows (p a) (q a))
    → Grows (r >>= p) (s >>= q)
Grows-bind r s p q (inl out) next = inl (ap (λ o. o >>= p) out)
Grows-bind (ok a) s p q (inr same) next = subst (λ o. Grows (ok a >>= p) (o >>= q)) same (next a)
Grows-bind (err e) s p q (inr same) next =
    subst (λ o. Grows (err e >>= p) (o >>= q)) same (Grows-same (err e))

Grows-if :
    {A : Type 0} (b : Bool) (x x' y y' : Result Failure A)
    → Grows x x'
    → Grows y y'
    → Grows (elim b [ true ↦ x | false ↦ y ]) (elim b [ true ↦ x' | false ↦ y' ])
Grows-if true x x' y y' g h = g
Grows-if false x x' y y' g h = h

Grows-op :
    {A : Type 0} (o : Option Comparison) (x : Result Failure A)
    (y z : Comparison → Result Failure A)
    → ((op : Comparison) → Grows (y op) (z op))
    → Grows (elim o [ none ↦ x | some op ↦ y op ]) (elim o [ none ↦ x | some op ↦ z op ])
Grows-op none x y z g = Grows-same x
Grows-op (some op) x y z g = g op

mutual
  unfolding Parser.parse_or Parser.or_loop Parser.parse_and Parser.and_loop Parser.parse_comparison
      Parser.comparison_rest Parser.parse_add Parser.add_loop Parser.parse_unary
      Parser.parse_postfix Parser.postfix_loop Parser.parse_primary Parser.parse_elements
      Parser.element_loop Parser.more_elements Parser.parse_map Parser.entry_loop
      Parser.more_entries Parser.parse_key

  or-Grows : (f : ℕ) (ts : Tokens) → Grows (Parser.parse_or f ts) (Parser.parse_or (suc f) ts)
  or-Grows zero ts = inl refl
  or-Grows (suc f) ts = Grows-bind _ _ _ _ (and-Grows f ts) λ p. or_loop-Grows f p.0 p.1

  or_loop-Grows :
      (f : ℕ) (e : Ast) (ts : Tokens) → Grows (Parser.or_loop f e ts) (Parser.or_loop (suc f) e ts)
  or_loop-Grows zero e ts = inl refl
  or_loop-Grows (suc f) e ts =
      Grows-if (next_is or_mark ts) _ _ _ _
        (Grows-bind _ _ _ _ (and-Grows f (tail ts)) λ p. or_loop-Grows f (binary or_op e p.0) p.1)
        (Grows-same (ok (e, ts)))

  and-Grows : (f : ℕ) (ts : Tokens) → Grows (Parser.parse_and f ts) (Parser.parse_and (suc f) ts)
  and-Grows zero ts = inl refl
  and-Grows (suc f) ts = Grows-bind _ _ _ _ (comparison-Grows f ts) λ p. and_loop-Grows f p.0 p.1

  and_loop-Grows :
      (f : ℕ) (e : Ast) (ts : Tokens)
      → Grows (Parser.and_loop f e ts) (Parser.and_loop (suc f) e ts)
  and_loop-Grows zero e ts = inl refl
  and_loop-Grows (suc f) e ts =
      Grows-if (next_is and_mark ts) _ _ _ _
        (Grows-bind _ _ _ _ (comparison-Grows f (tail ts))
          λ p. and_loop-Grows f (binary and_op e p.0) p.1)
        (Grows-same (ok (e, ts)))

  comparison-Grows :
      (f : ℕ) (ts : Tokens)
      → Grows (Parser.parse_comparison f ts) (Parser.parse_comparison (suc f) ts)
  comparison-Grows zero ts = inl refl
  comparison-Grows (suc f) ts =
      Grows-bind _ _ _ _ (add-Grows f ts) λ p. comparison_rest-Grows f p.0 p.1

  comparison_rest-Grows :
      (f : ℕ) (e : Ast) (ts : Tokens)
      → Grows (Parser.comparison_rest f e ts) (Parser.comparison_rest (suc f) e ts)
  comparison_rest-Grows zero e ts = inl refl
  comparison_rest-Grows (suc f) e ts = Grows-if (next_is in_mark ts) _ _ _ _ (Grows-same _) (
      Grows-op (comparison_op ts) _ _ _
        λ op. Grows-bind _ _ _ _ (add-Grows f (tail ts)) λ p. Grows-same _)

  add-Grows : (f : ℕ) (ts : Tokens) → Grows (Parser.parse_add f ts) (Parser.parse_add (suc f) ts)
  add-Grows zero ts = inl refl
  add-Grows (suc f) ts = Grows-bind _ _ _ _ (unary-Grows f ts) λ p. add_loop-Grows f p.0 p.1

  add_loop-Grows :
      (f : ℕ) (e : Ast) (ts : Tokens)
      → Grows (Parser.add_loop f e ts) (Parser.add_loop (suc f) e ts)
  add_loop-Grows zero e ts = inl refl
  add_loop-Grows (suc f) e ts =
      Grows-if (next_is plus ts) _ _ _ _
        (Grows-bind _ _ _ _ (unary-Grows f (tail ts))
          λ p. add_loop-Grows f (binary add_op e p.0) p.1)
        (Grows-same (ok (e, ts)))

  unary-Grows :
      (f : ℕ) (ts : Tokens) → Grows (Parser.parse_unary f ts) (Parser.parse_unary (suc f) ts)
  unary-Grows zero ts = inl refl
  unary-Grows (suc f) ts =
      Grows-if (next_is not_mark ts) _ _ _ _
        (Grows-bind _ _ _ _ (unary-Grows f (tail ts)) λ p. Grows-same _)
        (Grows-if (next_is minus ts) _ _ _ _
          (Grows-bind _ _ _ _ (unary-Grows f (tail ts)) λ p. Grows-same _) (postfix-Grows f ts))

  postfix-Grows :
      (f : ℕ) (ts : Tokens) → Grows (Parser.parse_postfix f ts) (Parser.parse_postfix (suc f) ts)
  postfix-Grows zero ts = inl refl
  postfix-Grows (suc f) ts =
      Grows-bind _ _ _ _ (primary-Grows f ts) λ p. postfix_loop-Grows f p.0 p.1

  postfix_loop-Grows :
      (f : ℕ) (e : Ast) (ts : Tokens)
      → Grows (Parser.postfix_loop f e ts) (Parser.postfix_loop (suc f) e ts)
  postfix_loop-Grows zero e ts = inl refl
  postfix_loop-Grows (suc f) e ts =
      Grows-if (next_is dot ts) _ _ _ _
        (Grows-bind (Parser.expect_ident (tail ts)) _ _ _ (Grows-same _)
          λ p. postfix_loop-Grows f (member e p.0) p.1)
        (Grows-if (next_is lbrack ts) _ _ _ _
          (Grows-bind _ _ _ _ (or-Grows f (tail ts)) λ p.
            Grows-bind (Parser.expect rbrack p.1) _ _ _ (Grows-same _)
              λ rest. postfix_loop-Grows f (index e p.0) rest)
          (Grows-if (next_is lparen ts) _ _ _ _
            (Grows-bind _ _ _ _ (elements-Grows f rparen (tail ts))
              λ p. postfix_loop-Grows f (call e p.0) p.1)
            (Grows-same _)))

  primary-Grows :
      (f : ℕ) (ts : Tokens) → Grows (Parser.parse_primary f ts) (Parser.parse_primary (suc f) ts)
  primary-Grows zero ts = inl refl
  primary-Grows (suc f) [] = Grows-same _
  primary-Grows (suc f) (boolean_token b ∷ ts) = Grows-same _
  primary-Grows (suc f) (string_token s ∷ ts) = Grows-same _
  primary-Grows (suc f) (number_token s ∷ ts) = Grows-same _
  primary-Grows (suc f) (ident_token s ∷ ts) = Grows-same _
  primary-Grows (suc f) (compare_token c ∷ ts) = Grows-same _
  primary-Grows (suc f) (mark and_mark ∷ ts) = Grows-same _
  primary-Grows (suc f) (mark or_mark ∷ ts) = Grows-same _
  primary-Grows (suc f) (mark not_mark ∷ ts) = Grows-same _
  primary-Grows (suc f) (mark in_mark ∷ ts) = Grows-same _
  primary-Grows (suc f) (mark plus ∷ ts) = Grows-same _
  primary-Grows (suc f) (mark minus ∷ ts) = Grows-same _
  primary-Grows (suc f) (mark dot ∷ ts) = Grows-same _
  primary-Grows (suc f) (mark comma ∷ ts) = Grows-same _
  primary-Grows (suc f) (mark colon ∷ ts) = Grows-same _
  primary-Grows (suc f) (mark rparen ∷ ts) = Grows-same _
  primary-Grows (suc f) (mark rbrack ∷ ts) = Grows-same _
  primary-Grows (suc f) (mark rbrace ∷ ts) = Grows-same _
  primary-Grows (suc f) (mark lparen ∷ ts) = Grows-bind _ _ _ _ (or-Grows f ts) λ p. Grows-same _
  primary-Grows (suc f) (mark lbrack ∷ ts) =
      Grows-bind _ _ _ _ (elements-Grows f rbrack ts) λ p. Grows-same _
  primary-Grows (suc f) (mark lbrace ∷ ts) = Grows-bind _ _ _ _ (map-Grows f ts) λ p. Grows-same _

  elements-Grows :
      (f : ℕ) (close : Mark) (ts : Tokens)
      → Grows (Parser.parse_elements f close ts) (Parser.parse_elements (suc f) close ts)
  elements-Grows zero close ts = inl refl
  elements-Grows (suc f) close ts =
      Grows-if (next_is close ts) _ _ _ _ (Grows-same _)
        (Grows-bind _ _ _ _ (element_loop-Grows f ts) λ p. Grows-same _)

  element_loop-Grows :
      (f : ℕ) (ts : Tokens) → Grows (Parser.element_loop f ts) (Parser.element_loop (suc f) ts)
  element_loop-Grows zero ts = inl refl
  element_loop-Grows (suc f) ts =
      Grows-bind _ _ _ _ (or-Grows f ts) λ p. more_elements-Grows f p.0 p.1

  more_elements-Grows :
      (f : ℕ) (e : Ast) (ts : Tokens)
      → Grows (Parser.more_elements f e ts) (Parser.more_elements (suc f) e ts)
  more_elements-Grows zero e ts = inl refl
  more_elements-Grows (suc f) e ts =
      Grows-if (next_is comma ts) _ _ _ _
        (Grows-bind _ _ _ _ (element_loop-Grows f (tail ts)) λ p. Grows-same _) (Grows-same _)

  map-Grows : (f : ℕ) (ts : Tokens) → Grows (Parser.parse_map f ts) (Parser.parse_map (suc f) ts)
  map-Grows zero ts = inl refl
  map-Grows (suc f) ts =
      Grows-if (next_is rbrace ts) _ _ _ _ (Grows-same _)
        (Grows-bind _ _ _ _ (entry_loop-Grows f ts) λ p. Grows-same _)

  entry_loop-Grows :
      (f : ℕ) (ts : Tokens) → Grows (Parser.entry_loop f ts) (Parser.entry_loop (suc f) ts)
  entry_loop-Grows zero ts = inl refl
  entry_loop-Grows (suc f) ts = Grows-bind _ _ _ _ (key-Grows f ts) λ p.
      Grows-bind (Parser.expect colon p.1) _ _ _ (Grows-same _)
        λ values. Grows-bind _ _ _ _ (or-Grows f values) λ v. more_entries-Grows f p.0 v.0 v.1

  more_entries-Grows :
      (f : ℕ) (key value : Ast) (ts : Tokens)
      → Grows (Parser.more_entries f key value ts) (Parser.more_entries (suc f) key value ts)
  more_entries-Grows zero key value ts = inl refl
  more_entries-Grows (suc f) key value ts =
      Grows-if (next_is comma ts) _ _ _ _
        (Grows-bind _ _ _ _ (entry_loop-Grows f (tail ts)) λ p. Grows-same _) (Grows-same _)

  key-Grows : (f : ℕ) (ts : Tokens) → Grows (Parser.parse_key f ts) (Parser.parse_key (suc f) ts)
  key-Grows zero ts = inl refl
  key-Grows (suc f) [] = or-Grows f []
  key-Grows (suc f) (ident_token s ∷ ts) = Grows-same _
  key-Grows (suc f) (string_token s ∷ ts) = Grows-same _
  key-Grows (suc f) (boolean_token b ∷ ts) = or-Grows f _
  key-Grows (suc f) (number_token s ∷ ts) = or-Grows f _
  key-Grows (suc f) (compare_token c ∷ ts) = or-Grows f _
  key-Grows (suc f) (mark m ∷ ts) = or-Grows f _

tokens-Grows :
    (f : ℕ) (ts : Tokens) → Grows (Parser.parse_tokens f ts) (Parser.parse_tokens (suc f) ts)
unfolding Parser.parse_tokens
tokens-Grows f ts = Grows-bind _ _ _ _ (or-Grows f ts) λ p. Grows-same _

more_fuel :
    (k f : ℕ) (ts : Tokens)
    → 12 * length ts + 7 ≤ f
    → Parser.parse_tokens f ts ≡ Parser.parse_tokens (k + f) ts
more_fuel zero f ts h =
    let none_more : f ≡ 0 + f = omega arith in ap (λ g. Parser.parse_tokens g ts) none_more
more_fuel (suc k) f ts h = elim (tokens-Grows (k + f) ts) [
  | inl out ↦ absurd (parse_tokens-ends (k + f) ts (omega (arith, h)) out)
  | inr same ↦
      let one_more : suc (k + f) ≡ suc k + f = omega arith in
      more_fuel k f ts h ∙ same ∙ ap (λ g. Parser.parse_tokens g ts) one_more
]

-- Every syntax tree, written as tokens with the parentheses that precedence, associativity and the keys of maps need and no
-- others, is read back as itself, to the end of the tokens, by the parser with twelve units of fuel for each token and
-- seven more, or any more than that.
pub parse_tokens_lem :
    (e : Ast) (f : ℕ) → 12 * length (show e) + 7 ≤ f → Parser.parse_tokens f (show e) ≡ ok e
parse_tokens_lem e f h =
    let (least, reads) = parse_tokens-show e in
    more_fuel least f (show e) h ∙ reads (least + f) (omega arith)
