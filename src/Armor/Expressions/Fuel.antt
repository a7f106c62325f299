-- ===== src/Armor/Expressions/Fuel.antt =====
-- The fuel that the parser of Cloud Armor's expressions needs, for any tokens.
use mathlib.Core.List.{tail}
use kinglet.Base.{ℕ, zero, suc, ◌+◌, ◌*◌, ◌≤◌, ◌≢◌, [], ◌∷◌, arith, ok, err, ◌>>=◌, length}
use kinglet.Armor.Expressions.{
  Tokens, Mark, Ast, next_is, comparison_op, ident_token, number_token, string_token, boolean_token,
  compare_token, mark, and_mark, or_mark, not_mark, in_mark, plus, minus, dot, comma, colon, lparen,
  rparen, lbrack, rbrack, lbrace, rbrace, or_op, and_op, add_op, member, index, call, binary,
  out_of_fuel,
}
use kinglet.Armor.Expressions.Parser
use kinglet.Armor.Expressions.Parser.{Parsed}
use kinglet.Armor.Expressions.Measure.{
  Fine, Fine-bind, Fine-if, shorter, expect-bind, operand-Fine, ident-Fine, comparison-tail,
}

mutual
  unfolding Parser.parse_or Parser.or_loop Parser.parse_and Parser.and_loop Parser.parse_comparison
      Parser.comparison_rest Parser.parse_add Parser.add_loop Parser.parse_unary
      Parser.parse_postfix Parser.postfix_loop Parser.parse_primary Parser.parse_elements
      Parser.element_loop Parser.more_elements Parser.parse_map Parser.entry_loop
      Parser.more_entries Parser.parse_key

  or-Fine :
      (f n : ℕ) (ts : Tokens)
      → length ts ≤ n
      → 12 * length ts + 7 ≤ f
      → Fine n (Parser.parse_or f ts)
  or-Fine zero n ts le h = absurd (omega (arith, h))
  or-Fine (suc f) n ts le h =
      Fine-bind (length ts) n (Parser.parse_and f ts) _
        (and-Fine f (length ts) ts (omega arith) (omega (arith, h)))
        λ left rest shrunk.
          or_loop-Fine f n left rest (omega (arith, le, shrunk)) (omega (arith, h, shrunk))

  or_loop-Fine :
      (f n : ℕ) (e : Ast) (ts : Tokens)
      → suc (length ts) ≤ n
      → 12 * length ts + 1 ≤ f
      → Fine n (Parser.or_loop f e ts)
  or_loop-Fine zero n e ts le h = absurd (omega (arith, h))
  or_loop-Fine (suc f) n e ts le h =
      Fine-if n (next_is or_mark ts) _ _
        (λ hit.
          let cut = shorter or_mark ts hit in
          Fine-bind (length (tail ts)) n (Parser.parse_and f (tail ts)) _
            (and-Fine f (length (tail ts)) (tail ts) (omega arith) (omega (arith, h, cut)))
            λ right rest shrunk.
              or_loop-Fine f n (binary or_op e right) rest (omega (arith, le, cut, shrunk))
                (omega (arith, h, cut, shrunk)))
        (λ missed. le)

  and-Fine :
      (f n : ℕ) (ts : Tokens)
      → length ts ≤ n
      → 12 * length ts + 6 ≤ f
      → Fine n (Parser.parse_and f ts)
  and-Fine zero n ts le h = absurd (omega (arith, h))
  and-Fine (suc f) n ts le h =
      Fine-bind (length ts) n (Parser.parse_comparison f ts) _
        (comparison-Fine f (length ts) ts (omega arith) (omega (arith, h)))
        λ left rest shrunk.
          and_loop-Fine f n left rest (omega (arith, le, shrunk)) (omega (arith, h, shrunk))

  and_loop-Fine :
      (f n : ℕ) (e : Ast) (ts : Tokens)
      → suc (length ts) ≤ n
      → 12 * length ts + 1 ≤ f
      → Fine n (Parser.and_loop f e ts)
  and_loop-Fine zero n e ts le h = absurd (omega (arith, h))
  and_loop-Fine (suc f) n e ts le h =
      Fine-if n (next_is and_mark ts) _ _
        (λ hit.
          let cut = shorter and_mark ts hit in
          Fine-bind (length (tail ts)) n (Parser.parse_comparison f (tail ts)) _
            (comparison-Fine f (length (tail ts)) (tail ts) (omega arith) (omega (arith, h, cut)))
            λ right rest shrunk.
              and_loop-Fine f n (binary and_op e right) rest (omega (arith, le, cut, shrunk))
                (omega (arith, h, cut, shrunk)))
        (λ missed. le)

  comparison-Fine :
      (f n : ℕ) (ts : Tokens)
      → length ts ≤ n
      → 12 * length ts + 5 ≤ f
      → Fine n (Parser.parse_comparison f ts)
  comparison-Fine zero n ts le h = absurd (omega (arith, h))
  comparison-Fine (suc f) n ts le h =
      Fine-bind (length ts) n (Parser.parse_add f ts) _
        (add-Fine f (length ts) ts (omega arith) (omega (arith, h)))
        λ left rest shrunk.
          comparison_rest-Fine f n left rest (omega (arith, le, shrunk)) (omega (arith, h, shrunk))

  comparison_rest-Fine :
      (f n : ℕ) (e : Ast) (ts : Tokens)
      → suc (length ts) ≤ n
      → 12 * length ts + 1 ≤ f
      → Fine n (Parser.comparison_rest f e ts)
  comparison_rest-Fine zero n e ts le h = absurd (omega (arith, h))
  comparison_rest-Fine (suc f) n e ts le h =
      Fine-if n (next_is in_mark ts) _ _ (λ hit same. ground (arith, same))
        (λ missed. operand-Fine n (comparison_op ts) e ts _ le λ op found.
          let cut = comparison-tail op ts found in
          Fine-bind (length (tail ts)) n (Parser.parse_add f (tail ts)) _
            (add-Fine f (length (tail ts)) (tail ts) (omega arith) (omega (arith, h, cut)))
            λ right rest shrunk. omega (arith, le, cut, shrunk))

  add-Fine :
      (f n : ℕ) (ts : Tokens)
      → length ts ≤ n
      → 12 * length ts + 4 ≤ f
      → Fine n (Parser.parse_add f ts)
  add-Fine zero n ts le h = absurd (omega (arith, h))
  add-Fine (suc f) n ts le h =
      Fine-bind (length ts) n (Parser.parse_unary f ts) _
        (unary-Fine f (length ts) ts (omega arith) (omega (arith, h)))
        λ left rest shrunk.
          add_loop-Fine f n left rest (omega (arith, le, shrunk)) (omega (arith, h, shrunk))

  add_loop-Fine :
      (f n : ℕ) (e : Ast) (ts : Tokens)
      → suc (length ts) ≤ n
      → 12 * length ts + 1 ≤ f
      → Fine n (Parser.add_loop f e ts)
  add_loop-Fine zero n e ts le h = absurd (omega (arith, h))
  add_loop-Fine (suc f) n e ts le h =
      Fine-if n (next_is plus ts) _ _
        (λ hit.
          let cut = shorter plus ts hit in
          Fine-bind (length (tail ts)) n (Parser.parse_unary f (tail ts)) _
            (unary-Fine f (length (tail ts)) (tail ts) (omega arith) (omega (arith, h, cut)))
            λ right rest shrunk.
              add_loop-Fine f n (binary add_op e right) rest (omega (arith, le, cut, shrunk))
                (omega (arith, h, cut, shrunk)))
        (λ missed. le)

  unary-Fine :
      (f n : ℕ) (ts : Tokens)
      → length ts ≤ n
      → 12 * length ts + 3 ≤ f
      → Fine n (Parser.parse_unary f ts)
  unary-Fine zero n ts le h = absurd (omega (arith, h))
  unary-Fine (suc f) n ts le h =
      Fine-if n (next_is not_mark ts) _ _
        (λ hit.
          let cut = shorter not_mark ts hit in
          Fine-bind (length (tail ts)) n (Parser.parse_unary f (tail ts)) _
            (unary-Fine f (length (tail ts)) (tail ts) (omega arith) (omega (arith, h, cut)))
            λ arg rest shrunk. omega (arith, le, cut, shrunk))
        (λ missed.
          Fine-if n (next_is minus ts) _ _
            (λ hit.
              let cut = shorter minus ts hit in
              Fine-bind (length (tail ts)) n (Parser.parse_unary f (tail ts)) _
                (unary-Fine f (length (tail ts)) (tail ts) (omega arith) (omega (arith, h, cut)))
                λ arg rest shrunk. omega (arith, le, cut, shrunk))
            (λ other. postfix-Fine f n ts le (omega (arith, h))))

  postfix-Fine :
      (f n : ℕ) (ts : Tokens)
      → length ts ≤ n
      → 12 * length ts + 2 ≤ f
      → Fine n (Parser.parse_postfix f ts)
  postfix-Fine zero n ts le h = absurd (omega (arith, h))
  postfix-Fine (suc f) n ts le h =
      Fine-bind (length ts) n (Parser.parse_primary f ts) _
        (primary-Fine f (length ts) ts (omega arith) (omega (arith, h)))
        λ left rest shrunk.
          postfix_loop-Fine f n left rest (omega (arith, le, shrunk)) (omega (arith, h, shrunk))

  postfix_loop-Fine :
      (f n : ℕ) (e : Ast) (ts : Tokens)
      → suc (length ts) ≤ n
      → 12 * length ts + 1 ≤ f
      → Fine n (Parser.postfix_loop f e ts)
  postfix_loop-Fine zero n e ts le h = absurd (omega (arith, h))
  postfix_loop-Fine (suc f) n e ts le h =
      Fine-if n (next_is dot ts) _ _
        (λ hit.
          let cut = shorter dot ts hit in
          Fine-bind (length (tail ts)) n (Parser.expect_ident (tail ts)) _ (ident-Fine (tail ts))
            λ name rest shrunk.
              postfix_loop-Fine f n (member e name) rest (omega (arith, le, cut, shrunk))
                (omega (arith, h, cut, shrunk)))
        (λ missed.
          Fine-if n (next_is lbrack ts) _ _
            (λ hit.
              let cut = shorter lbrack ts hit in
              Fine-bind (length (tail ts)) n (Parser.parse_or f (tail ts)) _
                (or-Fine f (length (tail ts)) (tail ts) (omega arith) (omega (arith, h, cut)))
                λ key after shrunk. expect-bind rbrack n after _ λ rest closed.
                  postfix_loop-Fine f n (index e key) rest (omega (arith, le, cut, shrunk, closed))
                    (omega (arith, h, cut, shrunk, closed)))
            (λ other.
              Fine-if n (next_is lparen ts) _ _
                (λ hit.
                  let cut = shorter lparen ts hit in
                  Fine-bind (length (tail ts)) n (Parser.parse_elements f rparen (tail ts)) _
                    (elements-Fine f (length (tail ts)) rparen (tail ts) (omega arith)
                      (omega (arith, h, cut)))
                    λ args rest shrunk.
                      postfix_loop-Fine f n (call e args) rest (omega (arith, le, cut, shrunk))
                        (omega (arith, h, cut, shrunk)))
                (λ last. le)))

  primary-Fine :
      (f n : ℕ) (ts : Tokens)
      → length ts ≤ n
      → 12 * length ts + 1 ≤ f
      → Fine n (Parser.parse_primary f ts)
  primary-Fine zero n ts le h = absurd (omega (arith, h))
  primary-Fine (suc f) n [] le h = λ e. ground (arith, e)
  primary-Fine (suc f) n (boolean_token b ∷ ts) le h = le
  primary-Fine (suc f) n (string_token s ∷ ts) le h = le
  primary-Fine (suc f) n (number_token s ∷ ts) le h = le
  primary-Fine (suc f) n (ident_token s ∷ ts) le h = le
  primary-Fine (suc f) n (compare_token c ∷ ts) le h = λ e. ground (arith, e)
  primary-Fine (suc f) n (mark and_mark ∷ ts) le h = λ e. ground (arith, e)
  primary-Fine (suc f) n (mark or_mark ∷ ts) le h = λ e. ground (arith, e)
  primary-Fine (suc f) n (mark not_mark ∷ ts) le h = λ e. ground (arith, e)
  primary-Fine (suc f) n (mark in_mark ∷ ts) le h = λ e. ground (arith, e)
  primary-Fine (suc f) n (mark plus ∷ ts) le h = λ e. ground (arith, e)
  primary-Fine (suc f) n (mark minus ∷ ts) le h = λ e. ground (arith, e)
  primary-Fine (suc f) n (mark dot ∷ ts) le h = λ e. ground (arith, e)
  primary-Fine (suc f) n (mark comma ∷ ts) le h = λ e. ground (arith, e)
  primary-Fine (suc f) n (mark colon ∷ ts) le h = λ e. ground (arith, e)
  primary-Fine (suc f) n (mark rparen ∷ ts) le h = λ e. ground (arith, e)
  primary-Fine (suc f) n (mark rbrack ∷ ts) le h = λ e. ground (arith, e)
  primary-Fine (suc f) n (mark rbrace ∷ ts) le h = λ e. ground (arith, e)
  primary-Fine (suc f) n (mark lparen ∷ ts) le h =
      Fine-bind (length ts) n (Parser.parse_or f ts) _
        (or-Fine f (length ts) ts (omega arith) (omega (arith, h)))
        λ inner after shrunk.
          expect-bind rparen n after _ λ rest closed. omega (arith, le, shrunk, closed)
  primary-Fine (suc f) n (mark lbrack ∷ ts) le h =
      Fine-bind (length ts) n (Parser.parse_elements f rbrack ts) _
        (elements-Fine f (length ts) rbrack ts (omega arith) (omega (arith, h)))
        λ elements rest shrunk. omega (arith, le, shrunk)
  primary-Fine (suc f) n (mark lbrace ∷ ts) le h =
      Fine-bind (length ts) n (Parser.parse_map f ts) _
        (map-Fine f (length ts) ts (omega arith) (omega (arith, h)))
        λ entries rest shrunk. omega (arith, le, shrunk)

  elements-Fine :
      (f n : ℕ) (close : Mark) (ts : Tokens)
      → length ts ≤ n
      → 12 * length ts + 9 ≤ f
      → Fine n (Parser.parse_elements f close ts)
  elements-Fine zero n close ts le h = absurd (omega (arith, h))
  elements-Fine (suc f) n close ts le h =
      Fine-if n (next_is close ts) _ _ (λ hit. omega (arith, le, shorter close ts hit))
        (λ missed.
          Fine-bind (length ts) n (Parser.element_loop f ts) _
            (element_loop-Fine f (length ts) ts (omega arith) (omega (arith, h)))
            λ elements after shrunk.
              expect-bind close n after _ λ rest closed. omega (arith, le, shrunk, closed))

  element_loop-Fine :
      (f n : ℕ) (ts : Tokens)
      → length ts ≤ n
      → 12 * length ts + 8 ≤ f
      → Fine n (Parser.element_loop f ts)
  element_loop-Fine zero n ts le h = absurd (omega (arith, h))
  element_loop-Fine (suc f) n ts le h =
      Fine-bind (length ts) n (Parser.parse_or f ts) _
        (or-Fine f (length ts) ts (omega arith) (omega (arith, h)))
        λ left rest shrunk.
          more_elements-Fine f n left rest (omega (arith, le, shrunk)) (omega (arith, h, shrunk))

  more_elements-Fine :
      (f n : ℕ) (e : Ast) (ts : Tokens)
      → suc (length ts) ≤ n
      → 12 * length ts + 1 ≤ f
      → Fine n (Parser.more_elements f e ts)
  more_elements-Fine zero n e ts le h = absurd (omega (arith, h))
  more_elements-Fine (suc f) n e ts le h =
      Fine-if n (next_is comma ts) _ _
        (λ hit.
          let cut = shorter comma ts hit in
          Fine-bind (length (tail ts)) n (Parser.element_loop f (tail ts)) _
            (element_loop-Fine f (length (tail ts)) (tail ts) (omega arith) (omega (arith, h, cut)))
            λ elements rest shrunk. omega (arith, le, cut, shrunk))
        (λ missed. le)

  map-Fine :
      (f n : ℕ) (ts : Tokens)
      → length ts ≤ n
      → 12 * length ts + 10 ≤ f
      → Fine n (Parser.parse_map f ts)
  map-Fine zero n ts le h = absurd (omega (arith, h))
  map-Fine (suc f) n ts le h =
      Fine-if n (next_is rbrace ts) _ _ (λ hit. omega (arith, le, shorter rbrace ts hit))
        (λ missed.
          Fine-bind (length ts) n (Parser.entry_loop f ts) _
            (entry_loop-Fine f (length ts) ts (omega arith) (omega (arith, h)))
            λ entries after shrunk.
              expect-bind rbrace n after _ λ rest closed. omega (arith, le, shrunk, closed))

  entry_loop-Fine :
      (f n : ℕ) (ts : Tokens)
      → length ts ≤ n
      → 12 * length ts + 9 ≤ f
      → Fine n (Parser.entry_loop f ts)
  entry_loop-Fine zero n ts le h = absurd (omega (arith, h))
  entry_loop-Fine (suc f) n ts le h =
      Fine-bind (length ts) n (Parser.parse_key f ts) _
        (key-Fine f (length ts) ts (omega arith) (omega (arith, h)))
        λ key after shrunk. expect-bind colon n after _ λ values opened.
          Fine-bind (length values) n (Parser.parse_or f values) _
            (or-Fine f (length values) values (omega arith) (omega (arith, h, shrunk, opened)))
            λ value rest used.
              more_entries-Fine f n key value rest (omega (arith, le, shrunk, opened, used))
                (omega (arith, h, shrunk, opened, used))

  more_entries-Fine :
      (f n : ℕ) (key value : Ast) (ts : Tokens)
      → suc (length ts) ≤ n
      → 12 * length ts + 1 ≤ f
      → Fine n (Parser.more_entries f key value ts)
  more_entries-Fine zero n key value ts le h = absurd (omega (arith, h))
  more_entries-Fine (suc f) n key value ts le h =
      Fine-if n (next_is comma ts) _ _
        (λ hit.
          let cut = shorter comma ts hit in
          Fine-bind (length (tail ts)) n (Parser.entry_loop f (tail ts)) _
            (entry_loop-Fine f (length (tail ts)) (tail ts) (omega arith) (omega (arith, h, cut)))
            λ entries rest shrunk. omega (arith, le, cut, shrunk))
        (λ missed. le)

  key-Fine :
      (f n : ℕ) (ts : Tokens)
      → length ts ≤ n
      → 12 * length ts + 8 ≤ f
      → Fine n (Parser.parse_key f ts)
  key-Fine zero n ts le h = absurd (omega (arith, h))
  key-Fine (suc f) n [] le h = or-Fine f n [] le (omega (arith, h))
  key-Fine (suc f) n (ident_token s ∷ ts) le h = le
  key-Fine (suc f) n (string_token s ∷ ts) le h = le
  key-Fine (suc f) n (boolean_token b ∷ ts) le h = or-Fine f n _ le (omega (arith, h))
  key-Fine (suc f) n (number_token s ∷ ts) le h = or-Fine f n _ le (omega (arith, h))
  key-Fine (suc f) n (compare_token c ∷ ts) le h = or-Fine f n _ le (omega (arith, h))
  key-Fine (suc f) n (mark m ∷ ts) le h = or-Fine f n _ le (omega (arith, h))

eof-Fine :
    (r : Parsed Ast) (n : ℕ)
    → Fine n r
    → (r >>= λ (tree, rest). Parser.expect_eof tree rest) ≢ err out_of_fuel
unfolding Parser.expect_eof
eof-Fine (ok (tree, [])) n fine e = ground (arith, e)
eof-Fine (ok (tree, t ∷ ts)) n fine e = ground (arith, e)
eof-Fine (err failure) n fine e = fine (ground (arith, e))

-- On any tokens, with twelve units of fuel for each and seven more, the parser gives a tree or a syntax error: it
-- does not run out of fuel.
pub parse_tokens-ends :
    (f : ℕ) (ts : Tokens) → 12 * length ts + 7 ≤ f → Parser.parse_tokens f ts ≢ err out_of_fuel
unfolding Parser.parse_tokens
parse_tokens-ends f ts h =
    eof-Fine (Parser.parse_or f ts) (length ts) (or-Fine f (length ts) ts (omega arith) h)
