-- ===== src/Armor/Expressions/RoundTrip.antt =====
-- The parser of Cloud Armor's expressions against the printer.
use mathlib.Core.List.{append-nil}
use kinglet.Base.{ℕ, ◌≤◌, ◌≡◌, refl, subst, [], ◌∷◌, ◌++◌, arith, ok, leb, Bool-cases, inl, inr}
use kinglet.Armor.Expressions.{
  Tokens, Ast, Asts, Entries, mark, rparen, rbrack, lparen, lbrack, lbrace, rbrace, string_lit,
  number, boolean, bang, negate, or_op, and_op, add_op, compare, lit, ident, member, index, call,
  unary, binary, list, map_of, no_asts, ast, no_entries, entry,
}
use kinglet.Armor.Expressions.Parser
use kinglet.Armor.Expressions.Printer.{
  guarded, level_of, show, show_elements, show_more, show_entries,
}
use kinglet.Armor.Expressions.Steps.{Yields, Yields-then, Yields-bind, Yields-ok}
use kinglet.Armor.Expressions.Levels.{
  AsPrimary, AsPostfix, AsWhole, Reads, whole_from, or-Reads, and-Reads, comparison-Reads,
  add-Reads, unary-Reads, postfix-Reads, primary-Reads,
}
use kinglet.Armor.Expressions.Operators.{
  literal-AsPrimary, ident-AsPrimary, regroup, member-AsPostfix, index-AsPostfix, unary-AsUnary,
  add-AsAdd, comparison-AsComparison, and-AsAnd, or-AsOr,
}
use kinglet.Armor.Expressions.Sequences.{
  Begins, rparen-IsClose, rbrack-IsClose, AsMore, no_more, one_more, AsElements, empty-AsElements,
  elements-read,
}
use kinglet.Armor.Expressions.Maps.{
  AsMoreEntries, no_more_entries, one_more_entry, AsEntries, empty-AsEntries, entries-read,
}

abbrev Read : Ast → Type 0
Read e = Reads (level_of e) (show e) e

call-AsPostfix :
    (t : Tokens) (callee : Ast) (args : Asts)
    → AsPostfix t callee
    → AsElements args
    → AsPostfix (t ++ mark lparen ∷ (show_elements args ++ mark rparen ∷ [])) (call callee args)
unfolding Parser.postfix_loop
call-AsPostfix t callee args p elements rest x loop =
    let ts = show_elements args ++ mark rparen ∷ [] in
    regroup Parser.parse_postfix x t (mark lparen ∷ ts) rest (
      p (mark lparen ∷ (ts ++ rest)) x (
        Yields-then _ (λ f. Parser.parse_elements f rparen (ts ++ rest))
          (λ y f. Parser.postfix_loop f (call callee y.0) y.1) (args, rest) x (λ f. refl)
          (elements rparen rest rparen-IsClose) loop))

list-AsPrimary :
    (es : Asts)
    → AsElements es
    → AsPrimary (mark lbrack ∷ (show_elements es ++ mark rbrack ∷ [])) (list es)
unfolding Parser.parse_primary
list-AsPrimary es elements rest =
    Yields-then _
      (λ f. Parser.parse_elements f rbrack ((show_elements es ++ mark rbrack ∷ []) ++ rest))
      (λ y f. ok (list y.0, y.1)) (es, rest) (list es, rest) (λ f. refl)
      (elements rbrack rest rbrack-IsClose) (Yields-ok (list es, rest))

map-AsPrimary :
    (es : Entries)
    → AsEntries es
    → AsPrimary (mark lbrace ∷ (show_entries es ++ mark rbrace ∷ [])) (map_of es)
unfolding Parser.parse_primary
map-AsPrimary es entries rest =
    Yields-then _ (λ f. Parser.parse_map f ((show_entries es ++ mark rbrace ∷ []) ++ rest))
      (λ y f. ok (map_of y.0, y.1)) (es, rest) (map_of es, rest) (λ f. refl) (entries rest)
      (Yields-ok (map_of es, rest))

Begins-append : (a b : Tokens) → Begins a → Begins (a ++ b)
Begins-append [] b h = absurd (ground (arith, h))
Begins-append (t ∷ a) b h = h

Begins-guarded : (n level : ℕ) (t : Tokens) → Begins t → Begins (guarded n level t)
Begins-guarded n level t h = elim (Bool-cases (leb n level)) [
  | inl bare ↦ rw bare h
  | inr wrapped ↦ rw wrapped (refl, refl, refl)
]

-- What a tree is written as begins with no closing token.
show-Begins : (e : Ast) → Begins (show e)
unfolding show
show-Begins (lit (string_lit s)) = (refl, refl, refl)
show-Begins (lit (number n)) = (refl, refl, refl)
show-Begins (lit (boolean b)) = (refl, refl, refl)
show-Begins (ident name) = (refl, refl, refl)
show-Begins (member e name) =
    Begins-append (guarded 6 (level_of e) (show e)) _ (Begins-guarded 6 _ (show e) (show-Begins e))
show-Begins (index e key) =
    Begins-append (guarded 6 (level_of e) (show e)) _ (Begins-guarded 6 _ (show e) (show-Begins e))
show-Begins (call e args) =
    Begins-append (guarded 6 (level_of e) (show e)) _ (Begins-guarded 6 _ (show e) (show-Begins e))
show-Begins (unary bang arg) = (refl, refl, refl)
show-Begins (unary negate arg) = (refl, refl, refl)
show-Begins (binary or_op e right) = Begins-append (show e) _ (show-Begins e)
show-Begins (binary and_op e right) =
    Begins-append (guarded 2 (level_of e) (show e)) _ (Begins-guarded 2 _ (show e) (show-Begins e))
show-Begins (binary add_op e right) =
    Begins-append (guarded 4 (level_of e) (show e)) _ (Begins-guarded 4 _ (show e) (show-Begins e))
show-Begins (binary (compare c) e right) =
    Begins-append (guarded 4 (level_of e) (show e)) _ (Begins-guarded 4 _ (show e) (show-Begins e))
show-Begins (list es) = (refl, refl, refl)
show-Begins (map_of es) = (refl, refl, refl)

whole : (e : Ast) → Read e → AsWhole (show e) e
whole e r = whole_from (show e) e r.as_or

mutual
  unfolding show show_elements show_more show_entries

  reads : (e : Ast) → Read e
  reads (lit l) = primary-Reads _ (lit l) (literal-AsPrimary l)
  reads (ident name) = primary-Reads _ (ident name) (ident-AsPrimary name)
  reads (member e name) =
      postfix-Reads _ (member e name) (member-AsPostfix _ e name (reads e).as_postfix)
  reads (index e key) =
      postfix-Reads _ (index e key)
        (index-AsPostfix _ (show key) e key (reads e).as_postfix (whole key (reads key)))
  reads (call e args) =
      postfix-Reads _ (call e args)
        (call-AsPostfix _ e args (reads e).as_postfix (reads_elements args))
  reads (unary op e) = unary-Reads _ (unary op e) (unary-AsUnary op _ e (reads e).as_unary)
  reads (binary or_op e d) =
      or-Reads _ (binary or_op e d) (or-AsOr _ _ e d (reads e).as_or (reads d).as_and)
  reads (binary and_op e d) =
      and-Reads _ (binary and_op e d) (and-AsAnd _ _ e d (reads e).as_and (reads d).as_comparison)
  reads (binary add_op e d) =
      add-Reads _ (binary add_op e d) (add-AsAdd _ _ e d (reads e).as_add (reads d).as_unary)
  reads (binary (compare c) e d) =
      comparison-Reads _ (binary (compare c) e d)
        (comparison-AsComparison c _ _ e d (reads e).as_add (reads d).as_add)
  reads (list es) = primary-Reads _ (list es) (list-AsPrimary es (reads_elements es))
  reads (map_of es) = primary-Reads _ (map_of es) (map-AsPrimary es (reads_entries es))

  reads_elements : (es : Asts) → AsElements es
  reads_elements no_asts = empty-AsElements
  reads_elements (ast e es) =
      elements-read e es (whole e (reads e)) (reads_more es)
        (Begins-append (show e) (show_more es) (show-Begins e))

  reads_more : (es : Asts) → AsMore es
  reads_more no_asts = no_more
  reads_more (ast e es) = one_more e es (whole e (reads e)) (reads_more es)

  reads_entries : (es : Entries) → AsEntries es
  reads_entries no_entries = empty-AsEntries
  reads_entries (entry k v es) =
      entries-read k v es (reads k).as_or (show-Begins k) (whole v (reads v))
        (reads_more_entries es)

  reads_more_entries : (es : Entries) → AsMoreEntries es
  reads_more_entries no_entries = no_more_entries
  reads_more_entries (entry k v es) =
      one_more_entry k v es (reads k).as_or (show-Begins k) (whole v (reads v))
        (reads_more_entries es)

-- Every syntax tree, written as tokens with the parentheses that precedence, associativity and the keys of maps need and no
-- others, is read back as itself, to the end of the tokens, by the parser with any fuel from some amount on.
pub parse_tokens-show :
    (e : Ast) → (least : ℕ) × ((f : ℕ) → least ≤ f → Parser.parse_tokens f (show e) ≡ ok e)
unfolding Parser.parse_tokens Parser.expect_eof
parse_tokens-show e =
    Yields-bind (λ f. Parser.parse_or f (show e)) (λ y f. Parser.expect_eof y.0 y.1) (e, []) e
      (subst (λ (l : Tokens). Yields (λ f. Parser.parse_or f l) (e, [])) (append-nil (show e))
        (whole e (reads e) [] (((((refl, refl, refl), refl), refl, refl), refl), refl)))
      (Yields-ok e)
