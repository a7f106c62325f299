-- ===== src/Armor/Expressions/Tests.antt =====
-- Expressions of Cloud Armor at concrete tokens.
use kinglet.Base.{◌≢◌, arith, ◌≡◌, refl, [], ◌∷◌, ok, err}
use kinglet.Armor.Expressions.{
  Tokens, Ast, number, number_token, comma, ident_token, string_token, compare_token, mark,
  and_mark, or_mark, not_mark, in_mark, dot, lparen, rparen, colon, lbrace, rbrace, eq, string_lit,
  bang, or_op, and_op, compare, lit, ident, member, unary, binary, map_of, entry, no_entries,
  unexpected, undeclared_in, out_of_fuel,
}
use kinglet.Armor.Expressions.Parser
use kinglet.Armor.Expressions.Parser.{parse_tokens}
use kinglet.Armor.Expressions.Printer.{
  show, show_elements, show_more, show_entries, show_more_entries,
}
use kinglet.Armor.Expressions.Fuel.{parse_tokens-ends}
use kinglet.Armor.Expressions.MoreFuel.{parse_tokens_lem}

program : Unit {0}
unfolding parse_tokens Parser.expect_eof Parser.expect Parser.expect_ident Parser.parse_or
    Parser.or_loop Parser.parse_and Parser.and_loop Parser.parse_comparison Parser.comparison_rest
    Parser.parse_add Parser.add_loop Parser.parse_unary Parser.parse_postfix Parser.postfix_loop
    Parser.parse_primary Parser.parse_elements Parser.element_loop Parser.more_elements
    Parser.parse_map Parser.entry_loop Parser.more_entries Parser.parse_key show show_elements
    show_more
program = tt

-- !(a || b) && origin.region_code == "US"
abbrev tree : Ast
tree =
    binary and_op (unary bang (binary or_op (ident "a") (ident "b")))
      (binary (compare eq) (member (ident "origin") "region_code") (lit (string_lit "US")))

abbrev tokens : Tokens
tokens =
    mark not_mark
    ∷ mark lparen
    ∷ ident_token "a"
    ∷ mark or_mark
    ∷ ident_token "b"
    ∷ mark rparen
    ∷ mark and_mark
    ∷ ident_token "origin"
    ∷ mark dot
    ∷ ident_token "region_code"
    ∷ compare_token eq
    ∷ string_token "US"
    ∷ []

shown : show tree ≡ tokens
unfolding program
shown = refl

parsed : parse_tokens 30 tokens ≡ ok tree
unfolding program
parsed = refl

-- A name that is a key of a map stands for its text.
key_parsed :
    parse_tokens 30
      (mark lbrace ∷ ident_token "a" ∷ mark colon ∷ ident_token "b" ∷ mark rbrace ∷ [])
    ≡ ok (map_of (entry (lit (string_lit "a")) (ident "b") no_entries))
unfolding program
key_parsed = refl

-- A number that is a key needs no parentheses, and a name does.
keys_shown :
    show (
      map_of
        (entry (lit (number "1")) (ident "x") (entry (ident "a") (lit (number "2")) no_entries)))
    ≡ mark lbrace
      ∷ number_token "1"
      ∷ mark colon
      ∷ ident_token "x"
      ∷ mark comma
      ∷ mark lparen
      ∷ ident_token "a"
      ∷ mark rparen
      ∷ mark colon
      ∷ number_token "2"
      ∷ mark rbrace
      ∷ []
unfolding show show_entries show_more_entries
keys_shown = refl

number_key_parsed :
    parse_tokens 30
      (mark lbrace ∷ number_token "1" ∷ mark colon ∷ ident_token "x" ∷ mark rbrace ∷ [])
    ≡ ok (map_of (entry (lit (number "1")) (ident "x") no_entries))
unfolding program
number_key_parsed = refl

in_refused : parse_tokens 30 (ident_token "a" ∷ mark in_mark ∷ []) ≡ err undeclared_in
unfolding program
in_refused = refl

-- Comparisons do not chain.
chain_refused :
    parse_tokens 30 (
      ident_token "a"
      ∷ compare_token eq
      ∷ ident_token "b"
      ∷ compare_token eq
      ∷ ident_token "c"
      ∷ [])
    ≡ err (unexpected (compare_token eq ∷ ident_token "c" ∷ []))
unfolding program
chain_refused = refl

parse_tokens-ends_example : parse_tokens 200 tokens ≢ err out_of_fuel
parse_tokens-ends_example = parse_tokens-ends 200 tokens (omega arith)

parse_tokens_lem_example : parse_tokens 200 (show tree) ≡ ok tree
unfolding program
parse_tokens_lem_example = parse_tokens_lem tree 200 (omega arith)
