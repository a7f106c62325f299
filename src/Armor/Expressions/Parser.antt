-- ===== src/Armor/Expressions/Parser.antt =====
-- src/services/compute/armor/expression.ts: the recursive descent of `Parser`. What a method leaves of the
-- tokens is returned beside its tree. Each call costs a unit of fuel, since what another call leaves is no
-- structural part of the tokens; the `while` loops are calls of their own.
use mathlib.Core.List.{tail}
use kinglet.Base.{ℕ, zero, suc, String, true, false, none, some, [], ◌∷◌, Result, ok, err, ◌>>=◌}
use kinglet.Armor.Expressions.{
  Tokens, Mark, Ast, Asts, Entries, Failure, next_is, comparison_op, ident_token, number_token,
  string_token, boolean_token, mark, and_mark, or_mark, not_mark, in_mark, plus, minus, dot, comma,
  colon, lparen, rparen, lbrack, rbrack, lbrace, rbrace, string_lit, number, boolean, bang, negate,
  or_op, and_op, add_op, compare, lit, ident, member, index, call, unary, binary, list, map_of,
  no_asts, ast, no_entries, entry, out_of_fuel, undeclared_in, unexpected, expected, expected_ident,
}

abbrev pub Parsed : Type 0 → Type 0
Parsed A = Result Failure (A × Tokens)

-- `expect`, for a token without a value.
unfoldable pub expect : Mark → Tokens → Result Failure Tokens
expect m ts = elim (next_is m ts) [ true ↦ ok (tail ts) | false ↦ err (expected m ts) ]

unfoldable pub expect_ident : Tokens → Parsed String
expect_ident (ident_token name ∷ ts) = ok (name, ts)
expect_ident ts = err (expected_ident ts)

unfoldable mutual
  pub parse_or : ℕ → Tokens → Parsed Ast
  parse_or zero ts = err out_of_fuel
  parse_or (suc f) ts = parse_and f ts >>= λ (left, rest). or_loop f left rest

  pub or_loop : ℕ → Ast → Tokens → Parsed Ast
  or_loop zero left ts = err out_of_fuel
  or_loop (suc f) left ts = elim (next_is or_mark ts) [
    | true ↦ parse_and f (tail ts) >>= λ (right, rest). or_loop f (binary or_op left right) rest
    | false ↦ ok (left, ts)
  ]

  pub parse_and : ℕ → Tokens → Parsed Ast
  parse_and zero ts = err out_of_fuel
  parse_and (suc f) ts = parse_comparison f ts >>= λ (left, rest). and_loop f left rest

  pub and_loop : ℕ → Ast → Tokens → Parsed Ast
  and_loop zero left ts = err out_of_fuel
  and_loop (suc f) left ts = elim (next_is and_mark ts) [
    | true ↦
        parse_comparison f (tail ts) >>= λ (right, rest). and_loop f (binary and_op left right) rest
    | false ↦ ok (left, ts)
  ]

  pub parse_comparison : ℕ → Tokens → Parsed Ast
  parse_comparison zero ts = err out_of_fuel
  parse_comparison (suc f) ts = parse_add f ts >>= λ (left, rest). comparison_rest f left rest

  pub comparison_rest : ℕ → Ast → Tokens → Parsed Ast
  comparison_rest zero left ts = err out_of_fuel
  comparison_rest (suc f) left ts = elim (next_is in_mark ts) [
    | true ↦ err undeclared_in
    | false ↦ elim (comparison_op ts) [
      | none ↦ ok (left, ts)
      | some op ↦
          parse_add f (tail ts) >>= λ (right, rest). ok (binary (compare op) left right, rest)
    ]
  ]

  pub parse_add : ℕ → Tokens → Parsed Ast
  parse_add zero ts = err out_of_fuel
  parse_add (suc f) ts = parse_unary f ts >>= λ (left, rest). add_loop f left rest

  pub add_loop : ℕ → Ast → Tokens → Parsed Ast
  add_loop zero left ts = err out_of_fuel
  add_loop (suc f) left ts = elim (next_is plus ts) [
    | true ↦ parse_unary f (tail ts) >>= λ (right, rest). add_loop f (binary add_op left right) rest
    | false ↦ ok (left, ts)
  ]

  pub parse_unary : ℕ → Tokens → Parsed Ast
  parse_unary zero ts = err out_of_fuel
  parse_unary (suc f) ts = elim (next_is not_mark ts) [
    | true ↦ parse_unary f (tail ts) >>= λ (arg, rest). ok (unary bang arg, rest)
    | false ↦ elim (next_is minus ts) [
      | true ↦ parse_unary f (tail ts) >>= λ (arg, rest). ok (unary negate arg, rest)
      | false ↦ parse_postfix f ts
    ]
  ]

  pub parse_postfix : ℕ → Tokens → Parsed Ast
  parse_postfix zero ts = err out_of_fuel
  parse_postfix (suc f) ts = parse_primary f ts >>= λ (expr, rest). postfix_loop f expr rest

  pub postfix_loop : ℕ → Ast → Tokens → Parsed Ast
  postfix_loop zero expr ts = err out_of_fuel
  postfix_loop (suc f) expr ts = elim (next_is dot ts) [
    | true ↦ expect_ident (tail ts) >>= λ (name, rest). postfix_loop f (member expr name) rest
    | false ↦ elim (next_is lbrack ts) [
      | true ↦ parse_or f (tail ts) >>= λ (key, after).
          expect rbrack after >>= λ rest. postfix_loop f (index expr key) rest
      | false ↦ elim (next_is lparen ts) [
        | true ↦ parse_elements f rparen (tail ts) >>= λ (args, rest).
            postfix_loop f (call expr args) rest
        | false ↦ ok (expr, ts)
      ]
    ]
  ]

  pub parse_primary : ℕ → Tokens → Parsed Ast
  parse_primary zero ts = err out_of_fuel
  parse_primary (suc f) (boolean_token b ∷ ts) = ok (lit (boolean b), ts)
  parse_primary (suc f) (string_token s ∷ ts) = ok (lit (string_lit s), ts)
  parse_primary (suc f) (number_token n ∷ ts) = ok (lit (number n), ts)
  parse_primary (suc f) (ident_token name ∷ ts) = ok (ident name, ts)
  parse_primary (suc f) (mark lparen ∷ ts) =
      parse_or f ts >>= λ (inner, after). expect rparen after >>= λ rest. ok (inner, rest)
  parse_primary (suc f) (mark lbrack ∷ ts) =
      parse_elements f rbrack ts >>= λ (elements, rest). ok (list elements, rest)
  parse_primary (suc f) (mark lbrace ∷ ts) =
      parse_map f ts >>= λ (entries, rest). ok (map_of entries, rest)
  parse_primary (suc f) ts = err (unexpected ts)

  -- `parseArgList` and `parseList` after the opening token, up to the closing one.
  pub parse_elements : ℕ → Mark → Tokens → Parsed Asts
  parse_elements zero close ts = err out_of_fuel
  parse_elements (suc f) close ts = elim (next_is close ts) [
    | true ↦ ok (no_asts, tail ts)
    | false ↦ element_loop f ts >>= λ (elements, after).
        expect close after >>= λ rest. ok (elements, rest)
  ]

  -- An element, and further ones while a comma follows.
  pub element_loop : ℕ → Tokens → Parsed Asts
  element_loop zero ts = err out_of_fuel
  element_loop (suc f) ts = parse_or f ts >>= λ (e, after). more_elements f e after

  pub more_elements : ℕ → Ast → Tokens → Parsed Asts
  more_elements zero e ts = err out_of_fuel
  more_elements (suc f) e ts = elim (next_is comma ts) [
    | true ↦ element_loop f (tail ts) >>= λ (elements, rest). ok (ast e elements, rest)
    | false ↦ ok (ast e no_asts, ts)
  ]

  -- `parseMap` after its opening token.
  pub parse_map : ℕ → Tokens → Parsed Entries
  parse_map zero ts = err out_of_fuel
  parse_map (suc f) ts = elim (next_is rbrace ts) [
    | true ↦ ok (no_entries, tail ts)
    | false ↦
        entry_loop f ts >>= λ (entries, after). expect rbrace after >>= λ rest. ok (entries, rest)
  ]

  pub entry_loop : ℕ → Tokens → Parsed Entries
  entry_loop zero ts = err out_of_fuel
  entry_loop (suc f) ts = parse_key f ts >>= λ (key, after). expect colon after >>= λ ts'.
      parse_or f ts' >>= λ (value, rest). more_entries f key value rest

  pub more_entries : ℕ → Ast → Ast → Tokens → Parsed Entries
  more_entries zero key value ts = err out_of_fuel
  more_entries (suc f) key value ts = elim (next_is comma ts) [
    | true ↦ entry_loop f (tail ts) >>= λ (entries, rest). ok (entry key value entries, rest)
    | false ↦ ok (entry key value no_entries, ts)
  ]

  -- The key of `parseMapEntry`: a name stands for its text.
  pub parse_key : ℕ → Tokens → Parsed Ast
  parse_key zero ts = err out_of_fuel
  parse_key (suc f) (ident_token name ∷ ts) = ok (lit (string_lit name), ts)
  parse_key (suc f) (string_token s ∷ ts) = ok (lit (string_lit s), ts)
  parse_key (suc f) ts = parse_or f ts

-- `parseOr`, then `expectEof`.
unfoldable pub expect_eof : Ast → Tokens → Result Failure Ast
expect_eof tree [] = ok tree
expect_eof tree (t ∷ ts) = err (unexpected (t ∷ ts))

unfoldable pub parse_tokens : ℕ → Tokens → Result Failure Ast
parse_tokens f ts = parse_or f ts >>= λ (tree, rest). expect_eof tree rest
