-- ===== src/Armor/Expressions/Constraints/Tests.antt =====
-- The write-time check at concrete expressions.
use kinglet.Base.{
  ◌↔◌, ℕ, ◌≡◌, refl, ◌||◌, String, true, Option, none, some, map, ok, err, keep, length, ltb,
  if◌then◌else◌,
}
use kinglet.Armor.Expressions.{
  Ast, string_lit, lit, ident, member, index, call, unary, binary, bang, or_op, compare, eq,
  no_asts, ast,
}
use kinglet.Armor.Expressions.Constraints
use kinglet.Armor.Expressions.Constraints.{
  any_below, refused, too_many, two_matches, too_wide, node_error, check_write_time_constraints,
  is_comparison, is_call, is_matches, first_some, max_subexpressions, max_matches_per_expression,
  max_subexpression_chars, reads_body, uses_body, capturing_from,
}
use kinglet.Armor.Expressions.Constraints.Nodes.{BodyRead, nodes, nodes_all, uses_body_lem}
use kinglet.Armor.Expressions.Constraints.Accepted.{check_lem}

program : Unit {0}
unfolding check_write_time_constraints Constraints.walk Constraints.walk_all Constraints.visit
    Constraints.check_counts node_error Constraints.name_error Constraints.callee_error
    Constraints.regex_error capturing_from Constraints.call_name Constraints.first_string_arg
    Constraints.is_ident Constraints.is_request_query Constraints.request_field_name is_call
    is_comparison reads_body uses_body Constraints.any_uses_body nodes nodes_all
program = tt

abbrev no_error : String → Option String
no_error pattern = none

abbrev ten : ℕ → ℕ
ten k = 10

-- request.path.matches(pattern) || origin.region_code == "US"
abbrev tree : String → Ast
tree pattern =
    binary or_op
      (call (member (member (ident "request") "path") "matches")
        (ast (lit (string_lit pattern)) no_asts))
      (binary (compare eq) (member (ident "origin") "region_code") (lit (string_lit "US")))

accepted : check_write_time_constraints no_error ten (tree "/(?:a|b)") ≡ ok tt
unfolding program
accepted = refl

group_refused :
    check_write_time_constraints no_error ten (tree "/[(](a|b)")
    ≡ err (refused "regular expression capture groups are not allowed; use (?:...) instead")
unfolding program
group_refused = refl

width_refused : check_write_time_constraints no_error (λ n. 1025) (tree "/") ≡ err too_wide
unfolding program
width_refused = refl

check_lem_example :
    let ns = nodes (tree "/") in
    let spans = keep (λ n. is_comparison n || is_call n) ns in
    check_write_time_constraints no_error ten (tree "/")
    ≡ elim (first_some (map (node_error no_error) ns)) [
      | some message ↦ err (refused message)
      | none ↦
          if ltb max_subexpressions (length spans)
          then err (too_many (length spans))
          else if ltb max_matches_per_expression (length (keep is_matches ns))
          then err two_matches
          else if any_below (λ k. ltb max_subexpression_chars (ten k)) (length spans)
          then err too_wide
          else ok tt
    ]
check_lem_example = check_lem no_error ten (tree "/")

-- !(request["body"] == "x")
abbrev body_tree : Ast
body_tree =
    unary bang (
      binary (compare eq) (index (ident "request") (lit (string_lit "body")))
        (lit (string_lit "x")))

body_read : uses_body body_tree ≡ true
unfolding program
body_read = refl

uses_body_lem_example : uses_body body_tree ≡ true ↔ BodyRead body_tree
uses_body_lem_example = uses_body_lem body_tree
