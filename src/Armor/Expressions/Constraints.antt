-- ===== src/Armor/Expressions/Constraints.antt =====
-- src/services/compute/armor/expression.ts: `checkWriteTimeConstraints`, what an expression must satisfy to be
-- stored, and the search of a tree for what reads the body. The widths of the calls and comparisons, and
-- the compiler of regular expressions, which gives an error or none, are parameters.
mod BodyReads
pub mod Nodes
mod Accepted
mod Tests
use Prim.Native.String
use Prim.Native.String.{◌++◌ as ◌+++◌}
use Prim.Native.Char.{Char, code}
use text.Mathlib.Text.{starts_with}
use kinglet.Base.{
  ℕ, zero, suc, ◌+◌, String, Bool, true, false, not, ◌&&◌, ◌||◌, Option, none, some, List, [], ◌∷◌,
  ◌++◌, ◌==◌, string_eq, if◌then◌else◌, ltb, length, any, Result, ok, err, ◌>>=◌, nat_beq,
}
use kinglet.Armor.Expressions.{
  Ast, Asts, Entries, Literal, string_lit, lit, ident, member, index, call, unary, binary, list,
  map_of, no_asts, ast, no_entries, entry, compare,
}

-- `SET.has(name)`
abbrev pub is_in : String → List String → Bool
is_in name names = any (λ n. n == name) names

abbrev pub string_methods : List String
string_methods =
    "contains" ∷ "startsWith" ∷ "endsWith" ∷ "matches" ∷ "lower" ∷ "upper" ∷ "base64Decode"
    ∷ "urlDecode" ∷ "urlDecodeUni" ∷ "utf8ToUnicode" ∷ []

abbrev pub known_functions : List String
known_functions =
    "inIpRange" ∷ "has" ∷ "int" ∷ "size" ∷ "evaluatePreconfiguredWaf" ∷ "evaluatePreconfiguredExpr"
    ∷ "evaluateAddressGroup" ∷ "evaluateOrganizationAddressGroup" ∷ "evaluateThreatIntelligence"
    ∷ "evaluateAdaptiveProtection" ∷ "evaluateAdaptiveProtectionAutoDeploy" ∷ []

abbrev pub cel_macros : List String
cel_macros = "exists" ∷ "exists_one" ∷ "all" ∷ "filter" ∷ "map" ∷ []

abbrev pub origin_fields : List String
origin_fields =
    "ip" ∷ "user_ip" ∷ "region_code" ∷ "asn" ∷ "tls_ja3_fingerprint" ∷ "tls_ja4_fingerprint" ∷ []

abbrev pub request_fields : List String
request_fields = "headers" ∷ "method" ∷ "path" ∷ "query" ∷ "scheme" ∷ "body" ∷ "params" ∷ []

unfoldable pub call_name : Ast → Option String
call_name (call (ident name) args) = some name
call_name (call (member object name) args) = some name
call_name _ = none

-- `stringLiteralArg(node, 0)`
unfoldable pub first_string_arg : Ast → Option String
first_string_arg (call callee (ast (lit (string_lit s)) args)) = some s
first_string_arg _ = none

unfoldable pub is_ident : Ast → String → Bool
is_ident (ident name) wanted = name == wanted
is_ident _ wanted = false

unfoldable pub is_request_query : Ast → Bool
unfolding is_ident
is_request_query (member object name) = is_ident object "request" && name == "query"
is_request_query _ = false

unfoldable pub request_field_name : Ast → Option String
unfolding is_ident
request_field_name (member object name) = if is_ident object "request" then some name else none
request_field_name (index object (lit (string_lit key))) =
    if is_ident object "request" then some key else none
request_field_name _ = none

-- A character is the ASCII character.
abbrev is_char : Char → ℕ → Bool
is_char c n = nat_beq (code c) n

-- `hasCapturingGroup`, from a place in the pattern on; the Boolean says whether that is in a class.
unfoldable pub capturing_from : Bool → String → Bool
capturing_from in_class String.[] = false
capturing_from in_class (String.◌∷◌ c String.[]) =
    if is_char c 92 then false else not in_class && is_char c 40
capturing_from in_class (String.◌∷◌ c (String.◌∷◌ d rest)) =
    let skipped = capturing_from in_class rest in
    let closed = capturing_from false (String.◌∷◌ d rest) in
    let opened = capturing_from true (String.◌∷◌ d rest) in
    if is_char c 92
    then skipped
    else if in_class
    then (if is_char c 93 then closed else opened)
    else if is_char c 91
    then opened
    else if is_char c 40
    then (if starts_with (String.◌∷◌ d rest) "?P<" || starts_with (String.◌∷◌ d rest) "?<"
        then true
        else if is_char d 63
        then closed
        else true)
    else closed

abbrev pub max_subexpressions : ℕ
max_subexpressions = 5

abbrev pub max_matches_per_expression : ℕ
max_matches_per_expression = 1

abbrev pub max_subexpression_chars : ℕ
max_subexpression_chars = 1024

-- The message of a node, or one of the three at the end.
pub data Refusal : Type 0 where
  refused : String → Refusal
  too_many : ℕ → Refusal
  two_matches too_wide : Refusal

pub record Counts : Type 0 where
  pub sub_spans : List Ast
  pub matches_count : ℕ

abbrev pub first_some {ℓ} : {A : Type ℓ} → List (Option A) → Option A
first_some [] = none
first_some (none ∷ os) = first_some os
first_some (some a ∷ os) = some a

abbrev pub undeclared : String → Option String
undeclared name = some ("undeclared reference to '" +++ name +++ "'")

abbrev pub when : Bool → Option String → Option String
when true o = o
when false o = none

-- Some number below the bound passes.
abbrev pub any_below : (ℕ → Bool) → ℕ → Bool
any_below p zero = false
any_below p (suc n) = p n || any_below p n

unfoldable pub is_call : Ast → Bool
is_call (call callee args) = true
is_call _ = false

unfoldable pub is_comparison : Ast → Bool
is_comparison (binary (compare c) left right) = true
is_comparison _ = false

-- `callName(node) === 'matches'`
abbrev pub is_matches : Ast → Bool
is_matches node = elim (call_name node) [ none ↦ false | some name ↦ name == "matches" ]

module _ (compile_error : String → Option String) where
  -- `assertRegexAllowed`
  unfoldable pub regex_error : String → Option String
  regex_error pattern =
      if capturing_from false pattern
      then some "regular expression capture groups are not allowed; use (?:...) instead"
      else compile_error pattern

  -- The errors of `walk` at a call, in their order.
  unfoldable pub name_error : Ast → Option String → Option String
  name_error node none = none
  name_error node (some name) = first_some (
      when (name == "matches")
        (elim (first_string_arg node) [ none ↦ none | some pattern ↦ regex_error pattern ])
      ∷ when (name == "query_params") (undeclared "query_params")
      ∷ when (is_in name cel_macros) (undeclared name)
      ∷ [])

  unfoldable pub callee_error : Ast → Option String
  callee_error (ident name) = when (not (is_in name known_functions)) (undeclared name)
  callee_error (member object name) =
      when (not (is_in name string_methods) && not (is_in name cel_macros)) (undeclared name)
  callee_error _ = none

  -- The error that `walk` throws at a node.
  unfoldable pub node_error : Ast → Option String
  node_error (call callee args) =
      first_some
        (name_error (call callee args) (call_name (call callee args)) ∷ callee_error callee ∷ [])
  node_error (ident name) = when (name == "query_params") (undeclared "query_params")
  node_error (member object name) = first_some (
      when (is_request_query object && not (is_in name string_methods))
        (some "request.query is a string")
      ∷ when (is_ident object "origin" && not (is_in name origin_fields)) (undeclared name)
      ∷ when (is_ident object "request" && not (is_in name request_fields)) (undeclared name)
      ∷ [])
  node_error (index object key) = when (is_request_query object) (some "request.query is a string")
  node_error _ = none

  -- `walk` at one node, without its children.
  unfoldable pub visit : Ast → Counts → Result Refusal Counts
  visit node counts = elim (node_error node) [
    | some message ↦ err (refused message)
    | none ↦ ok record {
      sub_spans =
          if is_comparison node || is_call node
          then counts.sub_spans ++ node ∷ []
          else counts.sub_spans;
      matches_count = if is_matches node then counts.matches_count + 1 else counts.matches_count;
    }
  ]

  -- `walk`, with `childrenOf`.
  unfoldable mutual
    pub walk : Ast → Counts → Result Refusal Counts
    walk (lit l) counts = visit (lit l) counts
    walk (ident name) counts = visit (ident name) counts
    walk (member object name) counts = visit (member object name) counts >>= walk object
    walk (index object key) counts = visit (index object key) counts >>= walk object >>= walk key
    walk (call callee args) counts =
        visit (call callee args) counts >>= walk callee >>= walk_all args
    walk (unary op arg) counts = visit (unary op arg) counts >>= walk arg
    walk (binary op left right) counts =
        visit (binary op left right) counts >>= walk left >>= walk right
    walk (list elements) counts = visit (list elements) counts >>= walk_all elements
    walk (map_of es) counts = visit (map_of es) counts >>= walk_entries es

    pub walk_all : Asts → Counts → Result Refusal Counts
    walk_all no_asts counts = ok counts
    walk_all (ast e es) counts = walk e counts >>= walk_all es

    pub walk_entries : Entries → Counts → Result Refusal Counts
    walk_entries no_entries counts = ok counts
    walk_entries (entry key value es) counts = walk key counts >>= walk value >>= walk_entries es

  -- `width` is the extent in the text of each call and comparison, by its place in the order of the visits.
  module _ (width : ℕ → ℕ) where
    -- What `checkWriteTimeConstraints` does with the counts of the walk.
    unfoldable pub check_counts : Counts → Result Refusal (Unit {0})
    check_counts counts =
        if ltb max_subexpressions (length counts.sub_spans)
        then err (too_many (length counts.sub_spans))
        else if ltb max_matches_per_expression counts.matches_count
        then err two_matches
        else if any_below (λ k. ltb max_subexpression_chars (width k)) (length counts.sub_spans)
        then err too_wide
        else ok tt

    unfoldable pub check_write_time_constraints : Ast → Result Refusal (Unit {0})
    check_write_time_constraints tree =
        walk tree (record { sub_spans = []; matches_count = 0 }) >>= check_counts

-- What makes `astUsesBodyPhase` true at a node.
unfoldable pub reads_body : Ast → Bool
reads_body node =
    (elim (request_field_name node) [
      | none ↦ false
      | some field ↦ field == "body" || field == "params"
    ])
    || (elim (call_name node) [
      | none ↦ false
      | some name ↦ name == "evaluatePreconfiguredWaf" || name == "evaluatePreconfiguredExpr"
    ])

-- `astUsesBodyPhase`, with `childrenOf`.
unfoldable mutual
  pub uses_body : Ast → Bool
  uses_body (lit l) = reads_body (lit l)
  uses_body (ident name) = reads_body (ident name)
  uses_body (member object name) = reads_body (member object name) || uses_body object
  uses_body (index object key) =
      reads_body (index object key) || (uses_body object || uses_body key)
  uses_body (call callee args) =
      reads_body (call callee args) || (uses_body callee || any_uses_body args)
  uses_body (unary op arg) = reads_body (unary op arg) || uses_body arg
  uses_body (binary op left right) =
      reads_body (binary op left right) || (uses_body left || uses_body right)
  uses_body (list elements) = reads_body (list elements) || any_uses_body elements
  uses_body (map_of es) = reads_body (map_of es) || entries_use_body es

  pub any_uses_body : Asts → Bool
  any_uses_body no_asts = false
  any_uses_body (ast e es) = uses_body e || any_uses_body es

  pub entries_use_body : Entries → Bool
  entries_use_body no_entries = false
  entries_use_body (entry key value es) = uses_body key || (uses_body value || entries_use_body es)
