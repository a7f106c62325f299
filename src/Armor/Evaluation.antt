-- ===== src/Armor/Evaluation.antt =====
-- src/services/compute/armor/evaluate.ts: the walk over the rules of a security policy, in the order of
-- their priorities. What the rest of Cloud Armor makes of a request is an interface: the evaluator of
-- expressions, whether an expression reads the body, the membership of an address in a range, the
-- inspected request and the client key. The store of rate limits is passed along, and the time is an
-- argument. Priorities are natural numbers.
mod Order
pub mod Priority
mod Previews
mod Phases
mod Tests
use text.Mathlib.Text.{starts_with}
use kinglet.Base.{
  ℕ, ◌*◌, ◌+◌, String, Bool, true, false, not, ◌&&◌, ◌||◌, Option, none, some, List, [], ◌∷◌, ◌==◌,
  string_eq, if◌then◌else◌, leb, any, Result, ok, err,
}
use kinglet.Armor.RateLimit.{
  ActionKind, throttle, rate_based_ban, Mode, commit, preview, Options, Store, apply_rate_limit,
}

pub record Rule : Type 0 where
  pub priority : ℕ
  pub action : String
  pub is_preview : Bool
  pub versioned_expr : Option String
  pub src_ip_ranges : List String
  pub expression : Option String
  pub rate_limit_options : Option Options
  pub has_header_action : Bool

pub record Policy : Type 0 where
  pub name : String
  pub rules : List Rule
  pub request_body_inspection_size : Option String

pub record MatchedRule : Type 0 where
  pub rule_priority : ℕ
  pub rule_action : String
  pub outcome : String
  pub policy : Option String

pub record EvaluationResult : Type 0 where
  pub enforced : Option MatchedRule
  pub previewed : Option MatchedRule

pub data Phase : Type 0 where
  body header : Phase

-- What the walk asks of a request. `evaluate_expression` is an error where the expression has no value.
pub record Inspection {κ} (Attributes : Type κ) : Type κ where
  pub ip_of : Attributes → String
  pub ip_in_cidr : String → String → Bool
  pub evaluate_expression : String → Attributes → Result String Bool
  pub uses_body_phase : String → Bool
  pub with_inspected_body : Attributes → ℕ → Attributes
  pub client_key : Options → Attributes → String

pub insert_by_priority : Rule → List Rule → List Rule
insert_by_priority r [] = r ∷ []
insert_by_priority r (s ∷ rules) =
    if leb r.priority s.priority then r ∷ s ∷ rules else s ∷ insert_by_priority r rules

-- `[...rules].sort((a, b) => a.priority - b.priority)`, which is stable.
pub sort_by_priority : List Rule → List Rule
unfolding insert_by_priority
sort_by_priority [] = []
sort_by_priority (r ∷ rules) = insert_by_priority r (sort_by_priority rules)

-- A text that is empty counts as absent.
abbrev pub given : Option String → Option String
given none = none
given (some s) = if s == "" then none else some s

abbrev pub kind_of : String → Option ActionKind
kind_of action =
    if action == "throttle"
    then some throttle
    else if action == "rate_based_ban"
    then some rate_based_ban
    else none

pub is_redirect_action : String → Bool
is_redirect_action action = action == "redirect" || starts_with action "redirect("

pub outcome_of : String → String
outcome_of action =
    if action == "allow"
    then "ALLOW"
    else if action == "redirect" || starts_with action "redirect("
    then "REDIRECT"
    else "DENY"

pub to_matched_rule : Rule → String → String → MatchedRule
unfolding outcome_of
to_matched_rule rule action policy_name = record {
  rule_priority = rule.priority;
  rule_action = action;
  outcome = outcome_of action;
  policy = given (some policy_name);
}

pub inspection_limit_bytes : Option String → ℕ
inspection_limit_bytes none = 8 * 1024
inspection_limit_bytes (some size) =
    if size == "16KB"
    then 16 * 1024
    else if size == "32KB"
    then 32 * 1024
    else if size == "48KB"
    then 48 * 1024
    else if size == "64KB"
    then 64 * 1024
    else 8 * 1024

abbrev pub first_of {ℓ} : {A : Type ℓ} → Option A → A → Option A
first_of none a = some a
first_of (some b) a = some b

abbrev pub mode_of : Bool → Mode
mode_of true = preview
mode_of false = commit

module _ {κ} {Attributes : Type κ} (i : Inspection Attributes) where
  pub match_src_ip_ranges : String → List String → Bool
  match_src_ip_ranges ip [] = false
  match_src_ip_ranges ip (range ∷ ranges) =
      range == "*" || i.ip_in_cidr ip range || match_src_ip_ranges ip ranges

  pub rule_matches : Rule → Attributes → Bool
  unfolding match_src_ip_ranges
  rule_matches rule attributes =
      if (elim rule.versioned_expr [ none ↦ false | some v ↦ v == "SRC_IPS_V1" ])
      then match_src_ip_ranges (i.ip_of attributes) rule.src_ip_ranges
      else elim (given rule.expression) [
        | none ↦ false
        | some text ↦ elim (i.evaluate_expression text attributes) [
          | err e ↦ false
          | ok matched ↦ matched
        ]
      ]

  pub is_body_phase_rule : Rule → Bool
  is_body_phase_rule rule = elim (given rule.expression) [
    | none ↦ false
    | some text ↦ i.uses_body_phase text
  ]

  -- The action of a rate-limiting rule; any other action stands.
  pub limited_action : ℕ → String → Rule → Attributes → Store → Store × String
  limited_action now policy_name rule attributes store = elim (kind_of rule.action) [
    | none ↦ (store, rule.action)
    | some kind ↦
        if rule.has_header_action then (store, "allow") else elim rule.rate_limit_options [
          | none ↦ (store, rule.action)
          | some options ↦
              apply_rate_limit (policy_name, rule.priority, i.client_key options attributes) kind
                options now (mode_of rule.is_preview) store
        ]
  ]

  pub resolve_action : ℕ → String → Phase → Rule → Attributes → Store → Store × String
  unfolding limited_action is_redirect_action
  resolve_action now policy_name header rule attributes store =
      limited_action now policy_name rule attributes store
  resolve_action now policy_name body rule attributes store =
      let (store', action) = limited_action now policy_name rule attributes store in
      (store', (if is_redirect_action action then "deny(403)" else action))

  abbrev pub phase_of : Rule → Phase
  phase_of rule = if is_body_phase_rule rule then body else header

  -- The loop of `evaluate`: the rules that are left, the request as inspected so far, whether its body has
  -- been inspected, and the first preview match.
  module _ (now limit : ℕ) (policy_name : String) (attributes : Attributes) where
    -- The request that a rule sees.
    pub seen : Bool → Rule → Attributes → Attributes
    seen inspected rule current =
        if is_body_phase_rule rule && not inspected
        then i.with_inspected_body attributes limit
        else current

    pub walk : List Rule → Attributes → Bool → Option MatchedRule → Store → Store × EvaluationResult
    walk [] current inspected first store = (store, record { enforced = none; previewed = first })
    walk (rule ∷ rules) current inspected first store =
        let view = seen inspected rule current in
        let inspected' = inspected || is_body_phase_rule rule in
        elim (rule_matches rule view) [
          | false ↦ walk rules view inspected' first store
          | true ↦
              let (store', action) =
                resolve_action now policy_name (phase_of rule) rule view store in
              let matched = to_matched_rule rule action policy_name in
              elim rule.is_preview [
                | true ↦ walk rules view inspected' (first_of first matched) store'
                | false ↦ (store', record { enforced = some matched; previewed = first })
              ]
        ]

  pub evaluate : ℕ → Policy → Attributes → Store → Store × EvaluationResult
  unfolding sort_by_priority walk inspection_limit_bytes
  evaluate now policy attributes store =
      walk now (inspection_limit_bytes policy.request_body_inspection_size) policy.name attributes
        (sort_by_priority policy.rules) attributes false none store
