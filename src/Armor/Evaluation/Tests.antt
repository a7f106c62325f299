-- ===== src/Armor/Evaluation/Tests.antt =====
-- A security policy with a preview, a rule that reads the body, and a default rule.
use kinglet.Base.{
  ℕ, ◌≤◌, ◌≡◌, ◌≢◌, refl, String, Bool, List, true, false, none, some, [], ◌∷◌, ◌==◌, string_eq,
  if◌then◌else◌, ok, err,
}
use kinglet.Armor.RateLimit.{Store}
use kinglet.Armor.Evaluation
use kinglet.Armor.Evaluation.{
  Rule, Policy, MatchedRule, Inspection, evaluate, sort_by_priority, inspection_limit_bytes,
  is_body_phase_rule,
}
use kinglet.Armor.Evaluation.Order.{InOrder}
use kinglet.Armor.Evaluation.Priority.{
  Finds, shown, matched_priority, result_of, evaluate-first, evaluate-least,
}
use kinglet.Armor.Evaluation.Previews.{evaluate-bans}
use kinglet.Armor.Evaluation.Phases.{evaluate-phases}

program : Unit {0}
unfolding evaluate sort_by_priority Evaluation.insert_by_priority Evaluation.walk Evaluation.seen
    Evaluation.rule_matches Evaluation.match_src_ip_ranges is_body_phase_rule
    Evaluation.resolve_action Evaluation.limited_action Evaluation.is_redirect_action
    Evaluation.to_matched_rule Evaluation.outcome_of inspection_limit_bytes shown
program = tt

-- A request is a text; its inspected body is the text "inspected".
abbrev inspection : Inspection String
inspection = record {
  ip_of = λ a. "10.0.0.1";
  ip_in_cidr = λ ip range. ip == range;
  evaluate_expression = λ text a.
      if text == "body"
      then ok (a == "inspected")
      else if text == "broken"
      then err ""
      else ok true;
  uses_body_phase = λ text. text == "body";
  with_inspected_body = λ a limit. "inspected";
  client_key = λ options a. "ALL";
}

abbrev rule : ℕ → String → Bool → String → Rule
rule n action is_preview text = record {
  priority = n;
  action = action;
  is_preview = is_preview;
  versioned_expr = none;
  src_ip_ranges = [];
  expression = some text;
  rate_limit_options = none;
  has_header_action = false;
}

abbrev policy : Policy
policy = record {
  name = "edge";
  rules =
      rule 9000 "allow" false "all"
      ∷ rule 20 "redirect" false "body"
      ∷ rule 10 "deny(404)" true "all"
      ∷ rule 5 "deny(403)" false "broken"
      ∷ [];
  request_body_inspection_size = some "16KB";
}

abbrev store : Store
store = record { rate_windows = []; ban_windows = []; bans = [] }

-- The preview is reported, and the redirect of a rule on the body is a denial.
body_denied : (evaluate inspection 7 policy "raw" store).1 ≡ record {
  enforced = some record {
    rule_priority = 20;
    rule_action = "deny(403)";
    outcome = "DENY";
    policy = some "edge";
  };
  previewed = some record {
    rule_priority = 10;
    rule_action = "deny(404)";
    outcome = "DENY";
    policy = some "edge";
  };
}
unfolding program
body_denied = refl

abbrev limit : ℕ
limit = inspection_limit_bytes policy.request_body_inspection_size

evaluate-first_example :
    (rules : List Rule) × InOrder policy.rules rules
    × Finds inspection "raw" limit 7 "edge" none
        (shown inspection "raw" limit false rules)
        store
        (result_of inspection 7 policy "raw" store)
evaluate-first_example = evaluate-first inspection 7 policy "raw" store

evaluate-least_example :
    (n : ℕ) × (matched_priority (result_of inspection 7 policy "raw" store).enforced ≡ some n)
    × (n ≤ 9000)
unfolding program
evaluate-least_example =
    evaluate-least inspection 7 policy "raw" store
      ((rule 5 "deny(403)" false "broken", "raw")
        ∷ (rule 10 "deny(404)" true "all", "raw")
        ∷ (rule 20 "redirect" false "body", "inspected")
        ∷ [])
      [] (rule 9000 "allow" false "all", "inspected") refl refl

abbrev previews : Policy
previews = record policy { rules = rule 10 "deny(404)" true "all" ∷ [] }

evaluate-bans_example : (evaluate inspection 7 previews "raw" store).0.bans ≡ store.bans
unfolding program
evaluate-bans_example = evaluate-bans inspection 7 "raw" previews store refl

abbrev denied : MatchedRule
denied = record {
  rule_priority = 20;
  rule_action = "deny(403)";
  outcome = "DENY";
  policy = some "edge";
}

evaluate-phases_example : denied.outcome ≢ "REDIRECT"
unfolding program
evaluate-phases_example =
    evaluate-phases inspection 7 "raw" policy store (rule 20 "redirect" false "body", "inspected")
      denied refl refl refl
