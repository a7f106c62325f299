-- ===== src/Armor/Evaluation/Phases.antt =====
-- Redirects of a security policy, of src/services/compute/armor/evaluate.ts, and the phases of its rules.
use kinglet.Base.{
  ℕ, ◌≡◌, ◌≢◌, sym, ap, ◌∙◌, String, Bool, true, false, ◌||◌, Option, none, some, List, [], ◌∷◌,
  arith, Bool-cases, inl, inr, ◌==◌, string_eq,
}
use kinglet.Armor.RateLimit.{Store}
use kinglet.Armor.Evaluation.{
  Rule, Policy, MatchedRule, Inspection, body, sort_by_priority, rule_matches, is_body_phase_rule,
  is_redirect_action, outcome_of, limited_action, resolve_action, to_matched_rule, phase_of, walk,
  evaluate, inspection_limit_bytes,
}
use kinglet.Armor.Evaluation.Priority.{
  view_of, shown, decides, find_where, seen_view, walk_skip, walk_preview, walk_enforce,
}

abbrev NotRedirect : String → Type 0
NotRedirect s = s ≢ "REDIRECT"

allow_lem : NotRedirect "ALLOW"
allow_lem e = ground (arith, (string_eq.equals_iff "ALLOW" "REDIRECT").1 e)

deny_lem : NotRedirect "DENY"
deny_lem e = ground (arith, (string_eq.equals_iff "DENY" "REDIRECT").1 e)

outcome-stays :
    (action : String) → is_redirect_action action ≡ false → outcome_of action ≢ "REDIRECT"
unfolding is_redirect_action outcome_of
outcome-stays action h = elim (Bool-cases (action == "allow")) [
  | inl allow ↦ rw allow allow_lem
  | inr other ↦ λ e. deny_lem (ground (arith, h, other, e))
]

outcome-denied : outcome_of "deny(403)" ≢ "REDIRECT"
unfolding outcome_of
outcome-denied = deny_lem

module _ {κ} {Attributes : Type κ} (i : Inspection Attributes) (now : ℕ) (policy_name : String)
    (r : Rule) (view : Attributes) (store : Store) where
  body-outcome : outcome_of (resolve_action i now policy_name body r view store).1 ≢ "REDIRECT"
  unfolding resolve_action
  body-outcome =
      elim (Bool-cases (is_redirect_action (limited_action i now policy_name r view store).1)) [
        | inl redirect ↦ rw redirect outcome-denied
        | inr other ↦ rw other (outcome-stays _ other)
      ]

module _ {κ} {Attributes : Type κ} (i : Inspection Attributes) (now : ℕ)
    (attributes : Attributes) where
  outcome-walk :
      (limit : ℕ) (policy_name : String) (rules : List Rule) (inspected : Bool)
      (first : Option MatchedRule) (store : Store) (e : Rule × Attributes) (m : MatchedRule)
      → find_where (decides i) (shown i attributes limit inspected rules) ≡ some e
      → is_body_phase_rule i e.0 ≡ true
      → (walk i now limit policy_name attributes rules
          (view_of i attributes limit inspected)
          inspected
          first
          store).1.enforced
        ≡ some m
      → m.outcome ≢ "REDIRECT"
  unfolding walk shown to_matched_rule
  outcome-walk limit policy_name [] inspected first store e m place reads h =
      absurd (ground (arith, h))
  outcome-walk limit policy_name (r ∷ rules) inspected first store e m place reads h =
      let inspected' = inspected || is_body_phase_rule i r in
      let view = view_of i attributes limit inspected' in
      let sees = seen_view i attributes limit now policy_name inspected r in
      elim (Bool-cases (rule_matches i r view)) [
        | inr missed ↦
            let step =
              walk_skip i attributes limit now policy_name r rules inspected _ view first store sees
                missed in
            outcome-walk limit policy_name rules inspected' first store e m
              (ground (arith, missed, place)) reads (sym (ap (λ o. o.1.enforced) step) ∙ h)
        | inl hit ↦ elim (Bool-cases r.is_preview) [
          | inl is_preview ↦
              let step =
                walk_preview i attributes limit now policy_name r rules inspected _ view first store
                  sees hit is_preview in
              outcome-walk limit policy_name rules inspected' _ _ e m
                (ground (arith, hit, is_preview, place)) reads
                (sym (ap (λ o. o.1.enforced) step) ∙ h)
          | inr is_rule ↦
              let step =
                walk_enforce i attributes limit now policy_name r rules inspected _ view first store
                  sees hit is_rule in
              let here : r ≡ e.0 = ground (arith, hit, is_rule, place) in
              let in_body : phase_of i r ≡ body = ground (arith, here, reads) in
              let action = (resolve_action i now policy_name (phase_of i r) r view store).1 in
              let same : m.outcome ≡ outcome_of action = ground (arith, step, h) in
              λ redirect. body-outcome i now policy_name r view store (
                sym
                  (ap (λ p. outcome_of (resolve_action i now policy_name p r view store).1) in_body)
                ∙ sym same
                ∙ redirect)
        ]
      ]

  -- Where the rule that is enforced reads the body, the outcome is no redirect.
  pub evaluate-phases :
      (policy : Policy) (store : Store) (e : Rule × Attributes) (m : MatchedRule)
      → find_where (decides i) (
          shown i attributes
            (inspection_limit_bytes policy.request_body_inspection_size)
            false
            (sort_by_priority policy.rules))
        ≡ some e
      → is_body_phase_rule i e.0 ≡ true
      → (evaluate i now policy attributes store).1.enforced ≡ some m
      → m.outcome ≢ "REDIRECT"
  unfolding evaluate
  evaluate-phases policy store e m place reads h =
      outcome-walk (inspection_limit_bytes policy.request_body_inspection_size) policy.name
        (sort_by_priority policy.rules) false none store e m place reads h
