-- ===== src/Armor/Evaluation/Previews.antt =====
-- Preview rules of a security policy, of src/services/compute/armor/evaluate.ts, and the bans.
use kinglet.Base.{
  ℕ, ◌≡◌, refl, sym, ap, ◌∙◌, String, Bool, true, false, ◌||◌, Option, none, List, [], ◌∷◌, arith,
  Bool-cases, Option-cases, inl, inr,
}
use kinglet.Armor.RateLimit.{Store, BucketKey}
use kinglet.Armor.RateLimit.Bans.{apply-preview}
use kinglet.Armor.Evaluation.{
  Rule, Policy, MatchedRule, Inspection, Phase, body, header, sort_by_priority, rule_matches,
  is_body_phase_rule, kind_of, limited_action, resolve_action, phase_of, walk, evaluate,
  inspection_limit_bytes,
}
use kinglet.Armor.Evaluation.Priority.{view_of, seen_view, walk_skip, walk_preview, walk_enforce}

module _ {κ} {Attributes : Type κ} (i : Inspection Attributes) (now : ℕ) (policy_name : String)
    (r : Rule) (view : Attributes) (store : Store) where
  bans-limited_action :
      r.is_preview ≡ true → (limited_action i now policy_name r view store).0.bans ≡ store.bans
  unfolding limited_action
  bans-limited_action is_preview = elim (Option-cases (kind_of r.action)) [
    | inl other ↦ ground (arith, other)
    | inr (kind, limits) ↦ elim (Option-cases r.rate_limit_options) [
      | inl absent ↦ ground (arith, limits, absent)
      | inr (options, given) ↦
          let key : BucketKey = (policy_name, r.priority, i.client_key options view) in
          ground (arith, limits, given, is_preview, (apply-preview key kind options now store).1)
    ]
  ]

  pub bans-resolve_action :
      (phase : Phase)
      → r.is_preview ≡ true
      → (resolve_action i now policy_name phase r view store).0.bans ≡ store.bans
  unfolding resolve_action
  bans-resolve_action body is_preview = bans-limited_action is_preview
  bans-resolve_action header is_preview = bans-limited_action is_preview

module _ {κ} {Attributes : Type κ} (i : Inspection Attributes) (now : ℕ)
    (attributes : Attributes) where
  bans-walk :
      (limit : ℕ) (policy_name : String) (rules : List Rule) (inspected : Bool)
      (first : Option MatchedRule) (store : Store)
      → (walk i now limit policy_name attributes rules
          (view_of i attributes limit inspected)
          inspected
          first
          store).1.enforced
        ≡ none
      → (walk i now limit policy_name attributes rules
          (view_of i attributes limit inspected)
          inspected
          first
          store).0.bans
        ≡ store.bans
  unfolding walk
  bans-walk limit policy_name [] inspected first store h = refl
  bans-walk limit policy_name (r ∷ rules) inspected first store h =
      let inspected' = inspected || is_body_phase_rule i r in
      let view = view_of i attributes limit inspected' in
      let sees = seen_view i attributes limit now policy_name inspected r in
      elim (Bool-cases (rule_matches i r view)) [
        | inr missed ↦
            let step =
              walk_skip i attributes limit now policy_name r rules inspected _ view first store sees
                missed in
            ap (λ o. o.0.bans) step
            ∙ bans-walk limit policy_name rules inspected' first store
                (sym (ap (λ o. o.1.enforced) step) ∙ h)
        | inl hit ↦ elim (Bool-cases r.is_preview) [
          | inl is_preview ↦
              let step =
                walk_preview i attributes limit now policy_name r rules inspected _ view first store
                  sees hit is_preview in
              ap (λ o. o.0.bans) step
              ∙ bans-walk limit policy_name rules inspected' _ _
                  (sym (ap (λ o. o.1.enforced) step) ∙ h)
              ∙ bans-resolve_action i now policy_name r view store (phase_of i r) is_preview
          | inr is_rule ↦
              let step =
                walk_enforce i attributes limit now policy_name r rules inspected _ view first store
                  sees hit is_rule in
              absurd (ground (arith, step, h))
        ]
      ]

  -- A request on which no match is enforced leaves the bans as they are, whatever previews it matches.
  pub evaluate-bans :
      (policy : Policy) (store : Store)
      → (evaluate i now policy attributes store).1.enforced ≡ none
      → (evaluate i now policy attributes store).0.bans ≡ store.bans
  unfolding evaluate
  evaluate-bans policy store h =
      bans-walk (inspection_limit_bytes policy.request_body_inspection_size) policy.name
        (sort_by_priority policy.rules) false none store h
