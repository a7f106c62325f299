-- ===== src/Armor/Evaluation/Priority.antt =====
-- The walk of a security policy against a description of the rule that it enforces.
use mathlib.Core.Option
use text.Mathlib.Text.{starts_with}
use kinglet.Base.{
  ap, ◌==◌, string_eq, ℕ, ◌≤◌, ◌≡◌, refl, ◌∙◌, String, Bool, true, false, not, ◌&&◌, ◌||◌, Option,
  none, some, List, [], ◌∷◌, arith, if◌then◌else◌, All, All-weaken, All-at, ◌++◌, subst, Bool-cases,
  inl, inr,
}
use kinglet.Armor.RateLimit.{Store}
use kinglet.Armor.Evaluation.Order.{Sorted, InOrder, sort-Sorted, sort-InOrder}
use kinglet.Armor.Evaluation.{
  Rule, Policy, MatchedRule, EvaluationResult, Inspection, sort_by_priority, first_of, rule_matches,
  is_body_phase_rule, resolve_action, to_matched_rule, phase_of, seen, walk, outcome_of, evaluate,
  inspection_limit_bytes,
}

-- The first element that passes, and the elements before it.
abbrev pub find_where {ℓ} : {A : Type ℓ} → (A → Bool) → List A → Option A
find_where p [] = none
find_where p (x ∷ xs) = if p x then some x else find_where p xs

abbrev pub take_until {ℓ} : {A : Type ℓ} → (A → Bool) → List A → List A
take_until p [] = []
take_until p (x ∷ xs) = let rest = take_until p xs in if p x then [] else x ∷ rest

-- What a match is recorded as, from the number of its rule and its action: what the action comes to, and the policy,
-- if it has a name.
abbrev pub matched_as : String → ℕ → String → MatchedRule
matched_as policy_name priority action = record {
  rule_priority = priority;
  rule_action = action;
  outcome =
      if action == "allow"
      then "ALLOW"
      else if action == "redirect" || starts_with action "redirect("
      then "REDIRECT"
      else "DENY";
  policy = if policy_name == "" then none else some policy_name;
}

abbrev pub matched_priority : Option MatchedRule → Option ℕ
matched_priority = Option.map λ m. m.rule_priority

abbrev pub priority_of {κ} : {Attributes : Type κ} → Option (Rule × Attributes) → Option ℕ
priority_of = Option.map λ e. e.0.priority

module _ {κ} {Attributes : Type κ} (i : Inspection Attributes) where
  abbrev pub matching : Rule × Attributes → Bool
  matching (r, view) = rule_matches i r view

  -- It matches, and it is not a preview.
  abbrev pub decides : Rule × Attributes → Bool
  decides (r, view) = rule_matches i r view && not r.is_preview

module _ {κ} {Attributes : Type κ} (i : Inspection Attributes) (attributes : Attributes)
    (limit : ℕ) where
  -- What a rule is shown: the inspected request from the first rule on that reads the body.
  abbrev pub view_of : Bool → Attributes
  view_of inspected = if inspected then i.with_inspected_body attributes limit else attributes

  unfoldable pub shown : Bool → List Rule → List (Rule × Attributes)
  shown inspected [] = []
  shown inspected (r ∷ rules) =
      (r, view_of (inspected || is_body_phase_rule i r))
      ∷ shown (inspected || is_body_phase_rule i r) rules

  module _ (now : ℕ) (policy_name : String) where
    pub seen_view :
        (inspected : Bool) (r : Rule)
        → seen i now limit policy_name attributes inspected r (view_of inspected)
          ≡ view_of (inspected || is_body_phase_rule i r)
    unfolding seen
    seen_view true r = ground arith
    seen_view false r = ground arith

    module _ (r : Rule) (rules : List Rule) (inspected : Bool) (current view : Attributes)
        (first : Option MatchedRule) (store : Store)
        (sees : seen i now limit policy_name attributes inspected r current ≡ view) where
      -- A rule that does not match is passed over.
      pub walk_skip :
          rule_matches i r view ≡ false
          → walk i now limit policy_name attributes (r ∷ rules) current inspected first store
            ≡ walk i now limit policy_name attributes rules view
                (inspected || is_body_phase_rule i r)
                first
                store
      unfolding walk
      walk_skip missed = ground (arith, sees, missed)

      -- A preview that matches is recorded, if it is the first.
      pub walk_preview :
          rule_matches i r view ≡ true
          → r.is_preview ≡ true
          → walk i now limit policy_name attributes (r ∷ rules) current inspected first store ≡ (
              let (store', action) = resolve_action i now policy_name (phase_of i r) r view store in
              walk i now limit policy_name attributes rules view
                (inspected || is_body_phase_rule i r)
                (first_of first (to_matched_rule r action policy_name))
                store')
      unfolding walk
      walk_preview hit is_preview = ground (arith, sees, hit, is_preview)

      -- Any other rule that matches ends the walk.
      pub walk_enforce :
          rule_matches i r view ≡ true
          → r.is_preview ≡ false
          → walk i now limit policy_name attributes (r ∷ rules) current inspected first store ≡ (
              let (store', action) = resolve_action i now policy_name (phase_of i r) r view store in
              (
                store',
                record {
                  enforced = some (to_matched_rule r action policy_name);
                  previewed = first;
                },
              ))
      unfolding walk
      walk_enforce hit is_rule = ground (arith, sees, hit, is_rule)

    -- What a rule that matches answers: its action, as the rate limits resolve it, and their store after it.
    abbrev pub answer_of : Rule × Attributes → Store → Store × String
    answer_of (r, view) store = resolve_action i now policy_name (phase_of i r) r view store

    -- The store after the answers of all that match.
    abbrev pub store_after : List (Rule × Attributes) → Store → Store
    store_after [] store = store
    store_after (e ∷ es) store =
        store_after es (if matching i e then (answer_of e store).0 else store)

    -- What is recorded of a rule that is found.
    abbrev pub record_of : Option (Rule × Attributes) → Store → Option MatchedRule
    record_of none store = none
    record_of (some e) store = some (matched_as policy_name e.0.priority (answer_of e store).1)

    -- What the walk finds among the rules that are left.
    abbrev pub Finds :
        Option MatchedRule → List (Rule × Attributes) → Store → EvaluationResult → Type 0
    Finds first entries store result =
        (result.enforced
          ≡ record_of (find_where (decides i) entries)
              (store_after (take_until (decides i) entries) store))
        × (result.previewed ≡ (elim first [
          | none ↦ record_of (find_where (matching i) (take_until (decides i) entries)) store
          | some m ↦ some m
        ]))

    walk-Finds :
        (rules : List Rule) (inspected : Bool) (first : Option MatchedRule) (store : Store)
        → Finds first
            (shown inspected rules)
            store
            (walk i now limit policy_name attributes rules
              (view_of inspected)
              inspected
              first
              store).1
    unfolding walk shown to_matched_rule outcome_of
    walk-Finds [] inspected none store = (refl, refl)
    walk-Finds [] inspected (some m) store = (refl, refl)
    walk-Finds (r ∷ rules) inspected first store =
        let inspected' = inspected || is_body_phase_rule i r in
        let view = view_of inspected' in
        let sees = seen_view inspected r in
        elim (Bool-cases (rule_matches i r view)) [
          | inr missed ↦
              let (a, b) = walk-Finds rules inspected' first store in
              let step =
                walk_skip r rules inspected (view_of inspected) view first store sees missed in
              (ground (arith, step, missed, a), ground (arith, step, missed, b))
          | inl hit ↦ elim (Bool-cases r.is_preview) [
            | inl is_preview ↦
                let step =
                  walk_preview r rules inspected (view_of inspected) view first store sees hit
                    is_preview in
                let (store', action) =
                  resolve_action i now policy_name (phase_of i r) r view store in
                let (a, b) =
                  walk-Finds rules inspected'
                    (first_of first (to_matched_rule r action policy_name)) store' in
                (ground (arith, step, hit, is_preview, a), ground (arith, step, hit, is_preview, b))
            | inr is_rule ↦
                let step =
                  walk_enforce r rules inspected (view_of inspected) view first store sees hit
                    is_rule in
                (ground (arith, step, hit, is_rule), ground (arith, step, hit, is_rule))
          ]
        ]

    record_of-priority :
        (o : Option (Rule × Attributes)) (store : Store)
        → matched_priority (record_of o store) ≡ priority_of o
    record_of-priority none store = refl
    record_of-priority (some e) store = refl

module _ {κ} {Attributes : Type κ} (i : Inspection Attributes) where
  -- The priority that is found is at most that of an entry that decides.
  abbrev pub AtMost : Option ℕ → Rule × Attributes → Type 0
  AtMost found e = decides i e ≡ true → (n : ℕ) × (found ≡ some n) × (n ≤ e.0.priority)

module _ {κ} {Attributes : Type κ} (i : Inspection Attributes) (attributes : Attributes)
    (limit : ℕ) where
  shown-All :
      (n : ℕ) (rules : List Rule) (inspected : Bool)
      → All (λ s. n ≤ s.priority) rules
      → All (λ e. n ≤ e.0.priority) (shown i attributes limit inspected rules)
  unfolding shown
  shown-All n [] inspected all = tt
  shown-All n (r ∷ rules) inspected (h, all) =
      (h, shown-All n rules (inspected || is_body_phase_rule i r) all)

  find-AtMost :
      (rules : List Rule) (inspected : Bool)
      → Sorted rules
      → let entries = shown i attributes limit inspected rules in
        All (AtMost i (priority_of (find_where (decides i) entries))) entries
  unfolding shown
  find-AtMost [] inspected sorted = tt
  find-AtMost (r ∷ rules) inspected (least, sorted) =
      let view = view_of i attributes limit (inspected || is_body_phase_rule i r) in
      let inspected' = inspected || is_body_phase_rule i r in
      let rest = shown i attributes limit inspected' rules in
      elim (Bool-cases (decides i (r, view))) [
        | inl hit ↦ (
          λ d. (r.priority, ground (arith, hit), omega arith),
          All-weaken rest (λ e le d. (r.priority, ground (arith, hit), le))
              (shown-All r.priority rules inspected' least),
        )
        | inr missed ↦ (
          λ d. absurd (ground (arith, d, missed)),
          All-weaken rest
              (λ e least_of d.
                let (n, same, le) = least_of d in (n, ground (arith, missed, same), le))
              (find-AtMost rules inspected' sorted),
        )
      ]

module _ {κ} {Attributes : Type κ} (i : Inspection Attributes) (now : ℕ) (policy : Policy)
    (attributes : Attributes) (store : Store) where
  abbrev pub result_of : EvaluationResult
  result_of = (evaluate i now policy attributes store).1

  -- The rules in the order of their priorities, with what each is shown.
  abbrev pub entries_of : List (Rule × Attributes)
  entries_of =
      shown i attributes (inspection_limit_bytes policy.request_body_inspection_size) false
        (sort_by_priority policy.rules)

  -- The rules, ordered from the least priority number up, those of one number in the order of the policy, are each
  -- shown the request, with its body inspected from the first rule on that reads the body. The enforced match
  -- records the first rule that is not a preview and matches what it is shown: its number, what it answers after the
  -- answers of the previews before it that match, whether that allows, denies or redirects, and the policy. The
  -- preview match records likewise the first preview before that rule that matches, and what it answers. There is
  -- none where there is no such rule.
  pub evaluate-first :
      (rules : List Rule) × InOrder policy.rules rules
      × Finds i attributes
          (inspection_limit_bytes policy.request_body_inspection_size)
          now
          policy.name
          none
          (shown i attributes
            (inspection_limit_bytes policy.request_body_inspection_size)
            false
            rules)
          store
          result_of
  unfolding evaluate
  evaluate-first = (
    sort_by_priority policy.rules,
    sort-InOrder policy.rules,
    walk-Finds i attributes (inspection_limit_bytes policy.request_body_inspection_size) now
        policy.name (sort_by_priority policy.rules) false none store,
  )

  first_priority :
      matched_priority result_of.enforced ≡ priority_of (find_where (decides i) entries_of)
  unfolding evaluate
  first_priority =
      let limit = inspection_limit_bytes policy.request_body_inspection_size in
      ap matched_priority
        (walk-Finds i attributes limit now policy.name (sort_by_priority policy.rules) false none
          store).0
      ∙ record_of-priority i attributes limit now policy.name (find_where (decides i) entries_of)
          (store_after i attributes limit now policy.name (take_until (decides i) entries_of) store)

  -- A rule that is not a preview and matches what it is shown: then a match is enforced, and its priority
  -- number is at most that rule's.
  pub evaluate-least :
      (before after : List (Rule × Attributes)) (e : Rule × Attributes)
      → entries_of ≡ before ++ e ∷ after
      → decides i e ≡ true
      → (n : ℕ) × (matched_priority result_of.enforced ≡ some n) × (n ≤ e.0.priority)
  evaluate-least before after e place d =
      let limit = inspection_limit_bytes policy.request_body_inspection_size in
      let sorted = sort-Sorted policy.rules in
      let P = AtMost i (priority_of (find_where (decides i) entries_of)) in
      let all = find-AtMost i attributes limit (sort_by_priority policy.rules) false sorted in
      let (n, same, le) =
        All-at P before after (subst (λ (l : List (Rule × Attributes)). All P l) place all) d in
      (n, first_priority ∙ same, le)
