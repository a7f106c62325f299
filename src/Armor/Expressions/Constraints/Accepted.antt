-- ===== src/Armor/Expressions/Constraints/Accepted.antt =====
-- The write-time check of Cloud Armor's expressions against a list of the nodes of the tree.
use kinglet.Base.{
  ℕ, ◌+◌, ◌≡◌, refl, sym, ap, ◌∙◌, String, Bool, ◌||◌, Option, none, some, List, [], ◌∷◌, ◌++◌, map,
  arith, if◌then◌else◌, ltb, length, keep, Result, ok, err, ◌>>=◌, Option-cases, Bool-cases, inl,
  inr,
}
use mathlib.Core.List.{append_assoc, append-nil}
use kinglet.Armor.Expressions.{
  Ast, Asts, Entries, lit, ident, member, index, call, unary, binary, list, map_of, no_asts, ast,
  no_entries, entry,
}
use kinglet.Armor.Expressions.Constraints.{
  any_below, Counts, Refusal, refused, too_many, two_matches, too_wide, node_error, visit, walk,
  walk_all, walk_entries, check_counts, check_write_time_constraints, is_comparison, is_call,
  is_matches, first_some, max_subexpressions, max_matches_per_expression, max_subexpression_chars,
}
use kinglet.Armor.Expressions.Constraints.Nodes.{nodes, nodes_all, nodes_entries}

abbrev counted : Ast → Bool
counted node = is_comparison node || is_call node

module _ (compile_error : String → Option String) where
  abbrev visit_all : List Ast → Counts → Result Refusal Counts
  visit_all [] counts = ok counts
  visit_all (n ∷ ns) counts = visit compile_error n counts >>= visit_all ns

  visit_all-append :
      (xs ys : List Ast) (counts : Counts)
      → visit_all (xs ++ ys) counts ≡ (visit_all xs counts >>= visit_all ys)
  visit_all-append [] ys counts = refl
  visit_all-append (x ∷ xs) ys counts =
      elim (visit compile_error x counts)
        as (λ r. (r >>= visit_all (xs ++ ys)) ≡ (r >>= visit_all xs >>= visit_all ys)) [
          | ok c ↦ visit_all-append xs ys c
          | err e ↦ refl
        ]

  -- Walks one after another, as one list of visits.
  after-visits :
      (r : Result Refusal Counts) (f : Counts → Result Refusal Counts) (ns : List Ast)
      → ((c : Counts) → f c ≡ visit_all ns c)
      → (r >>= f) ≡ (r >>= visit_all ns)
  after-visits (ok c) f ns same = same c
  after-visits (err e) f ns same = refl

  then-visits :
      (r : Result Refusal Counts) (f g : Counts → Result Refusal Counts) (ns ms : List Ast)
      → ((c : Counts) → f c ≡ visit_all ns c)
      → ((c : Counts) → g c ≡ visit_all ms c)
      → (r >>= f >>= g) ≡ (r >>= visit_all (ns ++ ms))
  then-visits (err e) f g ns ms same same' = refl
  then-visits (ok c) f g ns ms same same' =
      ap (λ r. r >>= g) (same c)
      ∙ after-visits (visit_all ns c) g ms same'
      ∙ sym (visit_all-append ns ms c)

  alone : (n : Ast) (c : Counts) → visit compile_error n c ≡ visit_all (n ∷ []) c
  alone n c = elim (visit compile_error n c) as (λ r. r ≡ (r >>= visit_all [])) [
    | ok c' ↦ refl
    | err e ↦ refl
  ]

  mutual
    unfolding walk walk_all walk_entries nodes nodes_all nodes_entries

    walk-nodes : (e : Ast) (c : Counts) → walk compile_error e c ≡ visit_all (nodes e) c
    walk-nodes (lit l) c = alone (lit l) c
    walk-nodes (ident name) c = alone (ident name) c
    walk-nodes (member object name) c = after-visits _ _ (nodes object) (walk-nodes object)
    walk-nodes (index object key) c =
        then-visits _ _ _ (nodes object) (nodes key) (walk-nodes object) (walk-nodes key)
    walk-nodes (call callee args) c =
        then-visits _ _ _ (nodes callee) (nodes_all args) (walk-nodes callee) (walk_all-nodes args)
    walk-nodes (unary op arg) c = after-visits _ _ (nodes arg) (walk-nodes arg)
    walk-nodes (binary op left right) c =
        then-visits _ _ _ (nodes left) (nodes right) (walk-nodes left) (walk-nodes right)
    walk-nodes (list elements) c = after-visits _ _ (nodes_all elements) (walk_all-nodes elements)
    walk-nodes (map_of es) c = after-visits _ _ (nodes_entries es) (walk_entries-nodes es)

    walk_all-nodes :
        (es : Asts) (c : Counts) → walk_all compile_error es c ≡ visit_all (nodes_all es) c
    walk_all-nodes no_asts c = refl
    walk_all-nodes (ast e es) c =
        then-visits (ok c) _ _ (nodes e) (nodes_all es) (walk-nodes e) (walk_all-nodes es)

    walk_entries-nodes :
        (es : Entries) (c : Counts)
        → walk_entries compile_error es c ≡ visit_all (nodes_entries es) c
    walk_entries-nodes no_entries c = refl
    walk_entries-nodes (entry key value es) c =
        then-visits (walk compile_error key c) _ _ (nodes value) (nodes_entries es)
          (walk-nodes value) (walk_entries-nodes es)
        ∙ ap (λ r. r >>= visit_all (nodes value ++ nodes_entries es)) (walk-nodes key c)
        ∙ sym (visit_all-append (nodes key) (nodes value ++ nodes_entries es) c)

  -- The counts after nodes without an error.
  abbrev tally : Counts → List Ast → Counts
  tally counts ns = record {
    sub_spans = counts.sub_spans ++ keep counted ns;
    matches_count = counts.matches_count + length (keep is_matches ns);
  }

  abbrev visited : Option String → Counts → Result Refusal Counts
  visited none counts = ok counts
  visited (some message) counts = err (refused message)

  visit_one :
      (n : Ast) (c : Counts)
      → visit compile_error n c ≡ visited (node_error compile_error n) (tally c (n ∷ []))
  unfolding visit
  visit_one n c = ground (arith, append-nil c.sub_spans)

  tally-tally :
      (n : Ast) (ns : List Ast) (c : Counts) → tally (tally c (n ∷ [])) ns ≡ tally c (n ∷ ns)
  tally-tally n ns c = elim (Bool-cases (counted n)) [
    | inl span ↦ ground (arith, span, append_assoc c.sub_spans (n ∷ []) (keep counted ns))
    | inr other ↦ ground (arith, other, append-nil c.sub_spans)
  ]

  after_one :
      (o : Option String) (n : Ast) (ns : List Ast) (c : Counts) (rest : Option String)
      → ((b : Counts) → visit_all ns b ≡ visited rest (tally b ns))
      → (visited o (tally c (n ∷ [])) >>= visit_all ns)
        ≡ visited (elim o [ none ↦ rest | some m ↦ some m ]) (tally c (n ∷ ns))
  after_one none n ns c rest same = same (tally c (n ∷ [])) ∙ ap (visited rest) (tally-tally n ns c)
  after_one (some m) n ns c rest same = refl

  visit_all-tally :
      (ns : List Ast) (c : Counts)
      → visit_all ns c ≡ visited (first_some (map (node_error compile_error) ns)) (tally c ns)
  visit_all-tally [] c = ground (arith, append-nil c.sub_spans)
  visit_all-tally (n ∷ ns) c =
      ap (λ r. r >>= visit_all ns) (visit_one n c)
      ∙ after_one (node_error compile_error n) n ns c
          (first_some (map (node_error compile_error) ns)) (visit_all-tally ns)
      ∙ ap (λ o. visited o (tally c (n ∷ ns)))
          (elim (Option-cases (node_error compile_error n)) [
            | inl fine ↦ ground (arith, fine)
            | inr (m, bad) ↦ ground (arith, bad)
          ])

  module _ (width : ℕ → ℕ) where
    -- The write-time check refuses an expression with the message of the first node, each before those under
    -- it and from left to right, that has an error; if none has, it looks at the number of calls and
    -- comparisons, at the number of `matches` calls, and at the widths of the calls and comparisons, in this order.
    pub check_lem :
        (tree : Ast)
        → let ns = nodes tree in
          let spans = keep (λ n. is_comparison n || is_call n) ns in
          check_write_time_constraints compile_error width tree
          ≡ elim (first_some (map (node_error compile_error) ns)) [
            | some message ↦ err (refused message)
            | none ↦
                if ltb max_subexpressions (length spans)
                then err (too_many (length spans))
                else if ltb max_matches_per_expression (length (keep is_matches ns))
                then err two_matches
                else if any_below (λ k. ltb max_subexpression_chars (width k)) (length spans)
                then err too_wide
                else ok tt
          ]
    unfolding check_write_time_constraints check_counts
    check_lem tree =
        let c : Counts = record { sub_spans = []; matches_count = 0 } in
        ap (λ r. r >>= check_counts compile_error width)
          (walk-nodes tree c ∙ visit_all-tally (nodes tree) c)
        ∙ (elim (Option-cases (first_some (map (node_error compile_error) (nodes tree)))) [
          | inl fine ↦ ground (arith, fine)
          | inr (m, bad) ↦ ground (arith, bad)
        ])
