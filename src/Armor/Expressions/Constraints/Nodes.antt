-- ===== src/Armor/Expressions/Constraints/Nodes.antt =====
-- The nodes of a syntax tree of Cloud Armor's expressions, and what reads the body among them.
use kinglet.Base.{
  sym, ap, ◌∙◌, true, ◌↔◌, inl, inr, Bool-cases, string_eq, ◌≡◌, refl, Bool, ◌||◌, List, [], ◌∷◌,
  ◌++◌, arith, any,
}
use kinglet.Armor.Expressions.{
  Ast, Asts, Entries, lit, ident, member, index, call, unary, binary, list, map_of, no_asts, ast,
  no_entries, entry,
}
use kinglet.Armor.Expressions.Constraints.{reads_body, uses_body, any_uses_body, entries_use_body}
use kinglet.Armor.Expressions.Constraints.BodyReads.{
  ReadsBody, reads_body-ReadsBody, ReadsBody-reads_body,
}

-- The nodes of a tree, each before those under it, from left to right.
unfoldable mutual
  pub nodes : Ast → List Ast
  nodes (lit l) = lit l ∷ []
  nodes (ident name) = ident name ∷ []
  nodes (member object name) = member object name ∷ nodes object
  nodes (index object key) = index object key ∷ (nodes object ++ nodes key)
  nodes (call callee args) = call callee args ∷ (nodes callee ++ nodes_all args)
  nodes (unary op arg) = unary op arg ∷ nodes arg
  nodes (binary op left right) = binary op left right ∷ (nodes left ++ nodes right)
  nodes (list elements) = list elements ∷ nodes_all elements
  nodes (map_of es) = map_of es ∷ nodes_entries es

  pub nodes_all : Asts → List Ast
  nodes_all no_asts = []
  nodes_all (ast e es) = nodes e ++ nodes_all es

  pub nodes_entries : Entries → List Ast
  nodes_entries no_entries = []
  nodes_entries (entry key value es) = nodes key ++ (nodes value ++ nodes_entries es)

any-append : (p : Ast → Bool) (xs ys : List Ast) → any p (xs ++ ys) ≡ (any p xs || any p ys)
any-append p [] ys = refl
any-append p (x ∷ xs) ys = ground (arith, any-append p xs ys)

mutual
  unfolding uses_body any_uses_body entries_use_body nodes nodes_all nodes_entries

  uses_body-nodes : (e : Ast) → uses_body e ≡ any reads_body (nodes e)
  uses_body-nodes (lit l) = ground arith
  uses_body-nodes (ident name) = ground arith
  uses_body-nodes (member object name) = ground (arith, uses_body-nodes object)
  uses_body-nodes (index object key) = ground (
    arith,
    uses_body-nodes object,
    uses_body-nodes key,
    any-append reads_body (nodes object) (nodes key),
  )
  uses_body-nodes (call callee args) = ground (
    arith,
    uses_body-nodes callee,
    all_use-nodes args,
    any-append reads_body (nodes callee) (nodes_all args),
  )
  uses_body-nodes (unary op arg) = ground (arith, uses_body-nodes arg)
  uses_body-nodes (binary op left right) = ground (
    arith,
    uses_body-nodes left,
    uses_body-nodes right,
    any-append reads_body (nodes left) (nodes right),
  )
  uses_body-nodes (list elements) = ground (arith, all_use-nodes elements)
  uses_body-nodes (map_of es) = ground (arith, entries_use-nodes es)

  all_use-nodes : (es : Asts) → any_uses_body es ≡ any reads_body (nodes_all es)
  all_use-nodes no_asts = refl
  all_use-nodes (ast e es) =
      ground
        (arith, uses_body-nodes e, all_use-nodes es, any-append reads_body (nodes e) (nodes_all es))

  entries_use-nodes : (es : Entries) → entries_use_body es ≡ any reads_body (nodes_entries es)
  entries_use-nodes no_entries = refl
  entries_use-nodes (entry key value es) = ground (
    arith,
    uses_body-nodes key,
    uses_body-nodes value,
    entries_use-nodes es,
    any-append reads_body (nodes key) (nodes value ++ nodes_entries es),
    any-append reads_body (nodes value) (nodes_entries es),
  )

-- A node of a tree that reads the body, and where it stands.
pub record BodyRead (e : Ast) : Type 0 where
  pub node : Ast
  pub before : List Ast
  pub after : List Ast
  pub place : nodes e ≡ before ++ node ∷ after
  pub reads : ReadsBody node

any-place :
    (p : Ast → Bool) (xs : List Ast)
    → any p xs ≡ true
    → (before : List Ast) × (x : Ast) × (after : List Ast) × (xs ≡ before ++ x ∷ after)
      × (p x ≡ true)
any-place p [] h = absurd (ground (arith, h))
any-place p (x ∷ xs) h = elim (Bool-cases (p x)) [
  | inl hit ↦ ([], x, xs, refl, hit)
  | inr missed ↦
      let (before, y, after, place, hit) = any-place p xs (ground (arith, h, missed)) in
      (x ∷ before, y, after, ap (◌∷◌ x) place, hit)
]

-- `astUsesBodyPhase` is true exactly if some node of the tree is the field `body` or `params` of `request`, by name
-- or by key, or a call of `evaluatePreconfiguredWaf` or `evaluatePreconfiguredExpr`, as a function or a method.
pub uses_body_lem : (e : Ast) → uses_body e ≡ true ↔ BodyRead e
uses_body_lem e = (
  λ h.
      let (before, n, after, place, hit) =
        any-place reads_body (nodes e) (sym (uses_body-nodes e) ∙ h) in
      record {
        node = n;
        before = before;
        after = after;
        place = place;
        reads = reads_body-ReadsBody n hit;
      },
  λ r.
      uses_body-nodes e
      ∙ ap (any reads_body) r.place
      ∙ any-append reads_body r.before (r.node ∷ r.after)
      ∙ ground (arith, ReadsBody-reads_body r.node r.reads),
)
