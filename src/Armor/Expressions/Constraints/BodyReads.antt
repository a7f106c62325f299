-- ===== src/Armor/Expressions/Constraints/BodyReads.antt =====
-- The nodes of Cloud Armor's expressions that read the body.
use kinglet.Base.{
  ap, ◌∙◌, true, String, some, ◌⊎◌, inl, inr, Bool-cases, Option-cases, ◌==◌, string_eq, ◌≡◌, ◌||◌,
  arith,
}
use kinglet.Armor.Expressions.{
  Ast, Asts, string_lit, number, boolean, lit, ident, member, index, call, unary, binary, list,
  map_of,
}
use kinglet.Armor.Expressions.Constraints.{is_ident, request_field_name, call_name, reads_body}

-- The nodes that read the body: the fields `body` and `params` of the request, by name or by key, and the calls of
-- the two preconfigured rules, as functions or as methods.
pub data ReadsBody (n : Ast) : Type 0 where
  body_field : n ≡ member (ident "request") "body" → ReadsBody n
  params_field : n ≡ member (ident "request") "params" → ReadsBody n
  body_key : n ≡ index (ident "request") (lit (string_lit "body")) → ReadsBody n
  params_key : n ≡ index (ident "request") (lit (string_lit "params")) → ReadsBody n
  waf_call : (args : Asts) → n ≡ call (ident "evaluatePreconfiguredWaf") args → ReadsBody n
  expr_call : (args : Asts) → n ≡ call (ident "evaluatePreconfiguredExpr") args → ReadsBody n
  waf_method :
      (o : Ast) (args : Asts) → n ≡ call (member o "evaluatePreconfiguredWaf") args → ReadsBody n
  expr_method :
      (o : Ast) (args : Asts) → n ≡ call (member o "evaluatePreconfiguredExpr") args → ReadsBody n

is_ident_lem : (e : Ast) (s : String) → is_ident e s ≡ true → e ≡ ident s
unfolding is_ident
is_ident_lem (ident name) s h = ap ident ((string_eq.equals_iff name s).0 h)
is_ident_lem (lit l) s h = absurd (ground (arith, h))
is_ident_lem (member o name) s h = absurd (ground (arith, h))
is_ident_lem (index o key) s h = absurd (ground (arith, h))
is_ident_lem (call c args) s h = absurd (ground (arith, h))
is_ident_lem (unary op arg) s h = absurd (ground (arith, h))
is_ident_lem (binary op l r) s h = absurd (ground (arith, h))
is_ident_lem (list es) s h = absurd (ground (arith, h))
is_ident_lem (map_of es) s h = absurd (ground (arith, h))

field_cases :
    (n : Ast) (f : String)
    → request_field_name n ≡ some f
    → (n ≡ member (ident "request") f) ⊎ (n ≡ index (ident "request") (lit (string_lit f)))
unfolding request_field_name
field_cases (member o name) f h = elim (Bool-cases (is_ident o "request")) [
  | inl own ↦ inl (ground (arith, h, own, is_ident_lem o "request" own))
  | inr other ↦ absurd (ground (arith, h, other))
]
field_cases (index o (lit (string_lit k))) f h = elim (Bool-cases (is_ident o "request")) [
  | inl own ↦ inr (ground (arith, h, own, is_ident_lem o "request" own))
  | inr other ↦ absurd (ground (arith, h, other))
]
field_cases (index e (lit (number n))) f h = absurd (ground (arith, h))
field_cases (index e (lit (boolean b))) f h = absurd (ground (arith, h))
field_cases (index e (ident name)) f h = absurd (ground (arith, h))
field_cases (index e (member o name)) f h = absurd (ground (arith, h))
field_cases (index e (index o key)) f h = absurd (ground (arith, h))
field_cases (index e (call c args)) f h = absurd (ground (arith, h))
field_cases (index e (unary op arg)) f h = absurd (ground (arith, h))
field_cases (index e (binary op l r)) f h = absurd (ground (arith, h))
field_cases (index e (list es)) f h = absurd (ground (arith, h))
field_cases (index e (map_of es)) f h = absurd (ground (arith, h))
field_cases (lit l) f h = absurd (ground (arith, h))
field_cases (ident name) f h = absurd (ground (arith, h))
field_cases (call c args) f h = absurd (ground (arith, h))
field_cases (unary op arg) f h = absurd (ground (arith, h))
field_cases (binary op l r) f h = absurd (ground (arith, h))
field_cases (list es) f h = absurd (ground (arith, h))
field_cases (map_of es) f h = absurd (ground (arith, h))

call_cases :
    (n : Ast) (name : String)
    → call_name n ≡ some name
    → ((args : Asts) × (n ≡ call (ident name) args))
      ⊎ ((o : Ast) × (args : Asts) × (n ≡ call (member o name) args))
unfolding call_name
call_cases (call (ident f) args) name h = inl (args, ground (arith, h))
call_cases (call (member o f) args) name h = inr (o, args, ground (arith, h))
call_cases (call (lit l) args) name h = absurd (ground (arith, h))
call_cases (call (index o key) args) name h = absurd (ground (arith, h))
call_cases (call (call c more) args) name h = absurd (ground (arith, h))
call_cases (call (unary op arg) args) name h = absurd (ground (arith, h))
call_cases (call (binary op l r) args) name h = absurd (ground (arith, h))
call_cases (call (list es) args) name h = absurd (ground (arith, h))
call_cases (call (map_of es) args) name h = absurd (ground (arith, h))
call_cases (lit l) name h = absurd (ground (arith, h))
call_cases (ident f) name h = absurd (ground (arith, h))
call_cases (member o f) name h = absurd (ground (arith, h))
call_cases (index o key) name h = absurd (ground (arith, h))
call_cases (unary op arg) name h = absurd (ground (arith, h))
call_cases (binary op l r) name h = absurd (ground (arith, h))
call_cases (list es) name h = absurd (ground (arith, h))
call_cases (map_of es) name h = absurd (ground (arith, h))

field-ReadsBody :
    (n : Ast) (f : String)
    → request_field_name n ≡ some f
    → (f == "body" || f == "params") ≡ true
    → ReadsBody n
field-ReadsBody n f there hit = elim (Bool-cases (f == "body")) [
  | inl body ↦
      let same = (string_eq.equals_iff f "body").0 body in
      elim (field_cases n f there) [
        | inl e ↦ body_field (e ∙ ap (member (ident "request")) same)
        | inr e ↦ body_key (e ∙ ap (λ s. index (ident "request") (lit (string_lit s))) same)
      ]
  | inr other ↦
      let same = (string_eq.equals_iff f "params").0 (ground (arith, hit, other)) in
      elim (field_cases n f there) [
        | inl e ↦ params_field (e ∙ ap (member (ident "request")) same)
        | inr e ↦ params_key (e ∙ ap (λ s. index (ident "request") (lit (string_lit s))) same)
      ]
]

call-ReadsBody :
    (n : Ast) (f : String)
    → call_name n ≡ some f
    → (f == "evaluatePreconfiguredWaf" || f == "evaluatePreconfiguredExpr") ≡ true
    → ReadsBody n
call-ReadsBody n f there hit = elim (Bool-cases (f == "evaluatePreconfiguredWaf")) [
  | inl waf ↦
      let same = (string_eq.equals_iff f "evaluatePreconfiguredWaf").0 waf in
      elim (call_cases n f there) [
        | inl (args, e) ↦ waf_call args (e ∙ ap (λ s. call (ident s) args) same)
        | inr (o, args, e) ↦ waf_method o args (e ∙ ap (λ s. call (member o s) args) same)
      ]
  | inr other ↦
      let same =
        (string_eq.equals_iff f "evaluatePreconfiguredExpr").0 (ground (arith, hit, other)) in
      elim (call_cases n f there) [
        | inl (args, e) ↦ expr_call args (e ∙ ap (λ s. call (ident s) args) same)
        | inr (o, args, e) ↦ expr_method o args (e ∙ ap (λ s. call (member o s) args) same)
      ]
]

pub reads_body-ReadsBody : (n : Ast) → reads_body n ≡ true → ReadsBody n
unfolding reads_body
reads_body-ReadsBody n h = elim (Option-cases (call_name n)) [
  | inl no_call ↦ elim (Option-cases (request_field_name n)) [
    | inl no_field ↦ absurd (ground (arith, h, no_call, no_field))
    | inr (f, there) ↦ field-ReadsBody n f there (ground (arith, h, no_call, there))
  ]
  | inr (g, called) ↦
      elim (Bool-cases (g == "evaluatePreconfiguredWaf" || g == "evaluatePreconfiguredExpr")) [
        | inl hit ↦ call-ReadsBody n g called hit
        | inr missed ↦ elim (Option-cases (request_field_name n)) [
          | inl no_field ↦ absurd (ground (arith, h, called, missed, no_field))
          | inr (f, there) ↦ field-ReadsBody n f there (ground (arith, h, called, missed, there))
        ]
      ]
]

pub ReadsBody-reads_body : (n : Ast) → ReadsBody n → reads_body n ≡ true
unfolding reads_body request_field_name call_name is_ident
ReadsBody-reads_body n (body_field e) = ap reads_body e
ReadsBody-reads_body n (params_field e) = ap reads_body e
ReadsBody-reads_body n (body_key e) = ap reads_body e
ReadsBody-reads_body n (params_key e) = ap reads_body e
ReadsBody-reads_body n (waf_call args e) = ap reads_body e
ReadsBody-reads_body n (expr_call args e) = ap reads_body e
ReadsBody-reads_body n (waf_method o args e) = ap reads_body e
ReadsBody-reads_body n (expr_method o args e) = ap reads_body e
