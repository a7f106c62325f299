-- ===== src/Armor/Expressions/Maps.antt =====
-- The parser of Cloud Armor's expressions on what the entries of a map are written as.
use mathlib.Core.List.{append_assoc}
use kinglet.Base.{
  ℕ, suc, String, ◌≡◌, refl, sym, ap, ◌∙◌, subst, false, [], ◌∷◌, ◌++◌, arith, ok, ◌>>=◌, ◌⊎◌, inl,
  inr, if◌then◌else◌, Bool-cases,
}
use kinglet.Armor.Expressions.{
  Tokens, Ast, Entries, next_is, mark, comma, colon, rbrace, no_entries, entry, lit, string_lit,
  number, boolean, ident, member, index, call, unary, binary, list, map_of, ident_token,
  string_token, number_token, boolean_token, compare_token,
}
use kinglet.Armor.Expressions.Parser
use kinglet.Armor.Expressions.Printer.{
  show, show_entries, show_more_entries, show_key, in_parens, starts_key,
}
use kinglet.Armor.Expressions.Steps.{
  Yields, Yields-then, Yields-suc, Yields-now, Yields-bind, Yields-ok, EndsOr,
}
use kinglet.Armor.Expressions.Levels.{AsOr, AsWhole, key_from, whole_from}
use kinglet.Armor.Expressions.Sequences.{Begins}

-- A key is a text, or in parentheses if it begins with a name or a text.
key-cases :
    (k : Ast)
    → ((s : String) × (k ≡ lit (string_lit s)))
      ⊎ ((t : Tokens) → show_key k t ≡ (if starts_key t then in_parens t else t))
key-cases (lit (string_lit s)) = inl (s, refl)
key-cases (lit (number n)) = inr (λ t. refl)
key-cases (lit (boolean b)) = inr (λ t. refl)
key-cases (ident name) = inr (λ t. refl)
key-cases (member object name) = inr (λ t. refl)
key-cases (index object key) = inr (λ t. refl)
key-cases (call callee args) = inr (λ t. refl)
key-cases (unary op arg) = inr (λ t. refl)
key-cases (binary op left right) = inr (λ t. refl)
key-cases (list elements) = inr (λ t. refl)
key-cases (map_of es) = inr (λ t. refl)

-- The key that the tokens before a colon are read as.
abbrev KeyRead : Tokens → Ast → Tokens → Type 0
KeyRead t k rest = Yields (λ f. Parser.parse_key f (t ++ mark colon ∷ rest)) (k, mark colon ∷ rest)

string_lit-KeyRead :
    (s : String) (rest : Tokens) → KeyRead (string_token s ∷ []) (lit (string_lit s)) rest
unfolding Parser.parse_key
string_lit-KeyRead s rest = Yields-now _ (lit (string_lit s), mark colon ∷ rest) (λ f. refl)

parens-KeyRead : (t : Tokens) (k : Ast) (rest : Tokens) → AsOr t k → KeyRead (in_parens t) k rest
unfolding Parser.parse_key
parens-KeyRead t k rest p =
    Yields-suc _ (λ f. Parser.parse_or f (in_parens t ++ mark colon ∷ rest)) (k, mark colon ∷ rest)
      (λ f. refl)
      (key_from t k p (mark colon ∷ rest) (((((refl, refl, refl), refl), refl, refl), refl), refl))

-- What begins with no name and no text is read as an expression.
key-or :
    (t : Tokens) (f : ℕ) (rest : Tokens)
    → Begins t
    → starts_key t ≡ false
    → Parser.parse_key (suc f) (t ++ rest) ≡ Parser.parse_or f (t ++ rest)
unfolding Parser.parse_key
key-or [] f rest b s = absurd (ground (arith, b))
key-or (ident_token name ∷ t) f rest b s = absurd (ground (arith, s))
key-or (string_token name ∷ t) f rest b s = absurd (ground (arith, s))
key-or (number_token n ∷ t) f rest b s = refl
key-or (boolean_token n ∷ t) f rest b s = refl
key-or (compare_token c ∷ t) f rest b s = refl
key-or (mark m ∷ t) f rest b s = refl

bare-KeyRead :
    (t : Tokens) (k : Ast) (rest : Tokens)
    → AsOr t k
    → Begins t
    → starts_key t ≡ false
    → KeyRead t k rest
bare-KeyRead t k rest p b s =
    Yields-suc _ (λ f. Parser.parse_or f (t ++ mark colon ∷ rest)) (k, mark colon ∷ rest)
      (λ f. key-or t f (mark colon ∷ rest) b s)
      (whole_from t k p (mark colon ∷ rest)
        (((((refl, refl, refl), refl), refl, refl), refl), refl))

key-read :
    (k : Ast) (rest : Tokens)
    → AsOr (show k) k
    → Begins (show k)
    → KeyRead (show_key k (show k)) k rest
key-read k rest p b = elim (key-cases k) [
  | inl (s, same) ↦
      subst (λ (j : Ast). KeyRead (show_key j (show j)) j rest) (sym same)
        (string_lit-KeyRead s rest)
  | inr shape ↦ elim (Bool-cases (starts_key (show k))) [
    | inl named ↦ rw (shape (show k), named) (parens-KeyRead (show k) k rest p)
    | inr bare ↦ rw (shape (show k), bare) (bare-KeyRead (show k) k rest p b bare)
  ]
]

bare-opens : (t rest : Tokens) → Begins t → next_is rbrace (t ++ rest) ≡ false
bare-opens [] rest b = absurd (ground (arith, b))
bare-opens (t ∷ ts) rest (a, b, c) = c

key-opens : (k : Ast) (t rest : Tokens) → Begins t → next_is rbrace (show_key k t ++ rest) ≡ false
key-opens k t rest b = elim (key-cases k) [
  | inl (s, same) ↦ ap (λ (j : Ast). next_is rbrace (show_key j t ++ rest)) same
  | inr shape ↦ elim (Bool-cases (starts_key t)) [
    | inl named ↦ rw (shape t, named) refl
    | inr bare ↦ rw (shape t, bare) (bare-opens t rest b)
  ]
]

more-EndsOr : (es : Entries) (rest : Tokens) → EndsOr rest → EndsOr (show_more_entries es ++ rest)
unfolding show_more_entries
more-EndsOr no_entries rest ends = ends
more-EndsOr (entry k v es) rest ends = (((((refl, refl, refl), refl), refl, refl), refl), refl)

abbrev pub AsMoreEntries : Entries → Type 0
AsMoreEntries es =
    (k v : Ast) (rest : Tokens)
    → EndsOr rest
    → next_is comma rest ≡ false
    → Yields (λ f. Parser.more_entries f k v (show_more_entries es ++ rest)) (entry k v es, rest)

-- An entry, and what follows it, as tokens.
abbrev entry_tokens : Ast → Ast → Entries → Tokens
entry_tokens k v es = show_key k (show k) ++ mark colon ∷ (show v ++ show_more_entries es)

loop-read :
    (k v : Ast) (es : Entries) (rest : Tokens)
    → AsOr (show k) k
    → Begins (show k)
    → AsWhole (show v) v
    → AsMoreEntries es
    → EndsOr rest
    → next_is comma rest ≡ false
    → Yields (λ f. Parser.entry_loop f (entry_tokens k v es ++ rest)) (entry k v es, rest)
unfolding Parser.entry_loop Parser.expect
loop-read k v es rest p b whole more ends last =
    let value : Tokens = (show v ++ show_more_entries es) ++ rest in
    subst (λ (l : Tokens). Yields (λ f. Parser.entry_loop f l) (entry k v es, rest))
      (sym
        (append_assoc (show_key k (show k)) (mark colon ∷ (show v ++ show_more_entries es)) rest))
      (Yields-then _ (λ f. Parser.parse_key f (show_key k (show k) ++ mark colon ∷ value))
        (λ y f. Parser.expect colon y.1 >>= λ l.
          Parser.parse_or f l >>= λ z. Parser.more_entries f y.0 z.0 z.1)
        (k, mark colon ∷ value) (entry k v es, rest) (λ f. refl) (key-read k value p b)
        (subst
          (λ (l : Tokens).
            Yields (λ f. Parser.parse_or f l >>= λ z. Parser.more_entries f k z.0 z.1)
              (entry k v es, rest))
          (sym (append_assoc (show v) (show_more_entries es) rest))
          (Yields-bind (λ f. Parser.parse_or f (show v ++ (show_more_entries es ++ rest)))
            (λ z f. Parser.more_entries f k z.0 z.1) (v, show_more_entries es ++ rest)
            (entry k v es, rest) (whole (show_more_entries es ++ rest) (more-EndsOr es rest ends))
            (more k v rest ends last))))

pub no_more_entries : AsMoreEntries no_entries
unfolding show_more_entries Parser.more_entries
no_more_entries k v rest ends last =
    Yields-now _ (entry k v no_entries, rest) (λ f. ground (arith, last))

pub one_more_entry :
    (k v : Ast) (es : Entries)
    → AsOr (show k) k
    → Begins (show k)
    → AsWhole (show v) v
    → AsMoreEntries es
    → AsMoreEntries (entry k v es)
unfolding show_more_entries Parser.more_entries
one_more_entry k v es p b whole more k' v' rest ends last =
    Yields-then _ (λ f. Parser.entry_loop f (entry_tokens k v es ++ rest))
      (λ y f. ok (entry k' v' y.0, y.1)) (entry k v es, rest) (entry k' v' (entry k v es), rest)
      (λ f. refl) (loop-read k v es rest p b whole more ends last)
      (Yields-ok (entry k' v' (entry k v es), rest))

abbrev pub AsEntries : Entries → Type 0
AsEntries es =
    (rest : Tokens)
    → Yields (λ f. Parser.parse_map f ((show_entries es ++ mark rbrace ∷ []) ++ rest)) (es, rest)

pub empty-AsEntries : AsEntries no_entries
unfolding show_entries Parser.parse_map
empty-AsEntries rest = Yields-now _ (no_entries, rest) (λ f. refl)

pub entries-read :
    (k v : Ast) (es : Entries)
    → AsOr (show k) k
    → Begins (show k)
    → AsWhole (show v) v
    → AsMoreEntries es
    → AsEntries (entry k v es)
unfolding show_entries Parser.parse_map Parser.expect
entries-read k v es p b whole more rest =
    let ts : Tokens = entry_tokens k v es in
    let after : Tokens = mark rbrace ∷ rest in
    let tail_tokens : Tokens = mark colon ∷ (show v ++ show_more_entries es) in
    let begins : next_is rbrace (ts ++ after) ≡ false =
      ap (next_is rbrace) (append_assoc (show_key k (show k)) tail_tokens after)
      ∙ key-opens k (show k) (tail_tokens ++ after) b in
    subst (λ (l : Tokens). Yields (λ f. Parser.parse_map f l) (entry k v es, rest))
      (sym (append_assoc ts (mark rbrace ∷ []) rest))
      (Yields-then _ (λ f. Parser.entry_loop f (ts ++ after))
        (λ y f. Parser.expect rbrace y.1 >>= λ r. ok (y.0, r)) (entry k v es, after)
        (entry k v es, rest) (λ f. ground (arith, begins))
        (loop-read k v es after p b whole more
          (((((refl, refl, refl), refl), refl, refl), refl), refl) refl)
        (Yields-ok (entry k v es, rest)))
