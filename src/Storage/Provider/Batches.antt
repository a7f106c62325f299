-- ===== src/Storage/Provider/Batches.antt =====
-- The loops of `updateMany` and `deleteMany` in the in-memory provider, each of which writes record by record,
-- against one pass over the table.
use mathlib.Core.Option
use mathlib.Core.List.{append_assoc}
use kinglet.Base.{
  ◌+◌, ℕ, ◌≡◌, refl, sym, ap, ◌∙◌, subst, String, Bool, true, false, Option, some, List, [], ◌∷◌,
  ◌++◌, arith, string_eq, Bool-cases, inl, inr, map, keep, length,
}
use kinglet.Dict
use kinglet.Dict.{Distinct}
use kinglet.Storage
use kinglet.Storage.{Table}
use kinglet.Storage.Provider.{
  Provider, Answer, number_of, set_record, cache_record, store, update_each, update_count,
  remove_record, uncache, delete_each,
}
use kinglet.Storage.Provider.Keys.{Plain}
use kinglet.Storage.Provider.Coherent.{IsConsistent, uncached}
use kinglet.Storage.Provider.Deletes.{delete_each-IsConsistent}
use kinglet.Storage.Provider.Agreement.{update_many-Agrees}
use kinglet.Storage.Provider.Operations
use kinglet.Storage.Provider.Operations.{matching}

module _ (stringify : ℕ → Option ℕ) (now : ℕ) (t : String) where
  store_bare :
      (id : String) (r : ℕ) (p : Provider)
      → store stringify now t id r (uncached p) ≡ some (uncached (set_record t id r p))
  unfolding store cache_record set_record
  store_bare id r p = refl

  set_record-get :
      (id : String) (r : ℕ) (p : Provider) (m : Table ℕ)
      → Dict.get t p.tables ≡ some m
      → Dict.get t (set_record t id r p).tables ≡ some (Dict.set id r m)
  unfolding set_record
  set_record-get id r p m there =
      ground (arith, there, Dict.get-set t t (Dict.set id r m) p.tables, string_eq.equals_iff t t)

  module _ (matches : ℕ → Bool) (change : ℕ → ℕ) where
    update_hit :
        (id : String) (r : ℕ) (after : Table ℕ) (p : Provider)
        → matches r ≡ true
        → update_each stringify now t matches change ((id, r) ∷ after) (uncached p)
          ≡ update_each stringify now t matches change after
              (uncached (set_record t id (change r) p))
    unfolding update_each Option.bind
    update_hit id r after p hit = ground (arith, hit, store_bare id (change r) p)

    update_missed :
        (id : String) (r : ℕ) (after : Table ℕ) (p : Provider)
        → matches r ≡ false
        → update_each stringify now t matches change ((id, r) ∷ after) (uncached p)
          ≡ update_each stringify now t matches change after (uncached p)
    unfolding update_each Option.bind
    update_missed id r after p missed = ground (arith, missed)

    many_hit :
        (id : String) (r : ℕ) (after : Table ℕ)
        → matches r ≡ true
        → Storage.update_many matches change ((id, r) ∷ after)
          ≡ (id, change r) ∷ Storage.update_many matches change after
    unfolding Storage.update_many
    many_hit id r after hit = ground (arith, hit)

    many_missed :
        (id : String) (r : ℕ) (after : Table ℕ)
        → matches r ≡ false
        → Storage.update_many matches change ((id, r) ∷ after)
          ≡ (id, r) ∷ Storage.update_many matches change after
    unfolding Storage.update_many
    many_missed id r after missed = ground (arith, missed)

    -- The records before the loop's position are changed, those after it are as they were.
    update_each-get :
        (before after : Table ℕ) (p : Provider)
        → Dict.get t p.tables ≡ some (before ++ after)
        → Distinct (before ++ after)
        → (q : Provider) × (update_each stringify now t matches change after (uncached p)
            ≡ some (uncached q))
          × (Dict.get t q.tables ≡ some (before ++ Storage.update_many matches change after))
    unfolding update_each Storage.update_many
    update_each-get before [] p there d = (p, refl, there)
    update_each-get before ((id, r) ∷ after) p there d = elim (Bool-cases (matches r)) [
      | inl hit ↦
          let r' = change r in
          let absent = Dict.absent_of_Distinct id r before after d in
          let moved = Dict.set-append id r r' before after absent in
          let step = moved ∙ sym (append_assoc before ((id, r') ∷ []) after) in
          let (q, ran, got) =
            update_each-get (before ++ (id, r') ∷ []) after (set_record t id r' p)
              (set_record-get id r' p (before ++ (id, r) ∷ after) there ∙ ap some step)
              (subst (λ (m : Table ℕ). Distinct m) step
                (Dict.Distinct-set id r' (before ++ (id, r) ∷ after) d)) in
          (
            q,
            update_hit id r after p hit ∙ ran,
            got
                ∙ ap some (
                    append_assoc before ((id, r') ∷ []) (Storage.update_many matches change after)
                    ∙ ap (λ l. before ++ l) (sym (many_hit id r after hit))),
          )
      | inr missed ↦
          let step = sym (append_assoc before ((id, r) ∷ []) after) in
          let (q, ran, got) =
            update_each-get (before ++ (id, r) ∷ []) after p (there ∙ ap some step)
              (subst (λ (m : Table ℕ). Distinct m) step d) in
          (
            q,
            update_missed id r after p missed ∙ ran,
            got
                ∙ ap some (
                    append_assoc before ((id, r) ∷ []) (Storage.update_many matches change after)
                    ∙ ap (λ l. before ++ l) (sym (many_missed id r after missed))),
          )
    ]

  update_count_lem :
      (matches : ℕ → Bool) (m : Table ℕ) (count : ℕ)
      → update_count matches m count ≡ count + length (matching matches m)
  unfolding update_count
  update_count_lem matches [] count = omega arith
  update_count_lem matches ((id, r) ∷ rest) count = elim (Bool-cases (matches r)) [
    | inl hit ↦ ground (arith, hit, update_count_lem matches rest (count + 1))
    | inr missed ↦ ground (arith, missed, update_count_lem matches rest count)
  ]

  update_many_bare :
      (matches : ℕ → Bool) (change : ℕ → ℕ) (p : Provider) (m : Table ℕ)
      → Dict.get t p.tables ≡ some m
      → Distinct m
      → (q : Provider) × (Operations.update_many stringify now t matches change (uncached p)
          ≡ some (uncached q, number_of (length (matching matches m))))
        × (Dict.get t q.tables ≡ some (Storage.update_many matches change m))
  unfolding Operations.update_many
  update_many_bare matches change p m there d =
      let (q, ran, got) = update_each-get matches change [] m p there d in
      (q, ground (arith, there, ran, update_count_lem matches m 0), got)

  -- On a provider whose cache agrees with its tables, `updateMany` on a table that is there, without a colon in
  -- its name, changes the records that match and no others, in their places, and returns their number.
  pub update_many_lem :
      (matches : ℕ → Bool) (change : ℕ → ℕ) (p : Provider) (m : Table ℕ)
      → Plain t
      → IsConsistent p
      → Dict.get t p.tables ≡ some m
      → (p' : Provider) × (Operations.update_many stringify now t matches change p
          ≡ some (p', number_of (length (matching matches m))))
        × (Dict.get t p'.tables ≡ some (Storage.update_many matches change m))
        × IsConsistent p'
  update_many_lem matches change p m plain i there =
      let (p', a, ran, ran', i') = update_many-Agrees stringify now t matches change p plain i in
      let (q, bare, got) =
        update_many_bare matches change p m there (i.records_distinct t m there) in
      let same = Option.some-injective _ _ (sym ran' ∙ bare) in
      let tables_same : p'.tables ≡ q.tables = ap (λ (o : Provider × Answer). o.0.tables) same in
      (
        p',
        ran ∙ ap (λ (b : Answer). some (p', b)) (ap (λ (o : Provider × Answer). o.1) same),
        ap (Dict.get t) tables_same ∙ got,
        i',
      )

module _ (t : String) (matches : ℕ → Bool) where
  remove_record-get :
      (id : String) (p : Provider) (m : Table ℕ)
      → Dict.get t p.tables ≡ some m
      → Dict.get t (uncache t id (remove_record t id p)).tables ≡ some (Dict.delete id m)
  unfolding remove_record uncache
  remove_record-get id p m there =
      ground (arith, there, Dict.get-set t t (Dict.delete id m) p.tables, string_eq.equals_iff t t)

  abbrev ids_of : Table ℕ → List String
  ids_of m = map (λ e. e.0) (keep (λ e. matches e.1) m)

  rest_hit :
      (id : String) (r : ℕ) (after : Table ℕ)
      → matches r ≡ true
      → (ids_of ((id, r) ∷ after) ≡ id ∷ ids_of after)
        × ((Storage.delete_many matches ((id, r) ∷ after)).0
            ≡ (Storage.delete_many matches after).0)
  unfolding Storage.delete_many
  rest_hit id r after hit = ground (arith, hit)

  rest_missed :
      (id : String) (r : ℕ) (after : Table ℕ)
      → matches r ≡ false
      → (ids_of ((id, r) ∷ after) ≡ ids_of after)
        × ((Storage.delete_many matches ((id, r) ∷ after)).0
            ≡ (id, r) ∷ (Storage.delete_many matches after).0)
  unfolding Storage.delete_many
  rest_missed id r after missed = ground (arith, missed)

  delete_each-get :
      (before after : Table ℕ) (p : Provider)
      → Dict.get t p.tables ≡ some (before ++ after)
      → Distinct (before ++ after)
      → Dict.get t (delete_each t (ids_of after) p).tables
        ≡ some (before ++ (Storage.delete_many matches after).0)
  unfolding delete_each Storage.delete_many
  delete_each-get before [] p there d = there
  delete_each-get before ((id, r) ∷ after) p there d = elim (Bool-cases (matches r)) [
    | inl hit ↦
        let (ids, left) = rest_hit id r after hit in
        let absent = Dict.absent_of_Distinct id r before after d in
        let step = Dict.delete-append id r before after absent in
        let there' = remove_record-get id p (before ++ (id, r) ∷ after) there ∙ ap some step in
        let d' = subst (λ (m : Table ℕ). Distinct m) step (Dict.Distinct-delete id _ d) in
        ap (λ l. Dict.get t (delete_each t l p).tables) ids
        ∙ delete_each-get before after (uncache t id (remove_record t id p)) there' d'
        ∙ ap (λ l. some (before ++ l)) (sym left)
    | inr missed ↦
        let (ids, left) = rest_missed id r after missed in
        let step = sym (append_assoc before ((id, r) ∷ []) after) in
        ap (λ l. Dict.get t (delete_each t l p).tables) ids
        ∙ delete_each-get (before ++ (id, r) ∷ []) after p (there ∙ ap some step)
            (subst (λ (m : Table ℕ). Distinct m) step d)
        ∙ ap some (append_assoc before ((id, r) ∷ []) (Storage.delete_many matches after).0)
        ∙ ap (λ l. some (before ++ l)) (sym left)
  ]

  length-ids : (m : Table ℕ) → length (ids_of m) ≡ (Storage.delete_many matches m).1
  unfolding Storage.delete_many
  length-ids [] = refl
  length-ids ((id, r) ∷ m) = ground (arith, length-ids m)

  -- On a provider whose cache agrees with its tables, `deleteMany` on a table that is there, without a colon in
  -- its name, removes the records that match and no others, and returns their number.
  pub delete_many_lem :
      (p : Provider) (m : Table ℕ)
      → Plain t
      → IsConsistent p
      → Dict.get t p.tables ≡ some m
      → (p' : Provider) × (Operations.delete_many t matches p
          ≡ some (p', number_of (Storage.delete_many matches m).1))
        × (Dict.get t p'.tables ≡ some (Storage.delete_many matches m).0)
        × IsConsistent p'
  unfolding Operations.delete_many
  delete_many_lem p m plain i there = (
    delete_each t (ids_of m) p,
    ground (arith, there, length-ids m),
    delete_each-get [] m p there (i.records_distinct t m there),
    delete_each-IsConsistent t (ids_of m) p plain i (m, there),
  )
