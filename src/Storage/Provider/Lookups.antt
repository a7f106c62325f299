-- ===== src/Storage/Provider/Lookups.antt =====
-- `findById` and `exists` of the in-memory provider, which ask the cache first, beside those without it.
use kinglet.Base.{
  ℕ, ◌≡◌, refl, sym, ap, ◌∙◌, String, true, false, Option, none, some, arith, string_eq, Bool-cases,
  Option-cases, inl, inr,
}
use kinglet.Dict
use kinglet.Cache
use kinglet.Cache.{Cache, Value, object}
use kinglet.Storage.{Table}
use kinglet.Storage.Provider.{Provider, truthy, key, flag, found, missing, not_found, cache_record}
use kinglet.Storage.Provider.Keys.{Plain}
use kinglet.Storage.Provider.Coherent.{IsConsistent, Fresh, Fresh-sub, agree_cached, uncached}
use kinglet.Cache.Steps.{IsValid, get-IsValid}
use kinglet.Cache.Contents.{Sub, Sub-get, Sub-has, get-found, has-found}
use kinglet.Cache.Invariant.{has-IsValid}
use kinglet.Storage.Provider.Writes.{cache_record-Kept}
use kinglet.Storage.Provider.Agreement.{Agrees, read-Agrees}
use kinglet.Storage.Provider.Operations
use kinglet.Storage.Provider.Operations.{Outcome, is_there}

-- The same tables behind a cache that has lost entries.
lose-IsConsistent :
    (p : Provider) (c c' : Cache)
    → IsConsistent p
    → p.cache ≡ some c
    → IsValid c'
    → Sub c'.entries c.entries
    → IsConsistent (record p { cache = some c' })
lose-IsConsistent p c c' i there v sub = record {
  tables_distinct = i.tables_distinct;
  records_distinct = i.records_distinct;
  fresh =
      agree_cached p.tables c' v
        (Fresh-sub p.tables p.tables c.entries c'.entries sub (λ t id. refl) (i.fresh c there).1);
}

-- What the cache holds under a key is in the table.
cached_there :
    (t id : String) (p : Provider) (c : Cache) (e : Cache.Entry)
    → Plain t
    → IsConsistent p
    → p.cache ≡ some c
    → Dict.get (key t id) c.entries ≡ some e
    → (m : Table ℕ) × (r : ℕ) × (Dict.get t p.tables ≡ some m)
      × (Dict.get id m ≡ some r)
      × (e.value ≡ object r)
unfolding Fresh
cached_there t id p c e plain i there h =
    let same = (i.fresh c there).1 t id e plain h in
    elim (Option-cases (Dict.get t p.tables)) [
      | inl absent ↦ absurd (ground (arith, same, absent))
      | inr (m, table) ↦ elim (Option-cases (Dict.get id m)) [
        | inl unknown ↦ absurd (ground (arith, same, table, unknown))
        | inr (r, known) ↦ (m, r, table, known, ground (arith, same, table, known))
      ]
    ]

module _ (stringify : ℕ → Option ℕ) (now : ℕ) (t id : String) where
  look_up-Agrees :
      (p : Provider) → Plain t → IsConsistent p → Agrees (Operations.look_up stringify now t id) p
  unfolding Operations.look_up
  look_up-Agrees p plain i = elim (Option-cases (Dict.get t p.tables)) [
    | inl absent ↦ (p, not_found, ground (arith, absent), ground (arith, absent), i)
    | inr (m, there) ↦ elim (Option-cases (Dict.get id m)) [
      | inl unknown ↦
          (p, missing, ground (arith, there, unknown), ground (arith, there, unknown), i)
      | inr (r, known) ↦
          let (p', ran, ran', i', same) =
            cache_record-Kept stringify now t id r p p.tables plain i i.tables_distinct
              i.records_distinct
              (λ t' id'.
                ground
                  (arith, there, known, string_eq.equals_iff t t', string_eq.equals_iff id id')) in
          (
            p',
            found (object r),
            ground (arith, there, known, ran),
            ground (arith, there, known, ran'),
            i',
          )
    ]
  ]

  find_by_id_hit :
      (p : Provider) (c : Cache) (r : ℕ)
      → p.cache ≡ some c
      → (Cache.get now (key t id) c).1 ≡ some (object r)
      → Operations.find_by_id stringify now t id p
        ≡ some (record p { cache = some (Cache.get now (key t id) c).0 }, found (object r))
  unfolding Operations.find_by_id truthy
  find_by_id_hit p c r there hit = ground (arith, there, hit)

  look_up_bare :
      (p : Provider) (m : Table ℕ) (r : ℕ)
      → Dict.get t p.tables ≡ some m
      → Dict.get id m ≡ some r
      → Operations.look_up stringify now t id (uncached p) ≡ some (uncached p, found (object r))
  unfolding Operations.look_up cache_record
  look_up_bare p m r table known = ground (arith, table, known)

  find_by_id_miss :
      (p : Provider) (c : Cache)
      → p.cache ≡ some c
      → (Cache.get now (key t id) c).1 ≡ none
      → Operations.find_by_id stringify now t id p
        ≡ Operations.look_up stringify now t id
            (record p { cache = some (Cache.get now (key t id) c).0 })
  unfolding Operations.find_by_id
  find_by_id_miss p c there miss = ground (arith, there, miss)

  find_by_id_bare :
      (p : Provider)
      → p.cache ≡ none
      → Operations.find_by_id stringify now t id p ≡ Operations.look_up stringify now t id p
  unfolding Operations.find_by_id
  find_by_id_bare p absent = ground (arith, absent)

  pub find_by_id-Agrees :
      (p : Provider)
      → Plain t
      → IsConsistent p
      → Agrees (Operations.find_by_id stringify now t id) p
  find_by_id-Agrees p plain i = elim (Option-cases p.cache) [
    | inl absent ↦
        let (p', a, ran, ran', i') = look_up-Agrees p plain i in
        (p', a, find_by_id_bare p absent ∙ ran, find_by_id_bare (uncached p) refl ∙ ran', i')
    | inr (c, there) ↦
        let (v, fresh) = i.fresh c there in
        let c' = (Cache.get now (key t id) c).0 in
        let i₂ =
          lose-IsConsistent p c c' i there (get-IsValid now (key t id) c v)
            (Sub-get now (key t id) c v) in
        elim (Option-cases (Cache.get now (key t id) c).1) [
          | inl miss ↦
              let (p', a, ran, ran', i') = look_up-Agrees (record p { cache = some c' }) plain i₂ in
              (
                p',
                a,
                find_by_id_miss p c there miss ∙ ran,
                find_by_id_bare (uncached p) refl ∙ ran',
                i',
              )
          | inr (value, hit) ↦
              let (e, held, same) = get-found now (key t id) c value hit in
              let (m, r, table, known, is_r) = cached_there t id p c e plain i there held in
              (
                record p { cache = some c' },
                found (object r),
                find_by_id_hit p c r there (hit ∙ ap some (sym same ∙ is_r)),
                find_by_id_bare (uncached p) refl ∙ look_up_bare p m r table known,
                i₂,
              )
        ]
  ]

  exists_hit :
      (p : Provider) (c : Cache)
      → p.cache ≡ some c
      → (Cache.has now (key t id) c).1 ≡ true
      → Operations.exists now t id p
        ≡ some (record p { cache = some (Cache.has now (key t id) c).0 }, flag true)
  unfolding Operations.exists
  exists_hit p c there hit = ground (arith, there, hit)

  exists_miss :
      (p : Provider) (c : Cache)
      → p.cache ≡ some c
      → (Cache.has now (key t id) c).1 ≡ false
      → Operations.exists now t id p
        ≡ Operations.exists_in_table t id (record p { cache = some (Cache.has now (key t id) c).0 })
  unfolding Operations.exists
  exists_miss p c there miss = ground (arith, there, miss)

  exists_bare :
      (p : Provider)
      → p.cache ≡ none
      → Operations.exists now t id p ≡ Operations.exists_in_table t id p
  unfolding Operations.exists
  exists_bare p absent = ground (arith, absent)

  in_table_bare :
      (p : Provider) (m : Table ℕ) (r : ℕ)
      → Dict.get t p.tables ≡ some m
      → Dict.get id m ≡ some r
      → Operations.exists_in_table t id (uncached p) ≡ some (uncached p, flag true)
  unfolding Operations.exists_in_table
  in_table_bare p m r table known = ground (arith, table, known)

  in_table-Agrees : (p : Provider) → IsConsistent p → Agrees (Operations.exists_in_table t id) p
  unfolding Operations.exists_in_table
  in_table-Agrees p i = read-Agrees t (λ m. flag (is_there (Dict.get id m))) p i

  pub exists-Agrees :
      (p : Provider) → Plain t → IsConsistent p → Agrees (Operations.exists now t id) p
  exists-Agrees p plain i = elim (Option-cases p.cache) [
    | inl absent ↦
        let (p', a, ran, ran', i') = in_table-Agrees p i in
        (p', a, exists_bare p absent ∙ ran, exists_bare (uncached p) refl ∙ ran', i')
    | inr (c, there) ↦
        let (v, fresh) = i.fresh c there in
        let c' = (Cache.has now (key t id) c).0 in
        let i₂ =
          lose-IsConsistent p c c' i there (has-IsValid now (key t id) c v)
            (Sub-has now (key t id) c v) in
        elim (Bool-cases (Cache.has now (key t id) c).1) [
          | inr miss ↦
              let (p', a, ran, ran', i') = in_table-Agrees (record p { cache = some c' }) i₂ in
              (p', a, exists_miss p c there miss ∙ ran, exists_bare (uncached p) refl ∙ ran', i')
          | inl hit ↦
              let (e, held) = has-found now (key t id) c hit in
              let (m, r, table, known, is_r) = cached_there t id p c e plain i there held in
              (
                record p { cache = some c' },
                flag true,
                exists_hit p c there hit,
                exists_bare (uncached p) refl ∙ in_table_bare p m r table known,
                i₂,
              )
        ]
  ]
