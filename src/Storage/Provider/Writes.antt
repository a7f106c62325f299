-- ===== src/Storage/Provider/Writes.antt =====
-- The writes of the in-memory provider, in src/core/storage/providers/memory.ts, on tables and a cache that
-- agree, beside the same writes without a cache.
use mathlib.Core.Option
use kinglet.Base.{
  ℕ, ◌≡◌, refl, sym, ap, ◌∙◌, subst, String, Bool, true, false, ◌&&◌, Option, none, some, List, [],
  ◌∷◌, arith, string_eq, Bool-cases, Option-cases, inl, inr, ◌==◌, if◌then◌else◌,
}
use kinglet.Dict
use kinglet.Dict.{Distinct}
use kinglet.Cache
use kinglet.Cache.{Cache, Entry, Entries, Value, object}
use kinglet.Cache.Contents.{Sub-set}
use kinglet.Cache.Invariant.{set_entry, set-IsValid}
use kinglet.Storage.{Table}
use kinglet.Storage.Provider.{
  Provider, Tables, key, set_record, cache_record, store, store_all, update_each,
}
use kinglet.Storage.Provider.Keys.{Plain}
use kinglet.Storage.Provider.Coherent.{
  IsConsistent, agree_cached, Fresh, lookup, uncached, Fresh-set, lookup-set_record,
}

abbrev pub HasTable : String → Provider → Type 0
HasTable t p = (m : Table ℕ) × (Dict.get t p.tables ≡ some m)

-- The write succeeds, as it does without a cache and with the same tables, keeps the agreement, and every
-- table stays.
abbrev pub Kept : (Provider → Option Provider) → Provider → Type 0
Kept f p =
    (p' : Provider) × (f p ≡ some p')
    × (f (uncached p) ≡ some (uncached p'))
    × IsConsistent p'
    × ((t : String) → HasTable t p → HasTable t p')

-- The parts of agreement that are about the tables only.
module _ (t : String) (m' : Table ℕ) (tables : Tables) where
  pub replace-Distinct :
      ((s : String) (n : Table ℕ) → Dict.get s tables ≡ some n → Distinct n)
      → Distinct m'
      → (s : String) (n : Table ℕ) → Dict.get s (Dict.set t m' tables) ≡ some n
      → Distinct n
  replace-Distinct all_distinct d s n h = elim (Bool-cases (t == s)) [
    | inl same ↦
        let eq : m' ≡ n = ground (arith, same, h, Dict.get-set t s m' tables) in
        subst (λ (x : Table ℕ). Distinct x) eq d
    | inr other ↦ all_distinct s n (ground (arith, other, h, Dict.get-set t s m' tables))
  ]

  pub replace-HasTable :
      (s : String) (n : Table ℕ)
      → Dict.get s tables ≡ some n
      → (n' : Table ℕ) × (Dict.get s (Dict.set t m' tables) ≡ some n')
  replace-HasTable s n h = elim (Bool-cases (t == s)) [
    | inl same ↦ (m', ground (arith, same, Dict.get-set t s m' tables))
    | inr other ↦ (n, ground (arith, other, h, Dict.get-set t s m' tables))
  ]

module _ (stringify : ℕ → Option ℕ) (now : ℕ) (t id : String) (r : ℕ) where
  cache_record_uncached :
      (p : Provider) → p.cache ≡ none → cache_record stringify now t id r p ≡ some p
  unfolding cache_record
  cache_record_uncached p h = ground (arith, h)

  cache_record_cached :
      (p : Provider) (c c' : Cache)
      → p.cache ≡ some c
      → Cache.set stringify now (key t id) (object r) none c ≡ some c'
      → cache_record stringify now t id r p ≡ some (record p { cache = some c' })
  unfolding cache_record
  cache_record_cached p c c' h ran = ground (arith, h, ran)

  -- A record into the cache that the new tables hold under its id, and that is their only change.
  pub cache_record-Kept :
      (p : Provider) (tables' : Tables)
      → Plain t
      → IsConsistent p
      → Distinct tables'
      → ((s : String) (n : Table ℕ) → Dict.get s tables' ≡ some n → Distinct n)
      → ((t' id' : String)
          → lookup t' id' tables'
            ≡ (if (t == t') && (id == id') then some r else lookup t' id' p.tables))
      → let q : Provider = record p { tables = tables' } in
        (p' : Provider) × (cache_record stringify now t id r q ≡ some p')
        × (cache_record stringify now t id r (uncached q) ≡ some (uncached p'))
        × IsConsistent p'
        × (p'.tables ≡ tables')
  cache_record-Kept p tables' plain i d ds change = elim (Option-cases p.cache) [
    | inl absent ↦
        let q : Provider = record p { tables = tables' } in
        (
          q,
          cache_record_uncached q absent,
          cache_record_uncached (uncached q) refl,
          record {
            tables_distinct = d;
            records_distinct = ds;
            fresh = λ c h. absurd (ground (arith, h, absent));
          },
          refl,
        )
    | inr (c, there) ↦
        let q : Provider = record p { tables = tables' } in
        let (v, fresh) = i.fresh c there in
        let (c', ran, v', same) = set-IsValid stringify now (key t id) (object r) none c v in
        let fresh' : Fresh tables' c'.entries =
          Fresh-set t id r (set_entry stringify now (key t id) (object r) none c) p.tables tables'
            c.entries c'.entries plain refl
            (Sub-set stringify now (key t id) (object r) none c c' v ran) change fresh in
        (
          record q { cache = some c' },
          cache_record_cached q c c' there ran,
          cache_record_uncached (uncached q) refl,
          record {
            tables_distinct = d;
            records_distinct = ds;
            fresh = agree_cached tables' c' v' fresh';
          },
          refl,
        )
  ]

  set_record_there :
      (p : Provider) (m : Table ℕ)
      → Dict.get t p.tables ≡ some m
      → set_record t id r p ≡ record p { tables = Dict.set t (Dict.set id r m) p.tables }
  unfolding set_record
  set_record_there p m there = ground (arith, there)

  -- A record into a table that is there, and into the cache.
  pub store-Kept :
      (p : Provider) → Plain t → IsConsistent p → HasTable t p → Kept (store stringify now t id r) p
  unfolding store
  store-Kept p plain i (m, there) =
      let m' = Dict.set id r m in
      let written = set_record_there p m there in
      let (p', ran, ran', i', same) =
        cache_record-Kept p (Dict.set t m' p.tables) plain i
          (Dict.Distinct-set t m' p.tables i.tables_distinct)
          (replace-Distinct t m' p.tables i.records_distinct
            (Dict.Distinct-set id r m (i.records_distinct t m there)))
          (λ t' id'.
            sym (ap (λ q. lookup t' id' q.tables) written)
            ∙ lookup-set_record t id t' id' r p there) in
      (
        p',
        ap (cache_record stringify now t id r) written ∙ ran,
        ap (cache_record stringify now t id r) (set_record_there (uncached p) m there) ∙ ran',
        i',
        λ s (n, h). rw same (replace-HasTable t m' p.tables s n h),
      )

module _ (stringify : ℕ → Option ℕ) (now : ℕ) (t : String) where
  -- Two writes, one after the other.
  Kept-bind :
      (f g : Provider → Option Provider) (p : Provider)
      → Kept f p
      → ((q : Provider) → IsConsistent q → ((s : String) → HasTable s p → HasTable s q) → Kept g q)
      → Kept (λ q. Option.bind (f q) g) p
  unfolding Option.bind
  Kept-bind f g p (q, ran, ran', i, stays) next =
      let (p', ran₂, ran₂', i', stays') = next q i stays in
      (
        p',
        ap (λ o. Option.bind o g) ran ∙ ran₂,
        ap (λ o. Option.bind o g) ran' ∙ ran₂',
        i',
        λ s h. stays' s (stays s h),
      )

  Kept-none : (p : Provider) → IsConsistent p → Kept some p
  Kept-none p i = (p, refl, refl, i, λ s h. h)

  pub store_all-Kept :
      (made : List (String × ℕ)) (p : Provider)
      → Plain t
      → IsConsistent p
      → HasTable t p
      → Kept (store_all stringify now t made) p
  unfolding store_all
  store_all-Kept [] p plain i there = Kept-none p i
  store_all-Kept ((id, r) ∷ rest) p plain i there =
      Kept-bind (store stringify now t id r) (store_all stringify now t rest) p
        (store-Kept stringify now t id r p plain i there)
        λ q i' stays. store_all-Kept rest q plain i' (stays t there)

  update_one-Kept :
      (id : String) (r : ℕ) (test : Bool) (p : Provider)
      → Plain t
      → IsConsistent p
      → HasTable t p
      → Kept (λ q. if test then store stringify now t id r q else some q) p
  update_one-Kept id r true p plain i there = store-Kept stringify now t id r p plain i there
  update_one-Kept id r false p plain i there = Kept-none p i

  pub update_each-Kept :
      (matches : ℕ → Bool) (change : ℕ → ℕ) (rows : Table ℕ) (p : Provider)
      → Plain t
      → IsConsistent p
      → HasTable t p
      → Kept (update_each stringify now t matches change rows) p
  unfolding update_each
  update_each-Kept matches change [] p plain i there = Kept-none p i
  update_each-Kept matches change ((id, r) ∷ rest) p plain i there =
      Kept-bind (λ q. if matches r then store stringify now t id (change r) q else some q)
        (update_each stringify now t matches change rest) p
        (update_one-Kept id (change r) (matches r) p plain i there)
        λ q i' stays. update_each-Kept matches change rest q plain i' (stays t there)
