-- ===== src/Storage/Provider/Agreement.antt =====
-- The writes and plain reads of the in-memory provider beside those without its cache.
use kinglet.Base.{
  ℕ, ◌≡◌, String, Bool, Option, some, List, arith, string_eq, Option-cases, inl, inr, map,
}
use kinglet.Dict
use kinglet.Cache.{object}
use kinglet.Storage.{Table}
use kinglet.Storage.Provider.{
  Provider, Answer, found, missing, records, number_of, not_found, store, store_all, update_each,
  update_count,
}
use kinglet.Storage.Provider.Keys.{Plain}
use kinglet.Storage.Provider.Coherent.{IsConsistent, uncached}
use kinglet.Storage.Provider.Writes.{Kept, store-Kept, store_all-Kept, update_each-Kept}
use kinglet.Storage.Provider.Operations
use kinglet.Storage.Provider.Operations.{Outcome, answering, with_table, matching}

-- The operation answers as it does without the cache.
abbrev pub Agrees : (Provider → Outcome) → Provider → Type 0
Agrees f p =
    (p' : Provider) × (a : Answer) × (f p ≡ some (p', a))
    × (f (uncached p) ≡ some (uncached p', a))
    × IsConsistent p'

-- A read of the tables.
pub read-Agrees :
    (t : String) (answer : Table ℕ → Answer) (p : Provider)
    → IsConsistent p
    → Agrees (λ q. with_table t q λ m. some (q, answer m)) p
read-Agrees t answer p i = elim (Option-cases (Dict.get t p.tables)) [
  | inl absent ↦ (p, not_found, ground (arith, absent), ground (arith, absent), i)
  | inr (m, there) ↦ (p, answer m, ground (arith, there), ground (arith, there), i)
]

-- A write under the table that is there.
pub write-Agrees :
    (t : String) (answer : Table ℕ → Answer) (f : Table ℕ → Provider → Option Provider)
    (p : Provider)
    → IsConsistent p
    → ((m : Table ℕ) → Dict.get t p.tables ≡ some m → Kept (f m) p)
    → Agrees (λ q. with_table t q λ m. answering (answer m) (f m q)) p
write-Agrees t answer f p i step = elim (Option-cases (Dict.get t p.tables)) [
  | inl absent ↦ (p, not_found, ground (arith, absent), ground (arith, absent), i)
  | inr (m, there) ↦
      let (p', ran, ran', i', stays) = step m there in
      (p', answer m, ground (arith, there, ran), ground (arith, there, ran'), i')
]

module _ (stringify : ℕ → Option ℕ) (now : ℕ) where
  pub create-Agrees :
      (t id : String) (r : ℕ) (p : Provider)
      → Plain t
      → IsConsistent p
      → Agrees (Operations.create stringify now t id r) p
  unfolding Operations.create
  create-Agrees t id r p plain i =
      write-Agrees t (λ m. found (object r)) (λ m. store stringify now t id r) p i
        λ m there. store-Kept stringify now t id r p plain i (m, there)

  pub create_many-Agrees :
      (t : String) (made : List (String × ℕ)) (p : Provider)
      → Plain t
      → IsConsistent p
      → Agrees (Operations.create_many stringify now t made) p
  unfolding Operations.create_many
  create_many-Agrees t made p plain i =
      write-Agrees t (λ m. records (map (λ e. e.1) made)) (λ m. store_all stringify now t made) p i
        λ m there. store_all-Kept stringify now t made p plain i (m, there)

  pub update_many-Agrees :
      (t : String) (matches : ℕ → Bool) (change : ℕ → ℕ) (p : Provider)
      → Plain t
      → IsConsistent p
      → Agrees (Operations.update_many stringify now t matches change) p
  unfolding Operations.update_many
  update_many-Agrees t matches change p plain i =
      write-Agrees t (λ m. number_of (update_count matches m 0))
        (update_each stringify now t matches change) p i
        λ m there. update_each-Kept stringify now t matches change m p plain i (m, there)

  pub update_by_id-Agrees :
      (t id : String) (change : ℕ → ℕ) (p : Provider)
      → Plain t
      → IsConsistent p
      → Agrees (Operations.update_by_id stringify now t id change) p
  unfolding Operations.update_by_id
  update_by_id-Agrees t id change p plain i = elim (Option-cases (Dict.get t p.tables)) [
    | inl absent ↦ (p, not_found, ground (arith, absent), ground (arith, absent), i)
    | inr (m, there) ↦ elim (Option-cases (Dict.get id m)) [
      | inl unknown ↦
          (p, missing, ground (arith, there, unknown), ground (arith, there, unknown), i)
      | inr (r, known) ↦
          let (p', ran, ran', i', stays) =
            store-Kept stringify now t id (change r) p plain i (m, there) in
          (
            p',
            found (object (change r)),
            ground (arith, there, known, ran),
            ground (arith, there, known, ran'),
            i',
          )
    ]
  ]
