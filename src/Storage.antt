-- ===== src/Storage.antt =====
-- src/core/storage/providers/memory.ts: one table of the in-memory provider, without its cache: a `Map`
-- from record ids to records in insertion order. The records are typed, so a query's conditions are a
-- test on a record, and the data of an update is a change of it. A limit of 0 counts as none, as in
-- `find`. Stamps (`createdAt`, `updatedAt`) are left out.
pub mod Provider
use kinglet.Base.{
  ℕ, zero, suc, String, Bool, not, Option, none, some, List, [], ◌∷◌, map, if◌then◌else◌, keep,
  take, drop, length, string_eq,
}
use kinglet.Dict

abbrev pub Table : Type 0 → Type 0
Table R = List (String × R)

module _ {R : Type 0} where
  -- `create`, with the id that `randomUUID` gave.
  unfoldable pub create : String → R → Table R → Table R
  create id record' table = Dict.set id record' table

  -- `find`: filter, then the page; total and `hasMore` are not kept.
  unfoldable pub find : (R → Bool) → ℕ → ℕ → Table R → Table R
  find matches zero offset table = keep (λ e. matches e.1) table
  find matches (suc limit) offset table =
      take (suc limit) (drop offset (keep (λ e. matches e.1) table))

  unfoldable pub find_first : (R → Bool) → Table R → Option (String × R)
  unfolding find
  find_first matches table = elim (find matches 1 0 table) [ [] ↦ none | e ∷ rest ↦ some e ]

  -- `updateById`: `none` for an id that is not there.
  unfoldable pub update_by_id : String → (R → R) → Table R → Option (Table R)
  update_by_id id change table = elim (Dict.get id table) [
    | none ↦ none
    | some r ↦ some (Dict.set id (change r) table)
  ]

  -- `updateMany`; the number of updated records is not kept.
  unfoldable pub update_many : (R → Bool) → (R → R) → Table R → Table R
  update_many matches change table =
      map (λ e. (e.0, (if matches e.1 then change e.1 else e.1))) table

  unfoldable pub delete_by_id : String → Table R → Table R
  delete_by_id id table = Dict.delete id table

  -- `deleteMany`, with the number of deleted records.
  unfoldable pub delete_many : (R → Bool) → Table R → Table R × ℕ
  delete_many matches table =
      (keep (λ e. not (matches e.1)) table, length (keep (λ e. matches e.1) table))
