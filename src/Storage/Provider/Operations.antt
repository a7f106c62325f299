-- ===== src/Storage/Provider/Operations.antt =====
-- src/core/storage/providers/memory.ts: the operations of the in-memory provider, each on every branch.
use Prim.Native.String.{◌++◌}
use mathlib.Core.Option
use kinglet.Base.{
  ℕ, zero, suc, ◌+◌, String, Bool, true, false, Option, none, some, List, [], ◌∷◌, map,
  if◌then◌else◌, keep, take, drop, length, ltb, string_eq,
}
use kinglet.Dict
use kinglet.Cache
use kinglet.Cache.{Value, object}
use kinglet.Storage.{Table}
use kinglet.Storage.Provider.{
  Provider, Answer, found, missing, records, page, flag, number_of, names, done, not_found, key,
  truthy, uncache, remove_record, cache_record, store, store_all, update_each, update_count,
  delete_each,
}

abbrev pub Outcome : Type 0
Outcome = Option (Provider × Answer)

-- What the operation returns, if the cache did not throw.
abbrev pub answering : Answer → Option Provider → Outcome
answering answer = Option.map λ p. (p, answer)

-- `getTable`, which throws for a table that is not there, and what the operation does with the table.
abbrev pub with_table : String → Provider → (Table ℕ → Outcome) → Outcome
with_table table p body = elim (Dict.get table p.tables) [
  | none ↦ some (p, not_found)
  | some t ↦ body t
]

abbrev pub matching : (ℕ → Bool) → Table ℕ → List ℕ
matching matches t = keep matches (map (λ e. e.1) t)

abbrev pub is_there : {A : Type 0} → Option A → Bool
is_there none = false
is_there (some a) = true

-- `find` on the records in the order of the sort, with the limit and the offset.
unfoldable pub page_of : Option ℕ → ℕ → List ℕ → Answer
page_of none offset rs = page rs (length rs) false none
page_of (some zero) offset rs = page rs (length rs) false none
page_of (some (suc n)) offset rs =
    let more = ltb (offset + suc n) (length rs) in
    page (take (suc n) (drop offset rs)) (length rs) more
      (if more then some (offset + suc n) else none)

unfoldable pub find : String → (ℕ → Bool) → (List ℕ → List ℕ) → Option ℕ → ℕ → Provider → Outcome
find table matches sort limit offset p =
    with_table table p λ t. some (p, page_of limit offset (sort (matching matches t)))

abbrev first_of : List ℕ → Answer
first_of [] = missing
first_of (r ∷ rs) = found (object r)

abbrev pub first_answer : Answer → Answer
first_answer (page rs total more cursor) = first_of rs
first_answer other = other

-- `findFirst`: the page of one record.
unfoldable pub find_first : String → (ℕ → Bool) → (List ℕ → List ℕ) → ℕ → Provider → Outcome
find_first table matches sort offset p =
    Option.map (λ (q, a). (q, first_answer a)) (find table matches sort (some 1) offset p)

unfoldable pub count : String → Option (ℕ → Bool) → Provider → Outcome
count table none p = with_table table p λ t. some (p, number_of (length t))
count table (some matches) p =
    with_table table p λ t. some (p, number_of (length (matching matches t)))

unfoldable pub delete_by_id : String → String → Provider → Outcome
delete_by_id table id p = with_table table p λ t. elim (Dict.get id t) [
  | none ↦ some (p, flag false)
  | some r ↦ some (uncache table id (remove_record table id p), flag true)
]

-- `deleteMany`: the ids are collected first.
unfoldable pub delete_many : String → (ℕ → Bool) → Provider → Outcome
delete_many table matches p = with_table table p λ t.
    let ids = map (λ e. e.0) (keep (λ e. matches e.1) t) in
    some (delete_each table ids p, number_of (length ids))

-- `createTable`: a table that is there keeps its records.
unfoldable pub create_table : String → Provider → Outcome
create_table name p = elim (Dict.get name p.tables) [
  | some t ↦ some (p, done)
  | none ↦ some (record p { tables = Dict.set name [] p.tables }, done)
]

unfoldable pub drop_table : String → Provider → Outcome
drop_table name p = elim (Dict.get name p.tables) [
  | none ↦ some (p, done)
  | some t ↦ some (
    record {
      tables = Dict.delete name p.tables;
      cache = Option.map (λ c. (Cache.delete_by_prefix (name ++ ":") c).0) p.cache;
    },
    done,
  )
]

unfoldable pub list_tables : Provider → Outcome
list_tables p = some (p, names (map (λ e. e.0) p.tables))

unfoldable pub close : Provider → Outcome
close p = some (record { tables = []; cache = none }, done)

-- The timer of the cache.
unfoldable pub tick : ℕ → Provider → Outcome
tick now p = some (record p { cache = Option.map (Cache.cleanup now) p.cache }, done)

-- `exists` behind the cache.
unfoldable pub exists_in_table : String → String → Provider → Outcome
exists_in_table table id p = with_table table p λ t. some (p, flag (is_there (Dict.get id t)))

-- `exists`: an entry of the cache is enough.
unfoldable pub exists : ℕ → String → String → Provider → Outcome
exists now table id p = elim p.cache [
  | none ↦ exists_in_table table id p
  | some c ↦
      let (c', cached) = Cache.has now (key table id) c in
      let q : Provider = record p { cache = some c' } in
      if cached then some (q, flag true) else exists_in_table table id q
]

module _ (stringify : ℕ → Option ℕ) (now : ℕ) where
  unfoldable pub create : String → String → ℕ → Provider → Outcome
  create table id r p =
      with_table table p λ t. answering (found (object r)) (store stringify now table id r p)

  unfoldable pub create_many : String → List (String × ℕ) → Provider → Outcome
  create_many table made p =
      with_table table p
        λ t. answering (records (map (λ e. e.1) made)) (store_all stringify now table made p)

  -- `findById` behind the cache.
  unfoldable pub look_up : String → String → Provider → Outcome
  look_up table id p = with_table table p λ t. elim (Dict.get id t) [
    | none ↦ some (p, missing)
    | some r ↦ answering (found (object r)) (cache_record stringify now table id r p)
  ]

  unfoldable pub find_by_id : String → String → Provider → Outcome
  find_by_id table id p = elim p.cache [
    | none ↦ look_up table id p
    | some c ↦
        let (c', cached) = Cache.get now (key table id) c in
        elim cached [
          | none ↦ look_up table id (record p { cache = some c' })
          | some v ↦
              if truthy v
              then some (record p { cache = some c' }, found v)
              else look_up table id (record p { cache = some c' })
        ]
  ]

  unfoldable pub update_by_id : String → String → (ℕ → ℕ) → Provider → Outcome
  update_by_id table id change p = with_table table p λ t. elim (Dict.get id t) [
    | none ↦ some (p, missing)
    | some r ↦ answering (found (object (change r))) (store stringify now table id (change r) p)
  ]

  unfoldable pub update_many : String → (ℕ → Bool) → (ℕ → ℕ) → Provider → Outcome
  update_many table matches change p = with_table table p λ t.
      answering (number_of (update_count matches t 0))
        (update_each stringify now table matches change t p)
