-- ===== src/Storage/Provider.antt =====
-- src/core/storage/providers/memory.ts: the in-memory provider, its tables and the cache in front of
-- them. A record is an object, named by a number; an update makes a new object, so the object decides
-- the content, and a query's filter is a test on it, the data of an update a function from the old object
-- to the new. The ids that `randomUUID` gives are arguments, and so is the time of an operation. Stamps
-- and schemas are left out. An operation is `none` where the cache throws.
pub mod Keys
pub mod Coherent
pub mod Writes
pub mod Deletes
pub mod Operations
pub mod Agreement
pub mod Lookups
pub mod Calls
mod Uncached
mod Batches
mod Tests
use Prim.Native.String
use Prim.Native.String.{◌++◌}
use mathlib.Core.Option
use kinglet.Base.{
  ℕ, zero, suc, ◌+◌, String, Bool, true, false, not, ◌&&◌, Option, none, some, List, [], ◌∷◌, map,
  if◌then◌else◌, keep, take, drop, length, ltb, string_eq,
}
use kinglet.Dict
use kinglet.Cache
use kinglet.Cache.{Cache, Value, nullish, str, number, boolean, object, other}
use kinglet.Storage.{Table}

abbrev pub Tables : Type 0
Tables = List (String × Table ℕ)

pub record Provider : Type 0 where
  pub tables : Tables
  pub cache : Option Cache

-- `${table}:${id}`
unfoldable pub key : String → String → String
key table id = table ++ ":" ++ id

-- `if (cached)`
unfoldable pub truthy : Value → Bool
truthy nullish = false
truthy (str s) = elim s [ String.[] ↦ false | String.◌∷◌ c rest ↦ true ]
truthy (number n) = ltb 0 n
truthy (boolean b) = b
truthy (object o) = true
truthy other = true

-- What an operation returns or, for `not_found`, throws.
pub data Answer : Type 0 where
  found : Value → Answer
  missing : Answer
  records : List ℕ → Answer
  page : List ℕ → ℕ → Bool → Option ℕ → Answer
  flag : Bool → Answer
  number_of : ℕ → Answer
  names : List String → Answer
  done : Answer
  not_found : Answer

-- `memoryTable.records.set(id, record)`, in the table that `getTable` gives.
unfoldable pub set_record : String → String → ℕ → Provider → Provider
set_record table id r p = record p {
  tables = elim (Dict.get table p.tables) [
    | none ↦ p.tables
    | some t ↦ Dict.set table (Dict.set id r t) p.tables
  ];
}

-- `memoryTable.records.delete(id)`
unfoldable pub remove_record : String → String → Provider → Provider
remove_record table id p = record p {
  tables = elim (Dict.get table p.tables) [
    | none ↦ p.tables
    | some t ↦ Dict.set table (Dict.delete id t) p.tables
  ];
}

-- `if (this.cache) await this.cache.delete(key)`
unfoldable pub uncache : String → String → Provider → Provider
uncache table id p = record p {
  cache = Option.map (λ c. (Cache.delete (key table id) c).0) p.cache;
}

-- The second loop of `deleteMany`.
unfoldable pub delete_each : String → List String → Provider → Provider
delete_each table [] p = p
delete_each table (id ∷ ids) p = delete_each table ids (uncache table id (remove_record table id p))

-- `updatedCount` of `updateMany`, which its loop raises at each record that matches.
unfoldable pub update_count : (ℕ → Bool) → Table ℕ → ℕ → ℕ
update_count matches [] count = count
update_count matches ((id, r) ∷ rest) count =
    update_count matches rest (if matches r then count + 1 else count)

module _ (stringify : ℕ → Option ℕ) (now : ℕ) where
  -- `if (this.cache) await this.cache.set(key, record)`
  unfoldable pub cache_record : String → String → ℕ → Provider → Option Provider
  cache_record table id r p = elim p.cache [
    | none ↦ some p
    | some c ↦ elim (Cache.set stringify now (key table id) (object r) none c) [
      | none ↦ none
      | some c' ↦ some (record p { cache = some c' })
    ]
  ]

  -- A record into the table, and then into the cache.
  unfoldable pub store : String → String → ℕ → Provider → Option Provider
  store table id r p = cache_record table id r (set_record table id r p)

  -- The loop of `createMany`, over the ids and records it makes.
  unfoldable pub store_all : String → List (String × ℕ) → Provider → Option Provider
  store_all table [] p = some p
  store_all table ((id, r) ∷ rest) p = Option.bind (store table id r p) (store_all table rest)

  -- The loop of `updateMany`, over the records as they were: a `set` of a key that is there neither
  -- moves nor adds an entry.
  unfoldable pub update_each : String → (ℕ → Bool) → (ℕ → ℕ) → Table ℕ → Provider → Option Provider
  update_each table matches change [] p = some p
  update_each table matches change ((id, r) ∷ rest) p =
      Option.bind (if matches r then store table id (change r) p else some p)
        (update_each table matches change rest)
