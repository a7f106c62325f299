-- ===== src/Cache.antt =====
-- src/core/storage/cache/lru-cache.ts: the LRU cache with time-to-live. The `Map` that tracks
-- recency is an association list in insertion order, so its head is the least recently used
-- entry. `Date.now()` is an argument. `JSON.stringify` on an object is the parameter `stringify`:
-- the length of its result, or `none` where it throws.
mod Memory
pub mod Steps
pub mod Invariant
mod Reads
mod Recency
mod Prefix
pub mod Contents
mod Tests
use Prim.Native.Char.{code}
use text.Mathlib.Text.{starts_with}
use kinglet.Base.{
  ℕ, zero, suc, ◌+◌, ◌*◌, String, Bool, true, false, not, ◌&&◌, Option, none, some, List, [], ◌∷◌,
  map, ltb, leb, ◌==◌, if◌then◌else◌, length, keep, string_eq,
}
use kinglet.Dict

-- A value, as far as `estimateValueSize` looks at it; `object` names an object by a number.
pub data Value : Type 0 where
  nullish : Value
  str : String → Value
  number : ℕ → Value
  boolean : Bool → Value
  object : ℕ → Value
  other : Value

pub record Entry : Type 0 where
  pub value : Value
  pub expires_at : Option ℕ

abbrev pub Entries : Type 0
Entries = List (String × Entry)

pub record Config : Type 0 where
  pub max_size : ℕ
  pub default_ttl : Option ℕ
  pub max_memory_mb : Option ℕ

pub record Stats : Type 0 where
  pub hits : ℕ
  pub misses : ℕ
  pub sets : ℕ
  pub deletes : ℕ
  pub evictions : ℕ

pub record Cache : Type 0 where
  pub config : Config
  pub entries : Entries
  pub stats : Stats

-- `entry.expiresAt && now > entry.expiresAt`: 0 counts as absent.
abbrev pub expired_at : Option ℕ → ℕ → Bool
expired_at none now = false
expired_at (some zero) now = false
expired_at (some (suc t)) now = ltb (suc t) now

pub expired : ℕ → Entry → Bool
expired now entry = expired_at entry.expires_at now

pub init : Config → Cache
init config = record {
  config = config;
  entries = [];
  stats = record { hits = 0; misses = 0; sets = 0; deletes = 0; evictions = 0 };
}

-- `markRecentlyUsed`: out, and in again at the end.
pub mark_recently_used : String → Entry → Entries → Entries
mark_recently_used key entry entries = Dict.set key entry (Dict.delete key entries)

pub miss : Cache → Cache
miss c = let s = c.stats in record c { stats = record s { misses = s.misses + 1 } }

pub get : ℕ → String → Cache → Cache × Option Value
unfolding expired mark_recently_used miss
get now key c = elim (Dict.get key c.entries) [
  | none ↦ (miss c, none)
  | some entry ↦
      if expired now entry
      then (
        let s = c.stats in
            record c {
              entries = Dict.delete key c.entries;
              stats = record s { misses = s.misses + 1 };
            },
        none,
      )
      else (
        let s = c.stats in
            record c {
              entries = mark_recently_used key entry c.entries;
              stats = record s { hits = s.hits + 1 };
            },
        some entry.value,
      )
]

-- `ttl ? now + ttl * 1000 : undefined`
abbrev pub deadline : Option ℕ → ℕ → Option ℕ
deadline none now = none
deadline (some zero) now = none
deadline (some (suc t)) now = some (now + suc t * 1000)

abbrev pub or_else {ℓ} : {A : Type ℓ} → Option A → Option A → Option A
or_else none d = d
or_else (some a) d = some a

pub utf16_length : String → ℕ
utf16_length String.[] = 0
utf16_length (String.◌∷◌ c s) = (if ltb (code c) 0x10000 then 1 else 2) + utf16_length s

-- `evictLRU`
pub evict_lru_entries : Entries → Entries
evict_lru_entries [] = []
evict_lru_entries ((key, entry) ∷ rest) = Dict.delete key ((key, entry) ∷ rest)

pub evict_lru : Cache → Cache
unfolding evict_lru_entries
evict_lru c = elim c.entries [
  | [] ↦ c
  | _ ∷ _ ↦
      let s = c.stats in
      record c {
        entries = evict_lru_entries c.entries;
        stats = record s { evictions = s.evictions + 1 };
      }
]

-- The eviction check of `set`.
pub make_room : Cache → Cache
make_room c = if ltb c.config.max_size (length c.entries) then evict_lru c else c

pub count_set : Cache → Cache
count_set c = let s = c.stats in record c { stats = record s { sets = s.sets + 1 } }

module _ (stringify : ℕ → Option ℕ) where
  pub estimate_value_size : Value → ℕ
  unfolding utf16_length
  estimate_value_size nullish = 8
  estimate_value_size (str s) = utf16_length s * 2
  estimate_value_size (number n) = 8
  estimate_value_size (boolean b) = 4
  estimate_value_size (object o) = elim (stringify o) [ some n ↦ n * 2 | none ↦ 100 ]
  estimate_value_size other = 50

  pub entry_size : String × Entry → ℕ
  entry_size (key, entry) = utf16_length key * 2 + estimate_value_size entry.value + 64

  pub memory_usage : Entries → ℕ
  memory_usage [] = 0
  memory_usage (e ∷ rest) = entry_size e + memory_usage rest

  -- The `while` of `evictByMemory`, on fuel; the length of the entries is enough.
  pub evict_while : ℕ → ℕ → Cache → Cache
  evict_while zero limit c = c
  evict_while (suc fuel) limit c =
      elim (ltb limit (memory_usage c.entries) && ltb 0 (length c.entries)) [
        | true ↦ evict_while fuel limit (evict_lru c)
        | false ↦ c
      ]

  -- `none` is the error that `evictByMemory` throws without a limit.
  pub evict_by_memory : Cache → Option Cache
  evict_by_memory c = elim c.config.max_memory_mb [
    | none ↦ none
    | some mb ↦ some (evict_while (length c.entries) (mb * 1024 * 1024) c)
  ]

  -- The memory check of `set`; a limit of 0 counts as no limit.
  pub check_memory : Cache → Option Cache
  unfolding evict_by_memory
  check_memory c = elim c.config.max_memory_mb [
    | none ↦ some c
    | some zero ↦ some c
    | some (suc m) ↦
        if ltb (suc m * 1024 * 1024) (memory_usage c.entries) then evict_by_memory c else some c
  ]

  -- The branch of `set` for a new key.
  pub insert_new : String → Entry → Cache → Option Cache
  insert_new key entry c =
      check_memory (make_room (record c { entries = Dict.set key entry c.entries }))

  -- `set`; `none` if it throws.
  pub set : ℕ → String → Value → Option ℕ → Cache → Option Cache
  unfolding insert_new count_set mark_recently_used
  set now key value ttl c =
      let entry : Entry = record {
        value = value;
        expires_at = deadline (or_else ttl c.config.default_ttl) now;
      } in
      elim (Dict.get key c.entries) [
        | some _ ↦ some (count_set (record c { entries = mark_recently_used key entry c.entries }))
        | none ↦ elim (insert_new key entry c) [ none ↦ none | some c' ↦ some (count_set c') ]
      ]

pub delete : String → Cache → Cache × Bool
delete key c = elim (Dict.get key c.entries) [
  | none ↦ (c, false)
  | some _ ↦ (
    let s = c.stats in
        record c {
          entries = Dict.delete key c.entries;
          stats = record s { deletes = s.deletes + 1 };
        },
    true,
  )
]

pub has : ℕ → String → Cache → Cache × Bool
unfolding expired
has now key c = elim (Dict.get key c.entries) [
  | none ↦ (c, false)
  | some entry ↦
      if expired now entry
      then (record c { entries = Dict.delete key c.entries }, false)
      else (c, true)
]

pub clear : Cache → Cache
unfolding init
clear c = init c.config

-- The two loops of `cleanup`: collect the expired keys, then delete them.
pub expired_keys : ℕ → Entries → List String
unfolding expired
expired_keys now entries = map (λ e. e.0) (keep (λ e. expired now e.1) entries)

pub delete_keys : List String → Entries → Entries
delete_keys [] entries = entries
delete_keys (key ∷ keys) entries = delete_keys keys (Dict.delete key entries)

pub cleanup : ℕ → Cache → Cache
unfolding expired_keys delete_keys
cleanup now c = record c { entries = delete_keys (expired_keys now c.entries) c.entries }

pub destroy : Cache → Cache
destroy c = record c { entries = [] }

pub keys_by_prefix : String → Cache → List String
keys_by_prefix prefix c = keep (λ key. starts_with key prefix) (map (λ e. e.0) c.entries)

-- The second loop of `deleteByPrefix`, with its counter.
pub delete_counting : List String → Cache → ℕ → Cache × ℕ
delete_counting [] c count = (c, count)
delete_counting (key ∷ keys) c count =
    let (c', deleted) = delete key c in
    delete_counting keys c' (if deleted then count + 1 else count)

pub delete_by_prefix : String → Cache → Cache × ℕ
unfolding delete_counting keys_by_prefix
delete_by_prefix prefix c = delete_counting (keys_by_prefix prefix c) c 0

pub size : Cache → ℕ
size c = length c.entries

pub is_full : Cache → Bool
is_full c = leb c.config.max_size (length c.entries)
