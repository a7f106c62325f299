-- ===== src/Cache/Steps.antt =====
-- The helpers of the LRU cache: what eviction, recency and the memory check do to the entries.
use mathlib.Core.List.{tail}
use text.Mathlib.TextPositions.{eq_refl}
use kinglet.Base.{
  ℕ, zero, suc, ◌+◌, ◌*◌, ◌≤◌, ◌≡◌, refl, String, Option, none, some, [], ◌∷◌, arith, ◌∙◌, length,
  string_eq, Bool-cases, Option-cases, inl, inr, ltb,
}
use kinglet.Dict
use kinglet.Dict.{Distinct}
use kinglet.Cache.{
  Entry, Entries, Cache, mark_recently_used, evict_lru_entries, evict_lru, make_room, evict_while,
  check_memory, insert_new, get, memory_usage,
}

pub record IsValid (c : Cache) : Type 0 where
  pub distinct : Distinct c.entries
  pub bounded : length c.entries ≤ c.config.max_size

-- What an eviction drops is the head.
pub evict_lru_entries-tail : (m : Entries) → evict_lru_entries m ≡ tail m
unfolding evict_lru_entries Dict.delete
evict_lru_entries-tail [] = refl
evict_lru_entries-tail ((k, v) ∷ m) = ground (arith, eq_refl k)

pub entries-evict_lru : (c : Cache) → (evict_lru c).entries ≡ tail c.entries
unfolding evict_lru
entries-evict_lru c = ground (arith, evict_lru_entries-tail c.entries)

pub config-evict_lru : (c : Cache) → (evict_lru c).config ≡ c.config
unfolding evict_lru
config-evict_lru c = ground arith

Distinct-tail : (m : Entries) → Distinct m → Distinct (tail m)
Distinct-tail [] d = tt
Distinct-tail (e ∷ m) d = d.1

pub evict_lru-Distinct : (c : Cache) → Distinct c.entries → Distinct (evict_lru c).entries
evict_lru-Distinct c d = ground (arith, entries-evict_lru c, Distinct-tail c.entries d)

length-tail-le : (m : Entries) (n : ℕ) → length m ≤ n + 1 → length (tail m) ≤ n
length-tail-le [] n h = omega arith
length-tail-le (e ∷ m) n h = omega arith

evict_lru-IsValid :
    (c : Cache)
    → Distinct c.entries
    → length c.entries ≤ c.config.max_size + 1
    → IsValid (evict_lru c)
evict_lru-IsValid c d h = record {
  distinct = evict_lru-Distinct c d;
  bounded = rw (config-evict_lru c, entries-evict_lru c) (length-tail-le c.entries _ h);
}

pub evict_while-IsValid :
    (stringify : ℕ → Option ℕ) (fuel limit : ℕ) (c : Cache)
    → IsValid c
    → IsValid (evict_while stringify fuel limit c)
unfolding evict_while
evict_while-IsValid stringify zero limit c v = v
evict_while-IsValid stringify (suc fuel) limit c v =
    ground (arith, evict_while-IsValid stringify fuel limit (evict_lru c), evict_lru-IsValid c)

pub mark-Distinct :
    (k : String) (v : Entry) (m : Entries) → Distinct m → Distinct (mark_recently_used k v m)
unfolding mark_recently_used
mark-Distinct k v m d = Dict.Distinct-set k v _ (Dict.Distinct-delete k m d)

pub get-delete_self : (k : String) (m : Entries) → Distinct m → Dict.get k (Dict.delete k m) ≡ none
get-delete_self k m d = rw (Dict.get-delete k k m d, eq_refl)

pub length-mark :
    (k : String) (v w : Entry) (m : Entries)
    → Distinct m
    → Dict.get k m ≡ some w
    → length (mark_recently_used k v m) ≡ length m
unfolding mark_recently_used
length-mark k v w m d h =
    ground
      (arith, Dict.length-set k v (Dict.delete k m), Dict.length-delete k m, get-delete_self k m d)

length-delete-le : (k : String) (m : Entries) → length (Dict.delete k m) ≤ length m
length-delete-le k m = ground (arith, Dict.length-delete k m)

pub delete_entry-IsValid :
    (k : String) (c : Cache) → IsValid c → IsValid (record c { entries = Dict.delete k c.entries })
delete_entry-IsValid k c v = record {
  distinct = Dict.Distinct-delete k c.entries v.distinct;
  bounded = omega (arith, length-delete-le k c.entries, v.bounded);
}

pub get-IsValid : (now : ℕ) (key : String) (c : Cache) → IsValid c → IsValid (get now key c).0
unfolding get
get-IsValid now key c v = elim (Option-cases (Dict.get key c.entries)) [
  | inl absent ↦ rw (absent, get) (ground arith)
  | inr (entry, found) ↦ ground (
    arith,
    delete_entry-IsValid key c,
    mark-Distinct key entry c.entries,
    length-mark key entry entry c.entries,
  )
]

evict_while_under :
    (stringify : ℕ → Option ℕ) (fuel limit : ℕ) (c : Cache)
    → memory_usage stringify c.entries ≤ limit
    → evict_while stringify fuel limit c ≡ c
unfolding evict_while
evict_while_under stringify zero limit c h = refl
evict_while_under stringify (suc fuel) limit c h = ground arith

pub config-evict_while :
    (stringify : ℕ → Option ℕ) (fuel limit : ℕ) (c : Cache)
    → (evict_while stringify fuel limit c).config ≡ c.config
unfolding evict_while
config-evict_while stringify zero limit c = refl
config-evict_while stringify (suc fuel) limit c =
    ground (arith, config-evict_while stringify fuel limit (evict_lru c), config-evict_lru c)

-- The cache after the memory check: the `throw` of `evictByMemory` is never reached.
unfoldable pub trimmed : (ℕ → Option ℕ) → Option ℕ → Cache → Cache
trimmed stringify none c = c
trimmed stringify (some zero) c = c
trimmed stringify (some (suc m)) c =
    evict_while stringify (length c.entries) (suc m * 1024 * 1024) c

check_memory-cases :
    (stringify : ℕ → Option ℕ) (c : Cache) (limit : Option ℕ)
    → c.config.max_memory_mb ≡ limit
    → check_memory stringify c ≡ some (trimmed stringify limit c)
unfolding check_memory trimmed
check_memory-cases stringify c none h = ground arith
check_memory-cases stringify c (some zero) h = ground arith
check_memory-cases stringify c (some (suc m)) h =
    ground (arith, evict_while_under stringify (length c.entries) (suc m * 1024 * 1024) c)

pub check_memory-trimmed :
    (stringify : ℕ → Option ℕ) (c : Cache)
    → check_memory stringify c ≡ some (trimmed stringify c.config.max_memory_mb c)
check_memory-trimmed stringify c = check_memory-cases stringify c _ refl

pub trimmed-IsValid :
    (stringify : ℕ → Option ℕ) (limit : Option ℕ) (c : Cache)
    → IsValid c
    → IsValid (trimmed stringify limit c)
unfolding trimmed
trimmed-IsValid stringify none c v = v
trimmed-IsValid stringify (some zero) c v = v
trimmed-IsValid stringify (some (suc m)) c v = evict_while-IsValid stringify _ _ c v

pub config-trimmed :
    (stringify : ℕ → Option ℕ) (limit : Option ℕ) (c : Cache)
    → (trimmed stringify limit c).config ≡ c.config
unfolding trimmed
config-trimmed stringify none c = refl
config-trimmed stringify (some zero) c = refl
config-trimmed stringify (some (suc m)) c = config-evict_while stringify _ _ c

make_room-IsValid :
    (c : Cache)
    → Distinct c.entries
    → length c.entries ≤ c.config.max_size + 1
    → IsValid (make_room c)
unfolding make_room
make_room-IsValid c d h = elim (Bool-cases (ltb c.config.max_size (length c.entries))) [
  | inl over ↦ rw (over) (evict_lru-IsValid c d h)
  | inr under ↦ rw (under) (record { distinct = d; bounded = ground arith })
]

pub config-make_room : (c : Cache) → (make_room c).config ≡ c.config
unfolding make_room
config-make_room c = ground (arith, config-evict_lru c)

-- The cache after the branch of `set` for a new key, with the throw gone.
unfoldable pub inserted : (ℕ → Option ℕ) → String → Entry → Cache → Cache
inserted stringify key entry c =
    let r = make_room (record c { entries = Dict.set key entry c.entries }) in
    trimmed stringify r.config.max_memory_mb r

pub insert_new-inserted :
    (stringify : ℕ → Option ℕ) (key : String) (entry : Entry) (c : Cache)
    → insert_new stringify key entry c ≡ some (inserted stringify key entry c)
unfolding insert_new inserted
insert_new-inserted stringify key entry c = check_memory-trimmed stringify _

pub inserted-IsValid :
    (stringify : ℕ → Option ℕ) (key : String) (entry : Entry) (c : Cache)
    → IsValid c
    → IsValid (inserted stringify key entry c)
unfolding inserted
inserted-IsValid stringify key entry c v = trimmed-IsValid stringify _ _ (
    make_room-IsValid (record c { entries = Dict.set key entry c.entries })
      (Dict.Distinct-set key entry c.entries v.distinct)
      (ground (arith, Dict.length-set key entry c.entries, v.bounded)))

pub config-inserted :
    (stringify : ℕ → Option ℕ) (key : String) (entry : Entry) (c : Cache)
    → (inserted stringify key entry c).config ≡ c.config
unfolding inserted
config-inserted stringify key entry c =
    config-trimmed stringify _ _
    ∙ config-make_room (record c { entries = Dict.set key entry c.entries })
