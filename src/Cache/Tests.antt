-- ===== src/Cache/Tests.antt =====
-- Runs of the LRU cache model, and its theorems at concrete inputs.
use text.Mathlib.Text.{starts_with}
use kinglet.Base.{
  ℕ, ◌≡◌, refl, not, Option, none, some, [], ◌∷◌, arith, keep, length, string_eq, if◌then◌else◌,
  ◌*◌, ◌+◌, ◌++◌, ◌==◌, leb,
}
use kinglet.Dict
use kinglet.Cache
use kinglet.Cache.{
  Value, number, Entry, Entries, Config, Cache, init, set, get, expired, expired_at,
}
use kinglet.Cache.Steps.{IsValid}
use kinglet.Cache.Invariant
use kinglet.Cache.Invariant.{Call, run, run-IsValid, set_entry}
use kinglet.Cache.Recency.{newest, used, set-newest, get-used}
use kinglet.Cache.Reads.{get-set}
use kinglet.Cache.Memory.{Fits, set-Fits}
use kinglet.Cache.Prefix.{delete_by_prefix_lem}

program : Unit {0}
unfolding Dict.get Dict.set Dict.delete init Cache.get Cache.set Cache.delete Cache.delete_by_prefix
    Cache.make_room Cache.evict_lru Cache.check_memory Cache.evict_while Cache.memory_usage
    Cache.entry_size Cache.estimate_value_size run Invariant.apply Cache.cleanup Cache.has
program = tt

abbrev no_json : ℕ → Option ℕ
no_json o = none

abbrev two : Config
two = record { max_size = 2; default_ttl = none; max_memory_mb = none }

abbrev entry_of : ℕ → Entry
entry_of n = record { value = number n; expires_at = none }

abbrev full : Cache
full = record {
  config = two;
  entries = ("a", entry_of 1) ∷ ("b", entry_of 2) ∷ [];
  stats = record { hits = 0; misses = 0; sets = 2; deletes = 0; evictions = 0 };
}

abbrev fresh : Cache
fresh = record {
  config = two;
  entries = [];
  stats = record { hits = 0; misses = 0; sets = 0; deletes = 0; evictions = 0 };
}

fill :
    run no_json (Call.put 5 "a" (number 1) none ∷ Call.put 6 "b" (number 2) none ∷ []) fresh
    ≡ some full
unfolding program
fill = refl

-- A hit on "a" makes "b" the next to go.
evicts_oldest :
    run no_json (Call.get 7 "a" ∷ Call.put 8 "c" (number 3) (some 1) ∷ []) full
    ≡ some (record full {
      entries = ("a", entry_of 1) ∷ ("c", record { value = number 3; expires_at = some 1008 }) ∷ [];
      stats = record { hits = 1; misses = 0; sets = 3; deletes = 0; evictions = 1 };
    })
unfolding program
evicts_oldest = refl

full-IsValid : IsValid full
unfolding program
full-IsValid = record { distinct = (refl, (refl, tt)); bounded = omega arith }

fresh-IsValid : IsValid fresh
fresh-IsValid = record { distinct = tt; bounded = omega arith }

run-IsValid_example :
    (c' : Cache) × (run no_json (Call.put 5 "a" (number 1) none ∷ Call.clear ∷ []) fresh ≡ some c')
    × IsValid c'
    × (c'.config ≡ two)
run-IsValid_example =
    run-IsValid no_json (Call.put 5 "a" (number 1) none ∷ Call.clear ∷ []) fresh fresh-IsValid

abbrev after_c : Cache
after_c = record full {
  entries = ("b", entry_of 2) ∷ ("c", record { value = number 3; expires_at = some 1008 }) ∷ [];
  stats = record { hits = 0; misses = 0; sets = 3; deletes = 0; evictions = 1 };
}

after_c-IsValid : IsValid after_c
unfolding program
after_c-IsValid = record { distinct = (refl, (refl, tt)); bounded = omega arith }

sets_c : set no_json 8 "c" (number 3) (some 1) full ≡ some after_c
unfolding program
sets_c = refl

set-newest_example :
    after_c.entries
    ≡ newest 2 (used "c" (set_entry no_json 8 "c" (number 3) (some 1) full) full.entries)
set-newest_example =
    set-newest no_json 8 "c" (number 3) (some 1) full after_c full-IsValid refl sets_c

get-used_example :
    ◌≡◌ {A = Entries × Option Value}
      ((get 1009 "c" after_c).0.entries, (get 1009 "c" after_c).1)
      (keep (λ e. not (e.0 == "c")) after_c.entries, none)
unfolding Dict.get
get-used_example = get-used 1009 "c" after_c after_c-IsValid

get-set_example :
    (get 1009 "c" after_c).1 ≡ (if leb 1009 (8 + 1 * 1000) then some (number 3) else none)
get-set_example =
    get-set no_json 8 "c" (number 3) (some 1) full after_c 1009 full-IsValid refl (omega arith)
      sets_c

-- An object of 600000 code units makes two entries too many for a limit of one megabyte.
abbrev big_json : ℕ → Option ℕ
big_json o = some 300000

abbrev big : Entry
big = record { value = Value.object 1; expires_at = none }

abbrev one_mb : Cache
one_mb = record {
  config = record { max_size = 9; default_ttl = none; max_memory_mb = some 1 };
  entries = ("a", big) ∷ [];
  stats = record { hits = 0; misses = 0; sets = 1; deletes = 0; evictions = 0 };
}

abbrev one_mb_after : Cache
one_mb_after = record one_mb {
  entries = ("b", big) ∷ [];
  stats = record { hits = 0; misses = 0; sets = 2; deletes = 0; evictions = 1 };
}

sets_big : set big_json 3 "b" (Value.object 1) none one_mb ≡ some one_mb_after
unfolding program
sets_big = refl

one_mb-IsValid : IsValid one_mb
unfolding program
one_mb-IsValid = record { distinct = (refl, tt); bounded = omega arith }

set-Fits_example :
    Fits big_json
      (1 * 1024 * 1024)
      (newest 9
        (one_mb.entries ++ ("b", set_entry big_json 3 "b" (Value.object 1) none one_mb) ∷ []))
      one_mb_after.entries
unfolding Dict.get
set-Fits_example =
    set-Fits big_json 3 "b" (Value.object 1) none one_mb one_mb_after 0 one_mb-IsValid refl refl
      sets_big

abbrev aging : Cache
aging = record full {
  entries = ("x:1", record (entry_of 1) { expires_at = some 10 }) ∷ ("y:2", entry_of 2) ∷ [];
}

delete_by_prefix_example :
    ((Cache.delete_by_prefix "x:" aging).0.entries
      ≡ keep (λ e. not (starts_with e.0 "x:")) aging.entries)
    × ((Cache.delete_by_prefix "x:" aging).1
        ≡ length (keep (λ e. starts_with e.0 "x:") aging.entries))
unfolding program
delete_by_prefix_example = delete_by_prefix_lem "x:" aging (refl, (refl, tt))

counts_deleted : (Cache.delete_by_prefix "x:" aging).1 ≡ 1
unfolding program Cache.delete_counting Cache.keys_by_prefix
counts_deleted = refl
