-- ===== src/Storage/Provider/Tests.antt =====
-- Runs of the in-memory provider with a cache of one entry.
use Prim.Native.Char.{code}
use mathlib.Core.Option
use kinglet.Base.{
  ℕ, ◌≡◌, refl, Bool, true, Option, some, List, [], ◌∷◌, arith, ltb, All, ◌+◌, ap, subst,
  Bool-cases, inl, inr, string_eq, ◌==◌, length,
}
use kinglet.Dict
use kinglet.Cache
use kinglet.Cache.{Value, object}
use kinglet.Storage
use kinglet.Storage.{Table}
use kinglet.Storage.Provider
use kinglet.Storage.Provider.{
  Provider, Tables, Answer, found, missing, records, flag, number_of, done, not_found,
}
use kinglet.Storage.Provider.Keys.{Plain}
use kinglet.Storage.Provider.Coherent.{IsConsistent, Fresh, agree_cached, uncached}
use kinglet.Storage.Provider.Calls
use kinglet.Storage.Provider.Calls.{Call, PlainCall}
use kinglet.Storage.Provider.Uncached.{run-uncached}
use kinglet.Storage.Provider.Operations
use kinglet.Storage.Provider.Batches.{update_many_lem, delete_many_lem}

abbrev stringify : ℕ → Option ℕ
stringify o = some o

abbrev cache : Cache.Cache
cache = record {
  config = record { max_size = 1; default_ttl = some 1; max_memory_mb = some 50 };
  entries = [];
  stats = record { hits = 0; misses = 0; sets = 0; deletes = 0; evictions = 0 };
}

abbrev rows : Table ℕ
rows = ("a", 1) ∷ ("b", 5) ∷ []

abbrev tables : Tables
tables = ("t", rows) ∷ []

abbrev provider : Provider
provider = record { tables = tables; cache = some cache }

plain : Plain "t"
plain = (λ h. absurd (ground (arith, ap code h)), tt)

provider-IsConsistent : IsConsistent provider
unfolding Fresh Dict.get
provider-IsConsistent = record {
  tables_distinct = (refl, tt);
  records_distinct = λ t m h. elim (Bool-cases ("t" == t)) [
    | inl same ↦
        subst (λ (n : Table ℕ). Dict.Distinct n)
          (Option.some-injective rows m (ground (arith, same, h))) (refl, (refl, tt))
    | inr other ↦ absurd (ground (arith, other, h))
  ];
  fresh =
      agree_cached tables cache (record { distinct = tt; bounded = omega arith })
        (λ t id e p h. absurd (ground (arith, h)));
}

abbrev calls : List (ℕ × Call)
calls =
    (1000, Call.create "t" "c" 7)
    ∷ (1500, Call.find_by_id "t" "c")
    ∷ (1600, Call.update_by_id "t" "c" (λ r. r + 1))
    ∷ (1700, Call.find_by_id "t" "c")
    ∷ (1800, Call.find_by_id "t" "a")
    ∷ (1900, Call.exists "t" "c")
    ∷ (9000, Call.find_by_id "t" "a")
    ∷ (9100, Call.delete_by_id "t" "a")
    ∷ (9200, Call.find_by_id "t" "a")
    ∷ (9300, Call.drop_table "t")
    ∷ (9400, Call.find_by_id "t" "c")
    ∷ []

abbrev answers : List Answer
answers =
    found (object 7)
    ∷ found (object 7)
    ∷ found (object 8)
    ∷ found (object 8)
    ∷ found (object 1)
    ∷ flag true
    ∷ found (object 1)
    ∷ flag true
    ∷ missing
    ∷ done
    ∷ not_found
    ∷ []

calls_plain : All (λ timed. PlainCall timed.1) calls
calls_plain = (
  plain,
  (plain, (plain, (plain, (plain, (plain, (plain, (plain, (plain, (plain, (plain, tt)))))))))),
)

run-uncached_example :
    (p' : Provider) × (given : List Answer) × (Calls.run stringify calls provider
      ≡ some (p', given))
    × (Calls.run stringify calls (uncached provider) ≡ some (uncached p', given))
    × IsConsistent p'
run-uncached_example = run-uncached stringify calls provider calls_plain provider-IsConsistent

-- The same calls without a cache.
answers_bare : Option.map (λ r. r.1) (Calls.run stringify calls (uncached provider)) ≡ some answers
unfolding Calls.run Calls.apply Operations.create Operations.find_by_id Operations.look_up
    Operations.update_by_id Operations.delete_by_id Operations.exists Operations.exists_in_table
    Operations.drop_table Provider.store Provider.cache_record Provider.set_record
    Provider.remove_record Provider.uncache Dict.get Dict.set Dict.delete
answers_bare = refl

abbrev is_large : ℕ → Bool
is_large r = ltb 3 r

update_many_lem_example :
    (p' : Provider) × (Operations.update_many stringify 7 "t" is_large (λ r. r + 1) provider
      ≡ some (p', number_of (length (Operations.matching is_large rows))))
    × (Dict.get "t" p'.tables ≡ some (Storage.update_many is_large (λ r. r + 1) rows))
    × IsConsistent p'
unfolding Dict.get
update_many_lem_example =
    update_many_lem stringify 7 "t" is_large (λ r. r + 1) provider rows plain provider-IsConsistent
      refl

delete_many_lem_example :
    (p' : Provider) × (Operations.delete_many "t" is_large provider
      ≡ some (p', number_of (Storage.delete_many is_large rows).1))
    × (Dict.get "t" p'.tables ≡ some (Storage.delete_many is_large rows).0)
    × IsConsistent p'
unfolding Dict.get
delete_many_lem_example =
    delete_many_lem "t" is_large provider rows plain provider-IsConsistent refl
