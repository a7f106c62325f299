-- ===== src/Storage/Provider/Uncached.antt =====
-- The in-memory provider with its cache against the one without: runs of timed operations.
use Prim.Native.String.{◌++◌}
use mathlib.Core.Option
use kinglet.Base.{
  ℕ, ◌≡◌, refl, String, Bool, true, false, Option, none, some, List, [], ◌∷◌, arith, string_eq,
  Option-cases, inl, inr, All, map, keep, length,
}
use kinglet.Dict
use kinglet.Cache
use kinglet.Storage.Provider.{
  Provider, Answer, names, number_of, flag, done, not_found, uncache, remove_record, delete_each,
}
use kinglet.Storage.Provider.Keys.{Plain}
use kinglet.Storage.Provider.Coherent.{IsConsistent, uncached}
use kinglet.Storage.Provider.Deletes.{
  remove-IsConsistent, remove_uncached, delete_each-IsConsistent, delete_each-uncached,
  drop-IsConsistent, add-IsConsistent, cleanup-IsConsistent,
}
use kinglet.Storage.Provider.Agreement.{
  Agrees, read-Agrees, create-Agrees, create_many-Agrees, update_by_id-Agrees, update_many-Agrees,
}
use kinglet.Storage.Provider.Lookups.{find_by_id-Agrees, exists-Agrees}
use kinglet.Storage.Provider.Calls.{
  Call, create, create_many, find_by_id, find, find_first, update_by_id, update_many, delete_by_id,
  delete_many, exists, count, create_table, drop_table, list_tables, close, tick, apply, run,
  PlainCall,
}
use kinglet.Storage.Provider.Operations
use kinglet.Storage.Provider.Operations.{Outcome, matching, first_answer, page_of}

find-Agrees :
    (t : String) (matches : ℕ → Bool) (sort : List ℕ → List ℕ) (limit : Option ℕ) (offset : ℕ)
    (p : Provider)
    → IsConsistent p
    → Agrees (Operations.find t matches sort limit offset) p
unfolding Operations.find
find-Agrees t matches sort limit offset p i =
    read-Agrees t (λ m. page_of limit offset (sort (matching matches m))) p i

find_first-Agrees :
    (t : String) (matches : ℕ → Bool) (sort : List ℕ → List ℕ) (offset : ℕ) (p : Provider)
    → IsConsistent p
    → Agrees (Operations.find_first t matches sort offset) p
unfolding Operations.find_first
find_first-Agrees t matches sort offset p i =
    let (p', a, ran, ran', i') = find-Agrees t matches sort (some 1) offset p i in
    (p', first_answer a, ground (arith, ran), ground (arith, ran'), i')

count-Agrees :
    (t : String) (test : Option (ℕ → Bool)) (p : Provider)
    → IsConsistent p
    → Agrees (Operations.count t test) p
unfolding Operations.count
count-Agrees t none p i = read-Agrees t (λ m. number_of (length m)) p i
count-Agrees t (some test) p i = read-Agrees t (λ m. number_of (length (matching test m))) p i

delete_by_id-Agrees :
    (t id : String) (p : Provider)
    → Plain t
    → IsConsistent p
    → Agrees (Operations.delete_by_id t id) p
unfolding Operations.delete_by_id
delete_by_id-Agrees t id p plain i = elim (Option-cases (Dict.get t p.tables)) [
  | inl absent ↦ (p, not_found, ground (arith, absent), ground (arith, absent), i)
  | inr (m, there) ↦ elim (Option-cases (Dict.get id m)) [
    | inl unknown ↦
        (p, flag false, ground (arith, there, unknown), ground (arith, there, unknown), i)
    | inr (r, known) ↦ (
      uncache t id (remove_record t id p),
      flag true,
      ground (arith, there, known),
      ground (arith, there, known, remove_uncached t id p),
      remove-IsConsistent t id p plain i (m, there),
    )
  ]
]

delete_many-Agrees :
    (t : String) (matches : ℕ → Bool) (p : Provider)
    → Plain t
    → IsConsistent p
    → Agrees (Operations.delete_many t matches) p
unfolding Operations.delete_many
delete_many-Agrees t matches p plain i = elim (Option-cases (Dict.get t p.tables)) [
  | inl absent ↦ (p, not_found, ground (arith, absent), ground (arith, absent), i)
  | inr (m, there) ↦
      let ids = map (λ e. e.0) (keep (λ e. matches e.1) m) in
      (
        delete_each t ids p,
        number_of (length ids),
        ground (arith, there),
        ground (arith, there, delete_each-uncached t ids p),
        delete_each-IsConsistent t ids p plain i (m, there),
      )
]

create_table-Agrees :
    (t : String) (p : Provider) → IsConsistent p → Agrees (Operations.create_table t) p
unfolding Operations.create_table
create_table-Agrees t p i = elim (Option-cases (Dict.get t p.tables)) [
  | inl absent ↦ (
    record p { tables = Dict.set t [] p.tables },
    done,
    ground (arith, absent),
    ground (arith, absent),
    add-IsConsistent t p i absent,
  )
  | inr (m, there) ↦ (p, done, ground (arith, there), ground (arith, there), i)
]

drop_table-Agrees :
    (t : String) (p : Provider) → Plain t → IsConsistent p → Agrees (Operations.drop_table t) p
unfolding Operations.drop_table
drop_table-Agrees t p plain i = elim (Option-cases (Dict.get t p.tables)) [
  | inl absent ↦ (p, done, ground (arith, absent), ground (arith, absent), i)
  | inr (m, there) ↦ (
    record {
      tables = Dict.delete t p.tables;
      cache = Option.map (λ c. (Cache.delete_by_prefix (t ++ ":") c).0) p.cache;
    },
    done,
    ground (arith, there),
    ground (arith, there),
    drop-IsConsistent t p plain i,
  )
]

empty-IsConsistent : IsConsistent (record { tables = []; cache = none })
unfolding Dict.get
empty-IsConsistent = record {
  tables_distinct = tt;
  records_distinct = λ t m h. absurd (ground (arith, h));
  fresh = λ c h. absurd (ground (arith, h));
}

pub apply-Agrees :
    (stringify : ℕ → Option ℕ) (now : ℕ) (call : Call) (p : Provider)
    → PlainCall call
    → IsConsistent p
    → Agrees (apply stringify now call) p
unfolding apply Operations.list_tables Operations.close Operations.tick
apply-Agrees stringify now (create t id r) p plain i = create-Agrees stringify now t id r p plain i
apply-Agrees stringify now (create_many t made) p plain i =
    create_many-Agrees stringify now t made p plain i
apply-Agrees stringify now (find_by_id t id) p plain i =
    find_by_id-Agrees stringify now t id p plain i
apply-Agrees stringify now (find t matches sort limit offset) p plain i =
    find-Agrees t matches sort limit offset p i
apply-Agrees stringify now (find_first t matches sort offset) p plain i =
    find_first-Agrees t matches sort offset p i
apply-Agrees stringify now (update_by_id t id change) p plain i =
    update_by_id-Agrees stringify now t id change p plain i
apply-Agrees stringify now (update_many t matches change) p plain i =
    update_many-Agrees stringify now t matches change p plain i
apply-Agrees stringify now (delete_by_id t id) p plain i = delete_by_id-Agrees t id p plain i
apply-Agrees stringify now (delete_many t matches) p plain i =
    delete_many-Agrees t matches p plain i
apply-Agrees stringify now (exists t id) p plain i = exists-Agrees stringify now t id p plain i
apply-Agrees stringify now (count t test) p plain i = count-Agrees t test p i
apply-Agrees stringify now (create_table t) p plain i = create_table-Agrees t p i
apply-Agrees stringify now (drop_table t) p plain i = drop_table-Agrees t p plain i
apply-Agrees stringify now list_tables p plain i =
    (p, names (map (λ e. e.0) p.tables), refl, refl, i)
apply-Agrees stringify now close p plain i =
    (record { tables = []; cache = none }, done, refl, refl, empty-IsConsistent)
apply-Agrees stringify now tick p plain i = (
  record p { cache = Option.map (Cache.cleanup now) p.cache },
  done,
  refl,
  refl,
  cleanup-IsConsistent now p i,
)

-- From a provider whose cache agrees with its tables, as a new one's does, every sequence of timed calls on
-- tables without a colon in their names runs without a throw of the cache, gives the answers that it gives
-- without a cache, and leaves the same tables, and a cache that agrees with them.
pub run-uncached :
    (stringify : ℕ → Option ℕ) (calls : List (ℕ × Call)) (p : Provider)
    → All (λ timed. PlainCall timed.1) calls
    → IsConsistent p
    → (p' : Provider) × (answers : List Answer) × (run stringify calls p ≡ some (p', answers))
      × (run stringify calls (uncached p) ≡ some (uncached p', answers))
      × IsConsistent p'
unfolding run
run-uncached stringify [] p plain i = (p, [], refl, refl, i)
run-uncached stringify ((now, call) ∷ calls) p (plain, rest) i =
    let (q, answer, step, step', j) = apply-Agrees stringify now call p plain i in
    let (p', answers, ran, ran', i') = run-uncached stringify calls q rest j in
    (p', answer ∷ answers, ground (arith, step, ran), ground (arith, step', ran'), i')
