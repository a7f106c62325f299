-- ===== src/Storage/Provider/Deletes.antt =====
-- The deletes of the in-memory provider, in src/core/storage/providers/memory.ts, on tables and a cache that
-- agree.
use Prim.Native.String.{◌++◌}
use text.Mathlib.Text.{starts_with}
use mathlib.Core.Option
use kinglet.Base.{
  ℕ, ◌≡◌, refl, ap, ◌∙◌, String, Option, none, some, List, [], ◌∷◌, arith, string_eq, if◌then◌else◌,
}
use kinglet.Dict
use kinglet.Dict.{Distinct}
use kinglet.Cache
use kinglet.Cache.{Cache, Entry, Entries}
use kinglet.Cache.Steps.{IsValid}
use kinglet.Cache.Contents.{Sub, Sub-cleanup, get-delete, get-delete_by_prefix}
use kinglet.Cache.Invariant.{delete-IsValid, cleanup-IsValid, delete_by_prefix-IsValid}
use kinglet.Storage.{Table}
use kinglet.Storage.Provider.{Provider, Tables, key, remove_record, uncache, delete_each}
use kinglet.Storage.Provider.Keys.{Plain, starts_with-own}
use kinglet.Storage.Provider.Coherent.{
  IsConsistent, agree_cached, Fresh, uncached, Fresh-delete, Fresh-sub, lookup-remove_record,
}
use kinglet.Storage.Provider.Writes.{HasTable, replace-Distinct, replace-HasTable}

-- Agreement after a change of the cache by a function, if there is one.
pub mapped-fresh :
    (f : Cache → Cache) (tables : Tables) (cache : Option Cache)
    → ((c : Cache) → cache ≡ some c → IsValid (f c) × Fresh tables (f c).entries)
    → (b : Cache) → Option.map f cache ≡ some b
    → IsValid b × Fresh tables b.entries
mapped-fresh f tables none step b h = absurd (ground (arith, h))
mapped-fresh f tables (some c) step b h =
    let (v, fresh) = step c refl in agree_cached tables (f c) v fresh b h

module _ (t id : String) where
  remove_record_there :
      (p : Provider) (m : Table ℕ)
      → Dict.get t p.tables ≡ some m
      → (remove_record t id p).tables ≡ Dict.set t (Dict.delete id m) p.tables
  unfolding remove_record
  remove_record_there p m there = ground (arith, there)

  -- A record out of a table that is there, and out of the cache.
  pub remove-IsConsistent :
      (p : Provider)
      → Plain t
      → IsConsistent p
      → HasTable t p
      → IsConsistent (uncache t id (remove_record t id p))
  unfolding uncache remove_record
  remove-IsConsistent p plain i (m, there) =
      let m' = Dict.delete id m in
      let d = i.records_distinct t m there in
      let written = remove_record_there p m there in
      record {
        tables_distinct = rw written (Dict.Distinct-set t m' p.tables i.tables_distinct);
        records_distinct =
            rw written
              (replace-Distinct t m' p.tables i.records_distinct (Dict.Distinct-delete id m d));
        fresh =
            mapped-fresh (λ c. (Cache.delete (key t id) c).0) (remove_record t id p).tables p.cache
              λ c h.
                let (v, fresh) = i.fresh c h in
                (
                  delete-IsValid (key t id) c v,
                  Fresh-delete t id p.tables (remove_record t id p).tables c.entries
                      (Cache.delete (key t id) c).0.entries plain (λ k. get-delete (key t id) k c v)
                      (λ t' id'. lookup-remove_record t id t' id' p there d) fresh,
                );
      }

  pub remove-HasTable :
      (p : Provider)
      → HasTable t p
      → (s : String) → HasTable s p
      → HasTable s (uncache t id (remove_record t id p))
  unfolding uncache
  remove-HasTable p (m, there) s (n, h) =
      rw (remove_record_there p m there) (replace-HasTable t (Dict.delete id m) p.tables s n h)

  pub remove_uncached :
      (p : Provider)
      → uncache t id (remove_record t id (uncached p))
        ≡ uncached (uncache t id (remove_record t id p))
  unfolding uncache remove_record
  remove_uncached p = refl

pub delete_each-IsConsistent :
    (t : String) (ids : List String) (p : Provider)
    → Plain t
    → IsConsistent p
    → HasTable t p
    → IsConsistent (delete_each t ids p)
unfolding delete_each
delete_each-IsConsistent t [] p plain i there = i
delete_each-IsConsistent t (id ∷ ids) p plain i there =
    delete_each-IsConsistent t ids (uncache t id (remove_record t id p)) plain
      (remove-IsConsistent t id p plain i there) (remove-HasTable t id p there t there)

pub delete_each-uncached :
    (t : String) (ids : List String) (p : Provider)
    → delete_each t ids (uncached p) ≡ uncached (delete_each t ids p)
unfolding delete_each
delete_each-uncached t [] p = refl
delete_each-uncached t (id ∷ ids) p =
    ap (delete_each t ids) (remove_uncached t id p)
    ∙ delete_each-uncached t ids (uncache t id (remove_record t id p))

-- `dropTable`: the table's records leave the cache with it, and no others.
drop-Fresh :
    (t : String) (tables : Tables) (entries entries' : Entries)
    → Plain t
    → Distinct tables
    → ((k : String)
        → Dict.get k entries' ≡ (if starts_with k (t ++ ":") then none else Dict.get k entries))
    → Fresh tables entries
    → Fresh (Dict.delete t tables) entries'
unfolding Fresh
drop-Fresh t tables entries entries' plain d gone fresh t' id e plain' h = ground (
  arith,
  h,
  gone (key t' id),
  starts_with-own t' id,
  Dict.get-delete t t' tables d,
  string_eq.equals_iff t t',
  fresh t' id e plain',
)

pub drop-IsConsistent :
    (t : String) (p : Provider)
    → Plain t
    → IsConsistent p
    → IsConsistent (record {
      tables = Dict.delete t p.tables;
      cache = Option.map (λ c. (Cache.delete_by_prefix (t ++ ":") c).0) p.cache;
    })
drop-IsConsistent t p plain i = record {
  tables_distinct = Dict.Distinct-delete t p.tables i.tables_distinct;
  records_distinct = λ s n h.
      i.records_distinct s n (ground (arith, h, Dict.get-delete t s p.tables i.tables_distinct));
  fresh =
      mapped-fresh (λ c. (Cache.delete_by_prefix (t ++ ":") c).0) (Dict.delete t p.tables) p.cache
        λ c h.
          let (v, fresh) = i.fresh c h in
          (
            delete_by_prefix-IsValid (t ++ ":") c v,
            drop-Fresh t p.tables c.entries _ plain i.tables_distinct
                (λ k. get-delete_by_prefix (t ++ ":") k c v) fresh,
          );
}

-- `createTable`, for a name that is not there.
pub add-IsConsistent :
    (t : String) (p : Provider)
    → IsConsistent p
    → Dict.get t p.tables ≡ none
    → IsConsistent (record p { tables = Dict.set t [] p.tables })
unfolding Sub Dict.get
add-IsConsistent t p i absent = record {
  tables_distinct = Dict.Distinct-set t [] p.tables i.tables_distinct;
  records_distinct = replace-Distinct t [] p.tables i.records_distinct tt;
  fresh = λ c h.
      let (v, fresh) = i.fresh c h in
      (
        v,
        Fresh-sub p.tables (Dict.set t [] p.tables) c.entries c.entries (λ k e g. g)
            (λ s id. ground (arith, absent, Dict.get-set t s [] p.tables, string_eq.equals_iff t s))
            fresh,
      );
}

pub cleanup-IsConsistent :
    (now : ℕ) (p : Provider)
    → IsConsistent p
    → IsConsistent (record p { cache = Option.map (Cache.cleanup now) p.cache })
cleanup-IsConsistent now p i = record {
  tables_distinct = i.tables_distinct;
  records_distinct = i.records_distinct;
  fresh = mapped-fresh (Cache.cleanup now) p.tables p.cache λ c h.
      let (v, fresh) = i.fresh c h in
      (
        cleanup-IsValid now c v,
        Fresh-sub p.tables p.tables c.entries _ (Sub-cleanup now c v) (λ s id. refl) fresh,
      );
}
