-- ===== src/Storage/Provider/Coherent.antt =====
-- The agreement of the cache with the tables in the in-memory provider of src/core/storage/providers/memory.ts.
use mathlib.Core.Option
use kinglet.Base.{
  ℕ, ◌≡◌, ap, ◌∙◌, subst, String, ◌&&◌, Option, none, some, arith, string_eq, Bool-cases, inl, inr,
  ◌==◌, if◌then◌else◌,
}
use kinglet.Dict
use kinglet.Dict.{Distinct}
use kinglet.Cache.{Cache, Entry, Entries, object}
use kinglet.Cache.Steps.{IsValid}
use kinglet.Cache.Contents.{Sub}
use kinglet.Storage.{Table}
use kinglet.Storage.Provider.{Provider, Tables, key, set_record, remove_record}
use kinglet.Storage.Provider.Keys.{Plain, key-injective}

-- The record under an id of a table.
abbrev pub lookup : String → String → Tables → Option ℕ
lookup t id tables = elim (Dict.get t tables) [ none ↦ none | some m ↦ Dict.get id m ]

-- Every entry of the cache under a key of a table is the record of the table.
unfoldable pub Fresh : Tables → Entries → Type 0
Fresh tables entries =
    (t id : String) (e : Entry)
    → Plain t
    → Dict.get (key t id) entries ≡ some e
    → Option.map object (lookup t id tables) ≡ some e.value

-- No table twice, no id twice in a table, and a cache that agrees with the tables.
pub record IsConsistent (p : Provider) : Type 0 where
  pub tables_distinct : Distinct p.tables
  pub records_distinct : (t : String) (m : Table ℕ) → Dict.get t p.tables ≡ some m → Distinct m
  pub fresh : (c : Cache) → p.cache ≡ some c → IsValid c × Fresh p.tables c.entries

-- The one cache that there is.
pub agree_cached :
    (tables : Tables) (c : Cache)
    → IsValid c
    → Fresh tables c.entries
    → (b : Cache) → some c ≡ some b
    → IsValid b × Fresh tables b.entries
agree_cached tables c v fresh b h =
    subst (λ (x : Cache). IsValid x × Fresh tables x.entries) (Option.some-injective c b h)
      (v, fresh)

abbrev pub uncached : Provider → Provider
uncached p = record p { cache = none }

same_key :
    (t t' id id' : String)
    → Plain t
    → Plain t'
    → (key t id == key t' id') ≡ ((t == t') && (id == id'))
same_key t t' id id' p p' = elim (Bool-cases (key t id == key t' id')) [
  | inl same ↦
      let (tables, ids) = key-injective t t' id id' p p' ((string_eq.equals_iff _ _).0 same) in
      ground (arith, same, tables, ids, string_eq.equals_iff t t', string_eq.equals_iff id id')
  | inr differ ↦ ground (
    arith,
    differ,
    string_eq.equals_iff (key t id) (key t' id'),
    string_eq.equals_iff t t',
    string_eq.equals_iff id id',
  )
]

pub lookup-set_record :
    (t id t' id' : String) (r : ℕ) (p : Provider) {m : Table ℕ}
    → Dict.get t p.tables ≡ some m
    → lookup t' id' (set_record t id r p).tables
      ≡ (if (t == t') && (id == id') then some r else lookup t' id' p.tables)
unfolding set_record
lookup-set_record t id t' id' r p {m} there = ground (
  arith,
  there,
  Dict.get-set t t' (Dict.set id r m) p.tables,
  Dict.get-set id id' r m,
  string_eq.equals_iff t t',
)

pub lookup-remove_record :
    (t id t' id' : String) (p : Provider) {m : Table ℕ}
    → Dict.get t p.tables ≡ some m
    → Distinct m
    → lookup t' id' (remove_record t id p).tables
      ≡ (if (t == t') && (id == id') then none else lookup t' id' p.tables)
unfolding remove_record
lookup-remove_record t id t' id' p {m} there d = ground (
  arith,
  there,
  Dict.get-set t t' (Dict.delete id m) p.tables,
  Dict.get-delete id id' m d,
  string_eq.equals_iff t t',
)

-- A `set` of the cache, beside the same change of the tables.
pub Fresh-set :
    (t id : String) (r : ℕ) (entry : Entry) (tables tables' : Tables) (entries entries' : Entries)
    → Plain t
    → entry.value ≡ object r
    → Sub entries' (Dict.set (key t id) entry entries)
    → ((t' id' : String)
        → lookup t' id' tables'
          ≡ (if (t == t') && (id == id') then some r else lookup t' id' tables))
    → Fresh tables entries
    → Fresh tables' entries'
unfolding Fresh Sub
Fresh-set t id r entry tables tables' entries entries' plain value sub change fresh t' id' e plain'
      h =
    ground (
      arith,
      value,
      sub (key t' id') e h,
      Dict.get-set (key t id) (key t' id') entry entries,
      same_key t t' id id' plain plain',
      change t' id',
      fresh t' id' e plain',
    )

-- A `delete` of the cache, beside the same change of the tables.
pub Fresh-delete :
    (t id : String) (tables tables' : Tables) (entries entries' : Entries)
    → Plain t
    → ((k : String) → Dict.get k entries' ≡ (if key t id == k then none else Dict.get k entries))
    → ((t' id' : String)
        → lookup t' id' tables' ≡ (if (t == t') && (id == id') then none else lookup t' id' tables))
    → Fresh tables entries
    → Fresh tables' entries'
unfolding Fresh
Fresh-delete t id tables tables' entries entries' plain gone change fresh t' id' e plain' h =
    ground (
      arith,
      h,
      gone (key t' id'),
      same_key t t' id id' plain plain',
      change t' id',
      fresh t' id' e plain',
    )

-- The tables give each lookup as before, and the cache only loses entries.
pub Fresh-sub :
    (tables tables' : Tables) (entries entries' : Entries)
    → Sub entries' entries
    → ((t id : String) → lookup t id tables' ≡ lookup t id tables)
    → Fresh tables entries
    → Fresh tables' entries'
unfolding Fresh Sub
Fresh-sub tables tables' entries entries' sub same fresh t id e plain h =
    ap (Option.map object) (same t id) ∙ fresh t id e plain (sub (key t id) e h)
