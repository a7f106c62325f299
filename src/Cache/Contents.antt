-- ===== src/Cache/Contents.antt =====
-- What a cache may hold after an operation: for its clients, which rely on no entry coming from elsewhere.
use mathlib.Core.List.{tail}
use text.Mathlib.Text.{starts_with}
use kinglet.Base.{
  ℕ, zero, suc, ◌≡◌, sym, ap, ◌∙◌, subst, String, Bool, true, not, Option, none, some, [], ◌∷◌,
  arith, keep, string_eq, Bool-cases, Option-cases, inl, inr, ◌==◌, if◌then◌else◌, ltb, length,
}
use kinglet.Dict
use kinglet.Dict.{Distinct}
use kinglet.Cache
use kinglet.Cache.{
  Value, Entry, Entries, Cache, mark_recently_used, evict_lru, evict_while, make_room,
}
use kinglet.Cache.Steps.{IsValid, entries-evict_lru, evict_lru-Distinct, trimmed, inserted}
use kinglet.Cache.Invariant.{set_entry, set_fresh, set_found}
use kinglet.Cache.Prefix.{entries-cleanup, delete_by_prefix_lem}

-- Every entry of the first is in the second.
unfoldable pub Sub : Entries → Entries → Type 0
Sub m n = (k : String) (e : Entry) → Dict.get k m ≡ some e → Dict.get k n ≡ some e

pub Sub-trans : (l m n : Entries) → Sub l m → Sub m n → Sub l n
unfolding Sub
Sub-trans l m n p q k e h = q k e (p k e h)

Sub-refl : (m : Entries) → Sub m m
unfolding Sub
Sub-refl m k e h = h

Sub-tail : (m : Entries) → Distinct m → Sub (tail m) m
unfolding Sub Dict.get
Sub-tail [] d k e h = h
Sub-tail ((j, v) ∷ m) (absent, d) k e h = ground (arith, absent, h, string_eq.equals_iff j k)

Sub-evict_lru : (c : Cache) → Distinct c.entries → Sub (evict_lru c).entries c.entries
Sub-evict_lru c d = rw (entries-evict_lru c) (Sub-tail c.entries d)

Sub-evict_while :
    (stringify : ℕ → Option ℕ) (fuel limit : ℕ) (c : Cache)
    → Distinct c.entries
    → Sub (evict_while stringify fuel limit c).entries c.entries
unfolding evict_while Sub
Sub-evict_while stringify zero limit c d k e h = h
Sub-evict_while stringify (suc fuel) limit c d k e h = ground (
  arith,
  Sub-evict_while stringify fuel limit (evict_lru c) (evict_lru-Distinct c d) k e,
  Sub-evict_lru c d k e,
)

Sub-trimmed :
    (stringify : ℕ → Option ℕ) (limit : Option ℕ) (c : Cache)
    → Distinct c.entries
    → Sub (trimmed stringify limit c).entries c.entries
unfolding trimmed
Sub-trimmed stringify none c d = Sub-refl c.entries
Sub-trimmed stringify (some zero) c d = Sub-refl c.entries
Sub-trimmed stringify (some (suc m)) c d = Sub-evict_while stringify (length c.entries) _ c d

Sub-make_room : (c : Cache) → Distinct c.entries → Sub (make_room c).entries c.entries
unfolding make_room
Sub-make_room c d = elim (Bool-cases (ltb c.config.max_size (length c.entries))) [
  | inl over ↦ rw over (Sub-evict_lru c d)
  | inr under ↦ rw under (Sub-refl c.entries)
]

make_room-Distinct : (c : Cache) → Distinct c.entries → Distinct (make_room c).entries
unfolding make_room
make_room-Distinct c d = ground (arith, evict_lru-Distinct c d)

Sub-inserted :
    (stringify : ℕ → Option ℕ) (key : String) (entry : Entry) (c : Cache)
    → Distinct c.entries
    → Sub (inserted stringify key entry c).entries (Dict.set key entry c.entries)
unfolding inserted
Sub-inserted stringify key entry c d =
    let full : Cache = record c { entries = Dict.set key entry c.entries } in
    let d' = Dict.Distinct-set key entry c.entries d in
    Sub-trans (inserted stringify key entry c).entries (make_room full).entries full.entries
      (Sub-trimmed stringify _ (make_room full) (make_room-Distinct full d'))
      (Sub-make_room full d')

get-mark :
    (key k : String) (entry : Entry) (m : Entries)
    → Distinct m
    → Dict.get k (mark_recently_used key entry m) ≡ (if key == k then some entry else Dict.get k m)
unfolding mark_recently_used
get-mark key k entry m d =
    ground (arith, Dict.get-set key k entry (Dict.delete key m), Dict.get-delete key k m d)

abbrev entries_of : Option Cache → Entries
entries_of none = []
entries_of (some c) = c.entries

-- After a `set` the key holds the new value, if anything, and the other keys what they held, if anything.
pub Sub-set :
    (stringify : ℕ → Option ℕ) (now : ℕ) (key : String) (value : Value) (ttl : Option ℕ)
    (c c' : Cache)
    → IsValid c
    → Cache.set stringify now key value ttl c ≡ some c'
    → Sub c'.entries (Dict.set key (set_entry stringify now key value ttl c) c.entries)
unfolding Cache.count_set Sub
Sub-set stringify now key value ttl c c' v ran k e h =
    let entry = set_entry stringify now key value ttl c in
    elim (Option-cases (Dict.get key c.entries)) [
      | inl fresh ↦
          let same = ap entries_of (sym ran ∙ set_fresh stringify now key value ttl c fresh) in
          Sub-inserted stringify key entry c v.distinct k e (sym (ap (Dict.get k) same) ∙ h)
      | inr (old, found) ↦
          let same = ap entries_of (sym ran ∙ set_found stringify now key value ttl c found) in
          Dict.get-set key k entry c.entries
          ∙ sym (get-mark key k entry c.entries v.distinct)
          ∙ sym (ap (Dict.get k) same)
          ∙ h
    ]

pub Sub-get :
    (now : ℕ) (key : String) (c : Cache) → IsValid c → Sub (Cache.get now key c).0.entries c.entries
unfolding Cache.get Sub
Sub-get now key c v k e h = elim (Option-cases (Dict.get key c.entries)) [
  | inl absent ↦ ground (arith, absent, h)
  | inr (entry, found) ↦ ground (
    arith,
    found,
    h,
    get-mark key k entry c.entries v.distinct,
    Dict.get-delete key k c.entries v.distinct,
    string_eq.equals_iff key k,
  )
]

-- What a hit returns is in the cache.
pub get-found :
    (now : ℕ) (key : String) (c : Cache) (value : Value)
    → (Cache.get now key c).1 ≡ some value
    → (e : Entry) × (Dict.get key c.entries ≡ some e) × (e.value ≡ value)
unfolding Cache.get
get-found now key c value h = elim (Option-cases (Dict.get key c.entries)) [
  | inl absent ↦ absurd (ground (arith, absent, h))
  | inr (entry, found) ↦ (entry, found, ground (arith, found, h))
]

pub Sub-has :
    (now : ℕ) (key : String) (c : Cache) → IsValid c → Sub (Cache.has now key c).0.entries c.entries
unfolding Cache.has Sub
Sub-has now key c v k e h = ground (arith, h, Dict.get-delete key k c.entries v.distinct)

pub has-found :
    (now : ℕ) (key : String) (c : Cache)
    → (Cache.has now key c).1 ≡ true
    → (e : Entry) × (Dict.get key c.entries ≡ some e)
unfolding Cache.has
has-found now key c h = elim (Option-cases (Dict.get key c.entries)) [
  | inl absent ↦ absurd (ground (arith, absent, h))
  | inr (entry, found) ↦ (entry, found)
]

-- After a `delete` the key is gone.
pub get-delete :
    (key k : String) (c : Cache)
    → IsValid c
    → Dict.get k (Cache.delete key c).0.entries ≡ (if key == k then none else Dict.get k c.entries)
unfolding Cache.delete
get-delete key k c v =
    ground (arith, Dict.get-delete key k c.entries v.distinct, string_eq.equals_iff key k)

get-keep :
    (p : String → Bool) (k : String) (m : Entries)
    → Dict.get k (keep (λ e. p e.0) m) ≡ (if p k then Dict.get k m else none)
unfolding Dict.get
get-keep p k [] = ground arith
get-keep p k ((j, v) ∷ m) = ground (arith, get-keep p k m, string_eq.equals_iff j k)

-- After `deleteByPrefix` no key with the prefix is left.
pub get-delete_by_prefix :
    (prefix k : String) (c : Cache)
    → IsValid c
    → Dict.get k (Cache.delete_by_prefix prefix c).0.entries
      ≡ (if starts_with k prefix then none else Dict.get k c.entries)
get-delete_by_prefix prefix k c v =
    ap (Dict.get k) ((delete_by_prefix_lem prefix c v.distinct).0)
    ∙ get-keep (λ j. not (starts_with j prefix)) k c.entries
    ∙ ground arith

get-keep_entries :
    (q : String × Entry → Bool) (k : String) (m : Entries) → Distinct m → Sub (keep q m) m
unfolding Sub Dict.get
get-keep_entries q k [] d j e h = h
get-keep_entries q k ((i, v) ∷ m) (absent, d) j e h =
    ground (arith, h, absent, get-keep_entries q k m d j e, string_eq.equals_iff i j)

pub Sub-cleanup : (now : ℕ) (c : Cache) → IsValid c → Sub (Cache.cleanup now c).entries c.entries
Sub-cleanup now c v =
    subst (λ (m : Entries). Sub m c.entries) (sym (entries-cleanup now c v.distinct))
      (get-keep_entries _ "" c.entries v.distinct)
