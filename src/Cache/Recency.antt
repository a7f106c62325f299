-- ===== src/Cache/Recency.antt =====
-- The order of the LRU cache's entries: least recently used first.
use mathlib.Core.List.{tail}
use kinglet.Base.{
  subst, not, keep, leb, nat_beq, zero, ◌==◌, ◌||◌, ℕ, suc, ◌+◌, ◌-◌, ◌≤◌, ◌≡◌, refl, String,
  Option, none, some, [], ◌∷◌, ◌++◌, arith, drop, length, string_eq, sym, ◌∙◌, Bool-cases,
  Option-cases, inl, inr, if◌then◌else◌, ap, ltb,
}
use kinglet.Dict
use kinglet.Dict.{Distinct}
use kinglet.Cache
use kinglet.Cache.{
  Value, Entry, Entries, Cache, mark_recently_used, make_room, set, get, expired, expired_at,
}
use kinglet.Cache.Steps.{
  IsValid, entries-evict_lru, get-delete_self, length-mark, config-make_room, inserted, trimmed,
}
use kinglet.Cache.Invariant.{set_entry, set_fresh, set_found}

-- The last `n` entries.
abbrev pub newest : ℕ → Entries → Entries
newest n m = drop (length m - n) m

-- What it means to use a key: its entry goes to the end, and the others keep their order.
abbrev pub used : String → Entry → Entries → Entries
used key entry m = Dict.delete key m ++ (key, entry) ∷ []

pub mark-used :
    (key : String) (entry : Entry) (m : Entries)
    → Distinct m
    → mark_recently_used key entry m ≡ used key entry m
unfolding mark_recently_used
mark-used key entry m d = Dict.set_absent key entry _ (get-delete_self key m d)

newest_all : (n : ℕ) (m : Entries) → length m ≤ n → newest n m ≡ m
newest_all n m h = let e : length m - n ≡ 0 = omega arith in rw e

newest-tail : (n : ℕ) (m : Entries) → length m ≡ suc n → newest n m ≡ tail m
newest-tail n m h = let e : length m - n ≡ 1 = omega arith in rw e (drop_one m)
  where
    drop_one : (m : Entries) → drop 1 m ≡ tail m
    drop_one [] = refl
    drop_one (e ∷ m) = refl

pub entries-make_room :
    (c : Cache)
    → length c.entries ≤ c.config.max_size + 1
    → (make_room c).entries ≡ newest c.config.max_size c.entries
unfolding make_room
entries-make_room c h = elim (Bool-cases (ltb c.config.max_size (length c.entries))) [
  | inl over ↦
      rw over (entries-evict_lru c ∙ sym (newest-tail c.config.max_size c.entries (ground arith)))
  | inr under ↦ rw under (sym (newest_all c.config.max_size c.entries (ground arith)))
]

trimmed_unlimited :
    (stringify : ℕ → Option ℕ) (limit : Option ℕ) (c : Cache)
    → limit ≡ none
    → trimmed stringify limit c ≡ c
unfolding trimmed
trimmed_unlimited stringify none c h = refl
trimmed_unlimited stringify (some mb) c h = cc

entries-inserted :
    (stringify : ℕ → Option ℕ) (key : String) (entry : Entry) (c : Cache)
    → IsValid c
    → c.config.max_memory_mb ≡ none
    → (inserted stringify key entry c).entries
      ≡ newest c.config.max_size (Dict.set key entry c.entries)
unfolding inserted
entries-inserted stringify key entry c v unlimited =
    let added : Cache = record c { entries = Dict.set key entry c.entries } in
    let fits : length added.entries ≤ c.config.max_size + 1 =
      ground (arith, Dict.length-set key entry c.entries, v.bounded) in
    ap (λ (d : Cache). d.entries)
      (trimmed_unlimited stringify _ (make_room added)
        (ap (λ (o : Cache.Config). o.max_memory_mb) (config-make_room added) ∙ unlimited))
    ∙ entries-make_room added fits

-- In a valid cache without a memory limit a `set` leaves the most recently used `maxSize` entries, its own included:
-- what is evicted is the least recently used entry, and only when a new key finds the cache full.
pub set-newest :
    (stringify : ℕ → Option ℕ) (now : ℕ) (key : String) (value : Value) (ttl : Option ℕ)
    (c c' : Cache)
    → IsValid c
    → c.config.max_memory_mb ≡ none
    → set stringify now key value ttl c ≡ some c'
    → c'.entries
      ≡ newest c.config.max_size (used key (set_entry stringify now key value ttl c) c.entries)
unfolding Cache.count_set
set-newest stringify now key value ttl c c' v unlimited ran =
    elim (Option-cases (Dict.get key c.entries)) [
      | inl fresh ↦
          let entry = set_entry stringify now key value ttl c in
          ground (
            arith,
            set_fresh stringify now key value ttl c fresh,
            entries-inserted stringify key entry c v unlimited,
            Dict.set_absent key entry c.entries fresh,
            Dict.delete_absent key c.entries fresh,
          )
      | inr (old, found) ↦
          let entry = set_entry stringify now key value ttl c in
          let fits : length (used key entry c.entries) ≤ c.config.max_size =
            rw (← mark-used key entry c.entries v.distinct)
              (rw (length-mark key entry old c.entries v.distinct found) v.bounded) in
          ground (
            arith,
            set_found stringify now key value ttl c found,
            mark-used key entry c.entries v.distinct,
            newest_all c.config.max_size (used key entry c.entries) fits,
          )
    ]

keep_absent :
    (key : String) (m : Entries) → Dict.get key m ≡ none → keep (λ e. not (e.0 == key)) m ≡ m
unfolding Dict.get
keep_absent key [] h = refl
keep_absent key ((k, v) ∷ m) h = ground (arith, keep_absent key m, string_eq.equals_iff k key)

delete-keep :
    (key : String) (m : Entries) → Distinct m → Dict.delete key m ≡ keep (λ e. not (e.0 == key)) m
unfolding Dict.delete
delete-keep key [] d = refl
delete-keep key ((k, v) ∷ m) (absent, d) = elim (Bool-cases (k == key)) [
  | inl own ↦
      let same : k ≡ key = ground (arith, own, string_eq.equals_iff k key) in
      let none_left : Dict.get key m ≡ none = subst (λ j. Dict.get j m ≡ none) same absent in
      rw own (sym (keep_absent key m none_left))
  | inr other ↦ rw other (ap (◌∷◌ (k, v)) (delete-keep key m d))
]

expired-end :
    {A : Type 0} (now : ℕ) (o : Option ℕ) (x y : A)
    → (if expired_at o now then x else y)
      ≡ (elim o [ none ↦ y | some end ↦ if nat_beq end 0 || leb now end then y else x ])
expired-end now none x y = refl
expired-end now (some zero) x y = refl
expired-end now (some (suc t)) x y = elim (Bool-cases (leb now (suc t))) [
  | inl early ↦ ground arith
  | inr late ↦ ground arith
]

-- In a valid cache a `get` of an absent key leaves the entries alone. An entry without an end, or with the end 0, and
-- one whose end is not yet past, goes to the end of the entries and is answered; one whose end is past is removed, no
-- other with it, and nothing is answered.
pub get-used :
    (now : ℕ) (key : String) (c : Cache)
    → IsValid c
    → ◌≡◌ {A = Entries × Option Value}
        ((get now key c).0.entries, (get now key c).1)
        (elim (Dict.get key c.entries) [
          | none ↦ (c.entries, none)
          | some entry ↦
              let hit : Entries × Option Value = (used key entry c.entries, some entry.value) in
              elim entry.expires_at [
                | none ↦ hit
                | some end ↦
                    if nat_beq end 0 || leb now end
                    then hit
                    else (keep (λ e. not (e.0 == key)) c.entries, none)
              ]
        ])
unfolding get expired
get-used now key c v = elim (Option-cases (Dict.get key c.entries)) [
  | inl absent ↦ ground arith
  | inr (entry, found) ↦ ground (
    arith,
    mark-used key entry c.entries v.distinct,
    delete-keep key c.entries v.distinct,
    expired-end {A = Entries × Option Value} now entry.expires_at (Dict.delete key c.entries, none)
        (used key entry c.entries, some entry.value),
  )
]
