-- ===== src/Cache/Invariant.antt =====
-- What every operation of the LRU cache keeps: no key twice, and no more entries than `maxSize`.
use kinglet.Base.{
  ℕ, ◌≡◌, refl, String, Option, none, some, List, [], ◌∷◌, arith, ◌∙◌, string_eq, Option-cases, inl,
  inr,
}
use kinglet.Dict
use kinglet.Dict.{Distinct}
use kinglet.Cache
use kinglet.Cache.{Value, Entry, Entries, Config, Cache, init, set, deadline, or_else}
use kinglet.Cache.Steps.{
  IsValid, mark-Distinct, length-mark, delete_entry-IsValid, inserted, insert_new-inserted,
  inserted-IsValid, config-inserted, get-IsValid,
}

module _ (stringify : ℕ → Option ℕ) (now : ℕ) (key : String) (value : Value) (ttl : Option ℕ)
    (c : Cache) where
  abbrev pub set_entry : Entry
  set_entry = record { value = value; expires_at = deadline (or_else ttl c.config.default_ttl) now }

  pub set_fresh :
      Dict.get key c.entries ≡ none
      → set stringify now key value ttl c
        ≡ some (Cache.count_set (inserted stringify key set_entry c))
  unfolding set
  set_fresh fresh = ground (arith, insert_new-inserted stringify key set_entry c)

  pub set_found :
      {old : Entry}
      → Dict.get key c.entries ≡ some old
      → set stringify now key value ttl c
        ≡ some (
            Cache.count_set
              (record c { entries = Cache.mark_recently_used key set_entry c.entries }))
  unfolding set
  set_found found = ground arith

  -- `set` never throws, and keeps the invariant and the configuration.
  pub set-IsValid :
      IsValid c
      → (c' : Cache) × (set stringify now key value ttl c ≡ some c')
        × IsValid c'
        × (c'.config ≡ c.config)
  unfolding Cache.count_set
  set-IsValid v = elim (Option-cases (Dict.get key c.entries)) [
    | inl fresh ↦
        let v' = inserted-IsValid stringify key set_entry c v in
        (
          _,
          set_fresh fresh,
          record { distinct = v'.distinct; bounded = v'.bounded },
          config-inserted stringify key set_entry c,
        )
    | inr (old, found) ↦ (
      _,
      set_found found,
      record {
        distinct = mark-Distinct key set_entry c.entries v.distinct;
        bounded = rw (length-mark key set_entry old c.entries v.distinct found) v.bounded;
      },
      refl,
    )
  ]

pub delete-IsValid : (key : String) (c : Cache) → IsValid c → IsValid (Cache.delete key c).0
unfolding Cache.delete
delete-IsValid key c v = ground (arith, delete_entry-IsValid key c)

pub has-IsValid : (now : ℕ) (key : String) (c : Cache) → IsValid c → IsValid (Cache.has now key c).0
unfolding Cache.has
has-IsValid now key c v = ground (arith, delete_entry-IsValid key c)

delete_keys-IsValid :
    (keys : List String) (c : Cache)
    → IsValid c
    → IsValid (record c { entries = Cache.delete_keys keys c.entries })
unfolding Cache.delete_keys
delete_keys-IsValid [] c v = v
delete_keys-IsValid (key ∷ keys) c v =
    delete_keys-IsValid keys (record c { entries = Dict.delete key c.entries })
      (delete_entry-IsValid key c v)

delete_counting-IsValid :
    (keys : List String) (c : Cache) (count : ℕ)
    → IsValid c
    → IsValid (Cache.delete_counting keys c count).0
unfolding Cache.delete_counting
delete_counting-IsValid [] c count v = v
delete_counting-IsValid (key ∷ keys) c count v =
    delete_counting-IsValid keys (Cache.delete key c).0 _ (delete-IsValid key c v)

pub cleanup-IsValid : (now : ℕ) (c : Cache) → IsValid c → IsValid (Cache.cleanup now c)
unfolding Cache.cleanup
cleanup-IsValid now c v = delete_keys-IsValid (Cache.expired_keys now c.entries) c v

pub delete_by_prefix-IsValid :
    (prefix : String) (c : Cache) → IsValid c → IsValid (Cache.delete_by_prefix prefix c).0
unfolding Cache.delete_by_prefix
delete_by_prefix-IsValid prefix c v = delete_counting-IsValid (Cache.keys_by_prefix prefix c) c 0 v

config-delete : (key : String) (c : Cache) → (Cache.delete key c).0.config ≡ c.config
unfolding Cache.delete
config-delete key c = ground arith

config-delete_counting :
    (keys : List String) (c : Cache) (count : ℕ)
    → (Cache.delete_counting keys c count).0.config ≡ c.config
unfolding Cache.delete_counting
config-delete_counting [] c count = refl
config-delete_counting (key ∷ keys) c count =
    config-delete_counting keys (Cache.delete key c).0 _ ∙ config-delete key c

-- The operations that change the state, with the time at which they run.
pub data Call : Type 0 where
  get : ℕ → String → Call
  put : ℕ → String → Value → Option ℕ → Call
  delete : String → Call
  has : ℕ → String → Call
  clear : Call
  cleanup : ℕ → Call
  delete_by_prefix : String → Call
  destroy : Call

unfoldable pub apply : (ℕ → Option ℕ) → Call → Cache → Option Cache
apply stringify (get now key) c = some (Cache.get now key c).0
apply stringify (put now key value ttl) c = set stringify now key value ttl c
apply stringify (delete key) c = some (Cache.delete key c).0
apply stringify (has now key) c = some (Cache.has now key c).0
apply stringify clear c = some (Cache.clear c)
apply stringify (cleanup now) c = some (Cache.cleanup now c)
apply stringify (delete_by_prefix prefix) c = some (Cache.delete_by_prefix prefix c).0
apply stringify destroy c = some (Cache.destroy c)

-- A run stops at the first operation that throws.
unfoldable pub run : (ℕ → Option ℕ) → List Call → Cache → Option Cache
run stringify [] c = some c
run stringify (call ∷ calls) c = elim (apply stringify call c) [
  | none ↦ none
  | some c' ↦ run stringify calls c'
]

apply-IsValid :
    (stringify : ℕ → Option ℕ) (call : Call) (c : Cache)
    → IsValid c
    → (c' : Cache) × (apply stringify call c ≡ some c') × IsValid c' × (c'.config ≡ c.config)
unfolding apply Cache.clear Cache.init Cache.cleanup Cache.destroy Cache.delete_by_prefix Cache.get
    Cache.has Cache.delete
apply-IsValid stringify (get now key) c v = (_, refl, get-IsValid now key c v, ground arith)
apply-IsValid stringify (put now key value ttl) c v = set-IsValid stringify now key value ttl c v
apply-IsValid stringify (delete key) c v = (_, refl, delete-IsValid key c v, ground arith)
apply-IsValid stringify (has now key) c v = (_, refl, has-IsValid now key c v, ground arith)
apply-IsValid stringify clear c v = (_, refl, record { distinct = tt; bounded = omega arith }, refl)
apply-IsValid stringify (cleanup now) c v = (_, refl, cleanup-IsValid now c v, refl)
apply-IsValid stringify (delete_by_prefix prefix) c v = (
  _,
  refl,
  delete_by_prefix-IsValid prefix c v,
  config-delete_counting (Cache.keys_by_prefix prefix c) c 0,
)
apply-IsValid stringify destroy c v =
    (_, refl, record { distinct = tt; bounded = omega arith }, refl)

-- From a cache in which no key stands twice and which holds at most `maxSize` entries, as a new one is,
-- every sequence of operations runs without a throw, and leaves a cache of that kind, with the same
-- configuration.
pub run-IsValid :
    (stringify : ℕ → Option ℕ) (calls : List Call) (c : Cache)
    → IsValid c
    → (c' : Cache) × (run stringify calls c ≡ some c') × IsValid c' × (c'.config ≡ c.config)
unfolding run
run-IsValid stringify [] c v = (c, refl, v, refl)
run-IsValid stringify (call ∷ calls) c v =
    let (d, stepped, valid, same) = apply-IsValid stringify call c v in
    let (c', ran, valid', same') = run-IsValid stringify calls d valid in
    (c', rw (stepped, run) ran, valid', same' ∙ same)
