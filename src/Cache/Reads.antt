-- ===== src/Cache/Reads.antt =====
-- What a `get` returns after a `set`.
use text.Mathlib.TextPositions.{eq_refl}
use kinglet.Base.{
  ℕ, zero, suc, leb, ◌+◌, ◌*◌, Bool-cases, inl, inr, ◌-◌, ◌≤◌, ◌<◌, ◌≡◌, refl, String, Option, none,
  some, [], ◌∷◌, ◌++◌, arith, drop, length, string_eq, length-append, if◌then◌else◌,
}
use kinglet.Dict
use kinglet.Cache
use kinglet.Cache.{Value, Entry, Entries, Cache, set, get, expired, expired_at}
use kinglet.Cache.Steps.{IsValid, get-delete_self}
use kinglet.Cache.Invariant.{set_entry}
use kinglet.Cache.Recency.{newest, set-newest}

drop-append : (i : ℕ) (m n : Entries) → i ≤ length m → drop i (m ++ n) ≡ drop i m ++ n
drop-append zero m n h = refl
drop-append (suc i) [] n h = absurd (omega arith)
drop-append (suc i) (e ∷ m) n h = drop-append i m n (omega arith)

get-drop_absent :
    (key : String) (i : ℕ) (m : Entries) → Dict.get key m ≡ none → Dict.get key (drop i m) ≡ none
unfolding Dict.get
get-drop_absent key zero m h = h
get-drop_absent key (suc i) [] h = refl
get-drop_absent key (suc i) ((k, v) ∷ m) h = get-drop_absent key i m (ground arith)

get-newest_last :
    (key : String) (entry : Entry) (m : Entries) (n : ℕ)
    → 0 < n
    → Dict.get key m ≡ none
    → Dict.get key (newest n (m ++ (key, entry) ∷ [])) ≡ some entry
unfolding Dict.get
get-newest_last key entry m n pos absent =
    let i = length (m ++ (key, entry) ∷ []) - n in
    let short : i ≤ length m = omega (arith, length-append m ((key, entry) ∷ [])) in
    ground (
      arith,
      drop-append i m ((key, entry) ∷ []) short,
      Dict.get-append key (drop i m) ((key, entry) ∷ []),
      get-drop_absent key i m absent,
      eq_refl key,
    )

-- How long an entry lives, in seconds: its own time to live or else the default, and for ever without one. No time
-- at all, 0, is no time to live either.
abbrev pub lifetime : Option ℕ → Option ℕ → Option ℕ
lifetime (some zero) default_ttl = none
lifetime (some (suc t)) default_ttl = some (suc t)
lifetime none none = none
lifetime none (some zero) = none
lifetime none (some (suc t)) = some (suc t)

ends_at :
    {A : Type 0} (t now later : ℕ) (x y : A)
    → (if expired_at (some (now + suc t * 1000)) later then x else y)
      ≡ (if leb later (now + suc t * 1000) then y else x)
ends_at t now later x y = elim (Bool-cases (leb later (now + suc t * 1000))) [
  | inl early ↦ ground arith
  | inr late ↦ ground arith
]

lifetime-ends :
    {A : Type 0} (ttl default_ttl : Option ℕ) (now later : ℕ) (x y : A)
    → (if expired_at (Cache.deadline (Cache.or_else ttl default_ttl) now) later then x else y)
      ≡ (elim (lifetime ttl default_ttl) [
        | none ↦ y
        | some t ↦ if leb later (now + t * 1000) then y else x
      ])
lifetime-ends (some zero) default_ttl now later x y = refl
lifetime-ends (some (suc t)) default_ttl now later x y = ends_at t now later x y
lifetime-ends none none now later x y = refl
lifetime-ends none (some zero) now later x y = refl
lifetime-ends none (some (suc t)) now later x y = ends_at t now later x y

-- In a valid cache without a memory limit, and with room for one entry at least, a `get` of the key that was just set
-- returns the value up to the millisecond at which its time to live has passed, and nothing after it; without a
-- time to live, of its own or by default, it returns the value at any time.
pub get-set :
    (stringify : ℕ → Option ℕ) (now : ℕ) (key : String) (value : Value) (ttl : Option ℕ)
    (c c' : Cache) (later : ℕ)
    → IsValid c
    → c.config.max_memory_mb ≡ none
    → 0 < c.config.max_size
    → set stringify now key value ttl c ≡ some c'
    → (get later key c').1 ≡ (elim (lifetime ttl c.config.default_ttl) [
      | none ↦ some value
      | some t ↦ if leb later (now + t * 1000) then some value else none
    ])
unfolding get
get-set stringify now key value ttl c c' later v unlimited room ran =
    let entry = set_entry stringify now key value ttl c in
    ground (
      arith,
      set-newest stringify now key value ttl c c' v unlimited ran,
      get-newest_last key entry (Dict.delete key c.entries) c.config.max_size room
          (get-delete_self key c.entries v.distinct),
      lifetime-ends ttl c.config.default_ttl now later none (some value),
    )
