-- ===== src/Armor/RateLimit.antt =====
-- src/services/compute/armor/rate-limit.ts: rate-limit counters over fixed windows, and bans. The
-- module's three `Map`s are a record; the clock's value is an argument, and so is the client key,
-- which `buildClientKey` reads off the request. Counts, times and priorities are natural numbers. The
-- three parts of a bucket key, which the code joins by NUL characters, stay a triple.
mod Counters
mod Windows
pub mod Bans
mod Tests
use kinglet.Base.{
  ℕ, suc, ◌+◌, ◌*◌, ◌/◌, String, Bool, true, false, not, ◌&&◌, ◌||◌, Option, none, some, List, [],
  ◌∷◌, arith, ◌≡◌, ◌↔◌, StrictEquality, ◌==◌, nat_eq, string_eq, if◌then◌else◌, ltb, leb, any,
  length, nat_beq, nat_beq_iff, Result, ok, err, ◌>>=◌, ◌>>◌, fail_if,
}
use text.Mathlib.TextEquality.{eq_iff}
use kinglet.Dict

pub data ActionKind : Type 0 where
  throttle rate_based_ban : ActionKind

pub data Mode : Type 0 where
  commit preview : Mode

pub record Threshold : Type 0 where
  pub count : Option ℕ
  pub interval_sec : Option ℕ

pub record KeyConfig : Type 0 where
  pub enforce_on_key_type : Option String
  pub enforce_on_key_name : Option String

pub record Options : Type 0 where
  pub rate_limit_threshold : Option Threshold
  pub ban_threshold : Option Threshold
  pub ban_duration_sec : Option ℕ
  pub conform_action : Option String
  pub exceed_action : Option String
  pub enforce_on_key : Option String
  pub enforce_on_key_name : Option String
  pub enforce_on_key_configs : Option (List KeyConfig)

abbrev pub BucketKey : Type 0
BucketKey = String × ℕ × String

abbrev pub same_key : BucketKey → BucketKey → Bool
same_key (p, n, c) (q, m, d) = p == q && n == m && c == d

pub same_key_iff : (a b : BucketKey) → (same_key a b ≡ true) ↔ (a ≡ b)
same_key_iff (p, n, c) (q, m, d) = ground (arith, eq_iff p q, eq_iff c d)

instance abbrev pub key_eq : StrictEquality BucketKey
key_eq = record { equals = same_key; equals_iff = same_key_iff }

pub record WindowCount : Type 0 where
  pub window_id : ℕ
  pub count : ℕ

abbrev pub Windows : Type 0
Windows = List (BucketKey × WindowCount)

pub record Store : Type 0 where
  pub rate_windows : Windows
  pub ban_windows : Windows
  pub bans : List (BucketKey × ℕ)

abbrev pub or_default {ℓ} : {A : Type ℓ} → Option A → A → A
or_default none d = d
or_default (some a) d = a

-- The number that an entry, or none, counts in the window.
abbrev pub used : Option WindowCount → ℕ → ℕ
used none window = 0
used (some e) window = if nat_beq e.window_id window then e.count else 0

pub next_count : Windows → BucketKey → ℕ → ℕ
next_count store key window = elim (Dict.get key store) [
  | none ↦ 1
  | some entry ↦ if not (nat_beq entry.window_id window) then 1 else entry.count + 1
]

pub bump : Windows → BucketKey → ℕ → Windows
bump store key window = elim (Dict.get key store) [
  | none ↦ Dict.set key (record { window_id = window; count = 1 }) store
  | some entry ↦
      if not (nat_beq entry.window_id window)
      then Dict.set key (record { window_id = window; count = 1 }) store
      else Dict.set key (record entry { count = entry.count + 1 }) store
]

-- `banThreshold?.count != null && banThreshold.intervalSec != null`
abbrev pub full_threshold : Option Threshold → Option (ℕ × ℕ)
full_threshold none = none
full_threshold (some t) = elim t.count [
  | none ↦ none
  | some n ↦ elim t.interval_sec [ none ↦ none | some s ↦ some (n, s) ]
]

abbrev pub threshold_count : Option Threshold → Option ℕ
threshold_count none = none
threshold_count (some t) = t.count

abbrev pub threshold_interval : Option Threshold → Option ℕ
threshold_interval none = none
threshold_interval (some t) = t.interval_sec

abbrev pub window_of : ℕ → ℕ → ℕ
window_of now interval_sec = now / (interval_sec * 1000)

abbrev pub limit_of : Options → ℕ
limit_of options = or_default (threshold_count options.rate_limit_threshold) 1

abbrev pub interval_of : Options → ℕ
interval_of options = or_default (threshold_interval options.rate_limit_threshold) 60

abbrev pub exceed_of : Options → String
exceed_of options = or_default options.exceed_action "deny(429)"

abbrev pub conform_of : Options → String
conform_of options = or_default options.conform_action "allow"

-- `wouldBan`
pub would_ban : ActionKind → Options → BucketKey → ℕ → Store → Bool
would_ban throttle options key now store = false
would_ban rate_based_ban options key now store = elim (full_threshold options.ban_threshold) [
  | some (count, interval) ↦ ltb count (next_count store.ban_windows key (window_of now interval))
  | none ↦
      ltb (limit_of options)
        (next_count store.rate_windows key (window_of now (interval_of options)))
]

pub bump_ban : ActionKind → Options → BucketKey → ℕ → Windows → Windows
bump_ban throttle options key now windows = windows
bump_ban rate_based_ban options key now windows = elim (full_threshold options.ban_threshold) [
  | some (count, interval) ↦ bump windows key (window_of now interval)
  | none ↦ windows
]

pub set_ban : Mode → Bool → Options → BucketKey → ℕ → List (BucketKey × ℕ) → List (BucketKey × ℕ)
set_ban commit true options key now bans =
    Dict.set key (now + or_default options.ban_duration_sec 60 * 1000) bans
set_ban commit false options key now bans = bans
set_ban preview ban options key now bans = bans

-- `applyRateLimit`, with the request's client key in the bucket key.
pub apply_rate_limit : BucketKey → ActionKind → Options → ℕ → Mode → Store → Store × String
apply_rate_limit key action options now mode store =
    if ltb now (or_default (Dict.get key store.bans) 0)
    then (store, exceed_of options)
    else let window = window_of now (interval_of options) in
      let next = next_count store.rate_windows key window in
      let ban = would_ban action options key now store in
      (
        record {
          rate_windows = bump store.rate_windows key window;
          ban_windows = bump_ban action options key now store.ban_windows;
          bans = set_ban mode ban options key now store.bans;
        },
        (if ban || ltb (limit_of options) next then exceed_of options else conform_of options),
      )
