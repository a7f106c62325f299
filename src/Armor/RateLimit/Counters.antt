-- ===== src/Armor/RateLimit/Counters.antt =====
-- The counters of one key: what a request adds, and what it leaves of the others.
use kinglet.Base.{
  ℕ, ◌+◌, ◌≡◌, refl, true, false, some, arith, ◌==◌, if◌then◌else◌, Option-cases, inl, inr,
}
use kinglet.Dict
use kinglet.Armor.RateLimit.{BucketKey, same_key_iff, key_eq, Windows, used, next_count, bump}

pub next_count-used :
    (m : Windows) (key : BucketKey) (window : ℕ)
    → next_count m key window ≡ used (Dict.get key m) window + 1
unfolding next_count
next_count-used m key window = elim (Option-cases (Dict.get key m)) [
  | inl absent ↦ ground arith
  | inr (entry, found) ↦ ground arith
]

pub bump-set :
    (m : Windows) (key : BucketKey) (window : ℕ)
    → bump m key window
      ≡ Dict.set key (record { window_id = window; count = used (Dict.get key m) window + 1 }) m
unfolding bump
bump-set m key window = elim (Option-cases (Dict.get key m)) [
  | inl absent ↦ ground arith
  | inr (entry, found) ↦ ground arith
]

-- A request for one key leaves the counters of the others alone.
pub get-bump :
    (m : Windows) (key other : BucketKey) (window : ℕ)
    → Dict.get other (bump m key window) ≡ (
        if key == other
        then some (record { window_id = window; count = used (Dict.get key m) window + 1 })
        else Dict.get other m)
get-bump m key other window = rw (bump-set m key window) (Dict.get-set key other _ m)

pub same_key_refl : (key : BucketKey) → (key == key) ≡ true
same_key_refl key = (same_key_iff key key).1 refl

-- After a request, its window counts one more.
pub used-bump :
    (m : Windows) (key : BucketKey) (window : ℕ)
    → used (Dict.get key (bump m key window)) window ≡ used (Dict.get key m) window + 1
used-bump m key window = ground (arith, get-bump m key key window, same_key_refl key)

pub get-bump_ne :
    (m : Windows) (key other : BucketKey) (window : ℕ)
    → (key == other) ≡ false
    → Dict.get other (bump m key window) ≡ Dict.get other m
get-bump_ne m key other window apart = rw (get-bump m key other window, apart)
