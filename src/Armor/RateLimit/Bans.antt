-- ===== src/Armor/RateLimit/Bans.antt =====
-- Bans, the preview mode, and the independence of the keys.
use kinglet.Base.{
  ℕ, ◌+◌, ◌*◌, ◌≤◌, ◌<◌, ◌≡◌, refl, Bool, true, false, some, List, arith, ◌==◌, ltb, Option-cases,
  inl, inr, Bool-cases,
}
use kinglet.Dict
use kinglet.Armor.RateLimit.{
  ActionKind, throttle, rate_based_ban, Mode, commit, preview, Options, BucketKey, key_eq, Windows,
  Store, bump, window_of, interval_of, full_threshold, exceed_of, would_ban, bump_ban, set_ban,
  apply_rate_limit, or_default,
}
use kinglet.Armor.RateLimit.Counters.{get-bump_ne, same_key_refl}

-- While a ban lasts, every request of the key gets the exceed action and nothing is counted.
pub apply-banned :
    (key : BucketKey) (action : ActionKind) (options : Options) (now until : ℕ) (mode : Mode)
    (store : Store)
    → Dict.get key store.bans ≡ some until
    → now < until
    → apply_rate_limit key action options now mode store ≡ (store, exceed_of options)
unfolding apply_rate_limit
apply-banned key action options now until mode store banned early =
    let blocked : ltb now (or_default (Dict.get key store.bans) 0) ≡ true =
      rw banned (ground arith) in
    rw (blocked, apply_rate_limit) refl

-- A committed request of a key that was never banned, or whose ban has run out, and that calls for a ban is
-- refused, and so are all requests of the key until `banDurationSec` has passed.
pub ban_lasts :
    (key : BucketKey) (options : Options) (now later : ℕ) (mode : Mode) (store : Store)
    → or_default (Dict.get key store.bans) 0 ≤ now
    → would_ban rate_based_ban options key now store ≡ true
    → later < now + or_default options.ban_duration_sec 60 * 1000
    → let (store', answer) = apply_rate_limit key rate_based_ban options now commit store in
      (answer ≡ exceed_of options)
      × (apply_rate_limit key rate_based_ban options later mode store'
          ≡ (store', exceed_of options))
unfolding apply_rate_limit set_ban
ban_lasts key options now later mode store free ban early =
    let passed : ltb now (or_default (Dict.get key store.bans) 0) ≡ false = ground (arith, free) in
    let until = now + or_default options.ban_duration_sec 60 * 1000 in
    let store' : Store = record {
      rate_windows = bump store.rate_windows key (window_of now (interval_of options));
      ban_windows = bump_ban rate_based_ban options key now store.ban_windows;
      bans = Dict.set key until store.bans;
    } in
    let banned : Dict.get key store'.bans ≡ some until =
      ground (arith, Dict.get-set key key until store.bans, same_key_refl key) in
    let again = apply-banned key rate_based_ban options later until mode store' banned early in
    rw (passed, apply_rate_limit) (rw ban (refl, again))

-- A preview answers as a committed request would, and never bans.
pub apply-preview :
    (key : BucketKey) (action : ActionKind) (options : Options) (now : ℕ) (store : Store)
    → ((apply_rate_limit key action options now preview store).1
        ≡ (apply_rate_limit key action options now commit store).1)
      × ((apply_rate_limit key action options now preview store).0.bans ≡ store.bans)
unfolding apply_rate_limit set_ban
apply-preview key action options now store =
    elim (Bool-cases (ltb now (or_default (Dict.get key store.bans) 0))) [
      | inl blocked ↦ rw (blocked, apply_rate_limit) (refl, refl)
      | inr passed ↦ rw (passed, apply_rate_limit) (refl, refl)
    ]

bump_ban_other :
    (action : ActionKind) (options : Options) (key other : BucketKey) (now : ℕ) (windows : Windows)
    → (key == other) ≡ false
    → Dict.get other (bump_ban action options key now windows) ≡ Dict.get other windows
unfolding bump_ban
bump_ban_other throttle options key other now windows apart = refl
bump_ban_other rate_based_ban options key other now windows apart =
    elim (Option-cases (full_threshold options.ban_threshold)) [
      | inl absent ↦ rw (absent, bump_ban) refl
      | inr ((count, interval), found) ↦
          rw (found, bump_ban) (get-bump_ne windows key other (window_of now interval) apart)
    ]

set_ban_other :
    (mode : Mode) (ban : Bool) (options : Options) (key other : BucketKey) (now : ℕ)
    (bans : List (BucketKey × ℕ))
    → (key == other) ≡ false
    → Dict.get other (set_ban mode ban options key now bans) ≡ Dict.get other bans
unfolding set_ban
set_ban_other commit true options key other now bans apart = rw (Dict.get-set, apart)
set_ban_other commit false options key other now bans apart = refl
set_ban_other preview ban options key other now bans apart = refl

-- A request of one key leaves the counters and the ban of every other key alone.
pub apply_other :
    (key other : BucketKey) (action : ActionKind) (options : Options) (now : ℕ) (mode : Mode)
    (store : Store)
    → (key == other) ≡ false
    → let store' = (apply_rate_limit key action options now mode store).0 in
      (Dict.get other store'.rate_windows ≡ Dict.get other store.rate_windows)
      × (Dict.get other store'.ban_windows ≡ Dict.get other store.ban_windows)
      × (Dict.get other store'.bans ≡ Dict.get other store.bans)
unfolding apply_rate_limit
apply_other key other action options now mode store apart =
    elim (Bool-cases (ltb now (or_default (Dict.get key store.bans) 0))) [
      | inl blocked ↦ rw (blocked, apply_rate_limit) (refl, refl, refl)
      | inr passed ↦
          rw (passed, apply_rate_limit)
            (
              get-bump_ne store.rate_windows key other (window_of now (interval_of options)) apart,
              bump_ban_other action options key other now store.ban_windows apart,
              set_ban_other mode (would_ban action options key now store) options key other now
                  store.bans apart,
            )
    ]
