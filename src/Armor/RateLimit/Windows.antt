-- ===== src/Armor/RateLimit/Windows.antt =====
-- How many requests of one key conform in one window.
use mathlib.Core.Path.{ap₂}
use kinglet.Base.{
  ℕ, suc, ◌≡◌, refl, String, false, none, List, [], ◌∷◌, arith, if◌then◌else◌, ltb, All, ◌∙◌, ap,
}
use kinglet.Dict
use kinglet.Armor.RateLimit.{
  throttle, Mode, commit, preview, Options, BucketKey, key_eq, Store, used, bump, window_of,
  limit_of, interval_of, exceed_of, conform_of, would_ban, bump_ban, set_ban, apply_rate_limit,
  or_default,
}
use kinglet.Armor.RateLimit.Counters.{next_count-used, used-bump}

module _ (key : BucketKey) (options : Options) (mode : Mode) where
  -- The answers to requests of the key at the given times, one after the other.
  unfoldable pub serve : List ℕ → Store → List String
  serve [] store = []
  serve (now ∷ times) store =
      let (store', action) = apply_rate_limit key throttle options now mode store in
      action ∷ serve times store'

  -- What is expected after `n` requests in the window: up to the limit the requests conform.
  unfoldable pub expected : ℕ → List ℕ → List String
  expected n [] = []
  expected n (now ∷ times) =
      (if ltb n (limit_of options) then conform_of options else exceed_of options)
      ∷ expected (suc n) times

  throttle_step :
      (now : ℕ) (store : Store)
      → Dict.get key store.bans ≡ none
      → ((apply_rate_limit key throttle options now mode store).1 ≡ (
          if ltb
            (used (Dict.get key store.rate_windows) (window_of now (interval_of options)))
            (limit_of options)
          then conform_of options
          else exceed_of options))
        × (Dict.get key (apply_rate_limit key throttle options now mode store).0.bans ≡ none)
        × ((apply_rate_limit key throttle options now mode store).0.rate_windows
            ≡ bump store.rate_windows key (window_of now (interval_of options)))
  unfolding apply_rate_limit would_ban bump_ban set_ban
  throttle_step now store free =
      let window = window_of now (interval_of options) in
      let unbanned : ltb now (or_default (Dict.get key store.bans) 0) ≡ false =
        rw free (ground arith) in
      rw unbanned (ground (arith, next_count-used store.rate_windows key window), kept mode, refl)
    where
      kept : (mode : Mode) → Dict.get key (set_ban mode false options key now store.bans) ≡ none
      kept commit = free
      kept preview = free

  -- A throttled key that is not banned, with all its requests in one window, is admitted exactly `limit`
  -- times there: the requests that find fewer before them conform, and the others get the exceed action.
  pub serve-expected :
      (window : ℕ) (times : List ℕ) (store : Store)
      → Dict.get key store.bans ≡ none
      → All (λ now. window_of now (interval_of options) ≡ window) times
      → serve times store ≡ expected (used (Dict.get key store.rate_windows) window) times
  unfolding serve expected
  serve-expected window [] store free same = refl
  serve-expected window (now ∷ times) store free (here, later) =
      let (answer, free', bumped) = throttle_step now store free in
      let store' = (apply_rate_limit key throttle options now mode store).0 in
      let rest = serve-expected window times store' free' later in
      let next : used (Dict.get key store'.rate_windows) window
          ≡ suc (used (Dict.get key store.rate_windows) window) =
        rw bumped (rw here (omega (arith, used-bump store.rate_windows key window))) in
      ap₂ ◌∷◌ (rw here at answer) (rest ∙ ap (λ n. expected n times) next)
