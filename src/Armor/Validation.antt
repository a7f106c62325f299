-- ===== src/Armor/Validation.antt =====
-- src/services/compute/armor/rate-limit.ts: the validation of rate-limit options. An action other than
-- `rate_based_ban` counts as `throttle`, as in the code's one test of it. The `throw`s are errors.
mod Accepted
mod Tests
use kinglet.Base.{
  ℕ, String, Bool, true, false, not, ◌&&◌, ◌||◌, Option, none, some, List, [], ◌∷◌, StrictEquality,
  ◌==◌, nat_eq, string_eq, if◌then◌else◌, ltb, any, length, Result, ok, err, ◌>>=◌, ◌>>◌, fail_if,
}
use kinglet.Armor.RateLimit.{
  ActionKind, throttle, rate_based_ban, Threshold, KeyConfig, Options, full_threshold, or_default,
}

-- What validation refuses, with the numbers and names that the message shows.
pub data ArmorError : Type 0 where
  threshold_required : ArmorError
  count_out_of_range : ℕ → ArmorError
  invalid_interval : ℕ → ArmorError
  key_not_empty too_many_configs : ArmorError
  invalid_key_type repeated_key_type name_required : String → ArmorError
  ban_duration_required : ArmorError
  invalid_ban_duration : ℕ → ArmorError
  ban_threshold_required ban_count_out_of_range : ArmorError
  invalid_ban_interval : ℕ → ArmorError
  ban_to_throttle : ArmorError

abbrev pub valid_interval_sec : List ℕ
valid_interval_sec =
    10 ∷ 30 ∷ 60 ∷ 120 ∷ 180 ∷ 240 ∷ 300 ∷ 600 ∷ 900 ∷ 1200 ∷ 1800 ∷ 2700 ∷ 3600 ∷ []

abbrev pub valid_ban_duration_sec : List ℕ
valid_ban_duration_sec = 60 ∷ 120 ∷ 180 ∷ 240 ∷ 300 ∷ 600 ∷ 900 ∷ 1200 ∷ 1800 ∷ 2700 ∷ 3600 ∷ []

abbrev pub valid_key_types : List String
valid_key_types =
    "ALL" ∷ "IP" ∷ "XFF_IP" ∷ "USER_IP" ∷ "HTTP_HEADER" ∷ "HTTP_COOKIE" ∷ "HTTP_PATH" ∷ "SNI"
    ∷ "REGION_CODE" ∷ "TLS_JA3_FINGERPRINT" ∷ "TLS_JA4_FINGERPRINT" ∷ []

abbrev pub repeatable_key_types : List String
repeatable_key_types = "HTTP_HEADER" ∷ "HTTP_COOKIE" ∷ []

pub includes {ℓ} : {A : Type ℓ} ⦃e : StrictEquality A⦄ → List A → A → Bool
includes xs a = any (λ x. x == a) xs

pub is_valid_interval : ℕ → Bool
unfolding includes
is_valid_interval n = includes valid_interval_sec n

pub is_valid_ban_duration : ℕ → Bool
unfolding includes
is_valid_ban_duration n = includes valid_ban_duration_sec n

abbrev pub is_empty_or_absent : Option String → Bool
is_empty_or_absent none = true
is_empty_or_absent (some name) = name == ""

pub validate_key_type : String → Result ArmorError (Unit {0})
unfolding includes
validate_key_type type = fail_if (not (includes valid_key_types type)) (invalid_key_type type)

-- A header or a cookie is named.
pub require_name : String → Option String → Result ArmorError (Unit {0})
require_name type name =
    fail_if ((type == "HTTP_HEADER" || type == "HTTP_COOKIE") && is_empty_or_absent name)
      (name_required type)

-- The loop over `enforceOnKeyConfigs`, with the types seen so far.
pub validate_configs : List String → List KeyConfig → Result ArmorError (Unit {0})
unfolding includes validate_key_type require_name
validate_configs seen [] = ok tt
validate_configs seen (config ∷ configs) =
    let type = or_default config.enforce_on_key_type "" in
    let rest = validate_configs (type ∷ seen) configs in
    do
      validate_key_type type
      fail_if (not (includes repeatable_key_types type) && includes seen type)
          (repeated_key_type type)
      require_name type config.enforce_on_key_name
      rest

-- The part of validation that is about the keys.
pub validate_keys : Options → Result ArmorError (Unit {0})
unfolding validate_configs
validate_keys options = elim options.enforce_on_key_configs [
  | some (config ∷ configs) ↦ do
    fail_if (not (is_empty_or_absent options.enforce_on_key)) key_not_empty
    fail_if (ltb 3 (length (config ∷ configs))) too_many_configs
    validate_configs [] (config ∷ configs)
  | _ ↦
      if is_empty_or_absent options.enforce_on_key
      then ok tt
      else let type = or_default options.enforce_on_key "" in
        do validate_key_type type; require_name type options.enforce_on_key_name
]

abbrev pub max_count : ActionKind → ℕ
max_count rate_based_ban = 10000
max_count throttle = 1000000

pub validate_threshold : ActionKind → Options → Result ArmorError (Unit {0})
unfolding is_valid_interval
validate_threshold action options = elim (full_threshold options.rate_limit_threshold) [
  | none ↦ err threshold_required
  | some (count, interval) ↦ do
    fail_if (ltb count 1 || ltb (max_count action) count) (count_out_of_range (max_count action))
    fail_if (not (is_valid_interval interval)) (invalid_interval interval)
]

-- `if (options.banThreshold != null)`
pub validate_ban_threshold : Option Threshold → Result ArmorError (Unit {0})
unfolding is_valid_interval
validate_ban_threshold none = ok tt
validate_ban_threshold (some t) = elim (full_threshold (some t)) [
  | none ↦ err ban_threshold_required
  | some (count, interval) ↦ do
    fail_if (ltb count 1 || ltb 10000 count) ban_count_out_of_range
    fail_if (not (is_valid_interval interval)) (invalid_ban_interval interval)
]

pub validate_ban : ActionKind → Options → Result ArmorError (Unit {0})
unfolding is_valid_ban_duration validate_ban_threshold
validate_ban throttle options = ok tt
validate_ban rate_based_ban options = elim options.ban_duration_sec [
  | none ↦ err ban_duration_required
  | some duration ↦ do
    fail_if (not (is_valid_ban_duration duration)) (invalid_ban_duration duration)
    validate_ban_threshold options.ban_threshold
]

-- `validateRateLimitOptions`
pub validate_rate_limit_options : ActionKind → Options → Result ArmorError (Unit {0})
unfolding validate_threshold validate_keys validate_ban
validate_rate_limit_options action options = do
  validate_threshold action options
  validate_keys options
  validate_ban action options

-- `assertRateLimitActionTransition`
pub assert_action_transition : ActionKind → ActionKind → Result ArmorError (Unit {0})
assert_action_transition rate_based_ban throttle = err ban_to_throttle
assert_action_transition from to = ok tt
