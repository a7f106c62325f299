-- ===== src/Armor/Validation/Accepted.antt =====
-- What options that pass validation look like.
use kinglet.Base.{
  ℕ, ◌≤◌, ◌≡◌, refl, String, Bool, true, false, not, ◌&&◌, ◌||◌, Option, none, some, List, [], ◌∷◌,
  arith, ◌==◌, string_eq, if◌then◌else◌, ltb, length, Option-cases, inl, inr, ok, ◌>>◌, >>-eq-ok,
  fail_if-eq-ok,
}
use kinglet.Armor.RateLimit.{
  ActionKind, throttle, rate_based_ban, Threshold, KeyConfig, Options, full_threshold, or_default,
}
use kinglet.Armor.Validation.{
  includes, is_valid_interval, is_valid_ban_duration, valid_key_types, repeatable_key_types,
  is_empty_or_absent, validate_key_type, require_name, validate_configs, validate_keys, max_count,
  validate_threshold, validate_ban_threshold, validate_ban, validate_rate_limit_options,
}

-- A threshold with both of its numbers, the count from 1 to `most`, the interval one of the listed ones.
pub record Sound (most : ℕ) (t : Option Threshold) : Type 0 where
  pub count : ℕ
  pub interval : ℕ
  pub given : full_threshold t ≡ some (count, interval)
  pub at_least : 1 ≤ count
  pub at_most : count ≤ most
  pub listed : is_valid_interval interval ≡ true

abbrev pub SoundIfGiven : Option Threshold → Type 0
SoundIfGiven none = Unit
SoundIfGiven (some t) = Sound 10000 (some t)

pub record SoundBan (options : Options) : Type 0 where
  pub duration : ℕ
  pub given : options.ban_duration_sec ≡ some duration
  pub listed : is_valid_ban_duration duration ≡ true
  pub threshold : SoundIfGiven options.ban_threshold

abbrev pub BanFor : ActionKind → Options → Type 0
BanFor throttle options = Unit
BanFor rate_based_ban options = SoundBan options

-- A key type is known, and a header or a cookie has a name.
pub record SoundKey (type : String) (name : Option String) : Type 0 where
  pub known : includes valid_key_types type ≡ true
  pub named : ((type == "HTTP_HEADER" || type == "HTTP_COOKIE") && is_empty_or_absent name) ≡ false

-- Each config is sound, and a type that is no header or cookie stands once.
abbrev pub SoundConfigs : List String → List KeyConfig → Type 0
SoundConfigs seen [] = Unit
SoundConfigs seen (config ∷ configs) =
    SoundKey (or_default config.enforce_on_key_type "") config.enforce_on_key_name
    × ((not (includes repeatable_key_types (or_default config.enforce_on_key_type ""))
          && includes seen (or_default config.enforce_on_key_type ""))
        ≡ false)
    × SoundConfigs (or_default config.enforce_on_key_type "" ∷ seen) configs

abbrev pub SoundKeys : Option (List KeyConfig) → Option String → Option String → Type 0
SoundKeys none key name = (is_empty_or_absent key ≡ false) → SoundKey (or_default key "") name
SoundKeys (some []) key name = (is_empty_or_absent key ≡ false) → SoundKey (or_default key "") name
SoundKeys (some (config ∷ configs)) key name =
    (is_empty_or_absent key ≡ true)
    × (length (config ∷ configs) ≤ 3)
    × SoundConfigs [] (config ∷ configs)

threshold-Sound :
    (action : ActionKind) (options : Options)
    → validate_threshold action options ≡ ok tt
    → Sound (max_count action) options.rate_limit_threshold
unfolding validate_threshold
threshold-Sound action options h =
    elim (Option-cases (full_threshold options.rate_limit_threshold)) [
      | inl missing ↦ absurd (ground arith)
      | inr ((count, interval), found) ↦ record {
        count = count;
        interval = interval;
        given = found;
        at_least = ground arith;
        at_most = ground arith;
        listed = ground arith;
      }
    ]

ban_threshold_sound : (t : Option Threshold) → validate_ban_threshold t ≡ ok tt → SoundIfGiven t
unfolding validate_ban_threshold
ban_threshold_sound none h = tt
ban_threshold_sound (some t) h = elim (Option-cases (full_threshold (some t))) [
  | inl missing ↦ absurd (ground arith)
  | inr ((count, interval), found) ↦ record {
    count = count;
    interval = interval;
    given = found;
    at_least = ground arith;
    at_most = ground arith;
    listed = ground arith;
  }
]

not-eq-false : {b : Bool} → not b ≡ false → b ≡ true
not-eq-false {b} h = ground arith

le_of_ltb : (a b : ℕ) → ltb a b ≡ false → b ≤ a
le_of_ltb a b h = ground arith

key_sound :
    (type : String) (name : Option String)
    → validate_key_type type ≡ ok tt
    → require_name type name ≡ ok tt
    → SoundKey type name
unfolding validate_key_type require_name
key_sound type name known named = record {
  known = not-eq-false (fail_if-eq-ok _ _ known);
  named = fail_if-eq-ok _ _ named;
}

configs_sound :
    (seen : List String) (configs : List KeyConfig)
    → validate_configs seen configs ≡ ok tt
    → SoundConfigs seen configs
unfolding validate_configs
configs_sound seen [] h = tt
configs_sound seen (config ∷ configs) h =
    let type = or_default config.enforce_on_key_type "" in
    let (known, h1) = >>-eq-ok _ _ h in
    let (once, h2) = >>-eq-ok _ _ h1 in
    let (named, rest) = >>-eq-ok _ _ h2 in
    (
      key_sound type config.enforce_on_key_name known named,
      fail_if-eq-ok _ _ once,
      configs_sound (type ∷ seen) configs rest,
    )

-- The test on a single key.
single_sound :
    (key name : Option String)
    → (if is_empty_or_absent key
        then ok tt
        else (do validate_key_type (or_default key ""); require_name (or_default key "") name))
      ≡ ok tt
    → is_empty_or_absent key ≡ false
    → SoundKey (or_default key "") name
single_sound key name h given =
    let (known, named) = >>-eq-ok _ _ (rw given at h) in
    key_sound (or_default key "") name known named

keys_sound :
    (options : Options) (configs : Option (List KeyConfig))
    → options.enforce_on_key_configs ≡ configs
    → validate_keys options ≡ ok tt
    → SoundKeys configs options.enforce_on_key options.enforce_on_key_name
unfolding validate_keys
keys_sound options none e h =
    single_sound options.enforce_on_key options.enforce_on_key_name (rw (e, validate_keys) at h)
keys_sound options (some []) e h =
    single_sound options.enforce_on_key options.enforce_on_key_name (rw (e, validate_keys) at h)
keys_sound options (some (config ∷ configs)) e h =
    let (empty, h1) = >>-eq-ok _ _ (rw (e, validate_keys) at h) in
    let (few, sound) = >>-eq-ok _ _ h1 in
    (
      not-eq-false (fail_if-eq-ok _ _ empty),
      le_of_ltb 3 (length (config ∷ configs)) (fail_if-eq-ok _ _ few),
      configs_sound [] (config ∷ configs) sound,
    )

ban_sound :
    (action : ActionKind) (options : Options)
    → validate_ban action options ≡ ok tt
    → BanFor action options
unfolding validate_ban
ban_sound throttle options h = tt
ban_sound rate_based_ban options h = elim (Option-cases options.ban_duration_sec) [
  | inl missing ↦ absurd (ground arith)
  | inr (duration, found) ↦
      let (listed, threshold) = >>-eq-ok _ _ (rw (found, validate_ban) at h) in
      record {
        duration = duration;
        given = found;
        listed = not-eq-false (fail_if-eq-ok _ _ listed);
        threshold = ban_threshold_sound options.ban_threshold threshold;
      }
]

-- Options that pass validation have a complete threshold in the range of their action, sound keys, and,
-- for a ban, a listed duration and a sound ban threshold if there is one.
pub validate-Sound :
    (action : ActionKind) (options : Options)
    → validate_rate_limit_options action options ≡ ok tt
    → Sound (max_count action) options.rate_limit_threshold
      × SoundKeys options.enforce_on_key_configs options.enforce_on_key options.enforce_on_key_name
      × BanFor action options
unfolding validate_rate_limit_options
validate-Sound action options h =
    let (threshold, h1) = >>-eq-ok _ _ h in
    let (keys, ban) = >>-eq-ok _ _ h1 in
    (
      threshold-Sound action options threshold,
      keys_sound options _ refl keys,
      ban_sound action options ban,
    )
