-- ===== src/Armor/Validation/Tests.antt =====
-- Validation at concrete options.
use kinglet.Base.{◌≡◌, refl, none, some, [], ◌∷◌, ok, err}
use kinglet.Armor.RateLimit.{rate_based_ban, throttle, KeyConfig, Options}
use kinglet.Armor.Validation.{repeated_key_type, validate_rate_limit_options, max_count}
use kinglet.Armor.Validation.Accepted.{Sound, SoundKeys, BanFor, validate-Sound}

program : Unit {0}
unfolding validate_rate_limit_options
program = tt

abbrev by_header : KeyConfig
by_header = record { enforce_on_key_type = some "HTTP_HEADER"; enforce_on_key_name = some "x-user" }

abbrev by_ip : KeyConfig
by_ip = record { enforce_on_key_type = some "IP"; enforce_on_key_name = none }

abbrev ban_options : Options
ban_options = record {
  rate_limit_threshold = some (record { count = some 100; interval_sec = some 60 });
  ban_threshold = some (record { count = some 500; interval_sec = some 600 });
  ban_duration_sec = some 300;
  conform_action = none;
  exceed_action = none;
  enforce_on_key = none;
  enforce_on_key_name = none;
  enforce_on_key_configs = some (by_header ∷ by_ip ∷ by_header ∷ []);
}

accepted : validate_rate_limit_options rate_based_ban ban_options ≡ ok tt
unfolding program
accepted = refl

repeated :
    validate_rate_limit_options throttle
      (record ban_options { enforce_on_key_configs = some (by_ip ∷ by_ip ∷ []) })
    ≡ err (repeated_key_type "IP")
unfolding program
repeated = refl

validate-Sound_example :
    Sound (max_count rate_based_ban) ban_options.rate_limit_threshold
    × SoundKeys ban_options.enforce_on_key_configs none none
    × BanFor rate_based_ban ban_options
validate-Sound_example = validate-Sound rate_based_ban ban_options accepted
