-- ===== src/Armor/RateLimit/Tests.antt =====
-- The rate limit at concrete requests.
use kinglet.Base.{◌≡◌, refl, none, some, [], ◌∷◌, arith}
use kinglet.Dict
use kinglet.Armor.RateLimit.{
  rate_based_ban, commit, preview, Options, BucketKey, key_eq, Store, apply_rate_limit, would_ban,
  bump_ban, set_ban, bump, next_count, exceed_of,
}
use kinglet.Armor.RateLimit.Windows.{serve, expected, serve-expected}
use kinglet.Armor.RateLimit.Bans.{ban_lasts, apply-preview, apply_other}

program : Unit {0}
unfolding apply_rate_limit would_ban bump_ban set_ban bump next_count serve expected Dict.get
    Dict.set
program = tt

abbrev options : Options
options = record {
  rate_limit_threshold = some (record { count = some 2; interval_sec = some 10 });
  ban_threshold = none;
  ban_duration_sec = some 60;
  conform_action = none;
  exceed_action = none;
  enforce_on_key = none;
  enforce_on_key_name = none;
  enforce_on_key_configs = none;
}

abbrev ann : BucketKey
ann = ("policy", 1000, "IP:10.0.0.1")

abbrev bob : BucketKey
bob = ("policy", 1000, "IP:10.0.0.2")

abbrev empty : Store
empty = record { rate_windows = []; ban_windows = []; bans = [] }

-- Two of four requests in the first ten seconds conform, and the next window starts anew.
four_requests :
    serve ann options commit (0 ∷ 4000 ∷ 5000 ∷ 9999 ∷ 10000 ∷ []) empty
    ≡ "allow" ∷ "allow" ∷ "deny(429)" ∷ "deny(429)" ∷ "allow" ∷ []
unfolding program
four_requests = refl

serve-expected_example :
    serve ann options commit (0 ∷ 4000 ∷ 5000 ∷ []) empty
    ≡ expected ann options commit 0 (0 ∷ 4000 ∷ 5000 ∷ [])
unfolding Dict.get
serve-expected_example =
    serve-expected ann options commit 0 (0 ∷ 4000 ∷ 5000 ∷ []) empty refl (refl, (refl, (refl, tt)))

-- Ann has used her two requests, and an earlier ban of hers has run out.
abbrev busy : Store
busy = record empty {
  rate_windows = (ann, record { window_id = 0; count = 2 }) ∷ [];
  bans = (ann, 5000) ∷ [];
}

ban_lasts_example :
    let (store', answer) = apply_rate_limit ann rate_based_ban options 5000 commit busy in
    (answer ≡ exceed_of options)
    × (apply_rate_limit ann rate_based_ban options 64999 commit store'
        ≡ (store', exceed_of options))
unfolding program
ban_lasts_example = ban_lasts ann options 5000 64999 commit busy (omega arith) refl (omega arith)

apply-preview_example :
    ((apply_rate_limit ann rate_based_ban options 5000 preview busy).1
      ≡ (apply_rate_limit ann rate_based_ban options 5000 commit busy).1)
    × ((apply_rate_limit ann rate_based_ban options 5000 preview busy).0.bans ≡ busy.bans)
apply-preview_example = apply-preview ann rate_based_ban options 5000 busy

apply_other_example :
    let store' = (apply_rate_limit ann rate_based_ban options 5000 commit busy).0 in
    (Dict.get bob store'.rate_windows ≡ Dict.get bob busy.rate_windows)
    × (Dict.get bob store'.ban_windows ≡ Dict.get bob busy.ban_windows)
    × (Dict.get bob store'.bans ≡ Dict.get bob busy.bans)
apply_other_example = apply_other ann bob rate_based_ban options 5000 commit busy refl
