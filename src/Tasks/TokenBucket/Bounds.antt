-- ===== src/Tasks/TokenBucket/Bounds.antt =====
-- What holds of a bucket at all times.
use kinglet.Base.{ℕ, ◌<◌, arith}
use kinglet.Base.Int.{pos, neg_part, ◌≤ℤ◌}
use kinglet.Tasks.TokenBucket.{Config, TokenBucket, init, acquire, release, refill, update_config}

-- The tokens stay above minus one token, and never exceed the burst size.
pub record IsValid (unit : ℕ) (b : TokenBucket) : Type 0 where
  pub above : neg_part b.tokens < unit
  pub below : b.tokens ≤ℤ pos b.config.max_tokens

pub init-IsValid : (unit : ℕ) (config : Config) → 0 < unit → IsValid unit (init config)
unfolding init
init-IsValid unit config h = ground arith

pub acquire-IsValid :
    (unit : ℕ) (b : TokenBucket) → IsValid unit b → IsValid unit (acquire unit b).0
unfolding acquire
acquire-IsValid unit b v = ground arith

pub release-IsValid : (unit : ℕ) (b : TokenBucket) → IsValid unit b → IsValid unit (release b)
unfolding release
release-IsValid unit b v = ground arith

pub refill-IsValid : (unit : ℕ) (b : TokenBucket) → IsValid unit b → IsValid unit (refill b)
unfolding refill
refill-IsValid unit b v = ground arith

pub update_config-IsValid :
    (unit : ℕ) (config : Config) (b : TokenBucket)
    → IsValid unit b
    → IsValid unit (update_config config b)
unfolding update_config
update_config-IsValid unit config b v = ground arith
