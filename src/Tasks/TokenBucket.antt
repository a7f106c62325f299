-- ===== src/Tasks/TokenBucket.antt =====
-- src/services/tasks/token-bucket.ts. `maxDispatchesPerSecond` may be a fraction, and then the tokens
-- become one, below zero too: they are integers in units of a token's fraction, `unit` to the token,
-- as are `max_tokens` and `refill_rate`. Rounding of floating-point numbers is left out.
mod Bounds
mod Rate
mod Tests
use kinglet.Base.{ℕ, suc, ◌+◌, ◌-◌, Bool, true, false, ◌||◌, if◌then◌else◌, leb, ltb}
use kinglet.Base.Int.{ℤ, pos, ◌+ℤ◌, ◌-ℤ◌, leb_ℤ}

pub record Config : Type 0 where
  pub max_tokens : ℕ
  pub refill_rate : ℕ
  pub max_concurrent : ℕ

pub record TokenBucket : Type 0 where
  pub tokens : ℤ
  pub concurrent : ℕ
  pub config : Config

pub init : Config → TokenBucket
init config = record { tokens = pos config.max_tokens; concurrent = 0; config = config }

unfoldable pub acquire : ℕ → TokenBucket → TokenBucket × Bool
unfolding ◌-ℤ◌
acquire unit b =
    if leb_ℤ b.tokens (pos 0) || leb b.config.max_concurrent b.concurrent
    then (b, false)
    else (record b { tokens = b.tokens -ℤ pos unit; concurrent = b.concurrent + 1 }, true)

pub release : TokenBucket → TokenBucket
release b = if ltb 0 b.concurrent then record b { concurrent = b.concurrent - 1 } else b

unfoldable pub refill : TokenBucket → TokenBucket
unfolding ◌+ℤ◌
refill b =
    let filled = b.tokens +ℤ pos b.config.refill_rate in
    let most = pos b.config.max_tokens in
    record b { tokens = if leb_ℤ filled most then filled else most }

pub update_config : Config → TokenBucket → TokenBucket
update_config config b =
    let most = pos config.max_tokens in
    record b { tokens = if leb_ℤ b.tokens most then b.tokens else most; config = config }
