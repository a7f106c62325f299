-- ===== src/Tasks/TokenBucket/Rate.antt =====
-- The limit on the dispatches over any run of the bucket's operations.
use kinglet.Base.{ℕ, ◌+◌, ◌*◌, ◌≤◌, ◌<◌, ◌≡◌, List, [], ◌∷◌, arith, if◌then◌else◌}
use kinglet.Base.Int.{pos_part, neg_part}
use kinglet.Tasks.TokenBucket
use kinglet.Tasks.TokenBucket.{Config, TokenBucket}
use kinglet.Tasks.TokenBucket.Bounds.{IsValid, acquire-IsValid, release-IsValid, refill-IsValid}

pub data Op : Type 0 where
  acquire release refill : Op

module _ (unit : ℕ) where
  pub step : Op → TokenBucket → TokenBucket
  step acquire b = (TokenBucket.acquire unit b).0
  step release b = TokenBucket.release b
  step refill b = TokenBucket.refill b

  -- 1 if the operation hands out a token.
  pub granted : Op → TokenBucket → ℕ
  granted acquire b = if (TokenBucket.acquire unit b).1 then 1 else 0
  granted release b = 0
  granted refill b = 0

  unfoldable pub run : List Op → TokenBucket → TokenBucket
  unfolding step
  run [] b = b
  run (op ∷ ops) b = run ops (step op b)

  unfoldable pub grants : List Op → TokenBucket → ℕ
  unfolding step granted
  grants [] b = 0
  grants (op ∷ ops) b = granted op b + grants ops (step op b)

  abbrev pub is_refill : Op → ℕ
  is_refill refill = 1
  is_refill acquire = 0
  is_refill release = 0

  abbrev pub refills : List Op → ℕ
  refills [] = 0
  refills (op ∷ ops) = is_refill op + refills ops

  step-IsValid : (op : Op) (b : TokenBucket) → IsValid unit b → IsValid unit (step op b)
  unfolding step
  step-IsValid acquire b v = acquire-IsValid unit b v
  step-IsValid release b v = release-IsValid unit b v
  step-IsValid refill b v = refill-IsValid unit b v

  -- What a step adds to the tokens and hands out comes from its refill.
  step_balance :
      (op : Op) (b : TokenBucket)
      → pos_part (step op b).tokens + neg_part b.tokens + unit * granted op b
        ≤ pos_part b.tokens + is_refill op * b.config.refill_rate + neg_part (step op b).tokens
  unfolding step granted TokenBucket.acquire TokenBucket.release TokenBucket.refill
  step_balance acquire b = ground arith
  step_balance release b = ground arith
  step_balance refill b = ground arith

  config-step : (op : Op) (b : TokenBucket) → (step op b).config ≡ b.config
  unfolding step TokenBucket.acquire TokenBucket.release TokenBucket.refill
  config-step acquire b = ground arith
  config-step release b = ground arith
  config-step refill b = ground arith

  concurrent-step :
      (op : Op) (b : TokenBucket)
      → b.concurrent ≤ b.config.max_concurrent
      → (step op b).concurrent ≤ b.config.max_concurrent
  unfolding step TokenBucket.acquire TokenBucket.release TokenBucket.refill
  concurrent-step acquire b h = ground arith
  concurrent-step release b h = ground arith
  concurrent-step refill b h = ground arith

  run_balance :
      (ops : List Op) (b : TokenBucket)
      → pos_part (run ops b).tokens + neg_part b.tokens + unit * grants ops b
        ≤ pos_part b.tokens + refills ops * b.config.refill_rate + neg_part (run ops b).tokens
  unfolding run grants
  run_balance [] b = omega arith
  run_balance (op ∷ ops) b =
      let rate : (step op b).config.refill_rate ≡ b.config.refill_rate =
        ground (arith, config-step op b) in
      omega (arith, step_balance op b, rw rate at (run_balance ops (step op b)))

  run-IsValid : (ops : List Op) (b : TokenBucket) → IsValid unit b → IsValid unit (run ops b)
  unfolding run
  run-IsValid [] b v = v
  run-IsValid (op ∷ ops) b v = run-IsValid ops (step op b) (step-IsValid op b v)

  -- However acquisitions, releases and refills interleave, the tokens that a bucket in bounds hands out
  -- stay below what it held, plus its refills, plus one.
  pub grants_bound :
      (ops : List Op) (b : TokenBucket)
      → IsValid unit b
      → unit * grants ops b < pos_part b.tokens + refills ops * b.config.refill_rate + unit
  grants_bound ops b v = omega (arith, run_balance ops b, (run-IsValid ops b v).above)

  -- From a bucket that is within it, the dispatches in flight never exceed the configured number.
  pub concurrent_bound :
      (ops : List Op) (b : TokenBucket)
      → b.concurrent ≤ b.config.max_concurrent
      → (run ops b).concurrent ≤ b.config.max_concurrent
  unfolding run
  concurrent_bound [] b h = h
  concurrent_bound (op ∷ ops) b h =
      let same : (step op b).config.max_concurrent ≡ b.config.max_concurrent =
        ground (arith, config-step op b) in
      rw same at (concurrent_bound ops (step op b) (rw same (concurrent-step op b h)))
