-- ===== src/Tasks/TokenBucket/Tests.antt =====
-- A bucket of two tokens that regains half a token with each refill.
use kinglet.Base.{◌+◌, ◌*◌, ◌<◌, ◌≡◌, refl, List, [], ◌∷◌, arith}
use kinglet.Base.Int.{pos}
use kinglet.Tasks.TokenBucket
use kinglet.Tasks.TokenBucket.{Config, TokenBucket}
use kinglet.Tasks.TokenBucket.Bounds.{IsValid}
use kinglet.Tasks.TokenBucket.Rate.{Op, acquire, refill, grants, grants_bound}

abbrev slow : TokenBucket
slow = record {
  tokens = pos 4;
  concurrent = 0;
  config = record { max_tokens = 4; refill_rate = 1; max_concurrent = 5 };
}

abbrev ops : List Op
ops = acquire ∷ acquire ∷ acquire ∷ refill ∷ acquire ∷ refill ∷ acquire ∷ []

-- The third try finds no token; half a token is enough for a grant, and leaves minus a half.
three : grants 2 ops slow ≡ 3
unfolding grants TokenBucket.acquire TokenBucket.refill
three = refl

slow-IsValid : IsValid 2 slow
slow-IsValid = record { above = omega arith; below = omega arith }

grants_bound_example : 2 * grants 2 ops slow < 4 + 2 * 1 + 2
grants_bound_example = grants_bound 2 ops slow slow-IsValid
