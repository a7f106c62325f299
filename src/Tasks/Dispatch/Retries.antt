-- ===== src/Tasks/Dispatch/Retries.antt =====
-- The delay before a task is tried again.
use kinglet.Base.{
  ℕ, suc, ◌+◌, ◌*◌, ◌^◌, ◌≤◌, ◌<◌, min, ◌≡◌, refl, ap, ◌∙◌, String, Bool, true, false, Option, none,
  some, arith, Result, ok, string_eq,
}
use native.Mathlib.Nat.{mul-le-mul_left, pow-le-pow_right, pow-succ'}
use kinglet.Dict
use kinglet.Storage.{Table}
use kinglet.Tasks.Items.{TaskRecord, Attempt, get_task_by_name, dispatchable}
use kinglet.Tasks.Items.Updates.{update_task-found, get_task_by_name-set}
use kinglet.Tasks.Dispatch.{
  QueueRecord, RetryConfig, Outcome, compute_backoff, ended, updated, settle, attempt_of,
  with_delays, execute_http_request, dispatch_end,
}

scaled_mono : (a m n : ℕ) → m ≤ n → a * 2 ^ m ≤ a * 2 ^ n
scaled_mono a m n h = mul-le-mul_left a (pow-le-pow_right (omega arith) h)

scaled-suc : (a m : ℕ) → a * 2 ^ suc m ≡ 2 * (a * 2 ^ m)
scaled-suc a m = grind (arith, pow-succ' 2 m)

doubled :
    (earlier least most doublings : ℕ)
    → earlier < doublings
    → min (least * 2 ^ min (suc earlier) doublings) most
      ≡ min (2 * min (least * 2 ^ min earlier doublings) most) most
doubled earlier least most doublings below =
    let next : min (suc earlier) doublings ≡ suc earlier = omega (arith, below) in
    let here : min earlier doublings ≡ earlier = omega (arith, below) in
    rw (next, here) (omega (arith, scaled-suc least earlier))

-- The first delay is the least one, and each of the first `max_doublings` attempts doubles the delay, both cut down
-- to the greatest, which no delay exceeds. The delay does not fall from one attempt to a later one, is at least the least delay or else the
-- greatest, and stays the same from `max_doublings` attempts on.
pub compute_backoff_lem :
    (earlier later least most doublings : ℕ)
    → earlier ≤ later
    → (compute_backoff earlier least most doublings ≤ compute_backoff later least most doublings)
      × (min least most ≤ compute_backoff earlier least most doublings)
      × (compute_backoff later least most doublings ≤ most)
      × (doublings ≤ earlier
          → compute_backoff later least most doublings
            ≡ compute_backoff earlier least most doublings)
      × (compute_backoff 0 least most doublings ≡ min least most)
      × (earlier < doublings
          → compute_backoff (suc earlier) least most doublings
            ≡ min (2 * compute_backoff earlier least most doublings) most)
unfolding compute_backoff
compute_backoff_lem earlier later least most doublings h =
    let rise = scaled_mono least (min earlier doublings) (min later doublings) (omega (arith, h)) in
    let above = scaled_mono least 0 (min earlier doublings) (omega arith) in
    (
      omega (arith, rise),
      omega (arith, above),
      omega arith,
      λ flat.
          ap (λ (e : ℕ). min (least * 2 ^ e) most) {x = min later doublings}
            {y = min earlier doublings} (omega (arith, h, flat)),
      ap (λ (e : ℕ). min (least * 2 ^ e) most) {x = min 0 doublings} {y = 0} (omega arith)
          ∙ ap (λ (a : ℕ). min a most) {x = least * 1} {y = least} (omega arith),
      λ below. doubled earlier least most doublings below,
    )

ended-name :
    (task : TaskRecord) (config : RetryConfig) (ttl least most now : ℕ) (attempt : Attempt)
    (b : Bool) (r : TaskRecord)
    → (ended task config ttl least most now attempt b r).name ≡ r.name
unfolding ended
ended-name task config ttl least most now attempt true r = refl
ended-name task config ttl least most now attempt false r = ground arith

ended-later :
    (task : TaskRecord) (config : RetryConfig) (ttl least most now t : ℕ) (attempt : Attempt)
    (b : Bool) (queue_name : String) (r : TaskRecord)
    → t < now + compute_backoff task.dispatch_count least most config.max_doublings
    → dispatchable queue_name t (ended task config ttl least most now attempt b r) ≡ false
unfolding ended dispatchable
ended-later task config ttl least most now t attempt true queue_name r h = ground arith
ended-later task config ttl least most now t attempt false queue_name r h = ground (arith, h)

with_delays-eq-ok :
    (config : RetryConfig) (next : ℕ → ℕ → Result String (Table TaskRecord)) (least most : ℕ)
    (after : Table TaskRecord)
    → config.min_backoff ≡ some least
    → config.max_backoff ≡ some most
    → with_delays config next ≡ ok after
    → next least most ≡ ok after
with_delays-eq-ok config next least most after l m h = ground (arith, l, m, h)

settle-ok :
    (task : TaskRecord) (queue : QueueRecord) (least most now : ℕ) (attempt : Attempt) (b : Bool)
    (ttl : Option ℕ) (table after : Table TaskRecord)
    → settle task queue least most now attempt b ttl table ≡ ok after
    → (life : ℕ) × (after
        ≡ updated task.name (ended task queue.retry_config life least most now attempt b) table)
unfolding settle
settle-ok task queue least most now attempt true none table after h = cc
settle-ok task queue least most now attempt true (some ttl) table after h = (ttl, cc)
settle-ok task queue least most now attempt false ttl table after h = (0, cc)

pub updated-found :
    (name id : String) (row : TaskRecord) (table : Table TaskRecord)
    (change : TaskRecord → TaskRecord)
    → Dict.Distinct table
    → get_task_by_name name table ≡ some (id, row)
    → updated name change table ≡ Dict.set id (change row) table
updated-found name id row table change d g =
    ground (arith, update_task-found name id row table change d g)

-- The update that an answer leads to.
pub dispatch_end-ok :
    (task : TaskRecord) (queue : QueueRecord) (dispatch_time now least most : ℕ) (outcome : Outcome)
    (table after : Table TaskRecord)
    → queue.retry_config.min_backoff ≡ some least
    → queue.retry_config.max_backoff ≡ some most
    → dispatch_end task queue dispatch_time now outcome table ≡ ok after
    → (ttl : ℕ) × (attempt : Attempt) × (b : Bool) × (after
        ≡ updated task.name (ended task queue.retry_config ttl least most now attempt b) table)
unfolding dispatch_end
dispatch_end-ok task queue dispatch_time now least most outcome table after l m h =
    let result = execute_http_request outcome in
    let attempt = attempt_of task result dispatch_time now in
    let (ttl, e) =
      settle-ok task queue least most now attempt result.success queue.tombstone_ttl table after
        (with_delays-eq-ok queue.retry_config _ least most after l m h) in
    (ttl, attempt, result.success, e)

-- After an answer, with well-formed delays and distinct ids, the task is found under its name again, and is not dispatchable, in any queue, before
-- the delay of its attempt has passed, whatever the answer was.
pub dispatch_end-delays :
    (task : TaskRecord) (queue : QueueRecord) (dispatch_time now least most : ℕ) (outcome : Outcome)
    (id : String) (row : TaskRecord) (table after : Table TaskRecord) (t : ℕ) (queue_name : String)
    → queue.retry_config.min_backoff ≡ some least
    → queue.retry_config.max_backoff ≡ some most
    → Dict.Distinct table
    → row.name ≡ task.name
    → get_task_by_name task.name table ≡ some (id, row)
    → dispatch_end task queue dispatch_time now outcome table ≡ ok after
    → t < now + compute_backoff task.dispatch_count least most queue.retry_config.max_doublings
    → (row' : TaskRecord) × (get_task_by_name task.name after ≡ some (id, row'))
      × (dispatchable queue_name t row' ≡ false)
dispatch_end-delays task queue dispatch_time now least most outcome id row table after t queue_name
      l m d n g h early =
    let (ttl, attempt, b, e) =
      dispatch_end-ok task queue dispatch_time now least most outcome table after l m h in
    let change = ended task queue.retry_config ttl least most now attempt b in
    let there =
      get_task_by_name-set task.name id row table (change row) d
        (ended-name task queue.retry_config ttl least most now attempt b row ∙ n) g in
    (
      change row,
      ap (get_task_by_name task.name) (e ∙ updated-found task.name id row table change d g) ∙ there,
      ended-later task queue.retry_config ttl least most now t attempt b queue_name row early,
    )
