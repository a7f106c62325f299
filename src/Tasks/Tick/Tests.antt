-- ===== src/Tasks/Tick/Tests.antt =====
-- A tick over a queue with two due tasks and one slot.
use kinglet.Base.{
  ℕ, ◌+◌, ◌≤◌, ◌≡◌, refl, String, none, some, [], ◌∷◌, map, All, arith, length, take, keep,
}
use kinglet.Storage
use kinglet.Storage.{Table}
use kinglet.Base.Int.{pos, ◌+ℤ◌, ◌-ℤ◌}
use kinglet.Tasks.Items.{
  TaskRecord, TaskStatus, dispatchable, insert_by_time, sort_by_time, find_dispatchable_tasks,
}
use kinglet.Tasks.TokenBucket.{TokenBucket, acquire, refill}
use kinglet.Tasks.Tick.{take_tasks, tick_queue}
use kinglet.Tasks.Tick.Taken.{is_ready, IsReady, tick_queue-due}

abbrev at : ℕ → TaskRecord
at time = record {
  name = "t";
  queue_name = "q";
  http_request = some "{}";
  app_engine_http_request = none;
  schedule_time = time;
  dispatch_deadline = none;
  dispatch_count = 0;
  response_count = 0;
  first_attempt = none;
  last_attempt = none;
  status = TaskStatus.pending;
  tombstone_expiry = none;
}

abbrev waiting : Table TaskRecord
waiting = ("late", at 900) ∷ ("early", at 100) ∷ ("future", at 5000) ∷ []

abbrev one_slot : TokenBucket
one_slot = record {
  tokens = pos 2;
  concurrent = 3;
  config = record { max_tokens = 5; refill_rate = 1; max_concurrent = 4 };
}

earliest_first : map (λ e. e.0) (tick_queue 1 "q" 1000 waiting one_slot).1 ≡ "early" ∷ []
unfolding tick_queue take_tasks find_dispatchable_tasks Storage.find dispatchable insert_by_time
    sort_by_time acquire refill ◌+ℤ◌ ◌-ℤ◌
earliest_first = refl

tick_queue-due_example :
    let (b', taken) = tick_queue 1 "q" 1000 waiting one_slot in
    All (λ (e : String × TaskRecord). IsReady "q" 1000 e.1) taken
    × (length taken ≤ 10)
    × (taken ≡ take (length taken) (sort_by_time (keep (λ e. is_ready "q" 1000 e.1) waiting)))
    × (b'.concurrent ≡ 3 + length taken)
    × (b'.concurrent ≤ 4)
tick_queue-due_example = tick_queue-due 1 "q" 1000 waiting one_slot (omega arith)
