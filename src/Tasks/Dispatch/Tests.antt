-- ===== src/Tasks/Dispatch/Tests.antt =====
-- Runs of the dispatch engine: a task in a queue with two attempts.
use kinglet.Base.{
  ℕ, ◌+◌, ◌*◌, ◌≤◌, ◌<◌, min, ◌≡◌, refl, String, false, Option, none, some, List, [], ◌∷◌, map,
  Result, ok, err, arith, string_eq,
}
use kinglet.Dict
use kinglet.Storage
use kinglet.Storage.{Table}
use kinglet.Tasks.Items.{
  TaskRecord, TaskStatus, pending, get_task_by_name, update_task, dispatchable,
}
use kinglet.Tasks.Dispatch.{
  QueueRecord, responded, aborted, execute_http_request, compute_backoff, exhausted, ended, start,
  requested, dispatch_begin, settle, dispatch_end, dispatch_task,
}
use kinglet.Tasks.Dispatch.Retries.{compute_backoff_lem, dispatch_end-delays}
use kinglet.Tasks.Dispatch.Attempts.{AllWithin, dispatch_task-attempts}

abbrev queue : QueueRecord
queue = record {
  name = "q";
  retry_config = record {
    max_attempts = some 2;
    min_backoff = some 100;
    max_backoff = some 3600000;
    max_doublings = 16;
  };
  tombstone_ttl = some 3600000;
}

abbrev task : TaskRecord
task = record {
  name = "t";
  queue_name = "q";
  http_request = some "{}";
  app_engine_http_request = none;
  schedule_time = 1000;
  dispatch_deadline = some 600000;
  dispatch_count = 0;
  response_count = 0;
  first_attempt = none;
  last_attempt = none;
  status = pending;
  tombstone_expiry = none;
}

abbrev table : Table TaskRecord
table = ("row", task) ∷ []

abbrev parse : String → Option String
parse text = some text

abbrev statuses : Result String (Table TaskRecord) → List (ℕ × TaskStatus)
statuses (ok ts) = map (λ e. (e.1.dispatch_count, e.1.status)) ts
statuses (err e) = []

abbrev once : Result String (Table TaskRecord)
once = dispatch_task parse task queue 2000 2500 aborted table

-- A call that timed out: the task waits again.
timed_out : statuses once ≡ (1, TaskStatus.pending) ∷ []
unfolding dispatch_task dispatch_begin requested start dispatch_end settle ended exhausted
    compute_backoff execute_http_request update_task get_task_by_name Storage.find_first
    Storage.find Storage.update_by_id Dict.get Dict.set
timed_out = refl

abbrev retried : TaskRecord
retried = record task { dispatch_count = 1; schedule_time = 2600; response_count = 1 }

-- The second failure is the last.
last_failure :
    statuses
      (dispatch_task parse retried queue 3000 3100 (responded 500 "") (("row", retried) ∷ []))
    ≡ (2, TaskStatus.failed) ∷ []
unfolding dispatch_task dispatch_begin requested start dispatch_end settle ended exhausted
    compute_backoff execute_http_request update_task get_task_by_name Storage.find_first
    Storage.find Storage.update_by_id Dict.get Dict.set
last_failure = refl

-- A success leaves a tombstone.
succeeded :
    statuses
      (dispatch_task parse retried queue 3000 3100 (responded 204 "") (("row", retried) ∷ []))
    ≡ (2, TaskStatus.tombstone) ∷ []
unfolding dispatch_task dispatch_begin requested start dispatch_end settle ended exhausted
    compute_backoff execute_http_request update_task get_task_by_name Storage.find_first
    Storage.find Storage.update_by_id Dict.get Dict.set
succeeded = refl

compute_backoff_example :
    (compute_backoff 2 100 3600000 16 ≤ compute_backoff 20 100 3600000 16)
    × (min 100 3600000 ≤ compute_backoff 2 100 3600000 16)
    × (compute_backoff 20 100 3600000 16 ≤ 3600000)
    × (16 ≤ 2 → compute_backoff 20 100 3600000 16 ≡ compute_backoff 2 100 3600000 16)
    × (compute_backoff 0 100 3600000 16 ≡ min 100 3600000)
    × (2 < 16
        → compute_backoff 3 100 3600000 16 ≡ min (2 * compute_backoff 2 100 3600000 16) 3600000)
compute_backoff_example = compute_backoff_lem 2 20 100 3600000 16 (omega arith)

found : get_task_by_name "t" table ≡ some ("row", task)
unfolding get_task_by_name Storage.find_first Storage.find
found = refl

distinct : Dict.Distinct table
unfolding Dict.get
distinct = (refl, tt)

answered_table : Table TaskRecord
unfolding dispatch_end settle ended exhausted compute_backoff execute_http_request update_task
    get_task_by_name Storage.find_first Storage.find Storage.update_by_id Dict.get Dict.set
answered_table = elim (dispatch_end task queue 2000 2500 aborted table) [ ok ts ↦ ts | err e ↦ [] ]

answered_ok : dispatch_end task queue 2000 2500 aborted table ≡ ok answered_table
unfolding answered_table
answered_ok = refl

backoff_100 : 2550 < 2500 + compute_backoff 0 100 3600000 16
unfolding compute_backoff
backoff_100 = omega arith

dispatch_end-delays_example :
    (row' : TaskRecord) × (get_task_by_name "t" answered_table ≡ some ("row", row'))
    × (dispatchable "q" 2550 row' ≡ false)
dispatch_end-delays_example =
    dispatch_end-delays task queue 2000 2500 100 3600000 aborted "row" task table answered_table
      2550 "q" refl refl distinct refl found answered_ok backoff_100

once_table : Table TaskRecord
unfolding dispatch_task dispatch_begin requested start dispatch_end settle ended exhausted
    compute_backoff execute_http_request update_task get_task_by_name Storage.find_first
    Storage.find Storage.update_by_id Dict.get Dict.set
once_table = elim once [ ok ts ↦ ts | err e ↦ [] ]

once_ok : dispatch_task parse task queue 2000 2500 aborted table ≡ ok once_table
unfolding once_table
once_ok = refl

dispatch_task-attempts_example : AllWithin 2 once_table
dispatch_task-attempts_example =
    dispatch_task-attempts parse task queue 2000 2500 2 aborted "row" table once_table refl refl
      found distinct (omega arith, λ _. omega arith) ((omega arith, λ _. omega arith), tt) once_ok
