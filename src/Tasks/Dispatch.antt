-- ===== src/Tasks/Dispatch.antt =====
-- src/services/tasks/dispatch-engine.ts: one dispatch of a task. The retry configuration is parsed:
-- `max_attempts` is `none` for -1, and a duration is in milliseconds, `none` where
-- `parseDurationSeconds` throws on its text. What `JSON.parse` makes of a request's text is a
-- parameter, and the client's answer is a value. Logging and timers are left out.
mod Retries
mod Attempts
mod Tests
use kinglet.Base.{
  ℕ, ◌+◌, ◌*◌, ◌^◌, min, String, Bool, true, false, ◌&&◌, not, Option, none, some, List, [], ◌∷◌,
  leb, if◌then◌else◌, Result, ok, err, ◌>>=◌, ◌==◌, string_eq,
}
use kinglet.Storage
use kinglet.Storage.{Table}
use kinglet.Tasks.Items.{
  TaskRecord, TaskStatus, pending, dispatching, failed, tombstone, Attempt, update_task,
}

pub record RetryConfig : Type 0 where
  pub max_attempts : Option ℕ
  pub min_backoff : Option ℕ
  pub max_backoff : Option ℕ
  pub max_doublings : ℕ

pub record QueueRecord : Type 0 where
  pub name : String
  pub retry_config : RetryConfig
  pub tombstone_ttl : Option ℕ

-- What the HTTP client did: it answered with a status, its call was aborted, or it threw.
pub data Outcome : Type 0 where
  responded : ℕ → String → Outcome
  aborted threw : Outcome

pub record HttpResult : Type 0 where
  pub success : Bool
  pub status_code : ℕ
  pub status_message : String

-- `response.ok`
abbrev pub is_ok : ℕ → Bool
is_ok code = leb 200 code && leb code 299

abbrev or_text : String → String → String
or_text s fallback = if s == "" then fallback else s

pub execute_http_request : Outcome → HttpResult
execute_http_request (responded code message) = record {
  success = is_ok code;
  status_code = code;
  status_message = or_text message (if is_ok code then "OK" else "Error");
}
execute_http_request aborted = record {
  success = false;
  status_code = 504;
  status_message = "Gateway Timeout";
}
execute_http_request threw = record {
  success = false;
  status_code = 500;
  status_message = "Internal Server Error";
}

-- `computeBackoffSeconds`
pub compute_backoff : ℕ → ℕ → ℕ → ℕ → ℕ
compute_backoff attempt min_backoff max_backoff max_doublings =
    min (min_backoff * 2 ^ min attempt max_doublings) max_backoff

-- `nextAttempt >= maxAttempts`
pub exhausted : Option ℕ → ℕ → Bool
exhausted none next_attempt = false
exhausted (some max_attempts) next_attempt = leb max_attempts next_attempt

-- `updateTask`, whose result the dispatch ignores.
abbrev pub updated : String → (TaskRecord → TaskRecord) → Table TaskRecord → Table TaskRecord
updated name change table = elim (update_task name change table) [ none ↦ table | some t ↦ t ]

-- The fields that each end of an attempt writes, from the task as it was read.
abbrev pub answered : TaskRecord → Attempt → TaskRecord → TaskRecord
answered task attempt t = record t {
  response_count = task.response_count + 1;
  last_attempt = some attempt;
  first_attempt = elim task.first_attempt [ none ↦ some attempt | some _ ↦ t.first_attempt ];
}

-- The update that starts an attempt.
abbrev pub begun : TaskRecord → TaskRecord → TaskRecord
begun task t = record t { status = dispatching; dispatch_count = task.dispatch_count + 1 }

-- The update that ends an attempt, after the delays of the configuration.
pub ended : TaskRecord → RetryConfig → ℕ → ℕ → ℕ → ℕ → Attempt → Bool → TaskRecord → TaskRecord
unfolding exhausted compute_backoff
ended task config ttl min_backoff max_backoff now attempt true t =
    record (answered task attempt t) { status = tombstone; tombstone_expiry = some (now + ttl) }
ended task config ttl min_backoff max_backoff now attempt false t =
    if exhausted config.max_attempts (task.dispatch_count + 1)
    then record (answered task attempt t) { status = failed }
    else record (answered task attempt t) {
      status = pending;
      schedule_time =
          now + compute_backoff task.dispatch_count min_backoff max_backoff config.max_doublings;
    }

-- The configuration's two delays, or the error of a malformed one.
abbrev pub with_delays {ℓ} :
    {A : Type ℓ} → RetryConfig → (ℕ → ℕ → Result String A) → Result String A
with_delays config next = elim config.min_backoff [
  | none ↦ err "Invalid duration format"
  | some least ↦ elim config.max_backoff [
    | none ↦ err "Invalid duration format"
    | some most ↦ next least most
  ]
]

module _ {Request : Type 0} (parse_request : String → Option Request) where
  -- The update of a task with a request to send.
  start : TaskRecord → Option Request → Table TaskRecord → Table TaskRecord × Option Request
  start task none table = (table, none)
  start task (some request) table = (updated task.name (begun task) table, some request)

  requested : TaskRecord → Table TaskRecord → Option String → Table TaskRecord × Option Request
  unfolding start
  requested task table none = (table, none)
  requested task table (some text) = start task (parse_request text) table

  -- `dispatchTask` up to the call of the client: the request, if there is one to send.
  pub dispatch_begin :
      TaskRecord
      → QueueRecord
      → Table TaskRecord
      → Result String (Table TaskRecord × Option Request)
  unfolding requested
  dispatch_begin task queue table =
      with_delays queue.retry_config (λ least most. ok (requested task table task.http_request))

abbrev pub attempt_of : TaskRecord → HttpResult → ℕ → ℕ → Attempt
attempt_of task result dispatch_time now = record {
  schedule_time = task.schedule_time;
  dispatch_time = dispatch_time;
  response_time = now;
  code = result.status_code;
  message = result.status_message;
}

-- The update for an answer: on success a malformed time to live of the tombstone is an error.
pub settle :
    TaskRecord
    → QueueRecord
    → ℕ
    → ℕ
    → ℕ
    → Attempt
    → Bool
    → Option ℕ
    → Table TaskRecord
    → Result String (Table TaskRecord)
unfolding ended
settle task queue least most now attempt true none table = err "Invalid duration format"
settle task queue least most now attempt true (some ttl) table =
    ok (updated task.name (ended task queue.retry_config ttl least most now attempt true) table)
settle task queue least most now attempt false ttl table =
    ok (updated task.name (ended task queue.retry_config 0 least most now attempt false) table)

-- The rest, once the client has answered.
pub dispatch_end :
    TaskRecord → QueueRecord → ℕ → ℕ → Outcome → Table TaskRecord → Result String (Table TaskRecord)
unfolding settle execute_http_request
dispatch_end task queue dispatch_time now outcome table =
    let result = execute_http_request outcome in
    let attempt = attempt_of task result dispatch_time now in
    with_delays queue.retry_config (λ least most.
      settle task queue least most now attempt result.success queue.tombstone_ttl table)

-- The whole of `dispatchTask`, when nothing else changes the table meanwhile. Where the code throws after it has
-- marked the task as dispatching, the table so marked is `dispatch_begin`'s and not part of the error.
unfoldable pub dispatch_task :
    {Request : Type 0}
    → (String → Option Request)
    → TaskRecord
    → QueueRecord
    → ℕ
    → ℕ
    → Outcome
    → Table TaskRecord
    → Result String (Table TaskRecord)
dispatch_task parse_request task queue dispatch_time now outcome table =
    dispatch_begin parse_request task queue table >>= λ begun_table. elim begun_table.1 [
      | none ↦ ok begun_table.0
      | some request ↦ dispatch_end task queue dispatch_time now outcome begun_table.0
    ]
