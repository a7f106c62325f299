-- ===== src/Pubsub/Delivery.antt =====
-- src/services/pubsub/delivery-engine.ts: the push of one message, its failure, and the dead-letter
-- topic. Durations are in milliseconds. The client's answer is a value, `none` where the call throws; the
-- caller's `publishFn` and whether `JSON.parse` accepts an attributes text are parameters.
mod Withheld
mod Tests
use kinglet.Base.{
  ℕ, ◌+◌, ◌*◌, ◌^◌, min, String, Bool, true, false, ◌&&◌, Option, none, some, List, [], ◌∷◌, leb,
  if◌then◌else◌, Result, ok, err, ◌>>=◌,
}
use kinglet.Pubsub.Messages.{Message, Delivered, Repository, PublishInput, acknowledge_messages}
use kinglet.Pubsub.Messages.Maintenance.{increment_delivery_attempt, find_push_deliverable}

-- A duration of the policy: it may be left out, or be a text on which `parseDurationSeconds` throws.
pub data Backoff : Type 0 where
  unset malformed : Backoff
  milliseconds : ℕ → Backoff

pub record RetryPolicy : Type 0 where
  pub minimum_backoff : Backoff
  pub maximum_backoff : Backoff

pub record DeadLetterPolicy : Type 0 where
  pub dead_letter_topic : Option String
  pub max_delivery_attempts : Option ℕ

abbrev pub default_min_backoff : ℕ
default_min_backoff = 10000

abbrev pub default_max_backoff : ℕ
default_max_backoff = 600000

abbrev or_default : Backoff → ℕ → Result String ℕ
or_default unset fallback = ok fallback
or_default malformed fallback = err "Invalid duration format"
or_default (milliseconds n) fallback = ok n

pub compute_backoff : ℕ → Option RetryPolicy → Result String ℕ
compute_backoff attempt none = ok (min (default_min_backoff * 2 ^ attempt) default_max_backoff)
compute_backoff attempt (some policy) =
    or_default policy.minimum_backoff default_min_backoff >>= λ least.
    or_default policy.maximum_backoff default_max_backoff >>= λ most.
    ok (min (least * 2 ^ attempt) most)

-- The delay after a failed push, with the default for a malformed policy.
pub failure_backoff : ℕ → Option RetryPolicy → ℕ
unfolding compute_backoff
failure_backoff attempt policy = elim (compute_backoff attempt policy) [
  | ok backoff ↦ backoff
  | err e ↦ min (default_min_backoff * 2 ^ attempt) default_max_backoff
]

pub handle_push_failure : String → Delivered → Option RetryPolicy → ℕ → Repository → Repository
unfolding failure_backoff
handle_push_failure id delivered policy now repo =
    increment_delivery_attempt id (now + failure_backoff delivered.delivery_attempt policy) repo

-- `response.ok`
abbrev pub is_ok : ℕ → Bool
is_ok code = leb 200 code && leb code 299

pub push_message :
    String → String → Delivered → Option RetryPolicy → ℕ → Option ℕ → Repository → Repository
unfolding handle_push_failure
push_message sub id delivered policy now none repo =
    handle_push_failure id delivered policy now repo
push_message sub id delivered policy now (some code) repo =
    if is_ok code
    then acknowledge_messages sub (delivered.ack_id ∷ []) repo
    else handle_push_failure id delivered policy now repo

abbrev readable : (String → Bool) → Option String → Bool
readable is_json none = true
readable is_json (some text) = is_json text

module _ (publish_fn : Option (String → PublishInput → Repository → Repository))
    (is_json : String → Bool) where
  -- A publication that throws leaves what it has done: either way the message is acknowledged.
  pub route_to_dead_letter : DeadLetterPolicy → Message → String → String → Repository → Repository
  route_to_dead_letter policy message ack_id sub repo = elim policy.dead_letter_topic [
    | none ↦ acknowledge_messages sub (ack_id ∷ []) repo
    | some topic ↦ elim publish_fn [
      | none ↦ acknowledge_messages sub (ack_id ∷ []) repo
      | some publish ↦
          let published =
            publish topic
              (record {
                content = message.content;
                attributes = message.attributes;
                ordering_key = message.ordering_key;
              })
              repo in
          acknowledge_messages sub (ack_id ∷ [])
            (if readable is_json message.attributes then published else repo)
    ]
  ]

  abbrev attempts_used_up : Option DeadLetterPolicy → Delivered → Bool
  attempts_used_up none d = false
  attempts_used_up (some policy) d = elim policy.max_delivery_attempts [
    | none ↦ false
    | some most ↦ leb most d.delivery_attempt
  ]

  -- One turn of the loop of `tick`.
  pub deliver :
      String
      → Option DeadLetterPolicy
      → Option RetryPolicy
      → ℕ
      → Option ℕ
      → (String × Delivered) × Message
      → Repository
      → Repository
  unfolding route_to_dead_letter push_message
  deliver sub none retry now answer ((id, d), message) repo =
      push_message sub id d retry now answer repo
  deliver sub (some policy) retry now answer ((id, d), message) repo =
      if attempts_used_up (some policy) d
      then route_to_dead_letter policy message d.ack_id sub repo
      else push_message sub id d retry now answer repo

  -- The deliveries of one subscription, each with the client's answer.
  pub deliver_each :
      String
      → Option DeadLetterPolicy
      → Option RetryPolicy
      → ℕ
      → (String → Option ℕ)
      → List ((String × Delivered) × Message)
      → Repository
      → Repository
  unfolding deliver
  deliver_each sub dead retry now answer [] repo = repo
  deliver_each sub dead retry now answer (item ∷ items) repo =
      deliver_each sub dead retry now answer items
        (deliver sub dead retry now (answer item.0.0) item repo)

  -- `tick`, for one push subscription, with `DEFAULT_BATCH_SIZE`.
  pub tick_subscription :
      String
      → Option DeadLetterPolicy
      → Option RetryPolicy
      → ℕ
      → (String → Option ℕ)
      → Repository
      → Repository
  unfolding deliver_each
  tick_subscription sub dead retry now answer repo =
      deliver_each sub dead retry now answer (find_push_deliverable sub 10 now repo) repo
