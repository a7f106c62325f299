-- ===== src/SessionQueue.antt =====
-- src/shared/postgres-data-plane/pglite-session-queue.ts: the queue that lets several connections
-- share one Postgres backend. The backend is a parameter: `exec` runs the bytes of one message, and
-- says whether the call returned or threw; `in_transaction` is what it reports. `onData` is left out.
-- An `await` is where other events come in: `finish` is the code behind the backend's answer, and
-- `resume` is the next round of the loop in `drain`.
mod Isolation
mod Steps
mod Fairness
mod Promises
mod Recovery
mod Tests
use kinglet.Base.{
  ℕ, zero, suc, ◌+◌, ◌/◌, ◌%◌, ◌^◌, String, Bool, true, false, not, Option, none, some, List, [],
  ◌∷◌, ◌++◌, map, ◌==◌, if◌then◌else◌, keep, any, length, string_eq,
}

-- `QueuedMessage`; `promise` numbers the promise that `enqueue` returned.
pub record Message : Type 0 where
  pub connection_id : String
  pub bytes : List ℕ
  pub promise : ℕ

pub record Queue : Type 0 where
  pub pending : List Message
  pub is_draining : Bool
  pub detached : List String
  pub owner : Option String

-- `buildSimpleQueryMessage` over the encoded query: tag, length, body, and a zero byte.
pub build_simple_query_message : List ℕ → List ℕ
build_simple_query_message body =
    let n = 5 + length body in
    0x51 ∷ (n / 2 ^ 24 % 256) ∷ (n / 2 ^ 16 % 256) ∷ (n / 2 ^ 8 % 256) ∷ (n % 256) ∷ body ++ 0 ∷ []

-- "ROLLBACK" in bytes.
abbrev pub rollback_text : List ℕ
rollback_text = b'R' ∷ b'O' ∷ b'L' ∷ b'L' ∷ b'B' ∷ b'A' ∷ b'C' ∷ b'K' ∷ []

pub rollback_query_message : List ℕ
unfolding build_simple_query_message
rollback_query_message = build_simple_query_message rollback_text

-- The promise of a rollback that the queue sends by itself.
pub rollback_message : String → Message
rollback_message connection_id = record {
  connection_id = connection_id;
  bytes = rollback_query_message;
  promise = 0;
}

abbrev pub is_from : String → Message → Bool
is_from connection_id message = message.connection_id == connection_id

-- The first message of the connection, and the queue without it: `findIndex` and `splice`.
pub take_first_from : String → List Message → Option (Message × List Message)
take_first_from c [] = none
take_first_from c (m ∷ ms) =
    if is_from c m
    then some (m, ms)
    else elim (take_first_from c ms) [ none ↦ none | some (found, rest) ↦ some (found, m ∷ rest) ]

pub take_head : List Message → Option (Message × List Message)
take_head [] = none
take_head (m ∷ ms) = some (m, ms)

-- `takeNextRunnableMessage`
pub take_next_runnable : Option String → List Message → Option (Message × List Message)
unfolding take_head take_first_from
take_next_runnable none pending = take_head pending
take_next_runnable (some c) pending = take_first_from c pending

pub delete_id : String → List String → List String
delete_id c = keep (λ d. not (d == c))

pub has_id : String → List String → Bool
has_id c = any (λ d. d == c)

pub add_id : String → List String → List String
unfolding has_id
add_id c ids = if has_id c ids then ids else ids ++ c ∷ []

-- How a promise ended.
pub data Settled : Type 0 where
  resolved rejected abandoned : Settled

-- One executed message: its connection, and whether the backend was in a transaction after it.
pub record Executed : Type 0 where
  pub connection_id : String
  pub left_open : Bool

-- The queue, the message whose `run` waits for the backend, the backend, and two logs: what the
-- backend executed, the newest first, and how the promises ended.
pub record World (B : Type 0) : Type 0 where
  pub queue : Queue
  pub running : Option Message
  pub backend : B
  pub executed : List Executed
  pub settled : List (Message × Settled)

abbrev pub owned_by : Option String → String → Bool
owned_by none c = false
owned_by (some o) c = o == c

module _ {B : Type 0} where
  -- One round of the loop in `drain`.
  pub take_next : World B → World B
  take_next w =
      let q = w.queue in
      elim (take_next_runnable q.owner q.pending) [
        | none ↦ record w { queue = record q { is_draining = false } }
        | some (m, rest) ↦ record w { queue = record q { pending = rest }; running = some m }
      ]

  -- `drain`, up to its first `await`.
  pub drain : World B → World B
  drain w =
      let q = w.queue in
      if q.is_draining then w else take_next (record w { queue = record q { is_draining = true } })

  pub enqueue : Message → World B → World B
  unfolding drain
  enqueue m w =
      let q = w.queue in drain (record w { queue = record q { pending = q.pending ++ m ∷ [] } })

  -- `rollback`, up to its `await`.
  pub rollback : String → World B → World B
  rollback c w =
      let w' = enqueue (rollback_message c) w in
      let q = w'.queue in record w' { queue = record q { detached = delete_id c q.detached } }

  -- The part of `detach` before its test: what the connection had queued fails now.
  pub abandon : String → World B → World B
  abandon c w =
      let q = w.queue in
      record w {
        queue = record q {
          pending = keep (λ m. not (is_from c m)) q.pending;
          detached = add_id c q.detached;
        };
        settled = w.settled ++ map (λ m. (m, abandoned)) (keep (is_from c) q.pending);
      }

  pub detach : String → World B → World B
  unfolding abandon
  detach c w = let w' = abandon c w in if owned_by w.queue.owner c then rollback c w' else w'

  -- The next round of the loop in `drain`, once the message before has been dealt with.
  pub resume : World B → World B
  resume w = take_next w

  -- The end of `run`: a connection that is gone cannot close the transaction that it opened.
  pub rollback_if_lost : World B → World B
  rollback_if_lost w = elim w.queue.owner [
    | none ↦ w
    | some o ↦ if has_id o w.queue.detached then rollback o w else w
  ]

module _ {B : Type 0} (exec : B → List ℕ → B × Bool) (in_transaction : B → Bool) where
  -- `run` behind the backend's answer to the message, up to the check for a lost connection.
  pub settle : Message → World B → World B
  settle m w =
      let (b, returned) = exec w.backend m.bytes in
      let q = w.queue in
      record w {
        queue = record q { owner = if in_transaction b then some m.connection_id else none };
        running = none;
        backend = b;
        executed =
            (record { connection_id = m.connection_id; left_open = in_transaction b }) ∷ w.executed;
        settled = w.settled ++ (m, if returned then resolved else rejected) ∷ [];
      }

  pub finish : Message → World B → World B
  finish m w = rollback_if_lost (settle m w)
