-- ===== src/Pubsub/Messages/Tests.antt =====
-- Runs of the message repository: a topic with two subscriptions.
use kinglet.Base.{
  keep, ap, ℕ, zero, suc, ◌≡◌, refl, ◌+◌, ◌*◌, String, Bool, true, false, if◌then◌else◌, ◌==◌,
  string_eq, none, some, List, [], ◌∷◌, map, length, arith, All,
}
use kinglet.Dict
use kinglet.Storage
use kinglet.Storage.{Table}
use kinglet.Pubsub.Messages.{
  pending, acked, Message, Delivered, Repository, Received, PublishInput, fan_out, publish_one,
  publish_messages, pull_each, pull_messages, eligible, find_message, lease, acknowledge_messages,
}
use kinglet.Pubsub.Messages.Maintenance.{delete_messages_by_subscription}
use kinglet.Pubsub.Messages.Acknowledging.{acked_by, delivered-acknowledge}
use kinglet.Pubsub.Messages.Publishing.{Fresh, picked, occurrences, publish_messages-backlog}
use kinglet.Pubsub.Messages.Stored.{Stored}
use kinglet.Pubsub.Messages.LeasedRows.{leased_until, deliverable, has_message}
use kinglet.Pubsub.Messages.Leases.{pull_messages-leases}
use kinglet.Pubsub.Messages.Cleanup.{backlog, backlog-delete_messages_by_subscription}

abbrev id_names : List String
id_names = "m" ∷ "m-row" ∷ "ack-a" ∷ "row-a" ∷ "ack-b" ∷ "row-b" ∷ []

abbrev nth : List String → ℕ → String
nth [] n = "more"
nth (s ∷ ss) zero = s
nth (s ∷ ss) (suc n) = nth ss n

abbrev ids : ℕ → String
ids n = nth id_names n

abbrev hello : PublishInput
hello = record { content = some "aGVsbG8="; attributes = none; ordering_key = none }

abbrev subscribers : List String
subscribers = "a" ∷ "b" ∷ []

abbrev empty : Repository
empty = record { messages = []; delivered = []; next_uuid = 0 }

abbrev published : Repository
published = (publish_messages ids 1000 "topic" (hello ∷ []) subscribers empty).0

abbrev stored : Message
stored = record {
  message_id = "m";
  topic_name = "topic";
  content = some "aGVsbG8=";
  attributes = none;
  ordering_key = none;
  publish_time = 1000;
}

fan_out_two : map (λ e. e.1.subscription_name) published.delivered ≡ subscribers
unfolding publish_messages publish_one fan_out Storage.create Dict.set
fan_out_two = refl

first_pull :
    (pull_messages "a" 10 30 2000 published).1
    ≡ (record { ack_id = "ack-a"; message = stored; delivery_attempt = 1 }) ∷ []
unfolding publish_messages publish_one fan_out Storage.create Dict.set pull_messages pull_each
    eligible find_message lease Storage.find Storage.find_first Storage.update_by_id Dict.get
first_pull = refl

-- The other subscription still has its own.
second_pull :
    map
      (λ (r : Received). r.ack_id)
      (pull_messages "b" 10 30 2000 (pull_messages "a" 10 30 2000 published).0).1
    ≡ "ack-b" ∷ []
unfolding publish_messages publish_one fan_out Storage.create Dict.set pull_messages pull_each
    eligible find_message lease Storage.find Storage.find_first Storage.update_by_id Dict.get
second_pull = refl

abbrev row_a : Delivered
row_a = record {
  ack_id = "ack-a";
  subscription_name = "a";
  message_id = "m";
  delivery_attempt = 0;
  ack_deadline = 0;
  ack_status = pending;
}

abbrev row_b : Delivered
row_b = record row_a { ack_id = "ack-b"; subscription_name = "b" }

abbrev two : Repository
two = record {
  messages = ("m-row", stored) ∷ [];
  delivered = ("row-a", row_a) ∷ ("row-b", row_b) ∷ [];
  next_uuid = 6;
}

delivered-acknowledge_example : acknowledge_messages "a" ("ack-a" ∷ "ack-b" ∷ []) two ≡ record two {
  delivered = map (λ e. (e.0, acked_by "a" ("ack-a" ∷ "ack-b" ∷ []) e.1)) two.delivered;
}
delivered-acknowledge_example = delivered-acknowledge "a" ("ack-a" ∷ "ack-b" ∷ []) two

pull_messages-leases_example :
    All
      (λ (row : String × Delivered).
        has_message two row ≡ true
        → (leased_until row.0 (2000 + 30 * 1000) (pull_messages "a" 10 30 2000 two).0.delivered
            ≡ true)
          × (deliverable row.0 "a" 31999 (pull_messages "a" 10 30 2000 two).0.delivered ≡ false))
      (Storage.find (eligible "a" 2000) 10 0 two.delivered)
pull_messages-leases_example = pull_messages-leases "a" "a" 10 30 2000 31999 two (omega arith)

-- The example's pull finds one row, whose message is stored.
one_found :
    map {B = String × Bool}
      (λ e. (e.0, has_message two e))
      (Storage.find (eligible "a" 2000) 10 0 two.delivered)
    ≡ ("row-a", true) ∷ []
unfolding Storage.find eligible find_message Storage.find_first
one_found = refl

abbrev half_acked : Repository
half_acked = record two {
  delivered = ("row-a", record row_a { ack_status = acked }) ∷ ("row-b", row_b) ∷ [];
}

abbrev after_delete : String → Table Delivered
after_delete sub = if sub == "a" then [] else backlog sub 2000 two

backlog-delete_example :
    backlog "b" 2000 (delete_messages_by_subscription "a" two) ≡ after_delete "b"
backlog-delete_example = backlog-delete_messages_by_subscription "a" "b" 2000 two

-- Ids that never repeat.
abbrev tally_mark : ℕ → String
tally_mark zero = String.[]
tally_mark (suc n) = String.◌∷◌ "x" (tally_mark n)

tally_mark-injective : (i j : ℕ) → tally_mark i ≡ tally_mark j → i ≡ j
tally_mark-injective zero zero h = refl
tally_mark-injective zero (suc j) h = cc
tally_mark-injective (suc i) zero h = cc
tally_mark-injective (suc i) (suc j) h = ap suc (tally_mark-injective i j cc)

nothing_stored : Fresh tally_mark empty
unfolding Dict.get find_message Storage.find_first Storage.find
nothing_stored k le = (refl, refl, refl)

-- The id of the first of the two messages.
abbrev first_id : String → Bool
first_id id = id == ""

publish_messages-backlog_example :
    let (repo', ids) =
      publish_messages tally_mark 1000 "topic" (hello ∷ hello ∷ []) subscribers empty in
    Fresh tally_mark repo'
    × Stored 1000 "topic" ids (hello ∷ hello ∷ []) repo'
    × (length (picked "a" 2000 first_id repo')
        ≡ length (picked "a" 2000 first_id empty)
          + length (keep first_id ids) * occurrences "a" subscribers)
publish_messages-backlog_example =
    publish_messages-backlog tally_mark tally_mark-injective "a" 2000 first_id 1000 "topic"
      (hello ∷ hello ∷ []) subscribers empty nothing_stored
