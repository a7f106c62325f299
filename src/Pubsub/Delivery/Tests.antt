-- ===== src/Pubsub/Delivery/Tests.antt =====
-- A push that fails, with the default retry policy.
use kinglet.Base.{◌+◌, ◌<◌, ◌≡◌, refl, false, none, some, [], ◌∷◌, arith, string_eq}
use kinglet.Dict
use kinglet.Storage
use kinglet.Pubsub.Messages.{pending, Delivered, Repository, eligible, lease}
use kinglet.Pubsub.Messages.Maintenance.{increment_delivery_attempt}
use kinglet.Pubsub.Delivery.{
  milliseconds, malformed, compute_backoff, failure_backoff, handle_push_failure, push_message,
}
use kinglet.Pubsub.Delivery.Withheld.{push_message-withholds}

abbrev row : Delivered
row = record {
  ack_id = "ack";
  subscription_name = "s";
  message_id = "m";
  delivery_attempt = 2;
  ack_deadline = 0;
  ack_status = pending;
}

abbrev repo : Repository
repo = record { messages = []; delivered = ("row", row) ∷ []; next_uuid = 0 }

delays :
    (failure_backoff 2 none ≡ 40000)
    × (failure_backoff 9 none ≡ 600000)
    × (failure_backoff 0
          (some (record { minimum_backoff = malformed; maximum_backoff = milliseconds 5 }))
        ≡ 10000)
unfolding failure_backoff compute_backoff
delays = (refl, refl, refl)

failed_push :
    (push_message "s" "row" row none 1000 (some 503) repo).delivered
    ≡ ("row", record row { ack_deadline = 41000; delivery_attempt = 3 }) ∷ []
unfolding push_message handle_push_failure failure_backoff compute_backoff
    increment_delivery_attempt lease Storage.update_by_id Dict.get Dict.set
failed_push = refl

row_there : Dict.get "row" repo.delivered ≡ some row
unfolding Dict.get
row_there = refl

early : 40999 < 1000 + failure_backoff 2 none
unfolding failure_backoff compute_backoff
early = omega arith

push_message-withholds_example :
    (d' : Delivered) × (Dict.get "row"
        (push_message "s" "row" row none 1000 (some 503) repo).delivered
      ≡ some d')
    × (eligible "s" 40999 d' ≡ false)
push_message-withholds_example =
    push_message-withholds "s" "row" row none 1000 40999 (some 503) repo row_there refl early
