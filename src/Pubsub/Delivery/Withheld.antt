-- ===== src/Pubsub/Delivery/Withheld.antt =====
-- A message that was pushed is withheld from the subscription: acknowledged, or until its delay has passed.
use kinglet.Base.{
  ℕ, ◌+◌, ◌<◌, ◌≡◌, ap, ◌∙◌, String, false, Option, none, some, Bool-cases, inl, inr, [], ◌∷◌, map,
  arith, string_eq,
}
use kinglet.Dict
use kinglet.Storage
use kinglet.Storage.{Table}
use kinglet.Pubsub.Messages.{Delivered, Repository, eligible, lease, acknowledge_messages}
use kinglet.Pubsub.Messages.Maintenance.{increment_delivery_attempt}
use kinglet.Pubsub.Messages.Acknowledging.{acked_by, delivered-acknowledge, acknowledged-ineligible}
use kinglet.Pubsub.Delivery.{RetryPolicy, failure_backoff, handle_push_failure, push_message, is_ok}

get-map :
    (id : String) (f : Delivered → Delivered) (table : Table Delivered) (d : Delivered)
    → Dict.get id table ≡ some d
    → Dict.get id (map (λ e. (e.0, f e.1)) table) ≡ some (f d)
unfolding Dict.get
get-map id f [] d h = cc
get-map id f ((j, e) ∷ table) d h = ground (arith, h, get-map id f table d)

module _ (sub id : String) (d : Delivered) (repo : Repository)
    (there : Dict.get id repo.delivered ≡ some d) where
  acknowledged_row :
      (mine : d.subscription_name ≡ sub)
      → Dict.get id (acknowledge_messages sub (d.ack_id ∷ []) repo).delivered
        ≡ some (acked_by sub (d.ack_id ∷ []) d)
  acknowledged_row mine =
      ap (λ (r : Repository). Dict.get id r.delivered)
        (delivered-acknowledge sub (d.ack_id ∷ []) repo)
      ∙ get-map id (acked_by sub (d.ack_id ∷ [])) repo.delivered d there

  failed_row :
      (policy : Option RetryPolicy) (now : ℕ)
      → Dict.get id (handle_push_failure id d policy now repo).delivered
        ≡ some (lease (now + failure_backoff d.delivery_attempt policy) (d.delivery_attempt + 1) d)
  unfolding handle_push_failure increment_delivery_attempt Storage.update_by_id
  failed_row policy now = ground (
    arith,
    there,
    Dict.get-set id id
        (lease (now + failure_backoff d.delivery_attempt policy) (d.delivery_attempt + 1) d)
        repo.delivered,
    string_eq.equals_iff id id,
  )

lease-ineligible :
    (sub : String) (deadline attempt t : ℕ) (d : Delivered)
    → t < deadline
    → eligible sub t (lease deadline attempt d) ≡ false
unfolding eligible lease
lease-ineligible sub deadline attempt t d h = ground (arith, h)

-- After a push of one of the subscription's stored delivery records, whatever the answer, the record is
-- there, and the subscription cannot be given it before the delay of its attempt has passed.
pub push_message-withholds :
    (sub id : String) (d : Delivered) (policy : Option RetryPolicy) (now t : ℕ) (answer : Option ℕ)
    (repo : Repository)
    → Dict.get id repo.delivered ≡ some d
    → d.subscription_name ≡ sub
    → t < now + failure_backoff d.delivery_attempt policy
    → (d' : Delivered) × (Dict.get id (push_message sub id d policy now answer repo).delivered
        ≡ some d')
      × (eligible sub t d' ≡ false)
unfolding push_message
push_message-withholds sub id d policy now t none repo there mine early =
    (_, failed_row sub id d repo there policy now, lease-ineligible sub _ _ t d early)
push_message-withholds sub id d policy now t (some code) repo there mine early =
    elim (Bool-cases (is_ok code)) [
      | inl good ↦ (
        acked_by sub (d.ack_id ∷ []) d,
        ground (arith, good, acknowledged_row sub id d repo there mine),
        acknowledged-ineligible sub (d.ack_id ∷ []) t d (
            ground (
              arith,
              mine,
              string_eq.equals_iff d.ack_id d.ack_id,
              string_eq.equals_iff d.subscription_name sub,
            )),
      )
      | inr failed ↦ (
        lease (now + failure_backoff d.delivery_attempt policy) (d.delivery_attempt + 1) d,
        ground (arith, failed, failed_row sub id d repo there policy now),
        lease-ineligible sub _ _ t d early,
      )
    ]
