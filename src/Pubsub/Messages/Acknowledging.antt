-- ===== src/Pubsub/Messages/Acknowledging.antt =====
-- What an acknowledgement does to the delivery records.
use mathlib.Core.Path.{ap₂}
use kinglet.Base.{
  ℕ, ◌≡◌, refl, ap, ◌∙◌, String, true, false, ◌&&◌, ◌==◌, List, [], ◌∷◌, map, arith, if◌then◌else◌,
  any, Bool-cases, inl, inr, string_eq,
}
use kinglet.Storage
use kinglet.Storage.{Table}
use kinglet.Pubsub.Messages.{
  Delivered, Repository, acked, eligible, addressed, acknowledge_messages,
}

-- The record after an acknowledgement of the ids by the subscription: it is marked if it belongs to the
-- subscription and has one of the ids.
abbrev pub acked_by : String → List String → Delivered → Delivered
acked_by sub ack_ids d =
    if d.subscription_name == sub && any (λ a. d.ack_id == a) ack_ids
    then record d { ack_status = acked }
    else d

ack_table : String → List String → Table Delivered → Table Delivered
ack_table sub ack_ids table = map (λ e. (e.0, acked_by sub ack_ids e.1)) table

acked_first :
    (sub a : String) (more : List String) (d : Delivered)
    → acked_by sub more (if addressed sub a d then record d { ack_status = acked } else d)
      ≡ acked_by sub (a ∷ more) d
acked_first sub a more d = elim (Bool-cases (d.subscription_name == sub)) [
  | inl own ↦ elim (Bool-cases (d.ack_id == a)) [
    | inl hit ↦ ground (arith, own, hit)
    | inr missed ↦ ground (arith, own, missed)
  ]
  | inr foreign ↦ ground (arith, foreign)
]

ack_table_first :
    (sub a : String) (more : List String) (table : Table Delivered)
    → ack_table sub more
        (Storage.update_many (addressed sub a) (λ d. record d { ack_status = acked }) table)
      ≡ ack_table sub (a ∷ more) table
unfolding ack_table Storage.update_many
ack_table_first sub a more [] = refl
ack_table_first sub a more ((id, d) ∷ table) =
    ap₂ (λ (x : Delivered) (t : Table Delivered). (id, x) ∷ t) (acked_first sub a more d)
      (ack_table_first sub a more table)

ack_table_none : (sub : String) (table : Table Delivered) → ack_table sub [] table ≡ table
unfolding ack_table
ack_table_none sub [] = refl
ack_table_none sub (e ∷ table) = ground (arith, ack_table_none sub table)

acknowledge_table :
    (sub : String) (ack_ids : List String) (repo : Repository)
    → acknowledge_messages sub ack_ids repo
      ≡ record repo { delivered = ack_table sub ack_ids repo.delivered }
unfolding acknowledge_messages
acknowledge_table sub [] repo = rw (ack_table_none sub repo.delivered) refl
acknowledge_table sub (a ∷ more) repo =
    let marked : Repository = record repo {
      delivered =
          Storage.update_many (addressed sub a) (λ d. record d { ack_status = acked })
            repo.delivered;
    } in
    acknowledge_table sub more marked
    ∙ ap (λ (t : Table Delivered). record repo { delivered = t })
        (ack_table_first sub a more repo.delivered)

-- An acknowledgement marks exactly the records with one of the ids that belong to the subscription, and
-- leaves all else alone: the ids of another subscription have no effect.
pub delivered-acknowledge :
    (sub : String) (ack_ids : List String) (repo : Repository)
    → acknowledge_messages sub ack_ids repo
      ≡ record repo { delivered = map (λ e. (e.0, acked_by sub ack_ids e.1)) repo.delivered }
unfolding ack_table
delivered-acknowledge sub ack_ids repo = acknowledge_table sub ack_ids repo

-- After an acknowledgement by the subscription none of its records with one of the ids is eligible for
-- it, at any time.
pub acknowledged-ineligible :
    (sub : String) (ack_ids : List String) (now : ℕ) (d : Delivered)
    → (d.subscription_name == sub && any (λ a. d.ack_id == a) ack_ids) ≡ true
    → eligible sub now (acked_by sub ack_ids d) ≡ false
unfolding eligible
acknowledged-ineligible sub ack_ids now d h = ground arith
