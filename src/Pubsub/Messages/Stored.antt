-- ===== src/Pubsub/Messages/Stored.antt =====
-- The messages that a publication stores.
use kinglet.Base.{
  ℕ, ◌+◌, ◌≡◌, refl, ap, ◌∙◌, String, Bool, true, false, Option, none, some, List, [], ◌∷◌, arith,
  if◌then◌else◌, Bool-cases, inl, inr, string_eq, ◌==◌,
}
use kinglet.Dict
use kinglet.Storage
use kinglet.Storage.{Table}
use kinglet.Pubsub.Messages.{Message, Repository, PublishInput, find_message, fan_out, publish_one}

-- What a search finds after a record with a new id was added at the end.
abbrev pub found_or :
    Bool → String × Message → Option (String × Message) → Option (String × Message)
found_or hit e none = if hit then some e else none
found_or hit e (some f) = some f

pub find-create :
    (p : Message → Bool) (id : String) (m : Message) (table : Table Message)
    → Dict.get id table ≡ none
    → Storage.find_first p (Storage.create id m table)
      ≡ found_or (p m) (id, m) (Storage.find_first p table)
unfolding Storage.find_first Storage.find Storage.create Dict.get Dict.set
find-create p id m [] h = ground arith
find-create p id m ((key, v) ∷ table) h = elim (Bool-cases (key == id)) [
  | inl own ↦ absurd (ground (arith, h, own))
  | inr other ↦ elim (Bool-cases (p v)) [
    | inl hit ↦ ground (arith, other, hit)
    | inr missed ↦
        let rest : Dict.get id table ≡ none = ground (arith, h, other) in
        ground (arith, other, missed, find-create p id m table rest)
  ]
]

-- A message as it is to be stored.
abbrev pub message_of : String → ℕ → String → PublishInput → Message
message_of id at_time topic msg = record {
  message_id = id;
  topic_name = topic;
  content = msg.content;
  attributes = msg.attributes;
  ordering_key = msg.ordering_key;
  publish_time = at_time;
}

-- Each id, in the order of the messages, names a stored message with its own contents, of the topic and the time.
abbrev pub Stored : ℕ → String → List String → List PublishInput → Repository → Type 0
Stored at_time topic [] [] repo = Unit
Stored at_time topic (id ∷ ids) (msg ∷ msgs) repo =
    ((row : String) × (find_message id repo ≡ some (row, message_of id at_time topic msg)))
    × Stored at_time topic ids msgs repo
Stored at_time topic _ _ repo = true ≡ false

module _ (uuid : ℕ → String) where
  pub fan_out-messages :
      (id : String) (subs : List String) (repo : Repository)
      → (fan_out uuid id subs repo).messages ≡ repo.messages
  unfolding fan_out
  fan_out-messages id [] repo = refl
  fan_out-messages id (s ∷ subs) repo = fan_out-messages id subs _

  -- What is found under a message id after one publication.
  pub find-publish_one :
      (id : String) (at_time : ℕ) (topic : String) (msg : PublishInput) (subs : List String)
      (repo : Repository)
      → Dict.get (uuid (repo.next_uuid + 1)) repo.messages ≡ none
      → find_message id (publish_one uuid at_time topic msg subs repo).0
        ≡ found_or
            (uuid repo.next_uuid == id)
            (uuid (repo.next_uuid + 1), message_of (uuid repo.next_uuid) at_time topic msg)
            (find_message id repo)
  unfolding publish_one find_message
  find-publish_one id at_time topic msg subs repo h =
      ap (Storage.find_first (λ m. m.message_id == id)) (fan_out-messages _ subs _)
      ∙ find-create (λ m. m.message_id == id) (uuid (repo.next_uuid + 1))
          (message_of (uuid repo.next_uuid) at_time topic msg) repo.messages h
