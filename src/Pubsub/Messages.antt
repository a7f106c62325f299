-- ===== src/Pubsub/Messages.antt =====
-- src/services/pubsub/message-repository.ts over the in-memory provider: messages, and one delivery
-- record for each subscription. Times are milliseconds, whose order is that of the ISO texts that the
-- code compares; `Date.now()` is an argument. `crypto.randomUUID` is the parameter `uuid`, a sequence of
-- ids with a counter in the state. Attributes stay the text that they are stored as.
pub mod Maintenance
mod Stored
mod Publishing
mod LeasedRows
mod Leases
pub mod Acknowledging
mod Cleanup
mod Tests
use kinglet.Base.{
  ℕ, zero, suc, ◌+◌, ◌*◌, String, Bool, true, false, not, ◌&&◌, Option, none, some, List, [], ◌∷◌,
  ◌++◌, map, if◌then◌else◌, keep, leb, length, ◌==◌, string_eq,
}
use kinglet.Storage
use kinglet.Storage.{Table}

pub data AckStatus : Type 0 where
  pending acked : AckStatus

pub record Message : Type 0 where
  pub message_id : String
  pub topic_name : String
  pub content : Option String
  pub attributes : Option String
  pub ordering_key : Option String
  pub publish_time : ℕ

pub record Delivered : Type 0 where
  pub ack_id : String
  pub subscription_name : String
  pub message_id : String
  pub delivery_attempt : ℕ
  pub ack_deadline : ℕ
  pub ack_status : AckStatus

pub record PublishInput : Type 0 where
  pub content : Option String
  pub attributes : Option String
  pub ordering_key : Option String

-- `ReceivedMessageResponse`: the message as it is stored, behind its ack id and attempt.
pub record Received : Type 0 where
  pub ack_id : String
  pub message : Message
  pub delivery_attempt : ℕ

pub record Repository : Type 0 where
  pub messages : Table Message
  pub delivered : Table Delivered
  pub next_uuid : ℕ

abbrev pub is_pending : AckStatus → Bool
is_pending pending = true
is_pending acked = false

abbrev pub is_acked : AckStatus → Bool
is_acked s = not (is_pending s)

module _ (uuid : ℕ → String) where
  -- The delivery record of one subscription, in its own row.
  pub fan_out : String → List String → Repository → Repository
  fan_out message_id [] repo = repo
  fan_out message_id (sub ∷ subs) repo =
      let n = repo.next_uuid in
      fan_out message_id subs (record repo {
        delivered =
            Storage.create (uuid (n + 1))
              (record {
                ack_id = uuid n;
                subscription_name = sub;
                message_id = message_id;
                delivery_attempt = 0;
                ack_deadline = 0;
                ack_status = pending;
              })
              repo.delivered;
        next_uuid = n + 2;
      })

  pub publish_one : ℕ → String → PublishInput → List String → Repository → Repository × String
  unfolding fan_out
  publish_one now topic_name msg subs repo =
      let n = repo.next_uuid in
      (
        fan_out (uuid n) subs (record repo {
          messages =
              Storage.create (uuid (n + 1))
                (record {
                  message_id = uuid n;
                  topic_name = topic_name;
                  content = msg.content;
                  attributes = msg.attributes;
                  ordering_key = msg.ordering_key;
                  publish_time = now;
                })
                repo.messages;
          next_uuid = n + 2;
        }),
        uuid n,
      )

  pub publish_messages :
      ℕ → String → List PublishInput → List String → Repository → Repository × List String
  publish_messages now topic_name [] subs repo = (repo, [])
  publish_messages now topic_name (msg ∷ msgs) subs repo =
      let (repo', id) = publish_one now topic_name msg subs repo in
      let (repo'', ids) = publish_messages now topic_name msgs subs repo' in (repo'', id ∷ ids)

-- Pending, and its deadline has passed or it was never pulled.
unfoldable pub eligible : String → ℕ → Delivered → Bool
eligible sub now d = d.subscription_name == sub && is_pending d.ack_status && leb d.ack_deadline now

pub find_message : String → Repository → Option (String × Message)
find_message message_id repo = Storage.find_first (λ m. m.message_id == message_id) repo.messages

-- What a pull writes into a delivery record.
unfoldable pub lease : ℕ → ℕ → Delivered → Delivered
lease deadline attempt d = record d { ack_deadline = deadline; delivery_attempt = attempt }

abbrev or_same {ℓ} : {A : Type ℓ} → Option A → A → A
or_same none a = a
or_same (some b) a = b

-- The loop of `pullMessages`. A delivery record whose message is gone is skipped.
pub pull_each : ℕ → ℕ → Table Delivered → Repository → Repository × List Received
unfolding lease find_message
pull_each now seconds [] repo = (repo, [])
pull_each now seconds ((id, dm) ∷ dms) repo =
    let leased : Repository = record repo {
      delivered =
          or_same
            (Storage.update_by_id id (lease (now + seconds * 1000) (dm.delivery_attempt + 1))
              repo.delivered)
            repo.delivered;
    } in
    let found = find_message dm.message_id repo in
    elim found [
      | none ↦ pull_each now seconds dms repo
      | some (key, message) ↦
          let (repo', received) = pull_each now seconds dms leased in
          (
            repo',
            (record {
              ack_id = dm.ack_id;
              message = message;
              delivery_attempt = dm.delivery_attempt + 1;
            })
                ∷ received,
          )
    ]

pub pull_messages : String → ℕ → ℕ → ℕ → Repository → Repository × List Received
unfolding eligible pull_each
pull_messages sub max_messages seconds now repo =
    pull_each now seconds (Storage.find (eligible sub now) max_messages 0 repo.delivered) repo

abbrev pub addressed : String → String → Delivered → Bool
addressed sub ack_id d = d.ack_id == ack_id && d.subscription_name == sub

pub acknowledge_messages : String → List String → Repository → Repository
acknowledge_messages sub [] repo = repo
acknowledge_messages sub (ack_id ∷ ack_ids) repo = acknowledge_messages sub ack_ids (record repo {
  delivered =
      Storage.update_many (addressed sub ack_id) (λ d. record d { ack_status = acked })
        repo.delivered;
})

-- The loop of `modifyAckDeadline`, with the new deadline.
pub set_deadlines : String → List String → ℕ → Repository → Repository
set_deadlines sub [] deadline repo = repo
set_deadlines sub (ack_id ∷ ack_ids) deadline repo =
    set_deadlines sub ack_ids deadline (record repo {
      delivered =
          Storage.update_many (addressed sub ack_id) (λ d. record d { ack_deadline = deadline })
            repo.delivered;
    })

pub modify_ack_deadline : String → List String → ℕ → ℕ → Repository → Repository
unfolding set_deadlines
modify_ack_deadline sub ack_ids seconds now repo =
    set_deadlines sub ack_ids (now + seconds * 1000) repo
