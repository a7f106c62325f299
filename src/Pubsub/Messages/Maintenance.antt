-- ===== src/Pubsub/Messages/Maintenance.antt =====
-- The rest of the message repository: what push delivery reads and writes, seek, and deletion.
use kinglet.Base.{
  ℕ, ◌+◌, String, true, false, ◌&&◌, none, some, List, [], ◌∷◌, if◌then◌else◌, leb, ltb, length,
  ◌==◌, string_eq,
}
use kinglet.Dict
use kinglet.Storage
use kinglet.Storage.{Table}
use kinglet.Pubsub.Messages.{
  Message, Delivered, Repository, is_pending, is_acked, eligible, find_message, lease, or_same,
}

-- The loop of `findPushDeliverableMessages`.
pub with_messages : Table Delivered → Repository → List ((String × Delivered) × Message)
with_messages [] repo = []
with_messages (dm ∷ dms) repo =
    let rest = with_messages dms repo in
    elim (find_message dm.1.message_id repo) [
      | none ↦ rest
      | some (key, message) ↦ (dm, message) ∷ rest
    ]

pub find_push_deliverable : String → ℕ → ℕ → Repository → List ((String × Delivered) × Message)
unfolding with_messages
find_push_deliverable sub limit now repo =
    with_messages (Storage.find (eligible sub now) limit 0 repo.delivered) repo

-- `incrementDeliveryAttempt`
unfoldable pub increment_delivery_attempt : String → ℕ → Repository → Repository
increment_delivery_attempt id deadline repo = elim (Dict.get id repo.delivered) [
  | none ↦ repo
  | some d ↦ record repo {
    delivered =
        or_same (Storage.update_by_id id (lease deadline (d.delivery_attempt + 1)) repo.delivered)
          repo.delivered;
  }
]

unfoldable pub cleanup_acked_messages : Repository → Repository × ℕ
cleanup_acked_messages repo =
    let count = length (Storage.find (λ d. is_acked d.ack_status) 0 0 repo.delivered) in
    if ltb 0 count
    then (
      record repo {
        delivered = (Storage.delete_many (λ d. is_acked d.ack_status) repo.delivered).0;
      },
      count,
    )
    else (repo, count)

-- The loop of `resetDeliveredMessagesByTime`.
pub reset_each : ℕ → Table Delivered → Repository → ℕ → Repository × ℕ
reset_each before [] repo count = (repo, count)
reset_each before ((id, dm) ∷ dms) repo count =
    let rewound : Repository = record repo {
      delivered =
          or_same (Storage.update_by_id id (λ d. record d { ack_deadline = 0 }) repo.delivered)
            repo.delivered;
    } in
    elim (find_message dm.message_id repo) [
      | none ↦ reset_each before dms repo count
      | some (key, message) ↦ elim (leb message.publish_time before) [
        | true ↦ reset_each before dms rewound (count + 1)
        | false ↦ reset_each before dms repo count
      ]
    ]

pub reset_delivered_by_time : String → ℕ → Repository → Repository × ℕ
unfolding reset_each
reset_delivered_by_time sub before repo =
    reset_each before
      (Storage.find (λ d. d.subscription_name == sub && is_pending d.ack_status) 0 0 repo.delivered)
      repo 0

unfoldable pub delete_messages_by_subscription : String → Repository → Repository
delete_messages_by_subscription sub repo = record repo {
  delivered = (Storage.delete_many (λ d. d.subscription_name == sub) repo.delivered).0;
}

-- The loop of `deleteMessagesByTopic`.
pub delete_deliveries_of : Table Message → Repository → Repository
delete_deliveries_of [] repo = repo
delete_deliveries_of ((id, m) ∷ ms) repo = delete_deliveries_of ms (record repo {
  delivered = (Storage.delete_many (λ d. d.message_id == m.message_id) repo.delivered).0;
})

pub delete_messages_by_topic : String → Repository → Repository
unfolding delete_deliveries_of
delete_messages_by_topic topic repo =
    let repo' =
      delete_deliveries_of (Storage.find (λ m. m.topic_name == topic) 0 0 repo.messages) repo in
    record repo' { messages = (Storage.delete_many (λ m. m.topic_name == topic) repo'.messages).0 }
