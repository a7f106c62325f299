-- ===== src/Pubsub/Messages/Publishing.antt =====
-- What a publication stores, and what it adds to the backlogs of the subscriptions.
use kinglet.Base.{
  ℕ, ◌+◌, ◌*◌, ◌≤◌, ◌≡◌, refl, ap, String, Bool, none, some, List, [], ◌∷◌, arith, keep, length,
  if◌then◌else◌, ◌==◌, ◌&&◌, string_eq, ◌∙◌, Bool-cases, inl, inr,
}
use native.Mathlib.Nat.{suc-mul}
use kinglet.Dict
use kinglet.Storage
use kinglet.Storage.{Table}
use kinglet.Pubsub.Messages.{
  pending, Delivered, Message, Repository, PublishInput, eligible, find_message, fan_out,
  publish_one, publish_messages,
}
use kinglet.Pubsub.Messages.Cleanup.{backlog}
use kinglet.Pubsub.Messages.Stored.{Stored, message_of, find-create, find-publish_one, found_or}

count-set :
    (p : Delivered → Bool) (id : String) (d : Delivered) (table : Table Delivered)
    → Dict.get id table ≡ none
    → length (keep (λ e. p e.1) (Dict.set id d table))
      ≡ length (keep (λ e. p e.1) table) + (if p d then 1 else 0)
unfolding Dict.get Dict.set
count-set p id d [] h = ground arith
count-set p id d ((key, e) ∷ table) h = ground (arith, h, count-set p id d table)

-- How often a subscription is among those of a topic.
abbrev pub occurrences : String → List String → ℕ
occurrences sub subs = length (keep (λ s. s == sub) subs)

keep-both :
    (p q : Delivered → Bool) (table : Table Delivered)
    → keep (λ e. q e.1) (keep (λ e. p e.1) table) ≡ keep (λ e. p e.1 && q e.1) table
keep-both p q [] = refl
keep-both p q (e ∷ table) = ground (arith, keep-both p q table)

-- The rows of the backlog whose message is picked.
abbrev pub picked : String → ℕ → (String → Bool) → Repository → Table Delivered
picked sub now picks repo = keep (λ e. picks e.1.message_id) (backlog sub now repo)

module _ (uuid : ℕ → String) where
  -- No id that is still to come is the id of a delivery record, of the record of a message, or of a message.
  abbrev pub Fresh : Repository → Type 0
  Fresh repo =
      (k : ℕ)
      → repo.next_uuid ≤ k
      → (Dict.get (uuid k) repo.delivered ≡ none)
        × (Dict.get (uuid k) repo.messages ≡ none)
        × (find_message (uuid k) repo ≡ none)

  module _ (distinct : (i j : ℕ) → uuid i ≡ uuid j → i ≡ j) (sub : String) (now : ℕ)
      (picks : String → Bool) where
    abbrev picked_count : Repository → ℕ
    picked_count repo =
        length (keep (λ e. eligible sub now e.1 && picks e.1.message_id) repo.delivered)

    picked-count : (repo : Repository) → length (picked sub now picks repo) ≡ picked_count repo
    picked-count repo =
        ap length (keep-both (λ d. eligible sub now d) (λ d. picks d.message_id) repo.delivered)

    fan_out_lem :
        (id : String) (subs : List String) (repo : Repository)
        → Fresh repo
        → Fresh (fan_out uuid id subs repo)
          × (picked_count (fan_out uuid id subs repo)
              ≡ picked_count repo + (if picks id then occurrences sub subs else 0))
    unfolding fan_out Storage.create eligible find_message
    fan_out_lem id [] repo fresh = (fresh, ground arith)
    fan_out_lem id (s ∷ subs) repo fresh =
        let n = repo.next_uuid in
        let row : Delivered = record {
          ack_id = uuid n;
          subscription_name = s;
          message_id = id;
          delivery_attempt = 0;
          ack_deadline = 0;
          ack_status = pending;
        } in
        let later : Repository = record repo {
          delivered = Storage.create (uuid (n + 1)) row repo.delivered;
          next_uuid = n + 2;
        } in
        let (no_row, no_record, no_message) = fresh (n + 1) (omega arith) in
        let added =
          count-set (λ d. eligible sub now d && picks d.message_id) (uuid (n + 1)) row
            repo.delivered no_row in
        let (fresh', rest) = fan_out_lem id subs later (λ k le.
          let (row_k, record_k, message_k) = fresh k (omega (arith, le)) in
          (
            ground (
              arith,
              Dict.get-set (uuid (n + 1)) (uuid k) row repo.delivered,
              row_k,
              le,
              string_eq.equals_iff (uuid (n + 1)) (uuid k),
              distinct (n + 1) k,
            ),
            record_k,
            message_k,
          )) in
        (fresh', ground (arith, rest, added))

    publish_one_lem :
        (at_time : ℕ) (topic : String) (msg : PublishInput) (subs : List String) (repo : Repository)
        → Fresh repo
        → let (repo', id) = publish_one uuid at_time topic msg subs repo in
          Fresh repo'
          × (picked_count repo'
              ≡ picked_count repo + (if picks id then occurrences sub subs else 0))
    unfolding publish_one Storage.create find_message
    publish_one_lem at_time topic msg subs repo fresh =
        let n = repo.next_uuid in
        let message = message_of (uuid n) at_time topic msg in
        let stored : Repository = record repo {
          messages = Storage.create (uuid (n + 1)) message repo.messages;
          next_uuid = n + 2;
        } in
        let (no_row, no_record, no_message) = fresh (n + 1) (omega arith) in
        fan_out_lem (uuid n) subs stored (λ k le.
          let (row_k, record_k, message_k) = fresh k (omega (arith, le)) in
          let apart = string_eq.equals_iff (uuid n) (uuid k) in
          (
            row_k,
            ground (
              arith,
              Dict.get-set (uuid (n + 1)) (uuid k) message repo.messages,
              record_k,
              le,
              string_eq.equals_iff (uuid (n + 1)) (uuid k),
              distinct (n + 1) k,
            ),
            ground (
              arith,
              find-create (λ m. m.message_id == uuid k) (uuid (n + 1)) message repo.messages
                  no_record,
              message_k,
              le,
              apart,
              distinct n k,
            ),
          ))

    -- A message that is found is found again after a publication.
    persists :
        (id : String) (e : String × Message) (at_time : ℕ) (topic : String)
        (msgs : List PublishInput) (subs : List String) (repo : Repository)
        → Fresh repo
        → find_message id repo ≡ some e
        → find_message id (publish_messages uuid at_time topic msgs subs repo).0 ≡ some e
    unfolding publish_messages
    persists id e at_time topic [] subs repo fresh found = found
    persists id e at_time topic (msg ∷ msgs) subs repo fresh found =
        let (no_row, no_record, no_message) = fresh (repo.next_uuid + 1) (omega arith) in
        let found' =
          find-publish_one uuid id at_time topic msg subs repo no_record
          ∙ ap (found_or _ _) found in
        persists id e at_time topic msgs subs (publish_one uuid at_time topic msg subs repo).0
          (publish_one_lem at_time topic msg subs repo fresh).0 found'

    published_id :
        (at_time : ℕ) (topic : String) (msg : PublishInput) (subs : List String) (repo : Repository)
        → Fresh repo
        → let (repo', id) = publish_one uuid at_time topic msg subs repo in
          find_message id repo' ≡ some (uuid (repo.next_uuid + 1), message_of id at_time topic msg)
    unfolding publish_one
    published_id at_time topic msg subs repo fresh =
        let n = repo.next_uuid in
        let (row_1, no_record, message_1) = fresh (n + 1) (omega arith) in
        let (no_row, record_0, no_message) = fresh n (omega arith) in
        ground (
          arith,
          find-publish_one uuid (uuid n) at_time topic msg subs repo no_record,
          no_message,
          string_eq.equals_iff (uuid n) (uuid n),
        )

    counted :
        (at_time : ℕ) (topic : String) (msgs : List PublishInput) (subs : List String)
        (repo : Repository)
        → Fresh repo
        → let (repo', ids) = publish_messages uuid at_time topic msgs subs repo in
          Fresh repo'
          × Stored at_time topic ids msgs repo'
          × (picked_count repo'
              ≡ picked_count repo + length (keep picks ids) * occurrences sub subs)
    unfolding publish_messages
    counted at_time topic [] subs repo fresh = (fresh, tt, omega arith)
    counted at_time topic (msg ∷ msgs) subs repo fresh =
        let (repo', id) = publish_one uuid at_time topic msg subs repo in
        let (fresh', one) = publish_one_lem at_time topic msg subs repo fresh in
        let (fresh'', rest, more) = counted at_time topic msgs subs repo' fresh' in
        let found = published_id at_time topic msg subs repo fresh in
        let ids = (publish_messages uuid at_time topic msgs subs repo').1 in
        (
          fresh'',
          (
            (uuid (repo.next_uuid + 1), persists id _ at_time topic msgs subs repo' fresh' found),
            rest,
          ),
          elim (Bool-cases (picks id)) [
            | inl hit ↦
                ground
                  (arith, more, one, hit, suc-mul (length (keep picks ids)) (occurrences sub subs))
            | inr missed ↦ ground (arith, more, one, missed)
          ],
        )

    pub publish_messages-backlog :
        (at_time : ℕ) (topic : String) (msgs : List PublishInput) (subs : List String)
        (repo : Repository)
        → Fresh repo
        → let (repo', ids) = publish_messages uuid at_time topic msgs subs repo in
          Fresh repo'
          × Stored at_time topic ids msgs repo'
          × (length (picked sub now picks repo')
              ≡ length (picked sub now picks repo) + length (keep picks ids) * occurrences sub subs)
    publish_messages-backlog at_time topic msgs subs repo fresh =
        let (fresh', stored, more) = counted at_time topic msgs subs repo fresh in
        let repo' = (publish_messages uuid at_time topic msgs subs repo).0 in
        (fresh', stored, omega (arith, more, picked-count repo, picked-count repo'))
