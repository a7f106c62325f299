-- ===== src/Pubsub/Messages/Leases.antt =====
-- What a pull does to the records that it returns: it leases them until a deadline.
use kinglet.Base.{
  ℕ, zero, suc, ◌+◌, ◌*◌, ◌<◌, ◌≡◌, refl, String, Bool, true, false, Option, none, some,
  Option-cases, Bool-cases, inl, inr, List, [], ◌∷◌, arith, keep, take, All, nat_eq, string_eq,
}
use kinglet.Dict
use kinglet.Storage
use kinglet.Storage.{Table}
use kinglet.Pubsub.Messages.{
  Delivered, Message, Received, Repository, eligible, find_message, pull_each, pull_messages,
}
use kinglet.Pubsub.Messages.LeasedRows.{
  leased_until, deliverable, has_row, has_message, lease_row, has_row-lease_row, leased-lease_row,
  leased_at-lease_row,
}

abbrev step :
    Option (String × Message)
    → Repository × List Received
    → Repository × List Received
    → (String → Message → Received)
    → Repository × List Received
step found skipped pulled received = elim found [
  | none ↦ skipped
  | some (key, m) ↦ (pulled.0, received key m ∷ pulled.1)
]

-- The branches of the loop's step, by whether the message was found.
after_found :
    (P : Repository → Type 0) (found : Option (String × Message))
    (skipped pulled : Repository × List Received) (received : String → Message → Received)
    → (found ≡ none → P skipped.0)
    → ((m : String × Message) → found ≡ some m → P pulled.0)
    → P (step found skipped pulled received).0
after_found P none skipped pulled received n s = n refl
after_found P (some (key, m)) skipped pulled received n s = s (key, m) refl

module _ (now seconds : ℕ) where
  -- A later row of the loop keeps the lease of an earlier one.
  leased-pull_each :
      (id : String) (rows : Table Delivered) (repo : Repository)
      → leased_until id (now + seconds * 1000) repo.delivered ≡ true
      → leased_until id (now + seconds * 1000) (pull_each now seconds rows repo).0.delivered ≡ true
  unfolding pull_each lease_row
  leased-pull_each id [] repo h = h
  leased-pull_each id ((key, dm) ∷ rows) repo h =
      let attempt = dm.delivery_attempt + 1 in
      let leased : Repository = record repo {
        delivered = lease_row key (now + seconds * 1000) attempt repo.delivered;
      } in
      after_found (λ r. leased_until id (now + seconds * 1000) r.delivered ≡ true)
        (find_message dm.message_id repo) (pull_each now seconds rows repo)
        (pull_each now seconds rows leased) _ (λ _. leased-pull_each id rows repo h)
        (λ _ _.
          leased-pull_each id rows leased
            (leased-lease_row key id (now + seconds * 1000) attempt repo.delivered h))

  -- The rows of the loop whose message is there are leased at its end.
  Leased : Repository → Table Delivered → Repository → Type 0
  Leased before rows after =
      All
        (λ (row : String × Delivered).
          has_message before row ≡ true
          → leased_until row.0 (now + seconds * 1000) after.delivered ≡ true)
        rows

  Rows : Table Delivered → Table Delivered → Type 0
  Rows table rows = All (λ (row : String × Delivered). has_row row.0 table ≡ true) rows

  Rows-lease_row :
      (key : String) (deadline attempt : ℕ) (table rows : Table Delivered)
      → Rows table rows
      → Rows (lease_row key deadline attempt table) rows
  unfolding Rows
  Rows-lease_row key deadline attempt table [] h = tt
  Rows-lease_row key deadline attempt table ((id, d) ∷ rows) (h, hs) = (
    has_row-lease_row key id deadline attempt table h,
    Rows-lease_row key deadline attempt table rows hs,
  )

  leased_first :
      (id : String) (dm : Delivered) (rows : Table Delivered) (repo : Repository)
      → has_row id repo.delivered ≡ true
      → has_message repo (id, dm) ≡ true
      → leased_until id
          (now + seconds * 1000)
          (pull_each now seconds ((id, dm) ∷ rows) repo).0.delivered
        ≡ true
  unfolding pull_each lease_row
  leased_first id dm rows repo row message =
      let attempt = dm.delivery_attempt + 1 in
      let leased : Repository = record repo {
        delivered = lease_row id (now + seconds * 1000) attempt repo.delivered;
      } in
      after_found (λ r. leased_until id (now + seconds * 1000) r.delivered ≡ true)
        (find_message dm.message_id repo) (pull_each now seconds rows repo)
        (pull_each now seconds rows leased) _ (λ gone. ground (arith, gone))
        (λ _ _.
          leased-pull_each id rows leased
            (leased_at-lease_row id (now + seconds * 1000) attempt repo.delivered row))

  Leased-all :
      (rows : Table Delivered) (repo : Repository)
      → Rows repo.delivered rows
      → Leased repo rows (pull_each now seconds rows repo).0
  unfolding Rows Leased pull_each lease_row find_message
  Leased-all [] repo h = tt
  Leased-all ((id, dm) ∷ rows) repo (h, hs) =
      let attempt = dm.delivery_attempt + 1 in
      let leased : Repository = record repo {
        delivered = lease_row id (now + seconds * 1000) attempt repo.delivered;
      } in
      (
        leased_first id dm rows repo h,
        after_found (Leased repo rows) (find_message dm.message_id repo)
            (pull_each now seconds rows repo) (pull_each now seconds rows leased) _
            (λ _. Leased-all rows repo hs)
            (λ _ _.
              Leased-all rows leased
                (Rows-lease_row id (now + seconds * 1000) attempt repo.delivered rows hs)),
      )

  Rows-keep :
      (p : String × Delivered → Bool) (table rows : Table Delivered)
      → Rows table rows
      → Rows table (keep p rows)
  unfolding Rows
  Rows-keep p table [] h = tt
  Rows-keep p table (row ∷ rows) (h, hs) = elim (Bool-cases (p row)) [
    | inl kept ↦ rw kept (h, Rows-keep p table rows hs)
    | inr lost ↦ rw lost (Rows-keep p table rows hs)
  ]

  Rows-take : (n : ℕ) (table rows : Table Delivered) → Rows table rows → Rows table (take n rows)
  unfolding Rows
  Rows-take zero table rows h = tt
  Rows-take (suc n) table [] h = tt
  Rows-take (suc n) table (row ∷ rows) (h, hs) = (h, Rows-take n table rows hs)

  Rows-cons :
      (row : String × Delivered) (table rows : Table Delivered)
      → Rows table rows
      → Rows (row ∷ table) rows
  unfolding Rows Dict.get
  Rows-cons row table [] h = tt
  Rows-cons (key, d) table ((id, e) ∷ rows) (h, hs) =
      (ground (arith, h), Rows-cons (key, d) table rows hs)

  Rows-self : (table : Table Delivered) → Rows table table
  unfolding Rows Dict.get
  Rows-self [] = tt
  Rows-self ((id, d) ∷ table) =
      (ground (arith, string_eq.equals_iff id id), Rows-cons (id, d) table table (Rows-self table))

  Rows-find :
      (p : Delivered → Bool) (limit : ℕ) (table : Table Delivered)
      → Rows table (Storage.find p limit 0 table)
  unfolding Storage.find
  Rows-find p zero table = Rows-keep (λ e. p e.1) table table (Rows-self table)
  Rows-find p (suc limit) table =
      Rows-take (suc limit) table (keep (λ e. p e.1) table)
        (Rows-keep (λ e. p e.1) table table (Rows-self table))

leased-ineligible :
    (id sub : String) (deadline t : ℕ) (table : Table Delivered)
    → t < deadline
    → leased_until id deadline table ≡ true
    → deliverable id sub t table ≡ false
unfolding eligible
leased-ineligible id sub deadline t table early h = elim (Option-cases (Dict.get id table)) [
  | inl absent ↦ ground (arith, absent)
  | inr (d, found) ↦ ground (arith, found, h, early)
]

withheld :
    (sub : String) (now seconds t : ℕ) (before after : Repository) (rows : Table Delivered)
    → t < now + seconds * 1000
    → Leased now seconds before rows after
    → All
        (λ (row : String × Delivered).
          has_message before row ≡ true
          → (leased_until row.0 (now + seconds * 1000) after.delivered ≡ true)
            × (deliverable row.0 sub t after.delivered ≡ false))
        rows
unfolding Leased
withheld sub now seconds t before after [] early h = tt
withheld sub now seconds t before after (row ∷ rows) early (h, hs) = (
  (λ m. (h m, leased-ineligible row.0 sub (now + seconds * 1000) t after.delivered early (h m))),
  withheld sub now seconds t before after rows early hs,
)

-- Each row that a pull finds, if its message is stored, has the deadline `seconds` after the pull in the
-- end, and no subscription finds it at a time before that deadline.
pub pull_messages-leases :
    (sub other : String) (max_messages seconds now t : ℕ) (repo : Repository)
    → t < now + seconds * 1000
    → All
        (λ (row : String × Delivered).
          has_message repo row ≡ true
          → (leased_until row.0
                (now + seconds * 1000)
                (pull_messages sub max_messages seconds now repo).0.delivered
              ≡ true)
            × (deliverable row.0 other t
                  (pull_messages sub max_messages seconds now repo).0.delivered
                ≡ false))
        (Storage.find (eligible sub now) max_messages 0 repo.delivered)
unfolding pull_messages
pull_messages-leases sub other max_messages seconds now t repo early =
    withheld other now seconds t repo _
      (Storage.find (eligible sub now) max_messages 0 repo.delivered) early
      (Leased-all now seconds (Storage.find (eligible sub now) max_messages 0 repo.delivered) repo
        (Rows-find now seconds (eligible sub now) max_messages repo.delivered))
