-- ===== src/SessionQueue/Recovery.antt =====
-- A connection that goes away cannot strand the backend in its transaction.
use text.Mathlib.TextPositions.{eq_refl}
use text.Mathlib.TextEquality.{eq_iff}
use kinglet.Base.{
  ℕ, ◌≡◌, refl, String, Bool, true, false, not, none, some, List, [], ◌∷◌, ◌++◌, arith, keep,
  Bool-cases, inl, inr, string_eq, ◌∙◌,
}
use kinglet.SessionQueue.{
  Message, World, is_from, has_id, take_first_from, take_next_runnable, take_next, enqueue,
  rollback, rollback_message, rollback_query_message, detach, resume, settle, rollback_if_lost,
  finish,
}

take_first_from-append :
    (c : String) (ms : List Message) (m : Message)
    → keep (is_from c) ms ≡ []
    → m.connection_id ≡ c
    → take_first_from c (ms ++ m ∷ []) ≡ some (m, ms)
unfolding take_first_from
take_first_from-append c [] m h own = ground (arith, eq_iff m.connection_id c)
take_first_from-append c (m' ∷ ms) m h own = elim (Bool-cases (is_from c m')) [
  | inl from ↦ ground arith
  | inr other ↦ ground (arith, take_first_from-append c ms m)
]

none_left :
    (c : String) (ms : List Message) → keep (is_from c) (keep (λ m. not (is_from c m)) ms) ≡ []
none_left c [] = refl
none_left c (m ∷ ms) = ground (arith, none_left c ms)

connection_id-rollback : (c : String) → (rollback_message c).connection_id ≡ c
unfolding rollback_message
connection_id-rollback c = refl

bytes-rollback : (c : String) → (rollback_message c).bytes ≡ rollback_query_message
unfolding rollback_message
bytes-rollback c = refl

-- When the owner of an open transaction goes away while the loop is not running, its rollback starts at once.
pub detach-rolls_back :
    {B : Type 0} (c : String) (w : World B)
    → w.queue.owner ≡ some c
    → w.queue.is_draining ≡ false
    → ((detach c w).running ≡ some (rollback_message c))
      × ((detach c w).queue.pending ≡ keep (λ m. not (is_from c m)) w.queue.pending)
unfolding detach rollback enqueue take_next take_next_runnable
detach-rolls_back c w owns idle = ground (
  arith,
  eq_refl c,
  take_first_from-append c (keep (λ m. not (is_from c m)) w.queue.pending) (rollback_message c)
      (none_left c w.queue.pending) (connection_id-rollback c),
)

module _ {B : Type 0} (exec : B → List ℕ → B × Bool) (in_transaction : B → Bool) where
  -- The backend after a message.
  abbrev pub after : B → List ℕ → B
  after b bytes = (exec b bytes).0

  module _ (m : Message) (w : World B) where
    settled_open :
        in_transaction (after w.backend m.bytes) ≡ true
        → (settle exec in_transaction m w).queue.owner ≡ some m.connection_id
    unfolding settle
    settled_open opens = ground arith

    finish_lost :
        w.queue.is_draining ≡ true
        → has_id m.connection_id w.queue.detached ≡ true
        → in_transaction (after w.backend m.bytes) ≡ true
        → ((finish exec in_transaction m w).queue.owner ≡ some m.connection_id)
          × ((finish exec in_transaction m w).queue.pending
              ≡ w.queue.pending ++ rollback_message m.connection_id ∷ [])
          × ((finish exec in_transaction m w).queue.is_draining ≡ true)
          × ((finish exec in_transaction m w).running ≡ none)
          × ((finish exec in_transaction m w).backend ≡ after w.backend m.bytes)
    unfolding finish rollback_if_lost settle rollback enqueue
    finish_lost busy lost opens =
        (ground arith, ground arith, ground arith, ground arith, ground arith)

  resume_from :
      (c : String) (m : Message) (ms : List Message) (w : World B)
      → w.queue.owner ≡ some c
      → w.queue.pending ≡ ms ++ m ∷ []
      → keep (is_from c) ms ≡ []
      → m.connection_id ≡ c
      → ((resume w).running ≡ some m)
        × ((resume w).queue.pending ≡ ms)
        × ((resume w).backend ≡ w.backend)
  unfolding resume take_next take_next_runnable
  resume_from c m ms w owns queued none_of own =
      let found = take_first_from-append c ms m none_of own in
      (ground (arith, found), ground (arith, found), ground (arith, found))

  finish_closed :
      (m : Message) (w : World B)
      → in_transaction (after w.backend m.bytes) ≡ false
      → ((finish exec in_transaction m w).queue.owner ≡ none)
        × ((finish exec in_transaction m w).queue.pending ≡ w.queue.pending)
        × ((finish exec in_transaction m w).backend ≡ after w.backend m.bytes)
  unfolding finish rollback_if_lost settle
  finish_closed m w closes = (ground arith, ground arith, ground arith)

  -- A connection goes away while the message that opens its transaction runs. If a ROLLBACK closes a
  -- transaction, then the message that the queue runs next is the connection's rollback, and after it
  -- the backend is in no transaction, nobody owns it, and the other connections' messages still wait in
  -- their order.
  pub finish-recovers :
      (m : Message) (w : World B)
      → w.queue.is_draining ≡ true
      → has_id m.connection_id w.queue.detached ≡ true
      → keep (is_from m.connection_id) w.queue.pending ≡ []
      → in_transaction (after w.backend m.bytes) ≡ true
      → in_transaction (after (after w.backend m.bytes) rollback_query_message) ≡ false
      → ((resume (finish exec in_transaction m w)).running
          ≡ some (rollback_message m.connection_id))
        × (let w' =
              finish exec in_transaction
                (rollback_message m.connection_id)
                (resume (finish exec in_transaction m w)) in
            (w'.queue.owner ≡ none)
            × (in_transaction w'.backend ≡ false)
            × (w'.queue.pending ≡ w.queue.pending))
  finish-recovers m w busy lost none_of opens closes =
      let c = m.connection_id in
      let (owns, queued, flag, idle, ran) = finish_lost m w busy lost opens in
      let (next, waiting, kept) =
        resume_from c (rollback_message c) w.queue.pending (finish exec in_transaction m w) owns
          queued none_of (connection_id-rollback c) in
      let w2 = resume (finish exec in_transaction m w) in
      let state : after w2.backend (rollback_message c).bytes
          ≡ after (after w.backend m.bytes) rollback_query_message =
        cc (bytes-rollback c) in
      let (free, left, closed) = finish_closed (rollback_message c) w2 (rw state closes) in
      (next, (free, rw (closed, state) closes, left ∙ waiting))
