-- ===== src/SessionQueue/Steps.antt =====
-- The events of the queue as steps, in any order, and what holds after every run.
use kinglet.Base.{
  ℕ, ◌≡◌, refl, sym, subst, String, Bool, true, false, none, some, List, [], arith, Bool-cases,
  Option-cases, inl, inr,
}
use kinglet.SessionQueue.{
  Message, World, has_id, take_next_runnable, enqueue, rollback, detach, resume, settle,
  rollback_if_lost, finish,
}
use kinglet.SessionQueue.Isolation.{
  RunsFor, Follows-owner, Isolated, owner_of, Core, Invariant, take_next-Invariant,
  enqueue-Invariant, rollback-Invariant, detach-Invariant,
}

module _ {B : Type 0} (w : World B) where
  pub lost_none : w.queue.owner ≡ none → rollback_if_lost w ≡ w
  unfolding rollback_if_lost
  lost_none closed = ground arith

  pub lost_some :
      (o : String)
      → w.queue.owner ≡ some o
      → has_id o w.queue.detached ≡ true
      → rollback_if_lost w ≡ rollback o w
  unfolding rollback_if_lost
  lost_some o open_by lost = ground arith

  pub lost_alive :
      (o : String)
      → w.queue.owner ≡ some o
      → has_id o w.queue.detached ≡ false
      → rollback_if_lost w ≡ w
  unfolding rollback_if_lost
  lost_alive o open_by alive = ground arith

module _ {B : Type 0} (exec : B → List ℕ → B × Bool) (in_transaction : B → Bool) where
  abbrev pub started : B → World B
  started b = record {
    queue = record { pending = []; is_draining = false; detached = []; owner = none };
    running = none;
    backend = b;
    executed = [];
    settled = [];
  }

  -- What can happen next: a call from outside, the backend's answer, or the loop's next round.
  pub data Step (w : World B) : World B → Type 0 where
    enqueued : (m : Message) → Step w (enqueue m w)
    left : (c : String) → Step w (detach c w)
    answered : (m : Message) → w.running ≡ some m → Step w (finish exec in_transaction m w)
    resumed : w.running ≡ none → w.queue.is_draining ≡ true → Step w (resume w)

  pub data Reach (w : World B) : World B → Type 0 where
    here : Reach w w
    next : {u v : World B} → Reach w u → Step u v → Reach w v

  RunsFor-owner :
      (w : World B) (m : Message)
      → w.running ≡ some m
      → Core in_transaction w
      → RunsFor (some m) (owner_of w.executed)
  RunsFor-owner w m runs c = rw (← runs, ← c.owner) c.runs_for

  settle-Core :
      (m : Message) (w : World B)
      → w.running ≡ some m
      → Core in_transaction w
      → Core in_transaction (settle exec in_transaction m w)
  unfolding settle
  settle-Core m w runs c = record {
    draining = refl;
    runs_for = tt;
    isolated = (
      Follows-owner
          (record {
            connection_id = m.connection_id;
            left_open = in_transaction (exec w.backend m.bytes).0;
          })
          w.executed m refl (RunsFor-owner w m runs c),
      c.isolated,
    );
    owner = refl;
    reported = ground arith;
  }

  settle-draining :
      (m : Message) (w : World B)
      → w.running ≡ some m
      → Core in_transaction w
      → (settle exec in_transaction m w).queue.is_draining ≡ true
  unfolding settle
  settle-draining m w runs c = ground (arith, c.draining)

  still :
      (w : World B)
      → w.queue.is_draining ≡ true
      → Core in_transaction w
      → Invariant in_transaction w
  still w flag c = record { core = c; awake = rw flag tt }

  rollback_if_lost-Invariant :
      (w : World B)
      → w.queue.is_draining ≡ true
      → Core in_transaction w
      → Invariant in_transaction (rollback_if_lost w)
  rollback_if_lost-Invariant w flag c = elim (Option-cases w.queue.owner) [
    | inl closed ↦ subst (Invariant in_transaction) (sym (lost_none w closed)) (still w flag c)
    | inr (o, open_by) ↦ elim (Bool-cases (has_id o w.queue.detached)) [
      | inl lost ↦
          subst (Invariant in_transaction) (sym (lost_some w o open_by lost))
            (rollback-Invariant in_transaction o w c)
      | inr alive ↦
          subst (Invariant in_transaction) (sym (lost_alive w o open_by alive)) (still w flag c)
    ]
  ]

  finish-Invariant :
      (m : Message) (w : World B)
      → w.running ≡ some m
      → Core in_transaction w
      → Invariant in_transaction (finish exec in_transaction m w)
  unfolding finish
  finish-Invariant m w runs c =
      rollback_if_lost-Invariant (settle exec in_transaction m w) (settle-draining m w runs c)
        (settle-Core m w runs c)

  Step-Invariant :
      {w u : World B} → Step w u → Invariant in_transaction w → Invariant in_transaction u
  unfolding resume
  Step-Invariant {w} (enqueued m) v = enqueue-Invariant in_transaction m w v.core
  Step-Invariant {w} (left c) v = detach-Invariant in_transaction c w v
  Step-Invariant {w} (answered m runs) v = finish-Invariant m w runs v.core
  Step-Invariant {w} (resumed idle flag) v = take_next-Invariant in_transaction w flag idle v.core

  pub started-Invariant : (b : B) → in_transaction b ≡ false → Invariant in_transaction (started b)
  unfolding take_next_runnable
  started-Invariant b closed = record {
    core = record {
      draining = refl;
      runs_for = tt;
      isolated = tt;
      owner = refl;
      reported = sym closed;
    };
    awake = nothing_pending;
  }
    where
      nothing_pending : take_next_runnable none [] ≡ none
      nothing_pending = refl

  pub Reach-Invariant :
      {w u : World B} → Invariant in_transaction w → Reach w u → Invariant in_transaction u
  Reach-Invariant v here = v
  Reach-Invariant v (next r st) = Step-Invariant st (Reach-Invariant v r)

  -- Started on a backend outside a transaction, the queue isolates transactions, whatever the order of
  -- calls, answers and lost connections: a message that the backend executes right after one that left
  -- a transaction open is from the same connection.
  pub Reach-Isolated :
      (b : B) (w : World B) → in_transaction b ≡ false → Reach (started b) w → Isolated w.executed
  Reach-Isolated b w closed r = (Reach-Invariant (started-Invariant b closed) r).core.isolated

  -- Started on a backend outside a transaction, the queue loses no wake-up: whenever the loop is not running, no pending message could run.
  pub Reach-Awake :
      (b : B) (w : World B)
      → in_transaction b ≡ false
      → Reach (started b) w
      → w.queue.is_draining ≡ false
      → take_next_runnable w.queue.owner w.queue.pending ≡ none
  Reach-Awake b w closed r idle =
      rw idle at ((Reach-Invariant (started-Invariant b closed) r).awake)
