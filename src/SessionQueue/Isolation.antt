-- ===== src/SessionQueue/Isolation.antt =====
-- The queue over every interleaving of its events: transactions are isolated, and no wake-up is lost.
use text.Mathlib.TextEquality.{eq_iff}
use kinglet.Base.{
  ◌≡◌, refl, String, Bool, true, false, not, ◌&&◌, Option, none, some, List, [], ◌∷◌, ◌++◌, arith,
  if◌then◌else◌, keep, string_eq, Bool-cases, Option-cases, inl, inr,
}
use kinglet.SessionQueue.{
  Message, Settled, World, Executed, rollback_message, is_from, take_first_from, take_head,
  take_next_runnable, delete_id, owned_by, take_next, drain, enqueue, rollback, detach,
}

abbrev pub is_some {ℓ} : {A : Type ℓ} → Option A → Bool
is_some none = false
is_some (some a) = true

-- A message that runs inside an open transaction is from the connection that opened it.
abbrev pub RunsFor : Option Message → Option String → Type 0
RunsFor (some m) (some o) = m.connection_id ≡ o
RunsFor (some m) none = Unit
RunsFor none o = Unit

-- In a log with the newest first: what follows a message that left a transaction open is from the same
-- connection.
abbrev pub Follows : Executed → List Executed → Type 0
Follows e [] = Unit
Follows e (f ∷ log) = f.left_open ≡ true → e.connection_id ≡ f.connection_id

abbrev pub Isolated : List Executed → Type 0
Isolated [] = Unit
Isolated (e ∷ log) = Follows e log × Isolated log

-- The owner is the connection of the last executed message, if that left a transaction open.
abbrev pub owner_of : List Executed → Option String
owner_of [] = none
owner_of (e ∷ log) = if e.left_open then some e.connection_id else none

-- While nothing drains, no pending message could run.
abbrev pub Awake : Bool → Option String → List Message → Type 0
Awake true owner pending = Unit
Awake false owner pending = take_next_runnable owner pending ≡ none

pub take_first_from-is_from :
    (c : String) (ms : List Message) (m : Message) (rest : List Message)
    → take_first_from c ms ≡ some (m, rest)
    → m.connection_id ≡ c
unfolding take_first_from
take_first_from-is_from c [] m rest h = cc
take_first_from-is_from c (m' ∷ ms) m rest h = elim (Option-cases (take_first_from c ms)) [
  | inl no_more ↦ ground (arith, eq_iff m'.connection_id c)
  | inr ((found, left), e) ↦
      ground (arith, eq_iff m'.connection_id c, take_first_from-is_from c ms found left e)
]

take_next_runnable-RunsFor :
    (owner : Option String) (ms : List Message) (m : Message) (rest : List Message)
    → take_next_runnable owner ms ≡ some (m, rest)
    → RunsFor (some m) owner
unfolding take_next_runnable
take_next_runnable-RunsFor none ms m rest h = tt
take_next_runnable-RunsFor (some c) ms m rest h = take_first_from-is_from c ms m rest h

pub Follows-owner :
    (e : Executed) (log : List Executed) (m : Message)
    → e.connection_id ≡ m.connection_id
    → RunsFor (some m) (owner_of log)
    → Follows e log
Follows-owner e [] m same h = tt
Follows-owner e (f ∷ log) m same h = λ opened. ground arith

take_first_from-keep :
    (o c : String) (ms : List Message)
    → take_first_from o ms ≡ none
    → take_first_from o (keep (λ m. not (is_from c m)) ms) ≡ none
unfolding take_first_from
take_first_from-keep o c [] h = refl
take_first_from-keep o c (m ∷ ms) h = elim (Option-cases (take_first_from o ms)) [
  | inl no_more ↦ ground (arith, take_first_from-keep o c ms no_more)
  | inr (found, e) ↦ ground arith
]

take_head-keep :
    (c : String) (ms : List Message)
    → take_head ms ≡ none
    → take_head (keep (λ m. not (is_from c m)) ms) ≡ none
unfolding take_head
take_head-keep c [] h = refl
take_head-keep c (m ∷ ms) h = cc

Awake-keep :
    (c : String) (flag : Bool) (owner : Option String) (ms : List Message)
    → Awake flag owner ms
    → Awake flag owner (keep (λ m. not (is_from c m)) ms)
unfolding take_next_runnable
Awake-keep c true owner ms h = tt
Awake-keep c false none ms h = take_head-keep c ms h
Awake-keep c false (some o) ms h = take_first_from-keep o c ms h

module _ {B : Type 0} (in_transaction : B → Bool) where
  -- What holds at every point of the code.
  pub record Core (w : World B) : Type 0 where
    pub draining : (is_some w.running && not w.queue.is_draining) ≡ false
    pub runs_for : RunsFor w.running w.queue.owner
    pub isolated : Isolated w.executed
    pub owner : w.queue.owner ≡ owner_of w.executed
    pub reported : is_some w.queue.owner ≡ in_transaction w.backend

  -- What holds between two events.
  pub record Invariant (w : World B) : Type 0 where
    pub core : Core w
    pub awake : Awake w.queue.is_draining w.queue.owner w.queue.pending

  -- `take_next` runs when the loop holds the flag and nothing runs.
  pub take_next-Invariant :
      (w : World B)
      → w.queue.is_draining ≡ true
      → w.running ≡ none
      → Core w
      → Invariant (take_next w)
  unfolding take_next
  take_next-Invariant w flag idle c =
      elim (Option-cases (take_next_runnable w.queue.owner w.queue.pending)) [
        | inl stuck ↦
            rw (stuck, take_next)
              (record {
                core = record {
                  draining = ground arith;
                  runs_for = c.runs_for;
                  isolated = c.isolated;
                  owner = c.owner;
                  reported = c.reported;
                };
                awake = stuck;
              })
        | inr ((m, rest), taken) ↦
            rw (taken, take_next)
              (record {
                core = record {
                  draining = ground arith;
                  runs_for = take_next_runnable-RunsFor w.queue.owner w.queue.pending m rest taken;
                  isolated = c.isolated;
                  owner = c.owner;
                  reported = c.reported;
                };
                awake = rw flag tt;
              })
      ]

  pub idle_nothing : (w : World B) → Core w → w.queue.is_draining ≡ false → w.running ≡ none
  idle_nothing w c idle = ground (arith, c.draining)

  pub drain-Invariant : (w : World B) → Core w → Invariant (drain w)
  unfolding drain
  drain-Invariant w c = elim (Bool-cases w.queue.is_draining) [
    | inl busy ↦
        rw (busy, drain)
          (record {
            core = record {
              draining = ground arith;
              runs_for = c.runs_for;
              isolated = c.isolated;
              owner = c.owner;
              reported = c.reported;
            };
            awake = tt;
          })
    | inr idle ↦
        let q = w.queue in
        rw (idle, drain)
          (take_next-Invariant (record w { queue = record q { is_draining = true } }) refl
            (idle_nothing w c idle)
            (record {
              draining = ground arith;
              runs_for = c.runs_for;
              isolated = c.isolated;
              owner = c.owner;
              reported = c.reported;
            }))
  ]

  -- `pending`, `detached` and `settled` are free for the code to change.
  Core-change :
      (w : World B) (pending : List Message) (detached : List String)
      (settled : List (Message × Settled))
      → Core w
      → Core (
          let q = w.queue in
          record w {
            queue = record q { pending = pending; detached = detached };
            settled = settled;
          })
  Core-change w pending detached settled c = record {
    draining = c.draining;
    runs_for = c.runs_for;
    isolated = c.isolated;
    owner = c.owner;
    reported = c.reported;
  }

  pub enqueue-Invariant : (m : Message) (w : World B) → Core w → Invariant (enqueue m w)
  unfolding enqueue
  enqueue-Invariant m w c =
      drain-Invariant _ (Core-change w (w.queue.pending ++ m ∷ []) w.queue.detached w.settled c)

  pub rollback-Invariant : (c : String) (w : World B) → Core w → Invariant (rollback c w)
  unfolding rollback
  rollback-Invariant c w core =
      let w' = enqueue (rollback_message c) w in
      let v = enqueue-Invariant (rollback_message c) w core in
      record {
        core = Core-change w' w'.queue.pending (delete_id c w'.queue.detached) w'.settled v.core;
        awake = v.awake;
      }

  pub detach-Invariant : (c : String) (w : World B) → Invariant w → Invariant (detach c w)
  unfolding detach
  detach-Invariant c w v = elim (Bool-cases (owned_by w.queue.owner c)) [
    | inl owns ↦ rw (owns, detach) (rollback-Invariant c _ (Core-change w _ _ _ v.core))
    | inr other ↦
        rw (other, detach)
          (record {
            core = Core-change w _ _ _ v.core;
            awake = Awake-keep c w.queue.is_draining w.queue.owner w.queue.pending v.awake;
          })
  ]
