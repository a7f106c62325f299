-- ===== src/SessionQueue/Promises.antt =====
-- Every promise that `enqueue` gives out is kept: at each step it is pending, running or settled, once.
use kinglet.Base.{
  ℕ, ◌+◌, ◌≡◌, ◌≢◌, refl, String, Bool, true, false, none, some, List, [], ◌∷◌, ◌++◌, arith, map,
  if◌then◌else◌, keep, Bool-cases, Option-cases, inl, inr, ◌∙◌,
}
use kinglet.SessionQueue.{
  Message, World, resolved, rejected, abandoned, is_from, owned_by, has_id, take_next_runnable,
  take_next, drain, enqueue, rollback, rollback_message, abandon, detach, resume, settle,
  rollback_if_lost, finish,
}
use kinglet.SessionQueue.Isolation.{Invariant, idle_nothing}
use kinglet.SessionQueue.Steps.{
  Step, enqueued, left, answered, resumed, lost_none, lost_some, lost_alive,
}
use kinglet.SessionQueue.Fairness.{
  one, count, count_running, count_settled, count-append, count_settled-append, count_settled-map,
  count-keep, count-take_next,
}

module _ {B : Type 0} where
  -- How often the promise stands in the queue, runs, or has been settled.
  abbrev pub tally : ℕ → World B → ℕ
  tally p w = count p w.queue.pending + count_running p w.running + count_settled p w.settled

  tally-take_next : (p : ℕ) (w : World B) → w.running ≡ none → tally p (take_next w) ≡ tally p w
  unfolding take_next
  tally-take_next p w idle =
      elim (Option-cases (take_next_runnable w.queue.owner w.queue.pending)) [
        | inl stuck ↦ ground arith
        | inr ((m, rest), taken) ↦
            ground (arith, count-take_next p w.queue.owner w.queue.pending m rest taken)
      ]

  -- The loop is entered only when nothing runs.
  abbrev Ready : World B → Type 0
  Ready w = (w.queue.is_draining ≡ false) → w.running ≡ none

  tally-drain : (p : ℕ) (w : World B) → Ready w → tally p (drain w) ≡ tally p w
  unfolding drain
  tally-drain p w ready = elim (Bool-cases w.queue.is_draining) [
    | inl busy ↦ ground arith
    | inr idle ↦
        let q = w.queue in
        let entered =
          tally-take_next p (record w { queue = record q { is_draining = true } }) (ready idle) in
        ground (arith, entered)
  ]

  tally-enqueue :
      (p : ℕ) (m : Message) (w : World B) → Ready w → tally p (enqueue m w) ≡ tally p w + one p m
  unfolding enqueue
  tally-enqueue p m w ready =
      let q = w.queue in
      let pushed =
        tally-drain p (record w { queue = record q { pending = q.pending ++ m ∷ [] } }) ready in
      omega (arith, pushed, count-append p w.queue.pending (m ∷ []))

  -- The queue's own rollbacks carry the promise 0.
  tally-rollback :
      (p : ℕ) (c : String) (w : World B) → p ≢ 0 → Ready w → tally p (rollback c w) ≡ tally p w
  unfolding rollback rollback_message
  tally-rollback p c w named ready = ground (arith, tally-enqueue p (rollback_message c) w ready)

  tally-abandon : (p : ℕ) (c : String) (w : World B) → tally p (abandon c w) ≡ tally p w
  unfolding abandon
  tally-abandon p c w = omega (
    arith,
    count-keep p (is_from c) w.queue.pending,
    count_settled-append p w.settled (map (λ m. (m, abandoned)) (keep (is_from c) w.queue.pending)),
    count_settled-map p abandoned (keep (is_from c) w.queue.pending),
  )

  tally-detach :
      (p : ℕ) (c : String) (w : World B) → p ≢ 0 → Ready w → tally p (detach c w) ≡ tally p w
  unfolding detach
  tally-detach p c w named ready = elim (Bool-cases (owned_by w.queue.owner c)) [
    | inl owns ↦
        rw (owns, detach) (tally-rollback p c (abandon c w) named ready ∙ tally-abandon p c w)
    | inr other ↦ rw (other, detach) (tally-abandon p c w)
  ]

  tally-rollback_if_lost :
      (p : ℕ) (w : World B) → p ≢ 0 → Ready w → tally p (rollback_if_lost w) ≡ tally p w
  tally-rollback_if_lost p w named ready = elim (Option-cases w.queue.owner) [
    | inl closed ↦ rw (lost_none w closed) refl
    | inr (o, open_by) ↦ elim (Bool-cases (has_id o w.queue.detached)) [
      | inl lost ↦ rw (lost_some w o open_by lost) (tally-rollback p o w named ready)
      | inr alive ↦ rw (lost_alive w o open_by alive) refl
    ]
  ]

module _ {B : Type 0} (exec : B → List ℕ → B × Bool) (in_transaction : B → Bool) where
  tally-settle :
      (p : ℕ) (m : Message) (w : World B)
      → w.running ≡ some m
      → tally p (settle exec in_transaction m w) ≡ tally p w
  unfolding settle
  tally-settle p m w runs =
      let how = if (exec w.backend m.bytes).1 then resolved else rejected in
      ground (arith, count_settled-append p w.settled ((m, how) ∷ []))

  settle-Ready : (m : Message) (w : World B) → Ready (settle exec in_transaction m w)
  unfolding settle
  settle-Ready m w = λ idle. refl

  tally-finish :
      (p : ℕ) (m : Message) (w : World B)
      → p ≢ 0
      → w.running ≡ some m
      → tally p (finish exec in_transaction m w) ≡ tally p w
  unfolding finish
  tally-finish p m w named runs =
      tally-rollback_if_lost p (settle exec in_transaction m w) named (settle-Ready m w)
      ∙ tally-settle p m w runs

  -- How often the step enqueues the promise.
  abbrev pub issues : {w u : World B} → ℕ → Step exec in_transaction w u → ℕ
  issues p (enqueued m) = one p m
  issues p (left c) = 0
  issues p (answered m runs) = 0
  issues p (resumed idle flag) = 0

  -- Where the queue's invariant holds, a step adds the promise that it enqueues, and moves the others between pending, running and settled:
  -- no step loses a promise or settles it twice. (0 is the promise of the queue's own rollbacks.)
  pub tally-Step :
      {w u : World B} (p : ℕ) (step : Step exec in_transaction w u)
      → p ≢ 0
      → Invariant in_transaction w
      → tally p u ≡ tally p w + issues p step
  unfolding resume
  tally-Step {w} p (enqueued m) named v = tally-enqueue p m w (idle_nothing in_transaction w v.core)
  tally-Step {w} p (left c) named v =
      omega (arith, tally-detach p c w named (idle_nothing in_transaction w v.core))
  tally-Step {w} p (answered m runs) named v = omega (arith, tally-finish p m w named runs)
  tally-Step {w} p (resumed idle flag) named v = omega (arith, tally-take_next p w idle)
