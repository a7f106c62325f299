-- ===== src/Tasks/Dispatch/Attempts.antt =====
-- The number of times that a task is dispatched.
use kinglet.Base.{
  ℕ, ◌≤◌, ◌<◌, ◌≡◌, refl, sym, ap, ◌∙◌, subst, String, Bool, true, false, Option, none, some, inl,
  inr, arith, Result, ok, err, All, ◌⊎◌, ◌≢◌, >>=-eq-ok, string_eq,
}
use kinglet.Dict
use kinglet.Storage.{Table}
use kinglet.Tasks.Items.{TaskRecord, Attempt, is_pending, get_task_by_name}
use kinglet.Tasks.Items.Updates.{get_task_by_name-set, All-set}
use kinglet.Tasks.Dispatch.{
  QueueRecord, RetryConfig, Outcome, exhausted, requested, with_delays, ended, begun, updated,
  start, dispatch_begin, dispatch_end, dispatch_task,
}
use kinglet.Tasks.Dispatch.Retries.{dispatch_end-ok, updated-found}

-- Dispatched at most `most` times, and fewer if it waits to be dispatched again.
abbrev pub Within : ℕ → TaskRecord → Type 0
Within most t = (t.dispatch_count ≤ most) × (is_pending t.status ≡ true → t.dispatch_count < most)

Within-begun :
    (most : ℕ) (task : TaskRecord)
    → is_pending task.status ≡ true
    → Within most task
    → Within most (begun task task)
Within-begun most task p (le, lt) = (omega (arith, lt p), λ h. ground (arith, h))

Within-ended :
    (most : ℕ) (task : TaskRecord) (config : RetryConfig) (ttl least greatest now : ℕ)
    (attempt : Attempt) (b : Bool)
    → config.max_attempts ≡ some most
    → Within most (begun task task)
    → Within most (ended task config ttl least greatest now attempt b (begun task task))
unfolding ended exhausted
Within-ended most task config ttl least greatest now attempt true m (le, lt) =
    (le, λ h. ground (arith, h))
Within-ended most task config ttl least greatest now attempt false m (le, lt) =
    ground (arith, m, le)

-- `Storage.Table` rows within their attempts.
abbrev pub AllWithin : ℕ → Table TaskRecord → Type 0
AllWithin most table = All (λ (e : String × TaskRecord). Within most e.1) table

delays-ok {ℓ} :
    {A : Type ℓ} (lo hi : Option ℕ) (next : ℕ → ℕ → Result String A) (after : A)
    → elim lo as (λ _. Result String A) [
      | none ↦ err "Invalid duration format"
      | some least ↦ elim hi as (λ _. Result String A) [
        | none ↦ err "Invalid duration format"
        | some greatest ↦ next least greatest
      ]
    ]
      ≡ ok after
    → (least : ℕ) × (greatest : ℕ) × (lo ≡ some least)
      × (hi ≡ some greatest)
      × (next least greatest ≡ ok after)
delays-ok none hi next after h = cc
delays-ok (some least) none next after h = cc
delays-ok (some least) (some greatest) next after h = (least, greatest, refl, refl, h)

with_delays-ok {ℓ} :
    {A : Type ℓ} (config : RetryConfig) (next : ℕ → ℕ → Result String A) (after : A)
    → with_delays config next ≡ ok after
    → (least : ℕ) × (greatest : ℕ) × (config.min_backoff ≡ some least)
      × (config.max_backoff ≡ some greatest)
      × (next least greatest ≡ ok after)
with_delays-ok config next after h = delays-ok config.min_backoff config.max_backoff next after h

module _ {Request : Type 0} (parse_request : String → Option Request) (task : TaskRecord) where
  start-cases :
      (table : Table TaskRecord) (request : Option Request)
      → let r = start parse_request task request table in
        ((r.1 ≡ none) × (r.0 ≡ table)) ⊎ (r.0 ≡ updated task.name (begun task) table)
  unfolding start
  start-cases table none = inl (refl, refl)
  start-cases table (some request) = inr refl

  requested-cases :
      (table : Table TaskRecord) (text : Option String)
      → let r = requested parse_request task table text in
        ((r.1 ≡ none) × (r.0 ≡ table)) ⊎ (r.0 ≡ updated task.name (begun task) table)
  unfolding requested
  requested-cases table none = inl (refl, refl)
  requested-cases table (some text) = start-cases table (parse_request text)

module _ (task : TaskRecord) (queue : QueueRecord) (dispatch_time now most least greatest : ℕ)
    (outcome : Outcome) (id : String) (table : Table TaskRecord)
    (m : queue.retry_config.max_attempts ≡ some most)
    (lo : queue.retry_config.min_backoff ≡ some least)
    (hi : queue.retry_config.max_backoff ≡ some greatest)
    (g : get_task_by_name task.name table ≡ some (id, task)) (d : Dict.Distinct table)
    (w : Within most (begun task task)) (all : AllWithin most table) where
  -- The table between the two updates.
  middle : Table TaskRecord
  middle = Dict.set id (begun task task) table

  middle-AllWithin : AllWithin most middle
  unfolding middle
  middle-AllWithin = All-set (Within most) id (begun task task) table w all

  updated-middle : updated task.name (begun task) table ≡ middle
  unfolding middle
  updated-middle = updated-found task.name id task table (begun task) d g

  dispatch_end-AllWithin :
      (after : Table TaskRecord)
      → dispatch_end task queue dispatch_time now outcome middle ≡ ok after
      → AllWithin most after
  unfolding middle
  dispatch_end-AllWithin after h =
      let (ttl, attempt, b, e) =
        dispatch_end-ok task queue dispatch_time now least greatest outcome middle after lo hi h in
      let change = ended task queue.retry_config ttl least greatest now attempt b in
      let there = get_task_by_name-set task.name id task table (begun task task) d refl g in
      let found =
        updated-found task.name id (begun task task) middle change
          (Dict.Distinct-set id (begun task task) table d) there in
      subst (AllWithin most) (sym (e ∙ found)) (
        All-set (Within most) id (change (begun task task)) middle
          (Within-ended most task queue.retry_config ttl least greatest now attempt b m w)
          middle-AllWithin)

ok_inj {ℓ} : {A : Type ℓ} (a b : A) → ◌≡◌ {A = Result String A} (ok a) (ok b) → a ≡ b
ok_inj a b h = cc

-- What follows the call: nothing without a request.
after_begin :
    {Request : Type 0} (request : Option Request) (table : Table TaskRecord)
    (sent : Result String (Table TaskRecord)) (after : Table TaskRecord)
    → elim request as (λ _. Result String (Table TaskRecord)) [ none ↦ ok table | some _ ↦ sent ]
      ≡ ok after
    → (after ≡ table) ⊎ ((sent ≡ ok after) × (request ≢ none))
after_begin none table sent after h = inl (sym (ok_inj table after h))
after_begin (some r) table sent after h = inr (h, λ e. cc)

-- A dispatch of a waiting task of a table with distinct ids, when nothing else changes the table
-- meanwhile, keeps every task within the `max_attempts` of the configuration, whatever the client does: none is dispatched more often, and
-- one that waits has an attempt left. (A maximum of -1, no limit, is excluded.)
pub dispatch_task-attempts :
    {Request : Type 0} (parse_request : String → Option Request) (task : TaskRecord)
    (queue : QueueRecord) (dispatch_time now most : ℕ) (outcome : Outcome) (id : String)
    (table after : Table TaskRecord)
    → queue.retry_config.max_attempts ≡ some most
    → is_pending task.status ≡ true
    → get_task_by_name task.name table ≡ some (id, task)
    → Dict.Distinct table
    → Within most task
    → AllWithin most table
    → dispatch_task parse_request task queue dispatch_time now outcome table ≡ ok after
    → AllWithin most after
unfolding dispatch_task dispatch_begin
dispatch_task-attempts parse_request task queue dispatch_time now most outcome id table after m p g
      d w all h =
    let (x, begins, ends) = >>=-eq-ok _ _ h in
    let (least, greatest, lo, hi, returns) = with_delays-ok queue.retry_config _ x begins in
    let got = ok_inj _ x returns in
    let w' = Within-begun most task p w in
    let mid =
      middle-AllWithin task queue dispatch_time now most least greatest outcome id table m lo hi g d
        w' all in
    let mid_eq =
      updated-middle task queue dispatch_time now most least greatest outcome id table m lo hi g d
        w' all in
    elim (requested-cases parse_request task table task.http_request) [
      | inl (nothing, same) ↦ elim (after_begin x.1 x.0 _ after ends) [
        | inl e ↦ subst (AllWithin most) (sym (e ∙ ap (λ y. y.0) (sym got) ∙ same)) all
        | inr (sent, there) ↦ absurd (there (ap (λ y. y.1) (sym got) ∙ nothing))
      ]
      | inr changed ↦
          let x_mid = ap (λ y. y.0) (sym got) ∙ changed ∙ mid_eq in
          elim (after_begin x.1 x.0 _ after ends) [
            | inl e ↦ subst (AllWithin most) (sym (e ∙ x_mid)) mid
            | inr (sent, there) ↦
                dispatch_end-AllWithin task queue dispatch_time now most least greatest outcome id
                  table m lo hi g d w' all after
                  (ap (dispatch_end task queue dispatch_time now outcome) (sym x_mid) ∙ sent)
          ]
    ]
