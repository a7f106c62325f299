-- ===== src/Tasks/Tick/Taken.antt =====
-- The tasks that a tick takes: at most ten, due, and within the queue's limits.
use kinglet.Base.{
  Option, none, some, ◌&&◌, ◌==◌, string_eq, ℕ, zero, suc, ◌+◌, ◌≤◌, ◌≡◌, refl, ap, ◌∙◌, subst, sym,
  String, Bool, true, false, Bool-cases, inl, inr, List, [], ◌∷◌, arith, length, length-take-le,
  take, keep, All, leb,
}
use kinglet.Storage
use kinglet.Storage.{Table}
use kinglet.Tasks.Items.{
  TaskRecord, TaskStatus, pending, dispatching, failed, tombstone, is_pending, is_present,
  dispatchable, insert_by_time, sort_by_time, find_dispatchable_tasks,
}
use kinglet.Tasks.TokenBucket.{Config, TokenBucket, acquire, refill}
use kinglet.Tasks.Tick.{take_tasks, tick_queue}

acquire-taken :
    (unit : ℕ) (b : TokenBucket)
    → (acquire unit b).1 ≡ true
    → ((acquire unit b).0.concurrent ≡ b.concurrent + 1)
      × (b.concurrent + 1 ≤ b.config.max_concurrent)
      × ((acquire unit b).0.config ≡ b.config)
unfolding acquire
acquire-taken unit b got = (ground (arith, got), ground (arith, got), ground (arith, got))

acquire-refused : (unit : ℕ) (b : TokenBucket) → (acquire unit b).1 ≡ false → (acquire unit b).0 ≡ b
unfolding acquire
acquire-refused unit b refused = ground (arith, refused)

take_tasks_lem :
    (unit : ℕ) (tasks : Table TaskRecord) (b : TokenBucket)
    → b.concurrent ≤ b.config.max_concurrent
    → let (b', taken) = take_tasks unit tasks b in
      (taken ≡ take (length taken) tasks)
      × (b'.concurrent ≡ b.concurrent + length taken)
      × (b'.concurrent ≤ b.config.max_concurrent)
unfolding take_tasks
take_tasks_lem unit [] b h = (refl, omega arith, h)
take_tasks_lem unit (t ∷ ts) b h = elim (Bool-cases ((acquire unit b).1)) [
  | inl got ↦
      let (one, room, same) = acquire-taken unit b got in
      let same_limit = ap (λ (c : Config). c.max_concurrent) same in
      let (front, slots, within) =
        take_tasks_lem unit ts (acquire unit b).0 (omega (arith, one, room, same_limit)) in
      (
        rw got (ap (◌∷◌ t) front),
        ground (arith, got, slots, one),
        ground (arith, got, within, same_limit),
      )
  | inr refused ↦
      let stays = ap (λ (c : TokenBucket). c.concurrent) (acquire-refused unit b refused) in
      (rw refused refl, ground (arith, refused, stays), ground (arith, refused, stays, h))
]

module _ (P : TaskRecord → Type 0) where
  Each : Table TaskRecord → Type 0
  Each table = All (λ (e : String × TaskRecord). P e.1) table

  Each-keep :
      (p : TaskRecord → Bool) (table : Table TaskRecord)
      → ((t : TaskRecord) → p t ≡ true → P t)
      → Each (keep (λ e. p e.1) table)
  unfolding Each
  Each-keep p [] h = tt
  Each-keep p (e ∷ table) h = elim (Bool-cases (p e.1)) [
    | inl kept ↦ rw kept (h e.1 kept, Each-keep p table h)
    | inr lost ↦ rw lost (Each-keep p table h)
  ]

  Each-insert_by_time :
      (e : String × TaskRecord) (table : Table TaskRecord)
      → P e.1
      → Each table
      → Each (insert_by_time e table)
  unfolding Each insert_by_time
  Each-insert_by_time e [] p ps = (p, tt)
  Each-insert_by_time e (f ∷ table) p (q, ps) =
      elim (Bool-cases (leb e.1.schedule_time f.1.schedule_time)) [
        | inl before ↦ rw before (p, (q, ps))
        | inr after ↦ rw after (q, Each-insert_by_time e table p ps)
      ]

  Each-sort_by_time : (table : Table TaskRecord) → Each table → Each (sort_by_time table)
  unfolding Each sort_by_time
  Each-sort_by_time [] ps = tt
  Each-sort_by_time (e ∷ table) (p, ps) =
      Each-insert_by_time e (sort_by_time table) p (Each-sort_by_time table ps)

  Each-take : (n : ℕ) (table : Table TaskRecord) → Each table → Each (take n table)
  unfolding Each
  Each-take zero table ps = tt
  Each-take (suc n) [] ps = tt
  Each-take (suc n) (e ∷ table) (p, ps) = (p, Each-take n table ps)

refill-concurrent :
    (b : TokenBucket)
    → ((refill b).concurrent ≡ b.concurrent)
      × ((refill b).config.max_concurrent ≡ b.config.max_concurrent)
unfolding refill
refill-concurrent b = (refl, refl)

module _ {A : Type 0} where
  length-take_le : (n : ℕ) (xs : List A) → length (take n xs) ≤ length xs
  length-take_le zero xs = omega arith
  length-take_le (suc n) [] = omega arith
  length-take_le (suc n) (x ∷ xs) = omega (arith, length-take_le n xs)

  take-take : (n m : ℕ) (xs : List A) → n ≤ m → take n (take m xs) ≡ take n xs
  take-take zero m xs h = refl
  take-take (suc n) zero xs h = absurd (omega (arith, h))
  take-take (suc n) (suc m) [] h = refl
  take-take (suc n) (suc m) (x ∷ xs) h = ap (◌∷◌ x) (take-take n m xs (omega (arith, h)))

  keep-all : (xs : List A) → keep (λ x. true) xs ≡ xs
  keep-all [] = refl
  keep-all (x ∷ xs) = ap (◌∷◌ x) (keep-all xs)

found_lem :
    (queue_name : String) (now : ℕ) (table : Table TaskRecord)
    → find_dispatchable_tasks queue_name 10 now table
      ≡ take 10 (sort_by_time (keep (λ e. dispatchable queue_name now e.1) table))
unfolding find_dispatchable_tasks Storage.find
found_lem queue_name now table =
    ap (take 10) (keep-all (sort_by_time (keep (λ e. dispatchable queue_name now e.1) table)))

-- What waits for its dispatch over HTTP.
abbrev pub waits : TaskStatus → Option String → Bool
waits pending (some request) = true
waits _ _ = false

abbrev pub is_ready : String → ℕ → TaskRecord → Bool
is_ready queue_name now t =
    waits t.status t.http_request && t.queue_name == queue_name && leb t.schedule_time now

abbrev pub IsReady : String → ℕ → TaskRecord → Type 0
IsReady queue_name now t =
    (t.queue_name ≡ queue_name)
    × (t.status ≡ pending)
    × (t.schedule_time ≤ now)
    × ((request : String) × (t.http_request ≡ some request))

waits_lem :
    (s : TaskStatus) (o : Option String)
    → (waits s o ≡ is_pending s && is_present o)
      × (waits s o ≡ true → (s ≡ pending) × ((request : String) × (o ≡ some request)))
waits_lem pending (some request) = (refl, λ h. (refl, (request, refl)))
waits_lem pending none = (refl, λ h. absurd (ground (arith, h)))
waits_lem dispatching o = (refl, λ h. absurd (ground (arith, h)))
waits_lem failed o = (refl, λ h. absurd (ground (arith, h)))
waits_lem tombstone o = (refl, λ h. absurd (ground (arith, h)))

is_ready-dispatchable :
    (queue_name : String) (now : ℕ) (t : TaskRecord)
    → dispatchable queue_name now t ≡ is_ready queue_name now t
unfolding dispatchable
is_ready-dispatchable queue_name now t = ground (arith, (waits_lem t.status t.http_request).0)

is_ready-IsReady :
    (queue_name : String) (now : ℕ) (t : TaskRecord)
    → is_ready queue_name now t ≡ true
    → IsReady queue_name now t
is_ready-IsReady queue_name now t h =
    let (status, request) = (waits_lem t.status t.http_request).1 (ground (arith, h)) in
    (
      ground (arith, h, string_eq.equals_iff t.queue_name queue_name),
      status,
      ground (arith, h),
      request,
    )

keep_due :
    (queue_name : String) (now : ℕ) (table : Table TaskRecord)
    → keep (λ e. dispatchable queue_name now e.1) table
      ≡ keep (λ e. is_ready queue_name now e.1) table
keep_due queue_name now [] = refl
keep_due queue_name now (e ∷ table) =
    ground (arith, is_ready-dispatchable queue_name now e.1, keep_due queue_name now table)

-- The tasks that a tick takes from a queue, whose bucket is within its number of dispatches in flight,
-- are the first of the queue's due tasks as the provider sorts them: each is of the queue, pending, due and has a
-- request. There are at most ten, each takes one slot of the bucket, and the bucket stays within its number.
pub tick_queue-due :
    (unit : ℕ) (queue_name : String) (now : ℕ) (table : Table TaskRecord) (b : TokenBucket)
    → b.concurrent ≤ b.config.max_concurrent
    → let (b', taken) = tick_queue unit queue_name now table b in
      All (λ (e : String × TaskRecord). IsReady queue_name now e.1) taken
      × (length taken ≤ 10)
      × (taken ≡ take (length taken) (sort_by_time (keep (λ e. is_ready queue_name now e.1) table)))
      × (b'.concurrent ≡ b.concurrent + length taken)
      × (b'.concurrent ≤ b.config.max_concurrent)
unfolding tick_queue Each
tick_queue-due unit queue_name now table b h =
    let sorted = sort_by_time (keep (λ e. is_ready queue_name now e.1) table) in
    let found = find_dispatchable_tasks queue_name 10 now table in
    let (slots_kept, limit_kept) = refill-concurrent b in
    let (front, slots, within) =
      take_tasks_lem unit found (refill b) (omega (arith, h, slots_kept, limit_kept)) in
    let n = length (take_tasks unit found (refill b)).1 in
    let batch =
      found_lem queue_name now table
      ∙ ap (λ l. take 10 (sort_by_time l)) (keep_due queue_name now table) in
    let short = length-take-le 10 sorted in
    let at_most : n ≤ 10 =
      omega (arith, ap length front, length-take_le n found, ap length batch, short) in
    let first = front ∙ ap (take n) batch ∙ take-take n 10 sorted at_most in
    let P = IsReady queue_name now in
    let due = Each-take P n sorted (
      Each-sort_by_time P _
        (Each-keep P (is_ready queue_name now) table (is_ready-IsReady queue_name now))) in
    (
      subst (Each P) (sym first) due,
      at_most,
      first,
      omega (arith, slots, slots_kept),
      omega (arith, within, limit_kept),
    )
