-- ===== src/Tasks/Tick.antt =====
-- src/services/tasks/dispatch-engine.ts: which tasks of one queue a `tick` dispatches. The dispatches
-- themselves run afterwards, and give their slots back when they end.
mod Taken
mod Tests
use kinglet.Base.{ℕ, ◌+◌, String, Bool, List, [], ◌∷◌, if◌then◌else◌}
use kinglet.Storage.{Table}
use kinglet.Tasks.Items.{TaskRecord, find_dispatchable_tasks}
use kinglet.Tasks.TokenBucket.{TokenBucket, acquire, refill}

-- The loop over the tasks: it breaks at the first that gets no token.
pub take_tasks : ℕ → Table TaskRecord → TokenBucket → TokenBucket × Table TaskRecord
take_tasks unit [] bucket = (bucket, [])
take_tasks unit (task ∷ tasks) bucket =
    let (bucket', got) = acquire unit bucket in
    let (bucket'', taken) = take_tasks unit tasks bucket' in
    if got then (bucket'', task ∷ taken) else (bucket', [])

-- The turn of one queue, with its batch of ten.
pub tick_queue : ℕ → String → ℕ → Table TaskRecord → TokenBucket → TokenBucket × Table TaskRecord
unfolding take_tasks
tick_queue unit queue_name now table bucket =
    take_tasks unit (find_dispatchable_tasks queue_name 10 now table) (refill bucket)
