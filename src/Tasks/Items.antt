-- ===== src/Tasks/Items.antt =====
-- src/services/tasks/task-repository.ts over the in-memory provider, and the task of types.ts. Times and
-- durations are milliseconds; the JSON texts of attempts are records. `listTasks` is left out.
pub mod Updates
use kinglet.Base.{
  ℕ, ◌+◌, String, Bool, true, false, ◌&&◌, not, Option, none, some, List, [], ◌∷◌, leb,
  if◌then◌else◌, Result, ok, err, ◌==◌, string_eq,
}
use kinglet.Storage
use kinglet.Storage.{Table}

pub data TaskStatus : Type 0 where
  pending dispatching failed tombstone : TaskStatus

pub record Attempt : Type 0 where
  pub schedule_time : ℕ
  pub dispatch_time : ℕ
  pub response_time : ℕ
  pub code : ℕ
  pub message : String

pub record TaskRecord : Type 0 where
  pub name : String
  pub queue_name : String
  pub http_request : Option String
  pub app_engine_http_request : Option String
  pub schedule_time : ℕ
  pub dispatch_deadline : Option ℕ
  pub dispatch_count : ℕ
  pub response_count : ℕ
  pub first_attempt : Option Attempt
  pub last_attempt : Option Attempt
  pub status : TaskStatus
  pub tombstone_expiry : Option ℕ

abbrev pub is_pending : TaskStatus → Bool
is_pending pending = true
is_pending _ = false

abbrev pub is_tombstone : TaskStatus → Bool
is_tombstone tombstone = true
is_tombstone _ = false

abbrev pub is_present {ℓ} : {A : Type ℓ} → Option A → Bool
is_present none = false
is_present (some a) = true

abbrev pub expired : ℕ → Option ℕ → Bool
expired now none = false
expired now (some time) = leb time now

unfoldable pub get_task_by_name : String → Table TaskRecord → Option (String × TaskRecord)
get_task_by_name name table = Storage.find_first (λ t. t.name == name) table

-- `id` is the new record's.
unfoldable pub create_task :
    String → TaskRecord → Table TaskRecord → Result String (Table TaskRecord)
create_task id task table = elim (get_task_by_name task.name table) [
  | none ↦ ok (Storage.create id task table)
  | some existing ↦ err "already exists"
]

unfoldable pub delete_task : String → Table TaskRecord → Table TaskRecord × Bool
delete_task name table = elim (get_task_by_name name table) [
  | none ↦ (table, false)
  | some (id, t) ↦ (Storage.delete_by_id id table, true)
]

unfoldable pub delete_tasks_by_queue : String → Table TaskRecord → Table TaskRecord × ℕ
delete_tasks_by_queue queue_name table = Storage.delete_many (λ t. t.queue_name == queue_name) table

unfoldable pub dispatchable : String → ℕ → TaskRecord → Bool
dispatchable queue_name now t =
    t.queue_name == queue_name
    && is_pending t.status
    && leb t.schedule_time now
    && is_present t.http_request

-- The provider's stable sort, by schedule time.
unfoldable pub insert_by_time : String × TaskRecord → Table TaskRecord → Table TaskRecord
insert_by_time e [] = e ∷ []
insert_by_time e (f ∷ table) =
    if leb e.1.schedule_time f.1.schedule_time then e ∷ f ∷ table else f ∷ insert_by_time e table

unfoldable pub sort_by_time : Table TaskRecord → Table TaskRecord
sort_by_time [] = []
sort_by_time (e ∷ table) = insert_by_time e (sort_by_time table)

unfoldable pub find_dispatchable_tasks : String → ℕ → ℕ → Table TaskRecord → Table TaskRecord
find_dispatchable_tasks queue_name limit now table =
    Storage.find (λ t. true) limit 0
      (sort_by_time (Storage.find (dispatchable queue_name now) 0 0 table))

unfoldable pub update_task :
    String → (TaskRecord → TaskRecord) → Table TaskRecord → Option (Table TaskRecord)
update_task name change table = elim (get_task_by_name name table) [
  | none ↦ none
  | some (id, t) ↦ Storage.update_by_id id change table
]

unfoldable pub find_tombstone : String → Table TaskRecord → Option (String × TaskRecord)
find_tombstone name table = Storage.find_first (λ t. t.name == name && is_tombstone t.status) table

unfoldable pub cleanup_expired_tombstones : ℕ → Table TaskRecord → Table TaskRecord × ℕ
cleanup_expired_tombstones now table =
    Storage.delete_many (λ t. is_tombstone t.status && expired now t.tombstone_expiry) table
