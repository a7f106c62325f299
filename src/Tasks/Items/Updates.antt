-- ===== src/Tasks/Items/Updates.antt =====
-- Updates of a task by its name.
use kinglet.Base.{
  ◌≡◌, refl, sym, ◌∙◌, String, Option, none, some, Bool-cases, inl, inr, [], ◌∷◌, arith, All,
  if◌then◌else◌, ◌==◌, string_eq,
}
use kinglet.Dict
use kinglet.Storage
use kinglet.Storage.{Table}
use kinglet.Tasks.Items.{TaskRecord, get_task_by_name, update_task}

-- The first task of the name, by recursion on the table.
first_named : String → Table TaskRecord → Option (String × TaskRecord)
first_named name [] = none
first_named name (e ∷ table) =
    let rest = first_named name table in if e.1.name == name then some e else rest

get_first :
    (name : String) (table : Table TaskRecord)
    → get_task_by_name name table ≡ first_named name table
unfolding get_task_by_name Storage.find_first Storage.find first_named
get_first name [] = refl
get_first name (e ∷ table) = ground (arith, get_first name table)

first_named-present :
    (name id : String) (old : TaskRecord) (table : Table TaskRecord)
    → first_named name table ≡ some (id, old)
    → Dict.get id table ≡ none
    → ⊥
unfolding first_named Dict.get
first_named-present name id old [] h g = cc
first_named-present name id old ((key, t) ∷ table) h g =
    ground (arith, h, g, string_eq.equals_iff key id, first_named-present name id old table)

-- Setting the row that was found, to a task of the same name, changes what is found to that task.
first_named-set :
    (name id : String) (old new : TaskRecord) (table : Table TaskRecord)
    → Dict.Distinct table
    → new.name ≡ name
    → first_named name table ≡ some (id, old)
    → first_named name (Dict.set id new table) ≡ some (id, new)
unfolding first_named Dict.set
first_named-set name id old new [] d n h = cc
first_named-set name id old new ((key, t) ∷ table) (absent, d) n h = ground (
  arith,
  h,
  n,
  absent,
  string_eq.equals_iff key id,
  string_eq.equals_iff t.name name,
  string_eq.equals_iff new.name name,
  first_named-present name id old table,
  first_named-set name id old new table d n,
)

pub All-set :
    (P : TaskRecord → Type 0) (id : String) (new : TaskRecord) (table : Table TaskRecord)
    → P new
    → All (λ (e : String × TaskRecord). P e.1) table
    → All (λ (e : String × TaskRecord). P e.1) (Dict.set id new table)
unfolding Dict.set
All-set P id new [] p ps = (p, tt)
All-set P id new ((key, t) ∷ table) p (q, ps) = elim (Bool-cases (key == id)) [
  | inl same ↦ rw same (p, ps)
  | inr differ ↦ rw differ (q, All-set P id new table p ps)
]

first_named-get :
    (name id : String) (old : TaskRecord) (table : Table TaskRecord)
    → Dict.Distinct table
    → first_named name table ≡ some (id, old)
    → Dict.get id table ≡ some old
unfolding first_named Dict.get
first_named-get name id old [] d h = cc
first_named-get name id old ((key, t) ∷ table) (absent, d) h = ground (
  arith,
  h,
  absent,
  string_eq.equals_iff key id,
  string_eq.equals_iff t.name name,
  first_named-present name id old table,
  first_named-get name id old table d,
)

module _ (name id : String) (old : TaskRecord) (table : Table TaskRecord) where
  -- An update of a task that is there puts the changed task in its row.
  pub update_task-found :
      (change : TaskRecord → TaskRecord)
      → Dict.Distinct table
      → get_task_by_name name table ≡ some (id, old)
      → update_task name change table ≡ some (Dict.set id (change old) table)
  unfolding update_task Storage.update_by_id
  update_task-found change d h =
      let row = first_named-get name id old table d (sym (get_first name table) ∙ h) in
      ground (arith, h, row)

  -- The row of a task that is set to a task of the same name is what its name finds.
  pub get_task_by_name-set :
      (new : TaskRecord)
      → Dict.Distinct table
      → new.name ≡ name
      → get_task_by_name name table ≡ some (id, old)
      → get_task_by_name name (Dict.set id new table) ≡ some (id, new)
  get_task_by_name-set new d n h =
      get_first name (Dict.set id new table)
      ∙ first_named-set name id old new table d n (sym (get_first name table) ∙ h)
