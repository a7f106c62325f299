-- ===== src/Pubsub/Messages/LeasedRows.antt =====
-- One delivery record and its lease: what a row of the table says after an update.
use kinglet.Base.{
  ℕ, ◌≡◌, String, Bool, true, false, none, some, Option-cases, inl, inr, arith, if◌then◌else◌, ◌==◌,
  nat_eq, string_eq,
}
use kinglet.Dict
use kinglet.Storage
use kinglet.Storage.{Table}
use kinglet.Pubsub.Messages.{Delivered, Repository, eligible, find_message, lease, or_same}

-- The row is there, and its deadline is the one given.
abbrev pub leased_until : String → ℕ → Table Delivered → Bool
leased_until id deadline table = elim (Dict.get id table) [
  | none ↦ false
  | some d ↦ d.ack_deadline == deadline
]

-- The row is there, and a pull by the subscription at the time finds it.
abbrev pub deliverable : String → String → ℕ → Table Delivered → Bool
deliverable id sub now table = elim (Dict.get id table) [
  | none ↦ false
  | some d ↦ eligible sub now d
]

-- A row of a table has its id among the keys, and a message in the repository.
abbrev pub has_row : String → Table Delivered → Bool
has_row id table = elim (Dict.get id table) [ none ↦ false | some d ↦ true ]

abbrev pub has_message : Repository → String × Delivered → Bool
has_message repo row = elim (find_message row.1.message_id repo) [ none ↦ false | some m ↦ true ]

unfoldable pub lease_row : String → ℕ → ℕ → Table Delivered → Table Delivered
lease_row id deadline attempt table =
    or_same (Storage.update_by_id id (lease deadline attempt) table) table

pub get-lease_row :
    (id j : String) (deadline attempt : ℕ) (table : Table Delivered)
    → Dict.get j (lease_row id deadline attempt table) ≡ elim (Dict.get id table) [
      | none ↦ Dict.get j table
      | some d ↦ if id == j then some (lease deadline attempt d) else Dict.get j table
    ]
unfolding lease_row Storage.update_by_id
get-lease_row id j deadline attempt table = elim (Option-cases (Dict.get id table)) [
  | inl absent ↦ ground (arith, absent)
  | inr (d, found) ↦ ground (arith, found, Dict.get-set id j (lease deadline attempt d) table)
]

pub has_row-lease_row :
    (id j : String) (deadline attempt : ℕ) (table : Table Delivered)
    → has_row j table ≡ true
    → has_row j (lease_row id deadline attempt table) ≡ true
has_row-lease_row id j deadline attempt table h =
    ground (arith, get-lease_row id j deadline attempt table)

pub leased-lease_row :
    (id j : String) (deadline attempt : ℕ) (table : Table Delivered)
    → leased_until j deadline table ≡ true
    → leased_until j deadline (lease_row id deadline attempt table) ≡ true
unfolding lease
leased-lease_row id j deadline attempt table h =
    ground (arith, get-lease_row id j deadline attempt table)

pub leased_at-lease_row :
    (id : String) (deadline attempt : ℕ) (table : Table Delivered)
    → has_row id table ≡ true
    → leased_until id deadline (lease_row id deadline attempt table) ≡ true
unfolding lease
leased_at-lease_row id deadline attempt table h =
    ground (arith, get-lease_row id id deadline attempt table, string_eq.equals_iff id id)
