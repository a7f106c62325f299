-- ===== src/Storage/Provider/Calls.antt =====
-- src/core/storage/providers/memory.ts: the calls of the in-memory provider and the timer of its cache, and
-- runs of them.
use mathlib.Core.Option
use kinglet.Base.{ℕ, String, Bool, Option, none, some, List, [], ◌∷◌}
use kinglet.Storage.Provider.{Provider, Answer}
use kinglet.Storage.Provider.Keys.{Plain}
use kinglet.Storage.Provider.Operations
use kinglet.Storage.Provider.Operations.{Outcome}

-- A call of the provider, or the timer of its cache.
pub data Call : Type 0 where
  create : String → String → ℕ → Call
  create_many : String → List (String × ℕ) → Call
  find_by_id : String → String → Call
  find : String → (ℕ → Bool) → (List ℕ → List ℕ) → Option ℕ → ℕ → Call
  find_first : String → (ℕ → Bool) → (List ℕ → List ℕ) → ℕ → Call
  update_by_id : String → String → (ℕ → ℕ) → Call
  update_many : String → (ℕ → Bool) → (ℕ → ℕ) → Call
  delete_by_id : String → String → Call
  delete_many : String → (ℕ → Bool) → Call
  exists : String → String → Call
  count : String → Option (ℕ → Bool) → Call
  create_table : String → Call
  drop_table : String → Call
  list_tables : Call
  close : Call
  tick : Call

unfoldable pub apply : (ℕ → Option ℕ) → ℕ → Call → Provider → Outcome
apply stringify now (create t id r) p = Operations.create stringify now t id r p
apply stringify now (create_many t made) p = Operations.create_many stringify now t made p
apply stringify now (find_by_id t id) p = Operations.find_by_id stringify now t id p
apply stringify now (find t matches sort limit offset) p =
    Operations.find t matches sort limit offset p
apply stringify now (find_first t matches sort offset) p =
    Operations.find_first t matches sort offset p
apply stringify now (update_by_id t id change) p =
    Operations.update_by_id stringify now t id change p
apply stringify now (update_many t matches change) p =
    Operations.update_many stringify now t matches change p
apply stringify now (delete_by_id t id) p = Operations.delete_by_id t id p
apply stringify now (delete_many t matches) p = Operations.delete_many t matches p
apply stringify now (exists t id) p = Operations.exists now t id p
apply stringify now (count t test) p = Operations.count t test p
apply stringify now (create_table t) p = Operations.create_table t p
apply stringify now (drop_table t) p = Operations.drop_table t p
apply stringify now list_tables p = Operations.list_tables p
apply stringify now close p = Operations.close p
apply stringify now tick p = Operations.tick now p

-- The calls with their times, and the answers in their order; `none` if the cache throws.
unfoldable pub run : (ℕ → Option ℕ) → List (ℕ × Call) → Provider → Option (Provider × List Answer)
run stringify [] p = some (p, [])
run stringify ((now, call) ∷ calls) p = elim (apply stringify now call p) [
  | none ↦ none
  | some (q, answer) ↦ Option.map (λ (p', answers). (p', answer ∷ answers)) (run stringify calls q)
]

-- The table of a call has no colon in its name.
abbrev pub PlainCall : Call → Type 0
PlainCall (create t id r) = Plain t
PlainCall (create_many t made) = Plain t
PlainCall (find_by_id t id) = Plain t
PlainCall (update_by_id t id change) = Plain t
PlainCall (update_many t matches change) = Plain t
PlainCall (delete_by_id t id) = Plain t
PlainCall (delete_many t matches) = Plain t
PlainCall (exists t id) = Plain t
PlainCall (drop_table t) = Plain t
PlainCall other = Unit
