-- ===== src/Shared/Ports/Tests.antt =====
-- Runs of the port allocator on the range from 5432 to 5434.
use kinglet.Base.{
  ℕ, ◌≡◌, refl, Bool, false, Option, none, some, List, [], ◌∷◌, map, if◌then◌else◌, ◌==◌, nat_eq,
}
use kinglet.Shared.Ports.{
  PortAllocator, claimed, release, claim, scan, scan_all, allocate, release_all, bind_loop,
  allocate_bound,
}
use kinglet.Shared.Ports.Scan.{with_port, best, allocate-best}
use kinglet.Shared.Ports.Binding.{held_port, IsBound, allocate_bound-ends}

abbrev allocator : PortAllocator
allocator = record { port_range_start = 5432; port_range_end = 5434; allocated_ports = 5433 ∷ [] }

-- A foreign Postgres on the first port.
abbrev listening : ℕ → Bool
listening p = p == 5432

-- Every port but the last refuses.
abbrev bind : ℕ → Option ℕ
bind p = if p == 5434 then some 1 else none

abbrev results {ℓ} : {A : Type ℓ} → Option A → List A
results none = []
results (some a) = a ∷ []

last_port : (allocate listening none allocator).1 ≡ some 5434
unfolding allocate scan_all scan claim claimed release
last_port = refl

refused_and_given_back :
    map {B = List ℕ × Option (ℕ × ℕ)}
      (λ (r : PortAllocator × Option (ℕ × ℕ)). (r.0.allocated_ports, r.1))
      (results (allocate_bound (λ _. false) bind none allocator))
    ≡ (5433 ∷ 5434 ∷ [], some (5434, 1)) ∷ []
unfolding allocate_bound bind_loop release_all allocate scan_all scan claim claimed release
refused_and_given_back = refl

allocate-best_example :
    ((allocate listening (some 5432) allocator).1 ≡ best listening (some 5432) allocator)
    × ((q : ℕ)
        → claimed (allocate listening (some 5432) allocator).0 q
          ≡ with_port (best listening (some 5432) allocator) (claimed allocator q) q)
allocate-best_example = allocate-best listening (some 5432) allocator

allocate_bound-ends_example :
    (result : PortAllocator × Option (ℕ × ℕ)) × (allocate_bound listening bind (some 5433) allocator
      ≡ some result)
    × IsBound bind result.1
    × ((q : ℕ) → claimed result.0 q ≡ with_port (held_port result.1) (claimed allocator q) q)
allocate_bound-ends_example = allocate_bound-ends listening bind (some 5433) allocator
