-- ===== src/Shared/Ports.antt =====
-- src/shared/utils/port-allocator.ts. The `Set` of allocated ports is a list; what `isPortListening`
-- finds is a parameter, as is the caller's `bind`, which returns nothing where the code's throws.
mod Claims
mod Scan
mod Counting
mod Binding
mod Tests
use kinglet.Base.{
  ℕ, zero, suc, ◌+◌, ◌-◌, Bool, true, false, not, ◌||◌, Option, none, some, List, [], ◌∷◌, ◌++◌,
  keep, any, if◌then◌else◌, ltb, ◌==◌, nat_eq,
}

pub record PortAllocator : Type 0 where
  pub port_range_start : ℕ
  pub port_range_end : ℕ
  pub allocated_ports : List ℕ

-- `allocatedPorts.has(port)`
pub claimed : PortAllocator → ℕ → Bool
claimed a port = any (λ q. q == port) a.allocated_ports

pub release : PortAllocator → ℕ → PortAllocator
release a port = record a { allocated_ports = keep (λ q. not (q == port)) a.allocated_ports }

module _ (listening : ℕ → Bool) where
  pub claim : PortAllocator → ℕ → PortAllocator × Bool
  unfolding claimed release
  claim a port =
      if ltb port a.port_range_start || ltb a.port_range_end port
      then (a, false)
      else if claimed a port
      then (a, false)
      else let taken : PortAllocator = record a {
        allocated_ports = a.allocated_ports ++ port ∷ [];
      } in
        if listening port then (release taken port, false) else (taken, true)

  -- The scan of `allocate`, with the number of ports that are left.
  pub scan : ℕ → ℕ → PortAllocator → PortAllocator × Option ℕ
  unfolding claim
  scan zero port a = (a, none)
  scan (suc left) port a =
      let (a', free) = claim a port in
      let rest = scan left (port + 1) a' in if free then (a', some port) else rest

  pub scan_all : PortAllocator → PortAllocator × Option ℕ
  unfolding scan
  scan_all a = scan (a.port_range_end + 1 - a.port_range_start) a.port_range_start a

  pub allocate : Option ℕ → PortAllocator → PortAllocator × Option ℕ
  unfolding claim scan_all
  allocate none a = scan_all a
  allocate (some preferred_port) a =
      let (a', free) = claim a preferred_port in
      if free then (a', some preferred_port) else scan_all a'

-- The `finally` of `allocateBound`.
pub release_all : List ℕ → PortAllocator → PortAllocator
unfolding release
release_all [] a = a
release_all (port ∷ ports) a = release_all ports (release a port)

-- `allocateBound`, whose loop has `fuel` turns: `none` when they are not enough.
pub bind_loop :
    {T : Type 0}
    → (ℕ → Bool)
    → (ℕ → Option T)
    → Option ℕ
    → ℕ
    → List ℕ
    → PortAllocator
    → Option (PortAllocator × Option (ℕ × T))
unfolding allocate release_all
bind_loop listening bind preferred_port zero refused a = none
bind_loop listening bind preferred_port (suc fuel) refused a =
    let (a', port) = allocate listening preferred_port a in
    elim port [
      | none ↦ some (release_all refused a', none)
      | some p ↦
          let rest = bind_loop listening bind preferred_port fuel (p ∷ refused) a' in
          elim (bind p) [
            | none ↦ rest
            | some bound ↦ some (release_all refused a', some (p, bound))
          ]
    ]

pub allocate_bound :
    {T : Type 0}
    → (ℕ → Bool)
    → (ℕ → Option T)
    → Option ℕ
    → PortAllocator
    → Option (PortAllocator × Option (ℕ × T))
unfolding bind_loop
allocate_bound listening bind preferred_port a =
    bind_loop listening bind preferred_port (suc (a.port_range_end + 1 - a.port_range_start)) [] a
