-- ===== src/Shared/Ports/Claims.antt =====
-- What claims and releases do to the set of allocated ports.
use kinglet.Base.{
  ℕ, ◌≡◌, Bool, not, ◌||◌, ◌&&◌, List, [], ◌∷◌, ◌++◌, arith, keep, any, ltb, ◌==◌, nat_eq,
}
use kinglet.Shared.Ports.{PortAllocator, claimed, release, claim}

any-append : (p : ℕ → Bool) (xs : List ℕ) (x : ℕ) → any p (xs ++ x ∷ []) ≡ any p xs || p x
any-append p [] x = ground arith
any-append p (y ∷ xs) x = ground (arith, any-append p xs x)

any-keep :
    (port q : ℕ) (xs : List ℕ)
    → any (λ y. y == q) (keep (λ y. not (y == port)) xs) ≡ any (λ y. y == q) xs && not (q == port)
any-keep port q [] = ground arith
any-keep port q (y ∷ xs) = ground (
  arith,
  any-keep port q xs,
  nat_eq.equals_iff y q,
  nat_eq.equals_iff y port,
  nat_eq.equals_iff q port,
)

pub claimed-release :
    (a : PortAllocator) (port q : ℕ) → claimed (release a port) q ≡ claimed a q && not (q == port)
unfolding claimed release
claimed-release a port q = any-keep port q a.allocated_ports

unfoldable pub in_range : PortAllocator → ℕ → Bool
in_range a port = not (ltb port a.port_range_start) && not (ltb a.port_range_end port)

-- A port can be had: it is in the range, free here, and no one listens on it.
unfoldable pub available : (ℕ → Bool) → PortAllocator → ℕ → Bool
unfolding in_range
available listening a port = in_range a port && not (claimed a port) && not (listening port)

module _ (listening : ℕ → Bool) where
  -- A claim succeeds exactly on an available port.
  pub claim-available :
      (a : PortAllocator) (port : ℕ) → (claim listening a port).1 ≡ available listening a port
  unfolding claim claimed release available in_range
  claim-available a port = ground arith

  -- A claim adds the port if it succeeds, and nothing if it does not.
  pub claimed-claim :
      (a : PortAllocator) (port q : ℕ)
      → claimed (claim listening a port).0 q
        ≡ claimed a q || (available listening a port && port == q)
  unfolding claim claimed release available in_range
  claimed-claim a port q = ground (
    arith,
    any-append (λ y. y == q) a.allocated_ports port,
    any-keep port q (a.allocated_ports ++ port ∷ []),
    nat_eq.equals_iff q port,
    nat_eq.equals_iff port q,
  )

  pub range-claim :
      (a : PortAllocator) (port : ℕ)
      → ((claim listening a port).0.port_range_start ≡ a.port_range_start)
        × ((claim listening a port).0.port_range_end ≡ a.port_range_end)
  unfolding claim claimed release
  range-claim a port = ground arith
