-- ===== src/Shared/Ports/Scan.antt =====
-- The port that an allocation takes.
use kinglet.Base.{
  ℕ, zero, suc, ◌+◌, ◌-◌, ◌≡◌, refl, ap, ◌∙◌, Bool, false, ◌||◌, Option, none, some, Bool-cases,
  inl, inr, arith, if◌then◌else◌, ◌==◌, nat_eq,
}
use kinglet.Shared.Ports.{PortAllocator, claimed, claim, scan, scan_all, allocate}
use kinglet.Shared.Ports.Claims.{in_range, available, claim-available, claimed-claim, range-claim}

-- The first of `left` numbers from `port` on that passes the test.
abbrev pub first_passing : (ℕ → Bool) → ℕ → ℕ → Option ℕ
first_passing p zero port = none
first_passing p (suc left) port =
    let rest = first_passing p left (port + 1) in if p port then some port else rest

-- What the set holds after an allocation.
abbrev pub with_port : Option ℕ → Bool → ℕ → Bool
with_port none before q = before
with_port (some p) before q = before || p == q

first_passing-cong :
    (p r : ℕ → Bool) (left port : ℕ)
    → ((q : ℕ) → p q ≡ r q)
    → first_passing p left port ≡ first_passing r left port
first_passing-cong p r zero port h = refl
first_passing-cong p r (suc left) port h =
    ground (arith, h port, first_passing-cong p r left (port + 1) h)

module _ (listening : ℕ → Bool) where
  -- A claim that fails changes no port's availability.
  available-claim :
      (a : PortAllocator) (port q : ℕ)
      → available listening a port ≡ false
      → available listening (claim listening a port).0 q ≡ available listening a q
  unfolding available in_range
  available-claim a port q h =
      ground (arith, h, claimed-claim listening a port q, range-claim listening a port)

  scan_lem :
      (left port : ℕ) (a : PortAllocator)
      → ((scan listening left port a).1 ≡ first_passing (available listening a) left port)
        × ((q : ℕ)
            → claimed (scan listening left port a).0 q
              ≡ with_port (first_passing (available listening a) left port) (claimed a q) q)
        × ((scan listening left port a).0.port_range_start ≡ a.port_range_start)
        × ((scan listening left port a).0.port_range_end ≡ a.port_range_end)
  unfolding scan
  scan_lem zero port a = (refl, (λ q. refl), refl, refl)
  scan_lem (suc left) port a =
      let a' = (claim listening a port).0 in
      let won = claim-available listening a port in
      let (same_start, same_end) = range-claim listening a port in
      elim (Bool-cases (available listening a port)) [
        | inl free ↦ (
          ground (arith, won, free),
          (λ q. ground (arith, won, free, claimed-claim listening a port q)),
          ground (arith, won, free, same_start),
          ground (arith, won, free, same_end),
        )
        | inr taken ↦
            let (found, held, starts, ends) = scan_lem left (port + 1) a' in
            let same =
              first_passing-cong (available listening a') (available listening a) left (port + 1)
                (λ q. available-claim a port q taken) in
            (
              ground (arith, won, taken, found, same),
              (λ q. ground (arith, won, taken, held q, same, claimed-claim listening a port q)),
              ground (arith, won, taken, starts, same_start),
              ground (arith, won, taken, ends, same_end),
            )
      ]

  -- The reference: a preferred port that is available, else the lowest available one of the range.
  abbrev pub best : Option ℕ → PortAllocator → Option ℕ
  best none a =
      first_passing (available listening a) (a.port_range_end + 1 - a.port_range_start)
        a.port_range_start
  best (some preferred_port) a =
      let lowest =
        first_passing (available listening a) (a.port_range_end + 1 - a.port_range_start)
          a.port_range_start in
      if available listening a preferred_port then some preferred_port else lowest

  pub range-allocate :
      (preferred_port : Option ℕ) (a : PortAllocator)
      → ((allocate listening preferred_port a).0.port_range_start ≡ a.port_range_start)
        × ((allocate listening preferred_port a).0.port_range_end ≡ a.port_range_end)
  unfolding allocate scan_all
  range-allocate none a =
      let (_, _, starts, ends) =
        scan_lem (a.port_range_end + 1 - a.port_range_start) a.port_range_start a in
      (starts, ends)
  range-allocate (some p) a =
      let a' = (claim listening a p).0 in
      let (_, _, starts, ends) =
        scan_lem (a'.port_range_end + 1 - a'.port_range_start) a'.port_range_start a' in
      let (same_start, same_end) = range-claim listening a p in
      (ground (arith, starts, same_start), ground (arith, ends, same_end))

  -- An allocation returns the preferred port if that is available (in the range, not claimed, no one
  -- listening), else the lowest available port of the range, else nothing; afterwards exactly the port
  -- that it returned is claimed in addition.
  pub allocate-best :
      (preferred_port : Option ℕ) (a : PortAllocator)
      → ((allocate listening preferred_port a).1 ≡ best preferred_port a)
        × ((q : ℕ)
            → claimed (allocate listening preferred_port a).0 q
              ≡ with_port (best preferred_port a) (claimed a q) q)
  unfolding allocate scan_all
  allocate-best none a =
      let (found, held, _, _) =
        scan_lem (a.port_range_end + 1 - a.port_range_start) a.port_range_start a in
      (found, held)
  allocate-best (some p) a =
      let a' = (claim listening a p).0 in
      let won = claim-available listening a p in
      let (same_start, same_end) = range-claim listening a p in
      let (found, held, _, _) =
        scan_lem (a'.port_range_end + 1 - a'.port_range_start) a'.port_range_start a' in
      let same_range =
        ap (λ (s : ℕ). first_passing (available listening a') (a'.port_range_end + 1 - s) s)
          same_start
        ∙ ap
            (λ (e : ℕ).
              first_passing (available listening a') (e + 1 - a.port_range_start)
                a.port_range_start)
            same_end in
      elim (Bool-cases (available listening a p)) [
        | inl free ↦ (
          ground (arith, won, free),
          λ q. ground (arith, won, free, claimed-claim listening a p q),
        )
        | inr taken ↦
            let same =
              same_range
              ∙ first_passing-cong (available listening a') (available listening a)
                  (a.port_range_end + 1 - a.port_range_start) a.port_range_start
                  (λ q. available-claim a p q taken) in
            (
              ground (arith, won, taken, found, same),
              λ q. ground (arith, won, taken, held q, same, claimed-claim listening a p q),
            )
      ]
