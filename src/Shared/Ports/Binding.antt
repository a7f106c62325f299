-- ===== src/Shared/Ports/Binding.antt =====
-- `allocateBound`: its loop ends, and it leaves claimed only the port that it returns.
use kinglet.Base.{
  ℕ, zero, suc, ◌+◌, ◌-◌, ◌≤◌, ◌<◌, ◌≡◌, refl, ap, ◌∙◌, Bool, true, false, not, ◌||◌, ◌&&◌, Option,
  none, some, Option-cases, inl, inr, List, [], ◌∷◌, any, arith, ◌==◌, nat_eq,
}
use kinglet.Shared.Ports.{
  PortAllocator, claimed, release, release_all, allocate, bind_loop, allocate_bound,
}
use kinglet.Shared.Ports.Claims.{in_range, available, claimed-release}
use kinglet.Shared.Ports.Scan.{first_passing, with_port, best, range-allocate, allocate-best}
use kinglet.Shared.Ports.Counting.{count, count-le, count-cong, without, count-without}

first_passing-passes :
    (p : ℕ → Bool) (left port x : ℕ) → first_passing p left port ≡ some x → p x ≡ true
first_passing-passes p zero port x h = cc
first_passing-passes p (suc left) port x h =
    ground (arith, h, first_passing-passes p left (port + 1) x)

listed : List ℕ → ℕ → Bool
listed ports q = any (λ y. y == q) ports

claimed-release_all :
    (ports : List ℕ) (a : PortAllocator) (q : ℕ)
    → claimed (release_all ports a) q ≡ claimed a q && not (listed ports q)
unfolding release_all listed
claimed-release_all [] a q = ground arith
claimed-release_all (p ∷ ports) a q = ground (
  arith,
  claimed-release_all ports (release a p) q,
  claimed-release a p q,
  nat_eq.equals_iff p q,
  nat_eq.equals_iff q p,
)

module _ (listening : ℕ → Bool) where
  best-available :
      (preferred_port : Option ℕ) (a : PortAllocator) (p : ℕ)
      → best listening preferred_port a ≡ some p
      → available listening a p ≡ true
  best-available none a p h = first_passing-passes (available listening a) _ a.port_range_start p h
  best-available (some preferred) a p h = ground (
    arith,
    h,
    first_passing-passes (available listening a) (a.port_range_end + 1 - a.port_range_start)
        a.port_range_start p,
  )

  -- An allocation takes away one available port.
  available-allocate :
      (preferred_port : Option ℕ) (a : PortAllocator) (p q : ℕ)
      → best listening preferred_port a ≡ some p
      → available listening (allocate listening preferred_port a).0 q
        ≡ without (available listening a) p q
  unfolding available in_range
  available-allocate preferred_port a p q h =
      let (found, held) = allocate-best listening preferred_port a in
      ground (arith, h, held q, range-allocate listening preferred_port a)

-- The ports of the range that can still be had.
left_over : (ℕ → Bool) → PortAllocator → PortAllocator → ℕ
unfolding count
left_over listening range a =
    count (available listening a) (range.port_range_end + 1 - range.port_range_start)
      range.port_range_start

in_range-bounds :
    (listening : ℕ → Bool) (range a : PortAllocator) (p : ℕ)
    → a.port_range_start ≡ range.port_range_start
    → a.port_range_end ≡ range.port_range_end
    → available listening a p ≡ true
    → (range.port_range_start ≤ p)
      × (p < range.port_range_start + (range.port_range_end + 1 - range.port_range_start))
unfolding available in_range
in_range-bounds listening range a p s e h = (ground (arith, s, e, h), ground (arith, s, e, h))

left_over-allocate :
    (listening : ℕ → Bool) (preferred_port : Option ℕ) (range a : PortAllocator) (p : ℕ)
    → a.port_range_start ≡ range.port_range_start
    → a.port_range_end ≡ range.port_range_end
    → best listening preferred_port a ≡ some p
    → left_over listening range (allocate listening preferred_port a).0 + 1
      ≡ left_over listening range a
unfolding left_over
left_over-allocate listening preferred_port range a p s e h =
    let n = range.port_range_end + 1 - range.port_range_start in
    let free = best-available listening preferred_port a p h in
    let (low, high) = in_range-bounds listening range a p s e free in
    ap (λ (x : ℕ). x + 1)
      (count-cong (without (available listening a) p)
        (available listening (allocate listening preferred_port a).0) n range.port_range_start
        (λ q. available-allocate listening preferred_port a p q h))
    ∙ count-without (available listening a) p n range.port_range_start free low high

-- The port that a result holds.
abbrev pub held_port : {T : Type 0} → Option (ℕ × T) → Option ℕ
held_port none = none
held_port (some (p, bound)) = some p

-- The result is what the caller's `bind` made of the port.
abbrev pub IsBound : {T : Type 0} → (ℕ → Option T) → Option (ℕ × T) → Type 0
IsBound bind none = Unit
IsBound bind (some (p, bound)) = bind p ≡ some bound

module _ {T : Type 0} (listening : ℕ → Bool) (bind : ℕ → Option T) (preferred_port : Option ℕ)
    (before : PortAllocator) where
  -- The loop ends: with the port that it returns, and no other, claimed beside those of before.
  Ends : PortAllocator → List ℕ → ℕ → Type 0
  Ends a refused fuel =
      (result : PortAllocator × Option (ℕ × T)) × (bind_loop listening bind preferred_port fuel
          refused a
        ≡ some result)
      × IsBound bind result.1
      × ((q : ℕ) → claimed result.0 q ≡ with_port (held_port result.1) (claimed before q) q)

  -- What the loop keeps: the ports of before and those that refused are claimed, no port twice.
  Kept : PortAllocator → List ℕ → Type 0
  Kept a refused =
      (a.port_range_start ≡ before.port_range_start)
      × (a.port_range_end ≡ before.port_range_end)
      × ((q : ℕ) → claimed a q ≡ claimed before q || listed refused q)
      × ((q : ℕ) → listed refused q ≡ true → claimed before q ≡ false)

  available-unclaimed :
      (a : PortAllocator) (p : ℕ) → available listening a p ≡ true → claimed a p ≡ false
  unfolding available
  available-unclaimed a p h = ground (arith, h)

  Kept-refused :
      (a : PortAllocator) (refused : List ℕ) (p : ℕ)
      → Kept a refused
      → best listening preferred_port a ≡ some p
      → Kept (allocate listening preferred_port a).0 (p ∷ refused)
  unfolding Kept listed
  Kept-refused a refused p (s, e, held, apart) h =
      let (starts, ends) = range-allocate listening preferred_port a in
      let (found, holds) = allocate-best listening preferred_port a in
      let free = available-unclaimed a p (best-available listening preferred_port a p h) in
      (
        starts ∙ s,
        ends ∙ e,
        (λ q. ground (arith, h, holds q, held q)),
        (λ q l. ground (arith, l, free, held p, apart q, nat_eq.equals_iff p q)),
      )

  bind_loop-Ends :
      (fuel : ℕ) (refused : List ℕ) (a : PortAllocator)
      → left_over listening before a < fuel
      → Kept a refused
      → Ends a refused fuel
  unfolding Ends Kept bind_loop
  bind_loop-Ends zero refused a enough kept = absurd (omega (arith, enough))
  bind_loop-Ends (suc fuel) refused a enough kept =
      let a' = (allocate listening preferred_port a).0 in
      let (found, holds) = allocate-best listening preferred_port a in
      let (_, _, held, apart) = kept in
      elim (Option-cases (best listening preferred_port a)) [
        | inl nothing ↦ (
          (release_all refused a', none),
          ground (arith, found ∙ nothing),
          tt,
          λ q. ground (arith, claimed-release_all refused a' q, holds q, nothing, held q, apart q),
        )
        | inr (p, there) ↦
            let free =
              available-unclaimed a p (best-available listening preferred_port a p there) in
            elim (Option-cases (bind p)) [
              | inl refuses ↦
                  let fewer =
                    left_over-allocate listening preferred_port before a p kept.0 kept.1 there in
                  let (result, ends, is_bound, claims) =
                    bind_loop-Ends fuel (p ∷ refused) a' (omega (arith, fewer, enough))
                      (Kept-refused a refused p kept there) in
                  (result, ground (arith, found ∙ there, refuses, ends), is_bound, claims)
              | inr (bound, binds) ↦ (
                (release_all refused a', some (p, bound)),
                ground (arith, found ∙ there, binds),
                binds,
                λ q. ground (
                  arith,
                  claimed-release_all refused a' q,
                  holds q,
                  there,
                  held q,
                  apart q,
                  held p,
                  free,
                  nat_eq.equals_iff p q,
                ),
              )
            ]
      ]

-- `allocateBound` ends, whatever the caller's `bind` refuses: its loop takes at most one turn more than
-- the range has ports. It returns a port with what `bind` made of it, or nothing, and in the end
-- exactly the port that it returned is claimed beside those of before: the ports that refused are given back.
pub allocate_bound-ends :
    {T : Type 0} (listening : ℕ → Bool) (bind : ℕ → Option T) (preferred_port : Option ℕ)
    (a : PortAllocator)
    → (result : PortAllocator × Option (ℕ × T)) × (allocate_bound listening bind preferred_port a
        ≡ some result)
      × IsBound bind result.1
      × ((q : ℕ) → claimed result.0 q ≡ with_port (held_port result.1) (claimed a q) q)
unfolding allocate_bound Ends Kept left_over listed
allocate_bound-ends listening bind preferred_port a =
    bind_loop-Ends listening bind preferred_port a (suc (a.port_range_end + 1 - a.port_range_start))
      [] a
      (omega (
        arith,
        count-le (available listening a) (a.port_range_end + 1 - a.port_range_start)
            a.port_range_start,
      ))
      (refl, refl, (λ q. ground arith), (λ q l. ground (arith, l)))
