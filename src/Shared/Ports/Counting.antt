-- ===== src/Shared/Ports/Counting.antt =====
-- Counting the numbers of a range that pass a test.
use kinglet.Base.{
  ℕ, zero, suc, ◌+◌, ◌≤◌, ◌<◌, ◌≡◌, refl, Bool, true, not, ◌&&◌, Bool-cases, inl, inr, arith,
  if◌then◌else◌, ◌==◌, nat_eq,
}

-- How many of `left` numbers from `port` on pass the test.
unfoldable pub count : (ℕ → Bool) → ℕ → ℕ → ℕ
count p zero port = 0
count p (suc left) port = let rest = count p left (port + 1) in if p port then suc rest else rest

pub count-le : (p : ℕ → Bool) (left port : ℕ) → count p left port ≤ left
unfolding count
count-le p zero port = omega arith
count-le p (suc left) port = ground (arith, count-le p left (port + 1))

pub count-cong :
    (p r : ℕ → Bool) (left port : ℕ) → ((q : ℕ) → r q ≡ p q) → count r left port ≡ count p left port
unfolding count
count-cong p r zero port h = refl
count-cong p r (suc left) port h = ground (arith, h port, count-cong p r left (port + 1) h)

abbrev pub without : (ℕ → Bool) → ℕ → ℕ → Bool
without p x q = p q && not (x == q)

pub count_before :
    (p : ℕ → Bool) (x left port : ℕ) → x < port → count (without p x) left port ≡ count p left port
unfolding count
count_before p x zero port h = refl
count_before p x (suc left) port h =
    ground (arith, h, nat_eq.equals_iff x port, count_before p x left (port + 1))

pub count-without :
    (p : ℕ → Bool) (x left port : ℕ)
    → p x ≡ true
    → port ≤ x
    → x < port + left
    → count (without p x) left port + 1 ≡ count p left port
unfolding count
count-without p x zero port h low high = omega (arith, low, high)
count-without p x (suc left) port h low high = elim (Bool-cases (x == port)) [
  | inl here ↦ ground (arith, here, h, nat_eq.equals_iff x port, count_before p x left (port + 1))
  | inr later ↦
      ground
        (arith, later, h, low, high, nat_eq.equals_iff x port, count-without p x left (port + 1) h)
]
