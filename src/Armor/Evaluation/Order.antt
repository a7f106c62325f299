-- ===== src/Armor/Evaluation/Order.antt =====
-- The order of a security policy's rules.
use kinglet.Base.{
  keep, nat_beq, string_eq, ℕ, ◌≤◌, ◌≡◌, refl, List, [], ◌∷◌, arith, leb, All, All-weaken,
  Bool-cases, inl, inr,
}
use kinglet.Armor.Evaluation.{Rule, insert_by_priority, sort_by_priority}

-- From the least priority up.
abbrev pub Sorted : List Rule → Type 0
Sorted [] = Unit
Sorted (r ∷ rules) = All (λ s. r.priority ≤ s.priority) rules × Sorted rules

insert-All :
    (n : ℕ) (r : Rule) (rules : List Rule)
    → n ≤ r.priority
    → All (λ s. n ≤ s.priority) rules
    → All (λ s. n ≤ s.priority) (insert_by_priority r rules)
unfolding insert_by_priority
insert-All n r [] h all = (h, tt)
insert-All n r (s ∷ rules) h (least, all) =
    ground (arith, h, least, all, insert-All n r rules h all)

insert-Sorted : (r : Rule) (rules : List Rule) → Sorted rules → Sorted (insert_by_priority r rules)
unfolding insert_by_priority
insert-Sorted r [] sorted = (tt, tt)
insert-Sorted r (s ∷ rules) (least, sorted) = elim (Bool-cases (leb r.priority s.priority)) [
  | inl before ↦
      let h : r.priority ≤ s.priority = ground (arith, before) in
      rw before ((h, All-weaken rules (λ t le. omega (arith, h, le)) least), (least, sorted))
  | inr after ↦
      rw after
        (insert-All s.priority r rules (ground (arith, after)) least, insert-Sorted r rules sorted)
]

pub sort-Sorted : (rules : List Rule) → Sorted (sort_by_priority rules)
unfolding sort_by_priority
sort-Sorted [] = tt
sort-Sorted (r ∷ rules) = insert-Sorted r (sort_by_priority rules) (sort-Sorted rules)

insert-keep :
    (n : ℕ) (r : Rule) (rules : List Rule)
    → keep (λ s. nat_beq s.priority n) (insert_by_priority r rules)
      ≡ keep (λ s. nat_beq s.priority n) (r ∷ rules)
unfolding insert_by_priority
insert-keep n r [] = refl
insert-keep n r (s ∷ rules) = elim (Bool-cases (leb r.priority s.priority)) [
  | inl before ↦ rw before refl
  | inr after ↦ ground (arith, after, insert-keep n r rules)
]

-- The rules from the least priority number up, those of one number in the order in which they are given.
pub record InOrder (given rules : List Rule) : Type 0 where
  pub sorted : Sorted rules
  pub stable :
      (n : ℕ) → keep (λ r. nat_beq r.priority n) rules ≡ keep (λ r. nat_beq r.priority n) given

pub sort-InOrder : (rules : List Rule) → InOrder rules (sort_by_priority rules)
unfolding sort_by_priority
sort-InOrder [] = record { sorted = tt; stable = λ n. refl }
sort-InOrder (r ∷ rules) =
    let rest = sort-InOrder rules in
    record {
      sorted = insert-Sorted r (sort_by_priority rules) rest.sorted;
      stable = λ n. ground (arith, insert-keep n r (sort_by_priority rules), rest.stable n);
    }
