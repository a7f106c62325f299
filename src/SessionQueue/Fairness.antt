-- ===== src/SessionQueue/Fairness.antt =====
-- The order of each connection's messages, and the promises: none is lost, none is settled twice.
use text.Mathlib.TextEquality.{eq_iff}
use kinglet.Base.{
  ℕ, ◌+◌, ◌≡◌, refl, String, Bool, not, Option, none, some, List, [], ◌∷◌, ◌++◌, arith, map,
  nat_beq, if◌then◌else◌, keep, Option-cases, inl, inr, string_eq,
}
use kinglet.SessionQueue.{Message, Settled, is_from, take_first_from, take_next_runnable}
use kinglet.SessionQueue.Isolation.{take_first_from-is_from}

take_first_from-fifo :
    (o c : String) (ms : List Message) (m : Message) (rest : List Message)
    → take_first_from o ms ≡ some (m, rest)
    → keep (is_from c) ms
      ≡ (if is_from c m then m ∷ keep (is_from c) rest else keep (is_from c) rest)
unfolding take_first_from
take_first_from-fifo o c [] m rest h = cc
take_first_from-fifo o c (m' ∷ ms) m rest h = elim (Option-cases (take_first_from o ms)) [
  | inl no_more ↦ ground arith
  | inr ((found, later), e) ↦ ground (
    arith,
    take_first_from-fifo o c ms found later e,
    take_first_from-is_from o ms found later e,
    eq_iff m'.connection_id o,
    eq_iff m'.connection_id c,
    eq_iff found.connection_id c,
    eq_iff found.connection_id o,
  )
]

-- The message that runs next is the oldest pending one of its connection, and the other connections
-- keep theirs in order.
pub take_next_runnable-fifo :
    (owner : Option String) (c : String) (ms : List Message) (m : Message) (rest : List Message)
    → take_next_runnable owner ms ≡ some (m, rest)
    → keep (is_from c) ms
      ≡ (if is_from c m then m ∷ keep (is_from c) rest else keep (is_from c) rest)
unfolding take_next_runnable
take_next_runnable-fifo none c [] m rest h = cc
take_next_runnable-fifo none c (m' ∷ ms) m rest h = ground arith
take_next_runnable-fifo (some o) c ms m rest h = take_first_from-fifo o c ms m rest h

abbrev pub one : ℕ → Message → ℕ
one p m = if nat_beq m.promise p then 1 else 0

abbrev pub count : ℕ → List Message → ℕ
count p [] = 0
count p (m ∷ ms) = one p m + count p ms

abbrev pub count_running : ℕ → Option Message → ℕ
count_running p none = 0
count_running p (some m) = one p m

abbrev pub count_settled : ℕ → List (Message × Settled) → ℕ
count_settled p [] = 0
count_settled p ((m, how) ∷ ms) = one p m + count_settled p ms

pub count-append : (p : ℕ) (ms ns : List Message) → count p (ms ++ ns) ≡ count p ms + count p ns
count-append p [] ns = omega arith
count-append p (m ∷ ms) ns = omega (arith, count-append p ms ns)

pub count_settled-append :
    (p : ℕ) (ms ns : List (Message × Settled))
    → count_settled p (ms ++ ns) ≡ count_settled p ms + count_settled p ns
count_settled-append p [] ns = omega arith
count_settled-append p ((m, how) ∷ ms) ns = omega (arith, count_settled-append p ms ns)

pub count_settled-map :
    (p : ℕ) (how : Settled) (ms : List Message)
    → count_settled p (map (λ m. (m, how)) ms) ≡ count p ms
count_settled-map p how [] = refl
count_settled-map p how (m ∷ ms) = omega (arith, count_settled-map p how ms)

pub count-keep :
    (p : ℕ) (f : Message → Bool) (ms : List Message)
    → count p (keep f ms) + count p (keep (λ m. not (f m)) ms) ≡ count p ms
count-keep p f [] = refl
count-keep p f (m ∷ ms) = ground (arith, count-keep p f ms)

count-take_first :
    (p : ℕ) (o : String) (ms : List Message) (m : Message) (rest : List Message)
    → take_first_from o ms ≡ some (m, rest)
    → one p m + count p rest ≡ count p ms
unfolding take_first_from
count-take_first p o [] m rest h = cc
count-take_first p o (m' ∷ ms) m rest h = elim (Option-cases (take_first_from o ms)) [
  | inl no_more ↦ ground arith
  | inr ((found, later), e) ↦ ground (arith, count-take_first p o ms found later e)
]

pub count-take_next :
    (p : ℕ) (owner : Option String) (ms : List Message) (m : Message) (rest : List Message)
    → take_next_runnable owner ms ≡ some (m, rest)
    → one p m + count p rest ≡ count p ms
unfolding take_next_runnable
count-take_next p none [] m rest h = cc
count-take_next p none (m' ∷ ms) m rest h = ground arith
count-take_next p (some o) ms m rest h = count-take_first p o ms m rest h
