-- ===== src/Dict.antt =====
-- JavaScript's `Map`: an association list in insertion order. `set` on a key that is present
-- replaces its value in place; on a new key it appends. The classes of the program keep their
-- tables in such maps.
use kinglet.Base.{
  suc, ◌≡◌, refl, Option, none, some, List, [], ◌∷◌, ◌++◌, arith, StrictEquality, ◌==◌,
  if◌then◌else◌, length,
}

module _ {ℓ κ} {K : Type ℓ} {V : Type κ} ⦃e : StrictEquality K⦄ where
  unfoldable pub get : K → List (K × V) → Option V
  get k [] = none
  get k ((j, v) ∷ m) = if j == k then some v else get k m

  unfoldable pub set : K → V → List (K × V) → List (K × V)
  set k v [] = (k, v) ∷ []
  set k v ((j, w) ∷ m) = if j == k then (j, v) ∷ m else (j, w) ∷ set k v m

  unfoldable pub delete : K → List (K × V) → List (K × V)
  delete k [] = []
  delete k ((j, w) ∷ m) = if j == k then m else (j, w) ∷ delete k m

  -- No key stands twice.
  abbrev pub Distinct : List (K × V) → Type κ
  Distinct [] = Unit
  Distinct ((j, w) ∷ m) = (get j m ≡ none) × Distinct m

  pub get-set :
      (k j : K) (v : V) (m : List (K × V))
      → get j (set k v m) ≡ (if k == j then some v else get j m)
  unfolding get set
  get-set k j v [] = refl
  get-set k j v ((i, w) ∷ m) =
      ground (arith, e.equals_iff k j, e.equals_iff i k, e.equals_iff i j, get-set k j v m)

  pub get-delete :
      (k j : K) (m : List (K × V))
      → Distinct m
      → get j (delete k m) ≡ (if k == j then none else get j m)
  unfolding get delete
  get-delete k j [] d = ground arith
  get-delete k j ((i, w) ∷ m) (d, ds) =
      ground (arith, e.equals_iff k j, e.equals_iff i k, e.equals_iff i j, get-delete k j m ds)

  pub Distinct-set : (k : K) (v : V) (m : List (K × V)) → Distinct m → Distinct (set k v m)
  unfolding get set
  Distinct-set k v [] d = (refl, tt)
  Distinct-set k v ((i, w) ∷ m) (d, ds) =
      ground (arith, e.equals_iff i k, e.equals_iff k i, get-set k i v m, Distinct-set k v m ds)

  pub delete_absent : (k : K) (m : List (K × V)) → get k m ≡ none → delete k m ≡ m
  unfolding get delete
  delete_absent k [] h = refl
  delete_absent k ((i, w) ∷ m) h = ground (arith, delete_absent k m)

  pub Distinct-delete : (k : K) (m : List (K × V)) → Distinct m → Distinct (delete k m)
  unfolding delete
  Distinct-delete k [] d = tt
  Distinct-delete k ((i, w) ∷ m) (d, ds) =
      ground
        (arith, e.equals_iff i k, e.equals_iff k i, get-delete k i m ds, Distinct-delete k m ds)

  pub length-set :
      (k : K) (v : V) (m : List (K × V))
      → length (set k v m) ≡ elim (get k m) [ none ↦ suc (length m) | some _ ↦ length m ]
  unfolding get set
  length-set k v [] = refl
  length-set k v ((i, w) ∷ m) = ground (arith, length-set k v m)

  pub length-delete :
      (k : K) (m : List (K × V))
      → length m
        ≡ elim (get k m) [ none ↦ length (delete k m) | some _ ↦ suc (length (delete k m)) ]
  unfolding get delete
  length-delete k [] = refl
  length-delete k ((i, w) ∷ m) = ground (arith, length-delete k m)

  pub set_absent :
      (k : K) (v : V) (m : List (K × V)) → get k m ≡ none → set k v m ≡ m ++ (k, v) ∷ []
  unfolding get set
  set_absent k v [] h = refl
  set_absent k v ((i, w) ∷ m) h = ground (arith, set_absent k v m)

  pub get-append :
      (k : K) (m n : List (K × V))
      → get k (m ++ n) ≡ elim (get k m) [ none ↦ get k n | some v ↦ some v ]
  unfolding get
  get-append k [] n = refl
  get-append k ((i, w) ∷ m) n = ground (arith, get-append k m n)

  pub absent_of_Distinct :
      (k : K) (v : V) (m n : List (K × V)) → Distinct (m ++ (k, v) ∷ n) → get k m ≡ none
  unfolding get
  absent_of_Distinct k v [] n d = refl
  absent_of_Distinct k v ((i, w) ∷ m) n (d, ds) = ground (
    arith,
    absent_of_Distinct k v m n ds,
    get-append i m ((k, v) ∷ n),
    e.equals_iff i k,
    e.equals_iff k i,
  )

  pub delete-append :
      (k : K) (v : V) (m n : List (K × V)) → get k m ≡ none → delete k (m ++ (k, v) ∷ n) ≡ m ++ n
  unfolding get delete
  delete-append k v [] n h = ground (arith, e.equals_iff k k)
  delete-append k v ((i, w) ∷ m) n h = ground (arith, delete-append k v m n)

  pub set-append :
      (k : K) (v w : V) (m n : List (K × V))
      → get k m ≡ none
      → set k w (m ++ (k, v) ∷ n) ≡ m ++ (k, w) ∷ n
  unfolding get set
  set-append k v w [] n h = ground (arith, e.equals_iff k k)
  set-append k v w ((i, u) ∷ m) n h = ground (arith, set-append k v w m n)
