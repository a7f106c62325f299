-- ===== src/Cache/Prefix.antt =====
-- `cleanup` and `deleteByPrefix` of the LRU cache: each collects keys and deletes them one by one.
use mathlib.Core.List.{append_assoc}
use text.Mathlib.Text.{starts_with}
use text.Mathlib.TextPositions.{eq_refl}
use kinglet.Base.{
  ℕ, ◌+◌, ◌≡◌, refl, String, Bool, true, not, List, [], ◌∷◌, ◌++◌, arith, map, keep, length,
  string_eq, sym, ◌∙◌, Bool-cases, inl, inr,
}
use kinglet.Dict
use kinglet.Dict.{Distinct}
use kinglet.Cache
use kinglet.Cache.{Entry, Entries, Cache, delete_keys, delete_counting, expired}

abbrev matching : (String × Entry → Bool) → Entries → List String
matching q m = map (λ e. e.0) (keep q m)

drop_one :
    (k : String) (v : Entry) (m n : Entries)
    → Distinct (m ++ (k, v) ∷ n)
    → Dict.delete k (m ++ (k, v) ∷ n) ≡ m ++ n
drop_one k v m n d = Dict.delete-append k v m n (Dict.absent_of_Distinct k v m n d)

drop_one-Distinct :
    (k : String) (v : Entry) (m n : Entries) → Distinct (m ++ (k, v) ∷ n) → Distinct (m ++ n)
drop_one-Distinct k v m n d =
    rw (drop_one k v m n d) at (Dict.Distinct-delete k (m ++ (k, v) ∷ n) d)

delete_keys-matching :
    (q : String × Entry → Bool) (kept m : Entries)
    → Distinct (kept ++ m)
    → delete_keys (matching q m) (kept ++ m) ≡ kept ++ keep (λ e. not (q e)) m
unfolding delete_keys
delete_keys-matching q kept [] d = refl
delete_keys-matching q kept ((k, v) ∷ m) d = elim (Bool-cases (q (k, v))) [
  | inl swept ↦
      ground (
        arith,
        drop_one k v kept m d,
        delete_keys-matching q kept m (drop_one-Distinct k v kept m d),
      )
  | inr stays ↦
      rw stays (
        simp append_assoc at (delete_keys-matching q (kept ++ (k, v) ∷ []) m (simp append_assoc d)))
]

-- Where no key stands twice, `cleanup` drops exactly the entries that have expired, and keeps the others
-- in their order.
pub entries-cleanup :
    (now : ℕ) (c : Cache)
    → Distinct c.entries
    → (Cache.cleanup now c).entries ≡ keep (λ e. not (expired now e.1)) c.entries
unfolding Cache.cleanup Cache.expired_keys
entries-cleanup now c d = delete_keys-matching (λ e. expired now e.1) [] c.entries d

delete_listed :
    (k : String) (v : Entry) (kept m : Entries) (c : Cache)
    → c.entries ≡ kept ++ (k, v) ∷ m
    → Distinct (kept ++ (k, v) ∷ m)
    → ((Cache.delete k c).0.entries ≡ kept ++ m) × ((Cache.delete k c).1 ≡ true)
unfolding Cache.delete Dict.get
delete_listed k v kept m c e d = ground (
  arith,
  drop_one k v kept m d,
  Dict.get-append k kept ((k, v) ∷ m),
  Dict.absent_of_Distinct k v kept m d,
  eq_refl k,
)

delete_counting-matching :
    (q : String × Entry → Bool) (kept m : Entries) (c : Cache) (count : ℕ)
    → c.entries ≡ kept ++ m
    → Distinct (kept ++ m)
    → ((delete_counting (matching q m) c count).0.entries ≡ kept ++ keep (λ e. not (q e)) m)
      × ((delete_counting (matching q m) c count).1 ≡ count + length (matching q m))
unfolding delete_counting
delete_counting-matching q kept [] c count e d = (e, omega arith)
delete_counting-matching q kept ((k, v) ∷ m) c count e d = elim (Bool-cases (q (k, v))) [
  | inl swept ↦
      let (left, deleted) = delete_listed k v kept m c e d in
      let (rest, counted) =
        delete_counting-matching q kept m (Cache.delete k c).0 (count + 1) left
          (drop_one-Distinct k v kept m d) in
      (ground (arith, rest, deleted), ground (arith, counted, deleted))
  | inr stays ↦
      let assoc = append_assoc kept ((k, v) ∷ []) m in
      let (rest, counted) =
        delete_counting-matching q (kept ++ (k, v) ∷ []) m c count (e ∙ sym assoc) (rw assoc d) in
      (
        ground (arith, rest, append_assoc kept ((k, v) ∷ []) (keep (λ e. not (q e)) m)),
        ground (arith, counted),
      )
]

length-matching :
    (q : String × Entry → Bool) (m : Entries) → length (matching q m) ≡ length (keep q m)
length-matching q [] = refl
length-matching q (e ∷ m) = ground (arith, length-matching q m)

keys-keep : (p : String → Bool) (m : Entries) → keep p (map (λ e. e.0) m) ≡ matching (λ e. p e.0) m
keys-keep p [] = refl
keys-keep p ((k, v) ∷ m) = ground (arith, keys-keep p m)

-- Where no key stands twice, `deleteByPrefix` drops exactly the entries whose key starts with the prefix, keeps the others in
-- their order, and returns the number of entries that it dropped.
pub delete_by_prefix_lem :
    (prefix : String) (c : Cache)
    → Distinct c.entries
    → ((Cache.delete_by_prefix prefix c).0.entries
        ≡ keep (λ e. not (starts_with e.0 prefix)) c.entries)
      × ((Cache.delete_by_prefix prefix c).1
          ≡ length (keep (λ e. starts_with e.0 prefix) c.entries))
unfolding Cache.delete_by_prefix Cache.keys_by_prefix
delete_by_prefix_lem prefix c d =
    let (entries, count) =
      delete_counting-matching (λ e. starts_with e.0 prefix) [] c.entries c 0 refl d in
    let names = keys-keep (λ k. starts_with k prefix) c.entries in
    let counted = length-matching (λ e. starts_with e.0 prefix) c.entries in
    (rw names entries, rw names (omega (arith, count, counted)))
