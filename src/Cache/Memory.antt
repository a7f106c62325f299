-- ===== src/Cache/Memory.antt =====
-- The memory limit of the LRU cache.
use mathlib.Core.List.{tail}
use native.Mathlib.Nat.{le_refl}
use kinglet.Base.{
  ℕ, zero, suc, ◌+◌, ◌++◌, ◌*◌, ◌≤◌, ◌<◌, ◌≡◌, refl, String, Option, none, some, [], ◌∷◌, arith,
  drop, length, string_eq, Bool-cases, inl, inr, ltb, ◌&&◌, ◌∙◌, ap, subst,
}
use kinglet.Dict
use kinglet.Cache
use kinglet.Cache.{
  Value, Entry, Entries, Cache, evict_lru, evict_while, memory_usage, make_room, set,
}
use kinglet.Cache.Recency.{newest, entries-make_room}
use kinglet.Cache.Steps.{IsValid, entries-evict_lru, inserted, trimmed, config-make_room}
use kinglet.Cache.Invariant.{set_entry, set_fresh}

tail_shorter : {n : ℕ} (m : Entries) → length m ≤ suc n → length (tail m) ≤ n
tail_shorter [] h = omega arith
tail_shorter (e ∷ m) h = omega arith

module _ (stringify : ℕ → Option ℕ) where
  -- `kept` is what is left of `m` when the least recently used entries go until the rest fits.
  pub record Fits (limit : ℕ) (m kept : Entries) : Type 0 where
    pub dropped : ℕ
    pub suffix : kept ≡ drop dropped m
    pub within : memory_usage stringify kept ≤ limit
    pub needed : (j : ℕ) → j < dropped → limit < memory_usage stringify (drop j m)

  drop-suc : (n : ℕ) (m : Entries) → drop n (tail m) ≡ drop (suc n) m
  drop-suc zero [] = refl
  drop-suc (suc n) [] = refl
  drop-suc n (e ∷ m) = refl

  Fits-tail :
      (limit : ℕ) (m kept : Entries)
      → limit < memory_usage stringify m
      → Fits limit (tail m) kept
      → Fits limit m kept
  Fits-tail limit m kept over f = record {
    dropped = suc f.dropped;
    suffix = f.suffix ∙ drop-suc f.dropped m;
    within = f.within;
    needed = λ j h. later j h;
  }
    where
      later : (j : ℕ) → j < suc f.dropped → limit < memory_usage stringify (drop j m)
      later zero h = over
      later (suc j) h = rw (← drop-suc j m) (f.needed j (omega arith))

  usage_of_empty : (m : Entries) → length m ≤ 0 → memory_usage stringify m ≡ 0
  unfolding memory_usage
  usage_of_empty [] h = refl
  usage_of_empty (e ∷ m) h = absurd (omega arith)

  Fits-self : (limit : ℕ) (m : Entries) → memory_usage stringify m ≤ limit → Fits limit m m
  Fits-self limit m h = record {
    dropped = 0;
    suffix = refl;
    within = h;
    needed = λ j less. absurd (omega arith);
  }

  -- The fuel that the loop gets, the number of entries, is enough.
  evict_while-Fits :
      (fuel limit : ℕ) (c : Cache)
      → length c.entries ≤ fuel
      → Fits limit c.entries (evict_while stringify fuel limit c).entries
  unfolding evict_while
  evict_while-Fits zero limit c enough =
      Fits-self limit c.entries (omega (arith, usage_of_empty c.entries enough))
  evict_while-Fits (suc fuel) limit c enough =
      elim (Bool-cases (ltb limit (memory_usage stringify c.entries) && ltb 0 (length c.entries))) [
        | inl over ↦
            let tail_left = entries-evict_lru c in
            let rest =
              evict_while-Fits fuel limit (evict_lru c)
                (rw tail_left (tail_shorter c.entries enough)) in
            rw (over, evict_while)
              (Fits-tail limit c.entries _ (ground arith) (
                subst
                  (λ (n : Entries).
                    Fits limit n (evict_while stringify fuel limit (evict_lru c)).entries)
                  tail_left rest))
        | inr under ↦
            rw (under, evict_while)
              (Fits-self limit c.entries (ground (arith, usage_of_empty c.entries)))
      ]

  trimmed_limited :
      (limit : Option ℕ) (c : Cache) (m : ℕ)
      → limit ≡ some (suc m)
      → trimmed stringify limit c ≡ evict_while stringify (length c.entries) (suc m * 1024 * 1024) c
  unfolding trimmed
  trimmed_limited none c m h = cc
  trimmed_limited (some zero) c m h = ground arith
  trimmed_limited (some (suc n)) c m h = ground arith

  inserted_limited :
      (key : String) (entry : Entry) (c : Cache) (m : ℕ)
      → c.config.max_memory_mb ≡ some (suc m)
      → inserted stringify key entry c
        ≡ evict_while stringify
            (length (make_room (record c { entries = Dict.set key entry c.entries })).entries)
            (suc m * 1024 * 1024)
            (make_room (record c { entries = Dict.set key entry c.entries }))
  unfolding inserted
  inserted_limited key entry c m limited =
      let added : Cache = record c { entries = Dict.set key entry c.entries } in
      trimmed_limited _ (make_room added) m
        (ap (λ (o : Cache.Config). o.max_memory_mb) (config-make_room added) ∙ limited)

  -- A `set` of a new key in a valid cache with a memory limit: of the newest `maxSize` entries, its own the last,
  -- the least recently used go until the rest is within the limit, and no more of them than that takes.
  pub set-Fits :
      (now : ℕ) (key : String) (value : Value) (ttl : Option ℕ) (c c' : Cache) (m : ℕ)
      → IsValid c
      → c.config.max_memory_mb ≡ some (suc m)
      → Dict.get key c.entries ≡ none
      → set stringify now key value ttl c ≡ some c'
      → Fits
          (suc m * 1024 * 1024)
          (newest c.config.max_size
            (c.entries ++ (key, set_entry stringify now key value ttl c) ∷ []))
          c'.entries
  unfolding Cache.count_set
  set-Fits now key value ttl c c' m v limited fresh ran =
      let entry = set_entry stringify now key value ttl c in
      let r = make_room (record c { entries = Dict.set key entry c.entries }) in
      let same : (evict_while stringify (length r.entries) (suc m * 1024 * 1024) r).entries
          ≡ c'.entries =
        ground (
          arith,
          set_fresh stringify now key value ttl c fresh,
          inserted_limited key entry c m limited,
        ) in
      let added : Cache = record c { entries = Dict.set key entry c.entries } in
      let fits : length added.entries ≤ c.config.max_size + 1 =
        ground (arith, Dict.length-set key entry c.entries, v.bounded) in
      let room : r.entries ≡ newest c.config.max_size (c.entries ++ (key, entry) ∷ []) =
        entries-make_room added fits
        ∙ ap (newest c.config.max_size) (Dict.set_absent key entry c.entries fresh) in
      subst (λ (k : Entries). Fits (suc m * 1024 * 1024) k c'.entries) room
        (subst (Fits (suc m * 1024 * 1024) r.entries) same
          (evict_while-Fits (length r.entries) (suc m * 1024 * 1024) r (le_refl _)))
