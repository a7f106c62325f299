-- ===== src/Storage/Provider/Keys.antt =====
-- The cache keys of the in-memory provider in src/core/storage/providers/memory.ts, taken apart.
use Prim.Native.String.{◌++◌}
use text.Mathlib.Text.{starts_with}
use text.Mathlib.TextEquality.{starts_with_iff}
use text.Mathlib.TextLemmas.{
  nil-append, cons-append, append_assoc, tail-eq_of_cons-eq, head-eq_of_cons-eq,
}
use Prim.Native.Char.{Char}
use kinglet.Base.{◌≡◌, refl, sym, ◌∙◌, ◌≢◌, String, true}
use kinglet.Storage.Provider.{key}

abbrev pub colon : Char
colon = ":"

-- No colon.
abbrev pub Plain : String → Type 0
Plain String.[] = Unit
Plain (String.◌∷◌ c s) = (c ≢ colon) × Plain s

bare : (u : String) → "" ++ (":" ++ u) ≡ String.◌∷◌ colon ("" ++ u)
bare u = nil-append (":" ++ u) ∙ cons-append colon "" u

-- Two texts up to their first colon.
colon-split :
    (s t u v : String) → Plain s → Plain t → s ++ (":" ++ u) ≡ t ++ (":" ++ v) → (s ≡ t) × (u ≡ v)
colon-split String.[] String.[] u v p q h =
    let tails = tail-eq_of_cons-eq (sym (bare u) ∙ h ∙ bare v) in
    (refl, sym (nil-append u) ∙ tails ∙ nil-append v)
colon-split String.[] (String.◌∷◌ c t) u v p (q, qs) h =
    absurd (q (sym (head-eq_of_cons-eq (sym (bare u) ∙ h ∙ cons-append c t (":" ++ v)))))
colon-split (String.◌∷◌ c s) String.[] u v (p, ps) q h =
    absurd (p (head-eq_of_cons-eq (sym (cons-append c s (":" ++ u)) ∙ h ∙ bare v)))
colon-split (String.◌∷◌ c s) (String.◌∷◌ d t) u v (p, ps) (q, qs) h =
    let step = sym (cons-append c s (":" ++ u)) ∙ h ∙ cons-append d t (":" ++ v) in
    let (tails, rests) = colon-split s t u v ps qs (tail-eq_of_cons-eq step) in
    let heads = head-eq_of_cons-eq step in (cc, rests)

-- Tables without a colon and any ids: the key decides both.
pub key-injective :
    (t t' id id' : String) → Plain t → Plain t' → key t id ≡ key t' id' → (t ≡ t') × (id ≡ id')
unfolding key
key-injective t t' id id' p p' h = colon-split t t' id id' p p' h

-- The prefix that `dropTable` deletes is that of the table's own keys.
pub starts_with-key :
    (t t' id : String) → Plain t → Plain t' → starts_with (key t id) (t' ++ ":") ≡ true → t ≡ t'
unfolding key
starts_with-key t t' id p p' h =
    let (rest, same) = (starts_with_iff (key t id) (t' ++ ":")).0 h in
    (key-injective t t' id rest p p' (sym same ∙ append_assoc t' ":" rest)).0

pub starts_with-own : (t id : String) → starts_with (key t id) (t ++ ":") ≡ true
unfolding key
starts_with-own t id = (starts_with_iff (key t id) (t ++ ":")).1 (id, append_assoc t ":" id)
