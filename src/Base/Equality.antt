-- ===== src/Base/Equality.antt =====
-- `===` on the types whose values the program compares.
use Prim.Native.Nat.{ℕ}
use Prim.Native.String.{String}
use mathlib.Core.Path.{◌≡◌}
use mathlib.Core.Logic.{◌↔◌}
use mathlib.Core.Bool.{Bool, true}
use text.Mathlib.Text.{◌==◌ as str_eq}
use text.Mathlib.TextEquality.{eq_iff}
use kinglet.Base.Tests.{nat_beq, nat_beq_iff}

-- A test that agrees with the paths of its type.
pub record StrictEquality {κ} (T : Type κ) : Type κ where
  pub equals : T → T → Bool
  pub equals_iff : (x y : T) → (equals x y ≡ true) ↔ (x ≡ y)

instance abbrev pub string_eq : StrictEquality String
string_eq = record { equals_iff = eq_iff; equals = str_eq }

instance abbrev pub nat_eq : StrictEquality ℕ
nat_eq = record { equals_iff = nat_beq_iff; equals = nat_beq }

abbrev pub ◌==◌ {κ} : {T : Type κ} ⦃test : StrictEquality T⦄ → T → T → Bool
◌==◌ ⦃test⦄ = test.equals

infix 50 ◌==◌
