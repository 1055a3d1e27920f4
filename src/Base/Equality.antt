-- ===== src/Base/Equality.antt =====
-- Equality tests as an interface, with instances for numbers, native texts and lists of numbers.
use Prim.Native.Nat.{ℕ}
use Prim.Native.String.{String}
use mathlib.Core.Path.{◌≡◌, refl}
use mathlib.Core.Logic.{◌↔◌}
use mathlib.Core.Bool.{Bool, true, false, ◌&&◌}
use mathlib.Core.List.{List, [], ◌∷◌}
use native.Mathlib.Omega.{arith}
use text.Mathlib.Text.{◌==◌ as str_eq}
use text.Mathlib.TextEquality.{eq_iff}
use vstutils.Base.Tests.{eqb}

abbrev pub text_beq : List ℕ → List ℕ → Bool
text_beq [] [] = true
text_beq (a ∷ s) (b ∷ t) = eqb a b && text_beq s t
text_beq _ _ = false

pub text_beq_iff : (s t : List ℕ) → (text_beq s t ≡ true) ↔ (s ≡ t)
text_beq_iff [] [] = ground arith
text_beq_iff [] (b ∷ t) = ground arith
text_beq_iff (a ∷ s) [] = ground arith
text_beq_iff (a ∷ s) (b ∷ t) = ground (arith, text_beq_iff s t)

-- A type whose values a program can test for equality.
pub record Eq {ℓ} (A : Type ℓ) : Type ℓ where
  pub is_same : A → A → Bool
  pub is_same_iff : (x y : A) → (is_same x y ≡ true) ↔ (x ≡ y)

module _ {ℓ} {A : Type ℓ} ⦃e : Eq A⦄ where
  infix 50 ◌==◌
  abbrev pub ◌==◌ : A → A → Bool
  x == y = e.is_same x y

  pub beq_refl : (x : A) → (x == x) ≡ true
  beq_refl x = (e.is_same_iff x x).1 refl

  pub beq_sym : (x y : A) → (x == y) ≡ (y == x)
  beq_sym x y = ground (arith, e.is_same_iff x y, e.is_same_iff y x)

instance abbrev pub text_eq : Eq (List ℕ)
text_eq = record { is_same = text_beq; is_same_iff = text_beq_iff }

instance abbrev pub string_eq : Eq String
string_eq = record { is_same_iff = eq_iff; is_same = str_eq }
