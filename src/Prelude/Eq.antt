-- ===== src/Prelude/Eq.antt =====
-- Keys that the program compares: an interface, with its instances for texts and for bytes.
use Prim.Native.Nat.{ℕ}
use Prim.Native.String.{String}
use mathlib.Core.Path.{◌≡◌, refl}
use mathlib.Core.Logic.{◌↔◌}
use mathlib.Core.Bool.{Bool, true, false, ◌&&◌}
use mathlib.Core.List.{List, [], ◌∷◌}
use native.Mathlib.Omega.{arith}
use text.Mathlib.Text.{◌==◌ as str_eq}
use text.Mathlib.TextEquality.{eq_iff}
use secure_store.Prelude.Tests.{nat_eq, nat_eq_iff}

pub record Eq {ℓ} (K : Type ℓ) : Type ℓ where
  pub beq : K → K → Bool
  pub beq_iff : (x y : K) → (beq x y ≡ true) ↔ (x ≡ y)

pub beq_refl {ℓ} : {K : Type ℓ} ⦃e : Eq K⦄ (x : K) → e.beq x x ≡ true
beq_refl ⦃e⦄ x = (e.beq_iff x x).1 refl

infix 50 ◌==◌
abbrev pub ◌==◌ {ℓ} : {K : Type ℓ} ⦃e : Eq K⦄ → K → K → Bool
◌==◌ ⦃e⦄ x y = e.beq x y

abbrev pub bytes_eq : List ℕ → List ℕ → Bool
bytes_eq [] [] = true
bytes_eq (x ∷ xs) (y ∷ ys) = nat_eq x y && bytes_eq xs ys
bytes_eq _ _ = false

bytes_eq_lem : (xs ys : List ℕ) → (bytes_eq xs ys ≡ true) ↔ (xs ≡ ys)
bytes_eq_lem [] [] = ground arith
bytes_eq_lem [] (y ∷ ys) = ground arith
bytes_eq_lem (x ∷ xs) [] = ground arith
bytes_eq_lem (x ∷ xs) (y ∷ ys) = ground (arith, nat_eq_iff x y, bytes_eq_lem xs ys)

pub bytes_eq_iff : (xs ys : List ℕ) → (bytes_eq xs ys ≡ true) ↔ (xs ≡ ys)
bytes_eq_iff = bytes_eq_lem

instance abbrev pub string_Eq : Eq String
string_Eq = record { beq = str_eq; beq_iff = eq_iff }

instance abbrev pub bytes_Eq : Eq (List ℕ)
bytes_Eq = record { beq = bytes_eq; beq_iff = bytes_eq_iff }
