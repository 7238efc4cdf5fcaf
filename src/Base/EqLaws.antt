-- ===== src/Base/EqLaws.antt =====
-- The equality tests that `operator==` of the source stands for, as an interface with instances.
use Prim.Native.Nat.{ℕ}
use mathlib.Core.Path.{◌≡◌, refl}
use mathlib.Core.Logic.{◌↔◌}
use mathlib.Core.Bool.{Bool, true, false, ◌&&◌}
use mathlib.Core.List.{List, [], ◌∷◌}
use native.Mathlib.Omega.{arith}
use qiven_runtime.Base.Tests.{nat_beq}

pub record HasEquality {ℓ} (A : Type ℓ) : Type ℓ where
  pub is_same : A → A → Bool
  pub is_same_iff : (a b : A) → (is_same a b ≡ true) ↔ (a ≡ b)

infix 50 ◌==◌
abbrev pub ◌==◌ {ℓ} : {A : Type ℓ} ⦃e : HasEquality A⦄ → A → A → Bool
◌==◌ ⦃e⦄ = e.is_same

pub nat_beq_iff : (a b : ℕ) → (nat_beq a b ≡ true) ↔ (a ≡ b)
nat_beq_iff a b = ground arith

instance abbrev pub nat_eq : HasEquality ℕ
nat_eq = record { is_same = nat_beq; is_same_iff = nat_beq_iff }

unfoldable pub bytes_beq : List ℕ → List ℕ → Bool
bytes_beq [] [] = true
bytes_beq (x ∷ xs) (y ∷ ys) = nat_beq x y && bytes_beq xs ys
bytes_beq _ _ = false

pub bytes_beq_iff : (a b : List ℕ) → (bytes_beq a b ≡ true) ↔ (a ≡ b)
unfolding bytes_beq
bytes_beq_iff [] [] = ground arith
bytes_beq_iff [] (y ∷ ys) = ground arith
bytes_beq_iff (x ∷ xs) [] = ground arith
bytes_beq_iff (x ∷ xs) (y ∷ ys) = ground (arith, bytes_beq_iff xs ys)

instance abbrev pub bytes_eq : HasEquality (List ℕ)
bytes_eq = record { is_same = bytes_beq; is_same_iff = bytes_beq_iff }

pub bytes_beq_refl : (a : List ℕ) → bytes_beq a a ≡ true
bytes_beq_refl a = (bytes_beq_iff a a).1 refl
