-- ===== src/Base/Sorts.antt =====
-- `std::sort` as insertion sort: on a total order with equal keys identical, any sort gives the
-- same sequence. Texts are ordered byte by byte, as `std::string` is.
use Prim.Native.Nat.{ℕ}
use mathlib.Core.Path.{◌≡◌, refl}
use mathlib.Core.Bool.{Bool, true, false, ◌&&◌, ◌||◌}
use mathlib.Core.List.{List, [], ◌∷◌, Perm}
use mathlib.Core.List.Perm
use native.Mathlib.Omega.{arith}
use qiven_runtime.Base.Tests.{ltb, nat_beq, if◌then◌else◌}
use qiven_runtime.Base.EqLaws.{bytes_beq, bytes_beq_iff}

unfoldable pub lex_le : List ℕ → List ℕ → Bool
lex_le [] ys = true
lex_le (x ∷ xs) [] = false
lex_le (x ∷ xs) (y ∷ ys) = ltb x y || (nat_beq x y && lex_le xs ys)

module _ {ℓ} {A : Type ℓ} (le : A → A → Bool) where
  unfoldable pub sorted_insert : A → List A → List A
  sorted_insert x [] = x ∷ []
  sorted_insert x (y ∷ ys) = if le x y then x ∷ y ∷ ys else y ∷ sorted_insert x ys

  unfoldable pub sort : List A → List A
  unfolding sorted_insert
  sort [] = []
  sort (x ∷ xs) = sorted_insert x (sort xs)

  sorted_insert-perm : (x : A) (ys : List A) → Perm (sorted_insert x ys) (x ∷ ys)
  unfolding sorted_insert
  sorted_insert-perm x [] = Perm.refl (x ∷ [])
  sorted_insert-perm x (y ∷ ys) = ground (
    arith,
    Perm.refl (x ∷ y ∷ ys),
    Perm.trans (Perm.cons y (sorted_insert-perm x ys)) (Perm.swap x y ys),
  )

  -- Sorting loses nothing and adds nothing.
  pub sort-perm : (xs : List A) → Perm (sort xs) xs
  unfolding sort
  sort-perm [] = Perm.refl []
  sort-perm (x ∷ xs) = Perm.trans (sorted_insert-perm x (sort xs)) (Perm.cons x (sort-perm xs))

pub texts_beq : List (List ℕ) → List (List ℕ) → Bool
texts_beq [] [] = true
texts_beq (x ∷ xs) (y ∷ ys) = bytes_beq x y && texts_beq xs ys
texts_beq _ _ = false

pub texts_beq_refl : (xs : List (List ℕ)) → texts_beq xs xs ≡ true
unfolding texts_beq
texts_beq_refl [] = refl
texts_beq_refl (x ∷ xs) = ground (arith, (bytes_beq_iff x x).1 refl, texts_beq_refl xs)
