-- ===== src/StateStore/Parts.antt =====
-- Sorted lists, and the parts of a byte sequence, for the image of state_store.cpp.
use qiven_runtime.Base.{
  ℕ, suc, ◌≡◌, refl, ap, ◌∙◌, subst, arith, Bool, true, false, List, [], ◌∷◌, ◌++◌, Bytes, length,
  length-append, take-append, drop-append, take, drop, All, ltb, bytes_eq, nat_eq, if◌then◌else◌,
}
use qiven_runtime.Base.Sorts.{sort, sorted_insert}

module _ {ℓ} {A : Type ℓ} (le : A → A → Bool) (P : A → Type 0) where
  All-sorted_insert : (x : A) (xs : List A) → P x → All P xs → All P (sorted_insert le x xs)
  unfolding sorted_insert
  All-sorted_insert x [] p h = (p, tt)
  All-sorted_insert x (y ∷ ys) p (q, qs) =
      either (le x y) (p, (q, qs)) (q, All-sorted_insert x ys p qs)
    where
      either :
          (b : Bool)
          → All P (x ∷ y ∷ ys)
          → All P (y ∷ sorted_insert le x ys)
          → All P (if b then x ∷ y ∷ ys else y ∷ sorted_insert le x ys)
      either true yes_ no_ = yes_
      either false yes_ no_ = no_

  pub All-sort : (xs : List A) → All P xs → All P (sort le xs)
  unfolding sort
  All-sort [] h = tt
  All-sort (x ∷ xs) h = All-sorted_insert x (sort le xs) h.0 (All-sort xs h.1)

module _ {ℓ} {A : Type ℓ} (le : A → A → Bool) where
  length-sorted_insert : (x : A) (xs : List A) → length (sorted_insert le x xs) ≡ suc (length xs)
  unfolding sorted_insert
  length-sorted_insert x [] = refl
  length-sorted_insert x (y ∷ ys) = ground (arith, length-sorted_insert x ys)

  pub length-sort : (xs : List A) → length (sort le xs) ≡ length xs
  unfolding sort
  length-sort [] = refl
  length-sort (x ∷ xs) = length-sorted_insert x (sort le xs) ∙ ap suc (length-sort xs)

module _ (n : ℕ) (xs ys : Bytes) (sized : length xs ≡ n) where
  pub take-prefix : take n (xs ++ ys) ≡ xs
  take-prefix = subst (λ k. take k (xs ++ ys) ≡ xs) sized (take-append xs ys)

  pub drop-prefix : drop n (xs ++ ys) ≡ ys
  drop-prefix = subst (λ k. drop k (xs ++ ys) ≡ ys) sized (drop-append xs ys)

  pub prefix_there : ltb (length (xs ++ ys)) n ≡ false
  prefix_there = let long = length-append xs ys in ground (arith, long, sized)
