-- ===== src/Base/Maps.antt =====
-- `std::unordered_map` and `std::unordered_set` as association lists and lists without repetition.
use mathlib.Core.Path.{◌≡◌, refl}
use mathlib.Core.Bool.{Bool, true, false, ◌||◌}
use mathlib.Core.Option.{Option, none, some}
use mathlib.Core.List.{List, [], ◌∷◌}
use native.Mathlib.Omega.{arith}
use qiven_runtime.Base.Tests.{if◌then◌else◌, is_some}
use qiven_runtime.Base.EqLaws.{HasEquality, ◌==◌}

module _ {ℓ κ} {K : Type ℓ} {V : Type κ} ⦃e : HasEquality K⦄ where
  unfoldable pub lookup : K → List (K × V) → Option V
  lookup k [] = none
  lookup k ((j, v) ∷ m) = if j == k then some v else lookup k m

  -- `m.contains(k)`
  abbrev pub has : K → List (K × V) → Bool
  has k m = is_some (lookup k m)

  -- `m[k] = v` and `m.insert_or_assign(k, v)`
  unfoldable pub put : K → V → List (K × V) → List (K × V)
  put k v [] = (k, v) ∷ []
  put k v ((j, w) ∷ m) = if j == k then (k, v) ∷ m else (j, w) ∷ put k v m

  -- `m.emplace(k, v)`: an entry that is there stays.
  unfoldable pub emplace : K → V → List (K × V) → List (K × V)
  emplace k v m = if has k m then m else (k, v) ∷ m

  unfoldable pub erase : K → List (K × V) → List (K × V)
  erase k [] = []
  erase k ((j, w) ∷ m) = if j == k then erase k m else (j, w) ∷ erase k m

  pub lookup-put :
      (k j : K) (v : V) (m : List (K × V))
      → lookup j (put k v m) ≡ (if k == j then some v else lookup j m)
  unfolding lookup put
  lookup-put k j v [] = refl
  lookup-put k j v ((i, w) ∷ m) =
      ground (arith, e.is_same_iff k j, e.is_same_iff i k, e.is_same_iff i j, lookup-put k j v m)

  pub lookup-emplace :
      (k j : K) (v : V) (m : List (K × V))
      → lookup j (emplace k v m)
        ≡ (if has k m then lookup j m else if k == j then some v else lookup j m)
  unfolding lookup emplace
  lookup-emplace k j v m = ground arith

  pub lookup-erase :
      (k j : K) (m : List (K × V)) → lookup j (erase k m) ≡ (if k == j then none else lookup j m)
  unfolding lookup erase
  lookup-erase k j [] = ground arith
  lookup-erase k j ((i, w) ∷ m) =
      ground (arith, e.is_same_iff k j, e.is_same_iff i k, e.is_same_iff i j, lookup-erase k j m)

module _ {ℓ} {A : Type ℓ} ⦃e : HasEquality A⦄ where
  unfoldable pub contains : A → List A → Bool
  contains a [] = false
  contains a (x ∷ xs) = (x == a) || contains a xs

  -- `s.insert(a)`
  unfoldable pub insert : A → List A → List A
  insert a xs = if contains a xs then xs else a ∷ xs

  pub contains-insert :
      (a b : A) (xs : List A) → contains b (insert a xs) ≡ ((a == b) || contains b xs)
  unfolding contains insert
  contains-insert a b xs = ground (arith, e.is_same_iff a b)

  pub beq_refl : (a : A) → (a == a) ≡ true
  beq_refl a = (e.is_same_iff a a).1 refl
