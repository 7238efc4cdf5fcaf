-- ===== src/Auth/Equality.antt =====
-- What the comparison of auth.cpp decides.
use Prim.Native.Nat.{bit_or, bit_xor, bit_or-bitwise, bit_xor-bitwise, digits, differ, max}
use qiven_runtime.Base.{
  ℕ, zero, suc, ◌/◌, ◌%◌, ◌≤◌, ◌≡◌, refl, sym, ap, ◌∙◌, ◌↔◌, arith, true, [], ◌∷◌, Bytes, length,
}
use qiven_runtime.Auth.{difference, constant_time_equal}

differ_zero : (x y : ℕ) → differ x y ≡ 0 → x ≡ y
differ_zero zero y h = sym h
differ_zero (suc x) zero h = absurd (omega (arith, h))
differ_zero (suc x) (suc y) h = ap suc (differ_zero x y h)

differ_same : (x : ℕ) → differ x x ≡ 0
differ_same zero = refl
differ_same (suc x) = differ_same x

digits-differ_zero : (n a b : ℕ) → a ≤ n → digits (λ y. y) differ n a b ≡ 0 → a ≡ b
digits-differ_zero zero a b le h = omega (arith, h)
digits-differ_zero (suc n) zero b le h = sym h
digits-differ_zero (suc n) (suc a) b le h =
    let low = differ_zero (suc a % 2) (b % 2) (omega (arith, h)) in
    let high = digits-differ_zero n (suc a / 2) (b / 2) (omega arith) (omega (arith, h)) in
    omega (arith, low, high)

digits-differ_same : (n a : ℕ) → a ≤ n → digits (λ y. y) differ n a a ≡ 0
digits-differ_same zero a le = omega arith
digits-differ_same (suc n) zero le = refl
digits-differ_same (suc n) (suc a) le =
    omega (arith, differ_same (suc a % 2), digits-differ_same n (suc a / 2) (omega arith))

max_zero : (x y : ℕ) → max x y ≡ 0 → (x ≡ 0) × (y ≡ 0)
max_zero x y h = (omega (arith, h), omega (arith, h))

digits-max_zero : (n a b : ℕ) → a ≤ n → digits (λ y. y) max n a b ≡ 0 → (a ≡ 0) × (b ≡ 0)
digits-max_zero zero a b le h = (omega arith, h)
digits-max_zero (suc n) zero b le h = (refl, h)
digits-max_zero (suc n) (suc a) b le h =
    let low = max_zero (suc a % 2) (b % 2) (omega (arith, h)) in
    let high = digits-max_zero n (suc a / 2) (b / 2) (omega arith) (omega (arith, h)) in
    (omega (arith, low.0, high.0), omega (arith, low.1, high.1))

xor_zero : (a b : ℕ) → bit_xor a b ≡ 0 → a ≡ b
xor_zero a b h = digits-differ_zero a a b (omega arith) (sym (bit_xor-bitwise a b) ∙ h)

xor_same : (a : ℕ) → bit_xor a a ≡ 0
xor_same a = bit_xor-bitwise a a ∙ digits-differ_same a a (omega arith)

or_zero : (a b : ℕ) → bit_or a b ≡ 0 → (a ≡ 0) × (b ≡ 0)
or_zero a b h = digits-max_zero a a b (omega arith) (sym (bit_or-bitwise a b) ∙ h)

difference_zero :
    (diff : ℕ) (a b : Bytes) → length a ≡ length b → difference diff a b ≡ 0 → (diff ≡ 0) × (a ≡ b)
unfolding difference
difference_zero diff [] [] same h = (h, refl)
difference_zero diff [] (y ∷ b) same h = absurd (omega (arith, same))
difference_zero diff (x ∷ a) [] same h = absurd (omega (arith, same))
difference_zero diff (x ∷ a) (y ∷ b) same h =
    let rest = difference_zero (bit_or diff (bit_xor x y)) a b (omega (arith, same)) h in
    let parts = or_zero diff (bit_xor x y) rest.0 in
    let head = xor_zero x y parts.1 in (parts.0, cc)

difference_same : (a : Bytes) → difference 0 a a ≡ 0
unfolding difference
difference_same [] = refl
difference_same (x ∷ a) = rw (xor_same x) (difference_same a)

-- The comparison without early exit says that two texts are the same exactly if they are.
pub constant_time_equal_lem : (a b : Bytes) → (constant_time_equal a b ≡ true) ↔ (a ≡ b)
unfolding constant_time_equal
constant_time_equal_lem a b = (
  λ h. (difference_zero 0 a b (ground (arith, h)) (ground (arith, h))).1,
  λ same. rw same (ground (arith, difference_same b)),
)
