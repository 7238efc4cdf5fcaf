-- ===== src/Journal/Numbers.antt =====
-- Numbers as text in journal/runtime_journal.cpp: what `parse_u64` makes of what `std::to_string`
-- writes.
use qiven_runtime.Base.{
  ℕ, zero, suc, ◌+◌, ◌*◌, ◌/◌, ◌%◌, ◌^◌, ◌≤◌, ◌<◌, ◌≡◌, refl, sym, ◌∙◌, ap, arith, ◌⊎◌, inl, inr,
  Bool, true, false, Option, none, some, Bytes, [], ◌∷◌, ◌++◌,
}
use qiven_runtime.Base.Text.{digits_from, to_string}
use qiven_runtime.Journal.Text.{parse_digit, parse_digits, after, parse_u64, max_u64}
use native.Mathlib.Nat.{mul-le-mul_right, add-mul, mul_assoc, mul_comm}
use native.Mathlib.Decide.{dec_lt}

after-some {ℓ} : {A : Type ℓ} (o : Option A) → o ≡ after o some
after-some none = refl
after-some (some a) = refl

after-after {ℓ} :
    {A : Type ℓ} (o : Option A) (k h : A → Option A)
    → after (after o k) h ≡ after o (λ a. after (k a) h)
after-after none k h = refl
after-after (some a) k h = refl

-- A digit that still has room is taken.
parse_digit-taken :
    (is_first : Bool) (d value factor : ℕ)
    → d < 10
    → value + d * factor ≤ max_u64
    → (is_first ≡ true) ⊎ (factor ≤ max_u64 / 10)
    → parse_digit is_first (b'0' + d) (value, factor)
      ≡ some (value + d * factor, factor * 10 % 2 ^ 64)
unfolding parse_digit
parse_digit-taken is_first d value factor small room more =
    let wide : d * factor % 2 ^ 64 ≡ d * factor = omega (arith, room) in
    ground (arith, wide, room, small, more)

-- Text in two parts: the one behind is read first.
parse_digits-last :
    (xs : Bytes) (c : ℕ) (from : ℕ × ℕ)
    → parse_digits false from (xs ++ c ∷ [])
      ≡ after (parse_digit false c from) (λ made. parse_digits false made xs)
unfolding parse_digits
parse_digits-last [] c from = after-some (parse_digit false c from)
parse_digits-last (x ∷ xs) c from = rw (parse_digits-last xs c from) (
    after-after (parse_digit false c from) (λ made. parse_digits false made xs)
      (parse_digit false x))

parse_digits-append :
    (is_first : Bool) (x : ℕ) (xs : Bytes) (c : ℕ) (from made : ℕ × ℕ)
    → parse_digit false c from ≡ some made
    → parse_digits is_first from ((x ∷ xs) ++ c ∷ []) ≡ parse_digits is_first made (x ∷ xs)
unfolding parse_digits
parse_digits-append is_first x xs c from made h = rw (parse_digits-last xs c from, h) refl

-- The last digit of a number and the rest of it, each at its weight.
weighed : (n factor : ℕ) → n * factor ≡ n % 10 * factor + n / 10 * (factor * 10)
weighed n factor =
    let parts : n ≡ n % 10 + n / 10 * 10 = omega arith in
    let weights : n / 10 * 10 * factor ≡ n / 10 * (factor * 10) =
      mul_assoc (n / 10) 10 factor ∙ ap (λ x. n / 10 * x) (mul_comm 10 factor) in
    ap (λ x. x * factor) parts
    ∙ add-mul (n % 10) (n / 10 * 10) factor
    ∙ ap (λ x. n % 10 * factor + x) weights

-- Ten or more of a factor that fits leave room for ten of it.
factor_fits : (n value factor : ℕ) → 10 ≤ n → value + n * factor ≤ max_u64 → factor ≤ max_u64 / 10
factor_fits n value factor big room = omega (arith, mul-le-mul_right factor big, room)

digits_from-small : (fuel n : ℕ) → n < 10 → digits_from (suc fuel) n ≡ (b'0' + n) ∷ []
unfolding digits_from
digits_from-small fuel n small = ground arith

digits_from-big :
    (fuel n : ℕ)
    → 10 ≤ n
    → digits_from (suc fuel) n ≡ digits_from fuel (n / 10) ++ (b'0' + n % 10) ∷ []
unfolding digits_from
digits_from-big fuel n big = ground arith

append_nonempty : (xs : Bytes) (c : ℕ) → (x : ℕ) × (rest : Bytes) × (xs ++ c ∷ [] ≡ x ∷ rest)
append_nonempty [] c = (c, [], refl)
append_nonempty (x ∷ xs) c = (x, xs ++ c ∷ [], refl)

digits_from-nonempty :
    (fuel n : ℕ) → (x : ℕ) × (rest : Bytes) × (digits_from (suc fuel) n ≡ x ∷ rest)
digits_from-nonempty fuel n = elim (dec_lt n 10) [
  | yes small ↦ (b'0' + n, [], digits_from-small fuel n small)
  | no big ↦
      let (x, rest, e) = append_nonempty (digits_from fuel (n / 10)) (b'0' + n % 10) in
      (x, rest, digits_from-big fuel n (omega (arith, big)) ∙ e)
]

parse_digits-one :
    (c value factor : ℕ)
    → parse_digits true (value, factor) (c ∷ []) ≡ parse_digit true c (value, factor)
unfolding parse_digits
parse_digits-one c value factor = refl

small_parse :
    (fuel n value factor : ℕ)
    → n < 10
    → value + n * factor ≤ max_u64
    → parse_digits true (value, factor) (digits_from (suc fuel) n)
      ≡ some (value + n * factor, factor * 10 % 2 ^ 64)
small_parse fuel n value factor small room = rw (digits_from-small fuel n small) (
    parse_digits-one (b'0' + n) value factor
    ∙ parse_digit-taken true n value factor small room (inl refl))

tenth : (fuel n : ℕ) → n < 10 ^ suc (suc fuel) → n / 10 < 10 ^ suc fuel
tenth fuel n small = omega (arith, small)

-- The digits of a number that fits at its weight are read from any value on.
digits_parse :
    (fuel n value factor : ℕ)
    → n < 10 ^ suc fuel
    → value + n * factor ≤ max_u64
    → (g : ℕ) × (parse_digits true (value, factor) (digits_from (suc fuel) n)
        ≡ some (value + n * factor, g))
digits_parse zero n value factor small room =
    (factor * 10 % 2 ^ 64, small_parse zero n value factor (omega (arith, small)) room)
digits_parse (suc fuel) n value factor small room = elim (dec_lt n 10) [
  | yes one ↦ (factor * 10 % 2 ^ 64, small_parse (suc fuel) n value factor one room)
  | no many ↦
      let big : 10 ≤ n = omega (arith, many) in
      let fits = factor_fits n value factor big room in
      let parts = weighed n factor in
      let made : ℕ = value + n % 10 * factor in
      let next : factor * 10 % 2 ^ 64 ≡ factor * 10 = omega (arith, fits) in
      let taken : parse_digit false (b'0' + n % 10) (value, factor) ≡ some (made, factor * 10) =
        parse_digit-taken false (n % 10) value factor (omega arith) (omega (arith, parts, room))
          (inr fits)
        ∙ ap (λ x. some (made, x)) next in
      let (x, rest, e) = digits_from-nonempty fuel (n / 10) in
      let (g, inner) =
        digits_parse fuel (n / 10) made (factor * 10) (tenth fuel n small)
          (omega (arith, parts, room)) in
      (
        g,
        rw (digits_from-big (suc fuel) n big, e)
            (parse_digits-append true x rest (b'0' + n % 10) (value, factor) (made, factor * 10)
                taken
              ∙ sym (ap (parse_digits true (made, factor * 10)) e)
              ∙ inner
              ∙ ap (λ v. some (v, g)) (omega (arith, parts))),
      )
]

parse_u64-digits :
    (text : Bytes) (x : ℕ) (rest : Bytes) (made : ℕ × ℕ)
    → text ≡ x ∷ rest
    → parse_digits true (0, 1) text ≡ some made
    → parse_u64 text ≡ some made.0
unfolding parse_u64
parse_u64-digits text x rest made e h =
    rw e (rw (parse_u64, sym (ap (parse_digits true (0, 1)) e) ∙ h) refl)

to_string-digits : (n : ℕ) → to_string n ≡ digits_from 20 n
unfolding to_string
to_string-digits n = refl

-- What `std::to_string` writes of a 64-bit number, `parse_u64` reads back.
pub parse_u64-to_string : (n : ℕ) → n < 2 ^ 64 → parse_u64 (to_string n) ≡ some n
parse_u64-to_string n small =
    let (x, rest, e) = digits_from-nonempty 19 n in
    let (g, h) = digits_parse 19 n 0 1 (omega (arith, small)) (omega (arith, small)) in
    rw (to_string-digits n)
      (parse_u64-digits (digits_from 20 n) x rest (0 + n * 1, g) e h ∙ ap some (omega arith))
