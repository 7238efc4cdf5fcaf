-- ===== src/Journal/Text.antt =====
-- The numbers and digests that the journal of journal/runtime_journal.cpp keeps as text.
use qiven_runtime.Base.{
  ℕ, ◌+◌, ◌-◌, ◌*◌, ◌/◌, ◌%◌, ◌^◌, Bool, true, false, not, ◌&&◌, ◌||◌, Option, none, some, [], ◌∷◌,
  Bytes, ltb, if◌then◌else◌,
}

abbrev pub max_u64 : ℕ
max_u64 = 2 ^ 64 - 1

-- One round of the loop, at the character `c`: what the characters behind it have made is the value
-- and the factor. `is_first` is that the index is 0.
unfoldable pub parse_digit : Bool → ℕ → ℕ × ℕ → Option (ℕ × ℕ)
parse_digit is_first c (value, factor) =
    let digit = c - b'0' in
    let term = digit * factor % 2 ^ 64 in
    if ltb c b'0' || ltb b'9' c
    then none
    else if ltb (max_u64 - term) value
    then none
    else if not is_first && ltb (max_u64 / 10) factor
    then none
    else some (value + term, factor * 10 % 2 ^ 64)

abbrev pub after {ℓ κ} : {A : Type ℓ} {B : Type κ} → Option A → (A → Option B) → Option B
after none k = none
after (some a) k = k a

-- The loop runs from the last character to the first, from the value and the factor given.
unfoldable pub parse_digits : Bool → ℕ × ℕ → Bytes → Option (ℕ × ℕ)
parse_digits is_first from [] = some from
parse_digits is_first from (c ∷ rest) =
    after (parse_digits false from rest) (parse_digit is_first c)

unfoldable pub parse_u64 : Bytes → Option ℕ
unfolding parse_digits
parse_u64 [] = none
parse_u64 (c ∷ rest) = after (parse_digits true (0, 1) (c ∷ rest)) (λ made. some made.0)

-- The character of a value below sixteen.
abbrev pub hex_digit : ℕ → ℕ
hex_digit d = if ltb d 10 then b'0' + d else b'a' + (d - 10)

unfoldable pub to_hex : Bytes → Bytes
to_hex [] = []
to_hex (b ∷ rest) = hex_digit (b / 16 % 16) ∷ hex_digit (b % 16) ∷ to_hex rest
