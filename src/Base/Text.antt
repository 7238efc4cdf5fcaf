-- ===== src/Base/Text.antt =====
-- Text as bytes, and `std::to_string`.
use Prim.Native.Nat.{ℕ, zero, suc, ◌+◌, ◌/◌, ◌%◌}
use Prim.Native.Char.{code}
use Prim.Native.String.{String}
use mathlib.Core.List.{List, [], ◌∷◌, ◌++◌}
use qiven_runtime.Base.Tests.{ltb, if◌then◌else◌}

-- The bytes of an ASCII literal.
abbrev pub codes : String → List ℕ
codes String.[] = []
codes (String.◌∷◌ c s) = code c ∷ codes s

-- Decimal digits with fuel; a 64-bit number has at most twenty.
unfoldable pub digits_from : ℕ → ℕ → List ℕ
digits_from zero n = []
digits_from (suc fuel) n =
    let rest = digits_from fuel (n / 10) in
    if ltb n 10 then (b'0' + n) ∷ [] else rest ++ (b'0' + n % 10) ∷ []

unfoldable pub to_string : ℕ → List ℕ
unfolding digits_from
to_string n = digits_from 20 n
