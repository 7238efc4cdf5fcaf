-- ===== src/Base/Bits.antt =====
-- A fact about a bit operation on bytes, checked at every value.
use Prim.Native.Nat.{ℕ, zero, suc, ◌%◌, ◌<◌, bit_and}
use mathlib.Core.Path.{◌≡◌, refl}
use mathlib.Core.Bool.{Bool, true}
use mathlib.Core.List.{List, [], ◌∷◌}
use native.Mathlib.Omega.{arith}
use qiven_runtime.Base.Tests.{nat_beq}
use qiven_runtime.Base.EqLaws.{nat_beq_iff}
use qiven_runtime.Base.Lists.{all}

-- The numbers under a bound, the largest first.
unfoldable numbers_under : ℕ → List ℕ
numbers_under zero = []
numbers_under (suc bound) = bound ∷ numbers_under bound

abbrev keeps_six_bits : ℕ → Bool
keeps_six_bits x = nat_beq (bit_and x 0x3F) (x % 64)

every_byte_keeps : all keeps_six_bits (numbers_under 256) ≡ true
unfolding numbers_under
every_byte_keeps = refl

all-numbers_under :
    (test : ℕ → Bool) (bound x : ℕ)
    → x < bound
    → all test (numbers_under bound) ≡ true
    → test x ≡ true
unfolding numbers_under
all-numbers_under test zero x under passed = absurd (omega arith)
all-numbers_under test (suc bound) x under passed =
    ground (arith, all-numbers_under test bound x, passed)

pub low_six : (x : ℕ) → x < 256 → bit_and x 0x3F ≡ x % 64
low_six x under =
    (nat_beq_iff _ _).0 (all-numbers_under keeps_six_bits 256 x under every_byte_keeps)
