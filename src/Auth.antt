-- ===== src/Auth.antt =====
-- auth.cpp: HMAC-SHA256 over the digest of qiven-foundation, and the comparison without early exit.
-- A secret is the list of its 32 bytes; the random source of the platform is not modelled.
pub mod Equality
use Prim.Native.Nat.{bit_or, bit_xor}
use qiven_runtime.Base.{
  ℕ, zero, suc, Bool, false, List, [], ◌∷◌, ◌++◌, Bytes, length, nat_beq, if◌then◌else◌,
}
use qiven_runtime.Foundation.{Foundation}

abbrev pub block_size : ℕ
block_size = 64

-- The first `n` bytes of the pad; past the end of the key it is the value alone.
unfoldable pub xor_pad : ℕ → ℕ → Bytes → Bytes
xor_pad zero value key = []
xor_pad (suc n) value [] = bit_xor 0 value ∷ xor_pad n value []
xor_pad (suc n) value (k ∷ key) = bit_xor k value ∷ xor_pad n value key

unfoldable pub hmac_sha256 : Foundation → Bytes → Bytes → Bytes
unfolding xor_pad
hmac_sha256 f key message =
    let inner_digest = f.sha256 (xor_pad block_size 0x36 key ++ message) in
    f.sha256 (xor_pad block_size 0x5C key ++ inner_digest)

-- The loop of `constant_time_equal`.
unfoldable pub difference : ℕ → Bytes → Bytes → ℕ
difference diff (a ∷ as_) (b ∷ bs) = difference (bit_or diff (bit_xor a b)) as_ bs
difference diff _ _ = diff

unfoldable pub constant_time_equal : Bytes → Bytes → Bool
unfolding difference
constant_time_equal a b =
    if nat_beq (length a) (length b) then nat_beq (difference 0 a b) 0 else false
