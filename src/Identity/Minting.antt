-- ===== src/Identity/Minting.antt =====
-- When two ids of one minter are the same bytes.
use Prim.Native.Nat.{bit_and}
use qiven_runtime.Base.{ℕ, ◌+◌, ◌/◌, ◌%◌, ◌^◌, ◌<◌, ◌≡◌, refl, arith}
use qiven_runtime.Base.Bits.{low_six}
use qiven_runtime.Foundation.{Foundation, IsLawful}
use qiven_runtime.Identity.{next_id}

-- Where the low byte of the counter is below 192, the id that is minted 64 counts later at the same
-- reading of the clock is the same id, since the eighth byte keeps only six bits of the counter.
pub next_id_collides :
    (f : Foundation)
    → IsLawful f
    → (unix_ms counter : ℕ) → counter % 256 < 192
    → (next_id f unix_ms (counter + 64)).0 ≡ (next_id f unix_ms counter).0
unfolding next_id
next_id_collides f laws unix_ms counter h =
    rw (shifted, laws.u64_layout _, laws.u64_layout counter, laws.u64_layout (counter + 64))
      (rw (upper, six_bits) refl)
  where
    shifted : (counter + 64) / 2 ^ 20 ≡ counter / 2 ^ 20
    shifted = omega arith

    upper : (counter + 64) / 256 ≡ counter / 256
    upper = omega arith

    six_bits : bit_and ((counter + 64) % 256) 0x3F ≡ bit_and (counter % 256) 0x3F
    six_bits =
        omega (
          arith,
          low_six ((counter + 64) % 256) (omega arith),
          low_six (counter % 256) (omega arith),
        )
