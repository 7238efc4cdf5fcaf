-- ===== src/Identity.antt =====
-- identity.hpp and identity.cpp: the correlation key and the minter of 128-bit ids. The one-field
-- id structs are their number.
pub mod Minting
use Prim.Native.Nat.{bit_and, bit_or, bit_xor}
use qiven_runtime.Base.{
  ℕ, ◌+◌, ◌*◌, ◌/◌, ◌%◌, ◌^◌, ◌≡◌, refl, ◌↔◌, Bool, true, ◌&&◌, ◌++◌, arith, Bytes, get_or, set,
  nat_beq, HasEquality,
}
use qiven_runtime.Foundation.{Foundation}

pub record CorrelationKey : Type 0 where
  pub generation : ℕ
  pub adapter : ℕ
  pub session : ℕ
  pub actor : ℕ
  pub action : ℕ

unfoldable pub key_beq : CorrelationKey → CorrelationKey → Bool
key_beq a b =
    nat_beq a.generation b.generation
    && nat_beq a.adapter b.adapter
    && nat_beq a.session b.session
    && nat_beq a.actor b.actor
    && nat_beq a.action b.action

pub key_beq_iff : (a b : CorrelationKey) → (key_beq a b ≡ true) ↔ (a ≡ b)
unfolding key_beq
key_beq_iff a b = ground arith

instance abbrev pub key_eq : HasEquality CorrelationKey
key_eq = record { is_same = key_beq; is_same_iff = key_beq_iff }

abbrev pub u64_mod : ℕ
u64_mod = 2 ^ 64

-- One round of fnv1a64 over a whole word: xor, then multiply, in 64 bits.
abbrev pub fnv_mix : Foundation → ℕ → ℕ → ℕ
fnv_mix f seed word = (bit_xor seed word * f.fnv1a64_prime) % u64_mod

pub correlation_hash : Foundation → CorrelationKey → ℕ
correlation_hash f k =
    fnv_mix f
      (fnv_mix f
        (fnv_mix f (fnv_mix f (fnv_mix f f.fnv1a64_offset_basis k.generation) k.adapter) k.session)
        k.actor)
      k.action

-- `SortableIdMinter::next` at the clock's reading: the id's 16 bytes, and the next counter.
pub next_id : Foundation → ℕ → ℕ → Bytes × ℕ
next_id f unix_ms counter =
    let high =
      bit_or (bit_or ((unix_ms * 2 ^ 16) % u64_mod) 0x7000) (bit_and (counter / 2 ^ 20) 0x0FFF) in
    let bytes = f.encode_le_u64 high ++ f.encode_le_u64 counter in
    (set bytes 8 (bit_or 0x80 (bit_and (get_or bytes 8 0) 0x3F)), (counter + 1) % u64_mod)
