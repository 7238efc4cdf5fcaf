-- ===== src/Foundation.antt =====
-- What the runtime takes from qiven-foundation, which is not in this repository: the digest
-- functions of qiven/hashing.hpp and qiven/hashing_sha256.hpp, the codecs of qiven/endian.hpp and
-- the ByteBuilder of qiven/byte_builder.hpp. They are parameters, and `IsLawful` states what their
-- documentation (docs/design/rr0-byte-representation.md) promises. A builder that passes its bound
-- ends the process (QIVEN_ASSERT), so the model has no such run.
use qiven_runtime.Base.{
  ℕ, zero, suc, ◌/◌, ◌%◌, ◌^◌, ◌<◌, ◌≡◌, refl, Option, some, [], ◌∷◌, ◌++◌, Bytes, length,
}

pub record Foundation : Type 1 where
  -- A hasher that is fed in parts stands for `sha256` of the parts joined.
  pub sha256 : Bytes → Bytes
  pub fnv1a64_offset_basis : ℕ
  pub fnv1a64_prime : ℕ
  -- Text and seed.
  pub fnv1a64 : Bytes → ℕ → ℕ
  pub encode_le_u32 : ℕ → Bytes
  pub encode_le_u64 : ℕ → Bytes
  pub decode_le_u32 : Bytes → Option ℕ
  pub decode_le_u64 : Bytes → Option ℕ
  pub Builder : Type 0
  pub new_builder : Builder
  pub append : Builder → Bytes → Builder
  pub append_le_u32 : Builder → ℕ → Builder
  pub append_le_u64 : Builder → ℕ → Builder
  pub contents : Builder → Bytes

-- The lowest `k` bytes of a number, least significant first.
abbrev pub le_bytes : ℕ → ℕ → Bytes
le_bytes zero v = []
le_bytes (suc k) v = (v % 256) ∷ le_bytes k (v / 256)

pub record IsLawful (f : Foundation) : Type 0 where
  pub length-sha256 : (m : Bytes) → length (f.sha256 m) ≡ 32
  pub u32_layout : (v : ℕ) → f.encode_le_u32 v ≡ le_bytes 4 v
  pub u64_layout : (v : ℕ) → f.encode_le_u64 v ≡ le_bytes 8 v
  pub decode_u32 : (v : ℕ) → v < 2 ^ 32 → f.decode_le_u32 (f.encode_le_u32 v) ≡ some v
  pub decode_u64 : (v : ℕ) → v < 2 ^ 64 → f.decode_le_u64 (f.encode_le_u64 v) ≡ some v
  pub contents-new_builder : f.contents f.new_builder ≡ []
  pub contents-append : (b : f.Builder) (x : Bytes) → f.contents (f.append b x) ≡ f.contents b ++ x
  pub contents-append_le_u32 :
      (b : f.Builder) (v : ℕ) → f.contents (f.append_le_u32 b v) ≡ f.contents b ++ f.encode_le_u32 v
  pub contents-append_le_u64 :
      (b : f.Builder) (v : ℕ) → f.contents (f.append_le_u64 b v) ≡ f.contents b ++ f.encode_le_u64 v

module _ {f : Foundation} (laws : IsLawful f) where
  pub length-encode_le_u32 : (v : ℕ) → length (f.encode_le_u32 v) ≡ 4
  length-encode_le_u32 v = rw (laws.u32_layout v) refl

  pub length-encode_le_u64 : (v : ℕ) → length (f.encode_le_u64 v) ≡ 8
  length-encode_le_u64 v = rw (laws.u64_layout v) refl
