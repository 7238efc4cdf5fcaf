-- ===== src/Ipc/Fields.antt =====
-- The fields of a frame of ipc/framing.cpp, read back from the header that `encode_header` writes.
use qiven_runtime.Base.{ℕ, ◌+◌, ◌*◌, ◌^◌, ◌<◌, ◌≡◌, refl, sym, ap, ◌∙◌, ◌++◌, Bytes, take, drop}
use qiven_runtime.Foundation.{Foundation, IsLawful}
use qiven_runtime.Ipc.Framing.{FrameHeader, get_u32, get_u64, value_or_zero, encode_header}

module _ {f : Foundation} (laws : IsLawful f) (h : FrameHeader) (n : ℕ) (rest : Bytes) where
  abbrev whole : Bytes
  whole = encode_header f h n ++ rest

  pub take-whole : take 32 whole ≡ encode_header f h n
  unfolding encode_header
  take-whole =
      rw
        (
          laws.u32_layout h.magic,
          laws.u32_layout (h.proto + h.flags * 65536),
          laws.u64_layout n,
          laws.u64_layout h.request_id,
          laws.u64_layout h.connection_seq,
        )
        refl

  pub drop-whole : drop 32 whole ≡ rest
  unfolding encode_header
  drop-whole =
      rw
        (
          laws.u32_layout h.magic,
          laws.u32_layout (h.proto + h.flags * 65536),
          laws.u64_layout n,
          laws.u64_layout h.request_id,
          laws.u64_layout h.connection_seq,
        )
        refl

  pub get_magic : h.magic < 2 ^ 32 → get_u32 f whole ≡ h.magic
  unfolding encode_header get_u32
  get_magic small = rw (laws.u32_layout h.magic) (
      ap (λ b. value_or_zero (f.decode_le_u32 b)) (sym (laws.u32_layout h.magic))
      ∙ ap value_or_zero (laws.decode_u32 h.magic small))

  pub get_proto_flags :
      h.proto + h.flags * 65536 < 2 ^ 32 → get_u32 f (drop 4 whole) ≡ h.proto + h.flags * 65536
  unfolding encode_header get_u32
  get_proto_flags small =
      rw (laws.u32_layout h.magic, laws.u32_layout (h.proto + h.flags * 65536))
        (ap (λ b. value_or_zero (f.decode_le_u32 b))
            (sym (laws.u32_layout (h.proto + h.flags * 65536)))
          ∙ ap value_or_zero (laws.decode_u32 (h.proto + h.flags * 65536) small))

  pub get_body_len : n < 2 ^ 64 → get_u64 f (drop 8 whole) ≡ n
  unfolding encode_header get_u64
  get_body_len small =
      rw (laws.u32_layout h.magic, laws.u32_layout (h.proto + h.flags * 65536), laws.u64_layout n)
        (ap (λ b. value_or_zero (f.decode_le_u64 b)) (sym (laws.u64_layout n))
          ∙ ap value_or_zero (laws.decode_u64 n small))

  pub get_request_id : h.request_id < 2 ^ 64 → get_u64 f (drop 16 whole) ≡ h.request_id
  unfolding encode_header get_u64
  get_request_id small =
      rw
        (
          laws.u32_layout h.magic,
          laws.u32_layout (h.proto + h.flags * 65536),
          laws.u64_layout n,
          laws.u64_layout h.request_id,
        )
        (ap (λ b. value_or_zero (f.decode_le_u64 b)) (sym (laws.u64_layout h.request_id))
          ∙ ap value_or_zero (laws.decode_u64 h.request_id small))

  pub get_connection_seq : h.connection_seq < 2 ^ 64 → get_u64 f (drop 24 whole) ≡ h.connection_seq
  unfolding encode_header get_u64
  get_connection_seq small =
      rw
        (
          laws.u32_layout h.magic,
          laws.u32_layout (h.proto + h.flags * 65536),
          laws.u64_layout n,
          laws.u64_layout h.request_id,
          laws.u64_layout h.connection_seq,
        )
        (ap (λ b. value_or_zero (f.decode_le_u64 b)) (sym (laws.u64_layout h.connection_seq))
          ∙ ap value_or_zero (laws.decode_u64 h.connection_seq small))
