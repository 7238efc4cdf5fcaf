-- ===== src/Ipc/RoundTrip.antt =====
-- What `FrameCodec::decode` of ipc/framing.cpp accepts, and that it accepts what `encode` makes.
use qiven_runtime.Base.{
  ℕ, zero, suc, ◌+◌, ◌-◌, ◌*◌, ◌/◌, ◌%◌, ◌^◌, ◌≤◌, ◌<◌, ◌≡◌, refl, sym, ap, ◌∙◌, subst, arith, Bool,
  true, false, [], ◌∷◌, ◌++◌, Bytes, length, take, drop, length-append, take-append, drop-append,
  leb, nat_beq, nat_beq_iff, ◌&&◌,
}
use qiven_runtime.Foundation.{Foundation, IsLawful}
use qiven_runtime.Auth.{hmac_sha256, constant_time_equal}
use qiven_runtime.Auth.Equality.{constant_time_equal_lem}
use qiven_runtime.Journal.{Fault, ok, ◌>>◌, guard, ok-injective}
use qiven_runtime.Ipc.Framing.{
  FrameHeader, VerifiedFrame, frame_magic, protocol_version, max_body_bytes, max_frame_bytes,
  encode_header, encode, decode, read_header,
}
use qiven_runtime.Ipc.Fields.{
  take-whole, drop-whole, get_magic, get_proto_flags, get_body_len, get_request_id,
  get_connection_seq,
}

-- What a frame that is accepted satisfies.
pub record IsAuthentic (f : Foundation) (key bytes : Bytes) (frame : VerifiedFrame) : Type 0 where
  pub bounded : length bytes ≤ max_frame_bytes
  pub magic : frame.header.magic ≡ frame_magic
  pub proto : frame.header.proto ≡ protocol_version
  pub sized : frame.header.body_len + 64 ≡ length bytes
  pub body : frame.body ≡ drop 64 bytes
  pub mac : take 32 (drop 32 bytes) ≡ hmac_sha256 f key (take 32 bytes ++ frame.body)

-- Six checks in a row succeed only together.
guards-inv :
    {A : Type 0} (a b c d e g : Bool) (fa fb fc fd fe fg : Fault) (x y : A)
    → (guard a fa
        >> (guard b fb >> (guard c fc >> (guard d fd >> (guard e fe >> (guard g fg >> ok x))))))
      ≡ ok y
    → (a ≡ true) × (b ≡ true) × (c ≡ true) × (d ≡ true) × (e ≡ true) × (g ≡ true) × (x ≡ y)
guards-inv true true true true true true fa fb fc fd fe fg x y h =
    (refl, refl, refl, refl, refl, refl, ok-injective h)
guards-inv false b c d e g fa fb fc fd fe fg x y h = absurd (let no_way : ⊥ = cc in no_way)
guards-inv true false c d e g fa fb fc fd fe fg x y h = absurd (let no_way : ⊥ = cc in no_way)
guards-inv true true false d e g fa fb fc fd fe fg x y h = absurd (let no_way : ⊥ = cc in no_way)
guards-inv true true true false e g fa fb fc fd fe fg x y h = absurd (let no_way : ⊥ = cc in no_way)
guards-inv true true true true false g fa fb fc fd fe fg x y h =
    absurd (let no_way : ⊥ = cc in no_way)
guards-inv true true true true true false fa fb fc fd fe fg x y h =
    absurd (let no_way : ⊥ = cc in no_way)

sizes-inv : (n : ℕ) → (leb 64 n && leb n max_frame_bytes) ≡ true → (64 ≤ n) × (n ≤ max_frame_bytes)
sizes-inv n h = ground arith

sizes-intro : (n : ℕ) → 64 ≤ n → n ≤ max_frame_bytes → (leb 64 n && leb n max_frame_bytes) ≡ true
sizes-intro n h k = ground arith

body_size : (n b : ℕ) → 64 ≤ n → b ≡ n - 64 → b + 64 ≡ n
body_size n b h e = omega (arith, h, e)

module _ (f : Foundation) (key bytes : Bytes) where
  digest : Bytes
  digest = hmac_sha256 f key (take 32 bytes ++ drop 64 bytes)

  -- A frame is accepted only if it is at most 1 MiB and 64 bytes long, has the magic and the
  -- version, names the length of its body, and carries the keyed digest of its header and its body.
  pub decode-IsAuthentic :
      (frame : VerifiedFrame) → decode f key bytes ≡ ok frame → IsAuthentic f key bytes frame
  unfolding decode
  decode-IsAuthentic frame h =
      let header = read_header f bytes in
      let provided = take 32 (drop 32 bytes) in
      let expected = hmac_sha256 f key (take 32 bytes ++ drop 64 bytes) in
      let (sizes, magic, proto, sized, capped, mac, same) =
        guards-inv (leb 64 (length bytes) && leb (length bytes) max_frame_bytes)
          (nat_beq header.magic frame_magic) (nat_beq header.proto protocol_version)
          (nat_beq header.body_len (length bytes - 64)) (leb header.body_len max_body_bytes)
          (constant_time_equal provided expected) _ _ _ _ _ _
          (record { header = header; body = drop 64 bytes }) frame h in
      let (large, small) = sizes-inv (length bytes) sizes in
      subst (IsAuthentic f key bytes) same (record {
        bounded = small;
        magic = (nat_beq_iff _ _).0 magic;
        proto = (nat_beq_iff _ _).0 proto;
        sized = body_size (length bytes) header.body_len large ((nat_beq_iff _ _).0 sized);
        body = refl;
        mac = (constant_time_equal_lem provided expected).0 mac;
      })

  decode-valid :
      (n : ℕ)
      → length bytes ≡ n + 64
      → n ≤ max_body_bytes
      → (read_header f bytes).magic ≡ frame_magic
      → (read_header f bytes).proto ≡ protocol_version
      → (read_header f bytes).body_len ≡ n
      → take 32 (drop 32 bytes) ≡ hmac_sha256 f key (take 32 bytes ++ drop 64 bytes)
      → decode f key bytes ≡ ok (record { header = read_header f bytes; body = drop 64 bytes })
  unfolding decode
  decode-valid n long small magic proto sized mac =
      rw
        (
          sizes-intro (length bytes) (omega (arith, long)) (omega (arith, long, small)),
          (nat_beq_iff _ _).1 magic,
          (nat_beq_iff _ _).1 proto,
          (nat_beq_iff (read_header f bytes).body_len (length bytes - 64)).1
              (omega (arith, long, sized)),
          (constant_time_equal_lem _ _).1 mac,
          capped n (read_header f bytes).body_len sized small,
        )
        refl
    where
      capped : (n b : ℕ) → b ≡ n → n ≤ max_body_bytes → leb b max_body_bytes ≡ true
      capped n b e h = ground arith

drop-nothing : (k : ℕ) → drop {A = ℕ} k [] ≡ []
drop-nothing zero = refl
drop-nothing (suc k) = refl

drop-drop : (n m k : ℕ) (xs : Bytes) → n + m ≡ k → drop k xs ≡ drop m (drop n xs)
drop-drop zero m k xs e =
    let same : m ≡ k = omega (arith, e) in subst (λ k. drop k xs ≡ drop m xs) same refl
drop-drop (suc n) m k [] e = drop-nothing k ∙ sym (drop-nothing m)
drop-drop (suc n) m zero (x ∷ xs) e = absurd (omega (arith, e))
drop-drop (suc n) m (suc k) (x ∷ xs) e = drop-drop n m k xs (omega (arith, e))

-- A header whose fields fit their widths, with the magic and the version.
pub record IsSendable (h : FrameHeader) : Type 0 where
  pub magic : h.magic ≡ frame_magic
  pub proto : h.proto ≡ protocol_version
  pub flags : h.flags < 2 ^ 16
  pub request_id : h.request_id < 2 ^ 64
  pub connection_seq : h.connection_seq < 2 ^ 64

module _ {f : Foundation} (laws : IsLawful f) (h : FrameHeader) (sendable : IsSendable h)
    (body : Bytes) (fits : length body ≤ max_body_bytes) where
  fitting : length body < 2 ^ 64
  fitting = omega (arith, fits)

  packed : h.proto + h.flags * 65536 < 2 ^ 32
  packed = omega (arith, sendable.proto, sendable.flags)

  -- The header as it is read back from before any text.
  read_whole :
      (rest : Bytes)
      → read_header f (encode_header f h (length body) ++ rest)
        ≡ record h { body_len = length body }
  read_whole rest =
      let n = length body in
      let pf = get_proto_flags laws h n rest packed in
      rw
        (
          get_magic laws h n rest (omega (arith, sendable.magic)),
          pf,
          get_body_len laws h n rest fitting,
          get_request_id laws h n rest sendable.request_id,
          get_connection_seq laws h n rest sendable.connection_seq,
        )
        (split h.proto h.flags (omega (arith, sendable.proto)))
    where
      split :
          (p g : ℕ)
          → p < 65536
          → record h {
            magic = h.magic;
            proto = (p + g * 65536) % 65536;
            flags = (p + g * 65536) / 65536;
            body_len = length body;
          }
            ≡ record h { proto = p; flags = g; body_len = length body }
      split p g small =
          let low : (p + g * 65536) % 65536 ≡ p = omega (arith, small) in
          let high : (p + g * 65536) / 65536 ≡ g = omega (arith, small) in rw (low, high) refl

  module _ (key : Bytes) where
    abbrev head : Bytes
    head = encode_header f h (length body)

    abbrev tag : Bytes
    tag = hmac_sha256 f key (head ++ body)

    encode_lem : encode f key h body ≡ head ++ (tag ++ body)
    unfolding encode
    encode_lem = refl

    length-tag : length tag ≡ 32
    unfolding hmac_sha256
    length-tag = laws.length-sha256 _

    length-head : length head ≡ 32
    unfolding encode_header
    length-head =
        rw
          (
            laws.u32_layout h.magic,
            laws.u32_layout (h.proto + h.flags * 65536),
            laws.u64_layout (length body),
            laws.u64_layout h.request_id,
            laws.u64_layout h.connection_seq,
          )
          refl

    length-whole : length (head ++ (tag ++ body)) ≡ length body + 64
    length-whole =
        omega
          (arith, length-append head (tag ++ body), length-append tag body, length-head, length-tag)

    take-tag : take 32 (tag ++ body) ≡ tag
    take-tag = subst (λ n. take n (tag ++ body) ≡ tag) length-tag (take-append tag body)

    drop-tag : drop 32 (tag ++ body) ≡ body
    drop-tag = subst (λ n. drop n (tag ++ body) ≡ body) length-tag (drop-append tag body)

    drop-body : drop 64 (head ++ (tag ++ body)) ≡ body
    drop-body =
        drop-drop 32 32 64 (head ++ (tag ++ body)) refl
        ∙ ap (drop 32) (drop-whole laws h (length body) (tag ++ body))
        ∙ drop-tag

    tagged :
        take 32 (drop 32 (head ++ (tag ++ body)))
        ≡ hmac_sha256 f key (take 32 (head ++ (tag ++ body)) ++ drop 64 (head ++ (tag ++ body)))
    tagged =
        rw
          (
            drop-whole laws h (length body) (tag ++ body),
            take-tag,
            take-whole laws h (length body) (tag ++ body),
            drop-body,
          )
          refl

    decode-whole :
        decode f key (head ++ (tag ++ body))
        ≡ ok (record { header = record h { body_len = length body }; body = body })
    decode-whole =
        let read = read_whole (tag ++ body) in
        decode-valid f key (head ++ (tag ++ body)) (length body) length-whole fits
          (ap (λ x. x.magic) read ∙ sendable.magic) (ap (λ x. x.proto) read ∙ sendable.proto)
          (ap (λ x. x.body_len) read) tagged
        ∙ rw (read, drop-body) refl

    -- `decode` gives back what `encode` was given, with the length of the body filled in, for a
    -- header with the magic and the version, whose fields fit, and a body of at most 1 MiB.
    pub decode-encode :
        decode f key (encode f key h body)
        ≡ ok (record { header = record h { body_len = length body }; body = body })
    decode-encode = rw encode_lem decode-whole
