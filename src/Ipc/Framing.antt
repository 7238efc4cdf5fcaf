-- ===== src/Ipc/Framing.antt =====
-- `FrameCodec` and `ReplayGuard` of ipc/framing.cpp. A failure is qiven::Result's, as in Journal.
use Prim.Native.Nat.{bit_xor}
use qiven_runtime.Base.{
  ℕ, ◌+◌, ◌-◌, ◌*◌, ◌/◌, ◌%◌, ◌^◌, Bool, true, false, not, ◌&&◌, Option, none, some, List, [], ◌∷◌,
  ◌++◌, Bytes, length, take, drop, ltb, leb, nat_beq, nat_eq, contains, insert, if◌then◌else◌,
}
use qiven_runtime.Base.Text.{codes}
use qiven_runtime.Foundation.{Foundation}
use qiven_runtime.Auth.{hmac_sha256, constant_time_equal}
use qiven_runtime.Journal.{Fault, Result, ok, ◌>>◌, guard}

abbrev pub header_len : ℕ
header_len = 32

abbrev pub mac_len : ℕ
mac_len = 32

abbrev pub frame_prefix : ℕ
frame_prefix = 64

abbrev pub frame_magic : ℕ
frame_magic = 0x51565231

abbrev pub protocol_version : ℕ
protocol_version = 1

abbrev pub max_body_bytes : ℕ
max_body_bytes = 1048576

abbrev pub max_frame_bytes : ℕ
max_frame_bytes = max_body_bytes + 64

abbrev pub err_auth : ℕ
err_auth = 62

abbrev pub err_frame : ℕ
err_frame = 64

pub record FrameHeader : Type 0 where
  pub magic : ℕ
  pub proto : ℕ
  pub flags : ℕ
  pub body_len : ℕ
  pub request_id : ℕ
  pub connection_seq : ℕ

pub record VerifiedFrame : Type 0 where
  pub header : FrameHeader
  pub body : Bytes

-- The text of a denial begins with "ipc: ".
abbrev pub denial : ℕ → Bytes → Fault
denial code detail = record { code = code; message = codes "ipc: " ++ detail }

abbrev pub value_or_zero : Option ℕ → ℕ
value_or_zero none = 0
value_or_zero (some v) = v

module _ (f : Foundation) where
  unfoldable pub get_u32 : Bytes → ℕ
  get_u32 p = value_or_zero (f.decode_le_u32 (take 4 p))

  unfoldable pub get_u64 : Bytes → ℕ
  get_u64 p = value_or_zero (f.decode_le_u64 (take 8 p))

  -- `proto | flags << 16` of two 16-bit numbers is their sum at these weights.
  unfoldable pub encode_header : FrameHeader → ℕ → Bytes
  encode_header h body_size =
      f.encode_le_u32 h.magic
      ++ f.encode_le_u32 (h.proto + h.flags * 65536)
      ++ f.encode_le_u64 body_size
      ++ f.encode_le_u64 h.request_id
      ++ f.encode_le_u64 h.connection_seq

  unfoldable pub encode : Bytes → FrameHeader → Bytes → Bytes
  unfolding encode_header
  encode key h body =
      let out = encode_header h (length body) in
      let mac = hmac_sha256 f key (out ++ body) in out ++ (mac ++ body)

  abbrev pub read_header : Bytes → FrameHeader
  read_header p = record {
    magic = get_u32 p;
    proto = get_u32 (drop 4 p) % 65536;
    flags = get_u32 (drop 4 p) / 65536;
    body_len = get_u64 (drop 8 p);
    request_id = get_u64 (drop 16 p);
    connection_seq = get_u64 (drop 24 p);
  }

  unfoldable pub decode : Bytes → Bytes → Result VerifiedFrame
  unfolding get_u32 get_u64
  decode key bytes = do
    guard (leb frame_prefix (length bytes) && leb (length bytes) max_frame_bytes)
        (denial err_frame (codes "frame size outside bounds"))
    let header = read_header bytes
    guard (nat_beq header.magic frame_magic) (denial err_frame (codes "bad frame magic"))
    guard (nat_beq header.proto protocol_version)
        (denial err_frame (codes "unsupported protocol version"))
    guard (nat_beq header.body_len (length bytes - frame_prefix))
        (denial err_frame (codes "body length disagrees with frame"))
    guard (leb header.body_len max_body_bytes)
        (denial err_frame (codes "body exceeds the 1 MiB cap"))
    let expected = hmac_sha256 f key (take header_len bytes ++ drop frame_prefix bytes)
    let provided = take mac_len (drop header_len bytes)
    guard (constant_time_equal provided expected)
        (denial err_auth (codes "HMAC verification failed"))
    ok (record { header = header; body = drop frame_prefix bytes })

-- `ReplayGuard`: the nonces, the oldest first, the hashes of those it remembers, and the highest
-- sequence number.
pub record ReplayGuard : Type 0 where
  pub recent : List Bytes
  pub seen : List ℕ
  pub last_seq : ℕ
  pub wall_ms : ℕ

abbrev pub window_ms : ℕ
window_ms = 120000

abbrev pub nonce_cache : ℕ
nonce_cache = 256

unfoldable pub new_guard : ReplayGuard
new_guard = record { recent = []; seen = []; last_seq = 0; wall_ms = 0 }

unfoldable pub note_wall_clock : ℕ → ReplayGuard → ReplayGuard
note_wall_clock now g = record g { wall_ms = now }

-- `m_seen.erase(h)`
unfoldable pub without : ℕ → List ℕ → List ℕ
without h [] = []
without h (x ∷ xs) = let rest = without h xs in if nat_beq x h then rest else x ∷ rest

abbrev pub distance : ℕ → ℕ → ℕ
distance a b = if ltb b a then a - b else b - a

module _ (f : Foundation) where
  abbrev pub hash_from : ℕ → Bytes → ℕ
  hash_from hash [] = hash
  hash_from hash (b ∷ rest) = hash_from (bit_xor hash b * f.fnv1a64_prime % 2 ^ 64) rest

  unfoldable pub hash_nonce : Bytes → ℕ
  hash_nonce nonce = hash_from f.fnv1a64_offset_basis nonce

  -- The oldest nonce goes when there are too many.
  abbrev pub evicted : List Bytes → List ℕ → List Bytes × List ℕ
  evicted [] seen = ([], seen)
  evicted (oldest ∷ rest) seen =
      if ltb nonce_cache (length (oldest ∷ rest))
      then (rest, without (hash_nonce oldest) seen)
      else (oldest ∷ rest, seen)

  unfoldable pub accept : ℕ → Bytes → ℕ → ℕ → ReplayGuard → Bool × ReplayGuard
  unfolding hash_nonce without
  accept connection_seq nonce timestamp now g =
      let reference = if nat_beq g.wall_ms 0 then now else g.wall_ms in
      let hash = hash_nonce nonce in
      let (recent, seen) = evicted (g.recent ++ nonce ∷ []) (insert hash g.seen) in
      if leb connection_seq g.last_seq
      then (false, g)
      else if ltb window_ms (distance timestamp reference)
      then (false, g)
      else if not (nat_beq (length nonce) 16)
      then (false, g)
      else if contains hash g.seen
      then (false, g)
      else (true, record g { recent = recent; seen = seen; last_seq = connection_seq })
