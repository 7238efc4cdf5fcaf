-- ===== src/Tests/IpcRuns.antt =====
-- Runs of ipc/framing.cpp and ipc/pipe_service.cpp, at which their theorems are applied.
use qiven_runtime.Base.{
  ℕ, ◌+◌, ◌≤◌, ◌≡◌, refl, arith, true, false, some, [], ◌∷◌, Bytes, nat_eq, leb, if◌then◌else◌,
}
use qiven_runtime.Base.Text.{codes}
use qiven_runtime.Journal.{ok}
use qiven_runtime.Ipc.Framing.{
  FrameHeader, frame_magic, protocol_version, encode, decode, new_guard,
}
use qiven_runtime.Ipc.RoundTrip.{IsSendable, IsAuthentic, decode-encode, decode-IsAuthentic}
use qiven_runtime.Ipc.Replay.{acceptances, acceptances_at_most_once}
use qiven_runtime.Ipc.Serving.{Round, arrived, timed_out, Served, Protocol, serve_connection}
use qiven_runtime.Ipc.Closing.{serve_connection-closed, IsClosed}
use qiven_runtime.Tests.Fixtures.{toy, toy-IsLawful}

abbrev key : Bytes
key = 1 ∷ 2 ∷ 3 ∷ []

abbrev header : FrameHeader
header = record {
  magic = frame_magic;
  proto = protocol_version;
  flags = 3;
  body_len = 0;
  request_id = 77;
  connection_seq = 1;
}

header-IsSendable : IsSendable header
header-IsSendable = record {
  magic = refl;
  proto = refl;
  flags = omega arith;
  request_id = omega arith;
  connection_seq = omega arith;
}

round_trip :
    decode toy key (encode toy key header (codes "hello"))
    ≡ ok (record { header = record header { body_len = 5 }; body = codes "hello" })
round_trip = decode-encode toy-IsLawful header header-IsSendable (codes "hello") (omega arith) key

decode-encode_example :
    decode toy key (encode toy key header (codes "hello"))
    ≡ ok (record { header = record header { body_len = 5 }; body = codes "hello" })
decode-encode_example =
    decode-encode toy-IsLawful header header-IsSendable (codes "hello") (omega arith) key

decode-IsAuthentic_example :
    IsAuthentic toy key
      (encode toy key header (codes "hello"))
      (record { header = record header { body_len = 5 }; body = codes "hello" })
decode-IsAuthentic_example =
    decode-IsAuthentic toy key (encode toy key header (codes "hello"))
      (record { header = record header { body_len = 5 }; body = codes "hello" }) round_trip

abbrev nonce : Bytes
nonce = 1 ∷ 2 ∷ 3 ∷ 4 ∷ 5 ∷ 6 ∷ 7 ∷ 8 ∷ 9 ∷ 10 ∷ 11 ∷ 12 ∷ 13 ∷ 14 ∷ 15 ∷ 16 ∷ []

acceptances_at_most_once_example :
    acceptances toy new_guard 1 ((1, nonce, 1000, 1500) ∷ (1, nonce, 1000, 1501) ∷ [])
      + (if leb 1 new_guard.last_seq then 1 else 0)
    ≤ 1
acceptances_at_most_once_example =
    acceptances_at_most_once toy new_guard 1 ((1, nonce, 1000, 1500) ∷ (1, nonce, 1000, 1501) ∷ [])

-- Requests and replies are their bytes, and the handler counts.
abbrev echo : Protocol
echo = record {
  Request = Bytes;
  Reply = Bytes;
  State = ℕ;
  decode_request = λ body. ok body;
  encode_reply = λ reply. reply;
  make_error = λ id code text. text;
  handle = λ request n. (request, n + 1);
}

abbrev rounds : ℕ → Round
rounds i = record {
  stopped = false;
  arrival = if leb i 0 then arrived (encode toy key header (codes "hello")) else timed_out;
  writes = true;
}

serve_connection-closed_example :
    (s' : Served ℕ) × (serve_connection toy key echo [] 64 rounds 0 ≡ some s')
    × IsClosed toy key echo 64 s'
serve_connection-closed_example = serve_connection-closed toy key echo 64 [] rounds 0 (omega arith)
