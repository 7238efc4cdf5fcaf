-- ===== src/Ipc/Serving.antt =====
-- `serve_connection` of ipc/pipe_service.cpp. The pipe is a sequence of rounds, each with what the
-- platform answers in it; the request and reply codec of ipc/protocol.cpp and the handler are
-- parameters.
use qiven_runtime.Base.{
  ℕ, zero, suc, ◌+◌, ◌%◌, ◌^◌, Bool, true, false, Option, none, some, List, [], ◌∷◌, ◌++◌, Bytes,
  ltb, leb, if◌then◌else◌,
}
use qiven_runtime.Base.Text.{codes, to_string}
use qiven_runtime.Foundation.{Foundation}
use qiven_runtime.Journal.{Result, ok, err}
use qiven_runtime.Ipc.Framing.{
  FrameHeader, VerifiedFrame, frame_magic, protocol_version, err_auth, err_frame, encode, decode,
}

-- What `read_frame` gives: a frame, or why there is none.
pub data Arrival : Type 0 where
  arrived : Bytes → Arrival
  aborted timed_out ended : Arrival

-- One turn of the loop as the platform has it: the stop flag, the read, and whether a reply can be
-- written.
pub record Round : Type 0 where
  pub stopped : Bool
  pub arrival : Arrival
  pub writes : Bool

pub record ServeStats : Type 0 where
  pub frames_served : ℕ
  pub admitted : Bool
  pub admission_rejected : Bool
  pub seq_violation : Bool
  pub frame_error : Bool
  pub budget_closed : Bool
  pub idle_closed : Bool
  pub client_closed : Bool
  pub stop_closed : Bool

abbrev pub no_stats : ServeStats
no_stats = record {
  frames_served = 0;
  admitted = false;
  admission_rejected = false;
  seq_violation = false;
  frame_error = false;
  budget_closed = false;
  idle_closed = false;
  client_closed = false;
  stop_closed = false;
}

abbrev err_replay : ℕ
err_replay = 63

-- What the handler has become, the frames written (the newest first), the statistics, and the
-- highest sequence number.
pub record Served (S : Type 0) : Type 0 where
  pub handler : S
  pub written : List Bytes
  pub stats : ServeStats
  pub last_seq : ℕ

-- The codec of requests and replies, and the handler with its state.
pub record Protocol : Type 1 where
  pub Request : Type 0
  pub Reply : Type 0
  pub State : Type 0
  pub decode_request : Bytes → Result Request
  pub encode_reply : Reply → Bytes
  pub make_error : ℕ → ℕ → Bytes → Reply
  pub handle : Request → State → Reply × State

abbrev reply_header : ℕ → ℕ → FrameHeader
reply_header request_id connection_seq = record {
  magic = frame_magic;
  proto = protocol_version;
  flags = 0;
  body_len = 0;
  request_id = request_id;
  connection_seq = connection_seq;
}

module _ (f : Foundation) (key : Bytes) (p : Protocol) where
  -- `write_error_frame`; whether the write succeeds is not asked.
  abbrev write_error_frame : ℕ → ℕ → Bytes → Served p.State → Served p.State
  write_error_frame request_id code detail s =
      let body = p.encode_reply (p.make_error request_id code detail) in
      record s { written = encode f key (reply_header request_id 1) body ∷ s.written }

  abbrev seq_message : ℕ → ℕ → Bytes
  seq_message last got =
      codes "connection sequence regression (expected > "
      ++ to_string last
      ++ codes ", got "
      ++ to_string got
      ++ codes ")"

  -- How a turn ends: the connection is closed, or the loop goes on.
  pub data Turn : Type 0 where
    closed : Served p.State → Turn
    goes_on : Served p.State → Turn

  -- The request is handled and its reply written.
  unfoldable pub answer : Round → FrameHeader → p.Request → Served p.State → Turn
  answer r header request s =
      let (reply, handler) = p.handle request s.handler in
      let frame =
        encode f key (reply_header header.request_id header.connection_seq)
          (p.encode_reply reply) in
      if r.writes
      then goes_on (record s {
        handler = handler;
        written = frame ∷ s.written;
        stats = record (s.stats) { frames_served = (s.stats.frames_served + 1) % 2 ^ 64 };
      })
      else closed
          (record s { handler = handler; stats = record (s.stats) { client_closed = true } })

  -- A request within the budget.
  unfoldable pub admit_request : ℕ → Round → VerifiedFrame → p.Request → Served p.State → Turn
  unfolding answer
  admit_request max_frames r v request s =
      if ltb max_frames ((s.stats.frames_served + 1) % 2 ^ 64)
      then closed (
          write_error_frame v.header.request_id err_frame (codes "connection frame budget exceeded")
            (record s { stats = record (s.stats) { budget_closed = true } }))
      else answer r v.header request s

  unfoldable pub parse_request :
      ℕ → Round → VerifiedFrame → Result p.Request → Served p.State → Turn
  unfolding admit_request
  parse_request max_frames r v (err e) s = closed (
      write_error_frame v.header.request_id e.code e.message
        (record s { stats = record (s.stats) { frame_error = true } }))
  parse_request max_frames r v (ok request) s = admit_request max_frames r v request s

  unfoldable pub check_seq : ℕ → Round → VerifiedFrame → Served p.State → Turn
  unfolding parse_request
  check_seq max_frames r v s =
      if leb v.header.connection_seq s.last_seq
      then closed (
          write_error_frame v.header.request_id err_replay
            (seq_message s.last_seq v.header.connection_seq)
            (record s { stats = record (s.stats) { seq_violation = true } }))
      else parse_request max_frames r v (p.decode_request v.body)
          (record s { last_seq = v.header.connection_seq })

  unfoldable pub check_frame : ℕ → Round → Result VerifiedFrame → Served p.State → Turn
  unfolding check_seq
  check_frame max_frames r (err e) s = closed (
      write_error_frame 0 e.code e.message
        (record s { stats = record (s.stats) { frame_error = true } }))
  check_frame max_frames r (ok v) s = check_seq max_frames r v s

  unfoldable pub read_turn : ℕ → Round → Arrival → Served p.State → Turn
  unfolding check_frame
  read_turn max_frames r aborted s =
      closed (record s { stats = record (s.stats) { stop_closed = true } })
  read_turn max_frames r timed_out s =
      closed (record s { stats = record (s.stats) { idle_closed = true } })
  read_turn max_frames r ended s =
      closed (record s { stats = record (s.stats) { client_closed = true } })
  read_turn max_frames r (arrived bytes) s = check_frame max_frames r (decode f key bytes) s

  -- One turn of the loop.
  unfoldable pub turn : ℕ → Round → Served p.State → Turn
  unfolding read_turn
  turn max_frames r s =
      if r.stopped
      then closed (record s { stats = record (s.stats) { stop_closed = true } })
      else read_turn max_frames r r.arrival s

  abbrev pub after_turn :
      Turn → (Served p.State → Option (Served p.State)) → Option (Served p.State)
  after_turn (closed s) next = some s
  after_turn (goes_on s) next = next s

  -- The loop on fuel; `none` is no answer of the code.
  unfoldable pub serve_loop : ℕ → ℕ → (ℕ → Round) → ℕ → Served p.State → Option (Served p.State)
  unfolding turn
  serve_loop zero max_frames rounds i s = none
  serve_loop (suc fuel) max_frames rounds i s =
      after_turn (turn max_frames (rounds i) s) (serve_loop fuel max_frames rounds (i + 1))

  -- The answer of the admission is a rejection where it is not empty.
  unfoldable pub serve_connection : Bytes → ℕ → (ℕ → Round) → p.State → Option (Served p.State)
  unfolding serve_loop
  serve_connection rejection max_frames rounds handler =
      let start : Served p.State = record {
        handler = handler;
        written = [];
        stats = no_stats;
        last_seq = 0;
      } in
      elim rejection [
        | [] ↦
            serve_loop (max_frames + 1) max_frames rounds 0
              (record start { stats = record no_stats { admitted = true } })
        | b ∷ rest ↦ some (
            write_error_frame 0 err_auth (codes "admission rejected: " ++ (b ∷ rest))
              (record start { stats = record no_stats { admission_rejected = true } }))
      ]
