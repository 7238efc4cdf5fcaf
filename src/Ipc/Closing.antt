-- ===== src/Ipc/Closing.antt =====
-- That each connection of ipc/pipe_service.cpp ends, for one reason, and within its budget.
use qiven_runtime.Base.{
  ℕ, zero, suc, ◌+◌, ◌-◌, ◌%◌, ◌^◌, ◌≤◌, ◌<◌, ◌≡◌, refl, ◌∙◌, arith, Bool, true, false, Option,
  some, [], ◌∷◌, Bytes, ltb, leb, if◌then◌else◌,
}
use qiven_runtime.Foundation.{Foundation}
use qiven_runtime.Journal.{Result, ok, err}
use qiven_runtime.Ipc.Framing.{FrameHeader, VerifiedFrame, decode}
use qiven_runtime.Ipc.Serving.{
  Arrival, arrived, aborted, timed_out, ended, Round, ServeStats, Served, Protocol, Turn, closed,
  goes_on, answer, admit_request, parse_request, check_seq, check_frame, read_turn, turn,
  after_turn, serve_loop, serve_connection,
}

abbrev one : Bool → ℕ
one b = if b then 1 else 0

-- How many of the reasons to close are given.
unfoldable pub reasons : ServeStats → ℕ
reasons t =
    one t.admission_rejected
    + one t.seq_violation
    + one t.frame_error
    + one t.budget_closed
    + one t.idle_closed
    + one t.client_closed
    + one t.stop_closed

-- A property of both branches, each under its condition.
by_branch {ℓ} :
    {A : Type ℓ} (P : A → Type 0) (b : Bool) (x y : A)
    → (b ≡ true → P x)
    → (b ≡ false → P y)
    → P (if b then x else y)
by_branch P true x y h k = h refl
by_branch P false x y h k = k refl

reason_seq : (t : ServeStats) → reasons t ≡ 0 → reasons (record t { seq_violation = true }) ≡ 1
unfolding reasons
reason_seq t h = ground (arith, h)

reason_frame : (t : ServeStats) → reasons t ≡ 0 → reasons (record t { frame_error = true }) ≡ 1
unfolding reasons
reason_frame t h = ground (arith, h)

reason_budget : (t : ServeStats) → reasons t ≡ 0 → reasons (record t { budget_closed = true }) ≡ 1
unfolding reasons
reason_budget t h = ground (arith, h)

reason_idle : (t : ServeStats) → reasons t ≡ 0 → reasons (record t { idle_closed = true }) ≡ 1
unfolding reasons
reason_idle t h = ground (arith, h)

reason_client : (t : ServeStats) → reasons t ≡ 0 → reasons (record t { client_closed = true }) ≡ 1
unfolding reasons
reason_client t h = ground (arith, h)

reason_stop : (t : ServeStats) → reasons t ≡ 0 → reasons (record t { stop_closed = true }) ≡ 1
unfolding reasons
reason_stop t h = ground (arith, h)

served_reasons : (t : ServeStats) (n : ℕ) → reasons (record t { frames_served = n }) ≡ reasons t
unfolding reasons
served_reasons t n = refl

module _ (f : Foundation) (key : Bytes) (p : Protocol) (max_frames : ℕ) where
  -- A connection that is open: no reason to close yet, and the budget is kept.
  record IsOpen (s : Served p.State) : Type 0 where
    served : s.stats.frames_served ≤ max_frames
    unclosed : reasons s.stats ≡ 0

  -- What a turn does to the statistics of a connection that is open.
  abbrev TurnKeeps : Served p.State → Turn f key p → Type 0
  TurnKeeps s (closed s') =
      (reasons s'.stats ≡ 1) × (s'.stats.frames_served ≡ s.stats.frames_served)
  TurnKeeps s (goes_on s') =
      (reasons s'.stats ≡ 0)
      × (s'.stats.frames_served ≡ s.stats.frames_served + 1)
      × (s'.stats.frames_served ≤ max_frames)

  module _ (room : max_frames < 2 ^ 64 - 1) (r : Round) where
    answer-keeps :
        (h : FrameHeader) (request : p.Request) (s : Served p.State)
        → s.stats.frames_served < max_frames
        → reasons s.stats ≡ 0
        → TurnKeeps s (answer f key p r h request s)
    unfolding answer
    answer-keeps h request s below open_ =
        by_branch (TurnKeeps s) r.writes _ _
          (λ _. (
            served_reasons s.stats _ ∙ open_,
            omega (arith, below, room),
            omega (arith, below, room),
          ))
          (λ _. (reason_client s.stats open_, refl))

    budget_left :
        (n : ℕ) → n ≤ max_frames → ltb max_frames ((n + 1) % 2 ^ 64) ≡ false → n < max_frames
    budget_left n within h = ground (arith, within, h, room)

    admit_request-keeps :
        (v : VerifiedFrame) (request : p.Request) (s : Served p.State)
        → IsOpen s
        → TurnKeeps s (admit_request f key p max_frames r v request s)
    unfolding admit_request
    admit_request-keeps v request s o =
        by_branch (TurnKeeps s) (ltb max_frames ((s.stats.frames_served + 1) % 2 ^ 64)) _ _
          (λ _. (reason_budget s.stats o.unclosed, refl))
          (λ h. answer-keeps v.header request s (budget_left _ o.served h) o.unclosed)

    parse_request-keeps :
        (v : VerifiedFrame) (request : Result p.Request) (s : Served p.State)
        → IsOpen s
        → TurnKeeps s (parse_request f key p max_frames r v request s)
    unfolding parse_request
    parse_request-keeps v (err e) s o = (reason_frame s.stats o.unclosed, refl)
    parse_request-keeps v (ok request) s o = admit_request-keeps v request s o

    check_seq-keeps :
        (v : VerifiedFrame) (s : Served p.State)
        → IsOpen s
        → TurnKeeps s (check_seq f key p max_frames r v s)
    unfolding check_seq
    check_seq-keeps v s o =
        by_branch (TurnKeeps s) (leb v.header.connection_seq s.last_seq) _ _
          (λ _. (reason_seq s.stats o.unclosed, refl))
          (λ _.
            parse_request-keeps v (p.decode_request v.body)
              (record s { last_seq = v.header.connection_seq })
              (record { served = o.served; unclosed = o.unclosed }))

    check_frame-keeps :
        (frame : Result VerifiedFrame) (s : Served p.State)
        → IsOpen s
        → TurnKeeps s (check_frame f key p max_frames r frame s)
    unfolding check_frame
    check_frame-keeps (err e) s o = (reason_frame s.stats o.unclosed, refl)
    check_frame-keeps (ok v) s o = check_seq-keeps v s o

    read_turn-keeps :
        (a : Arrival) (s : Served p.State)
        → IsOpen s
        → TurnKeeps s (read_turn f key p max_frames r a s)
    unfolding read_turn
    read_turn-keeps aborted s o = (reason_stop s.stats o.unclosed, refl)
    read_turn-keeps timed_out s o = (reason_idle s.stats o.unclosed, refl)
    read_turn-keeps ended s o = (reason_client s.stats o.unclosed, refl)
    read_turn-keeps (arrived bytes) s o = check_frame-keeps (decode f key bytes) s o

    turn-keeps : (s : Served p.State) → IsOpen s → TurnKeeps s (turn f key p max_frames r s)
    unfolding turn
    turn-keeps s o =
        by_branch (TurnKeeps s) r.stopped _ _ (λ _. (reason_stop s.stats o.unclosed, refl))
          (λ _. read_turn-keeps r.arrival s o)

  -- A connection that has ended: for one reason, with at most its budget served.
  pub record IsClosed (s : Served p.State) : Type 0 where
    pub within : s.stats.frames_served ≤ max_frames
    pub one_reason : reasons s.stats ≡ 1

  -- That the loop gives an answer, and of which kind.
  abbrev Ends : Option (Served p.State) → Type 0
  Ends out = (s' : Served p.State) × (out ≡ some s') × IsClosed s'

  after_turn-closed :
      (fuel : ℕ) (s : Served p.State) (t : Turn f key p)
      (next : Served p.State → Option (Served p.State))
      → max_frames < suc fuel + s.stats.frames_served
      → ((s1 : Served p.State)
          → max_frames < fuel + s1.stats.frames_served
          → IsOpen s1
          → Ends (next s1))
      → IsOpen s
      → TurnKeeps s t
      → Ends (after_turn f key p t next)
  after_turn-closed fuel s (closed s') next enough ih o (reason, served) =
      (s', refl, record { within = rw served o.served; one_reason = reason })
  after_turn-closed fuel s (goes_on s') next enough ih o (reason, served, within) =
      ih s' (omega (arith, enough, served)) (record { served = within; unclosed = reason })

  -- Enough fuel: one turn more than the budget that is left.
  serve_loop-closed :
      (fuel : ℕ) (rounds : ℕ → Round) (i : ℕ) (s : Served p.State)
      → max_frames < 2 ^ 64 - 1
      → max_frames < fuel + s.stats.frames_served
      → IsOpen s
      → Ends (serve_loop f key p fuel max_frames rounds i s)
  unfolding serve_loop
  serve_loop-closed zero rounds i s room enough o = absurd (omega (arith, enough, o.served))
  serve_loop-closed (suc fuel) rounds i s room enough o =
      after_turn-closed fuel s (turn f key p max_frames (rounds i) s)
        (serve_loop f key p fuel max_frames rounds (i + 1)) enough
        (λ s1 enough' o'. serve_loop-closed fuel rounds (i + 1) s1 room enough' o') o
        (turn-keeps room (rounds i) s o)

  -- Whatever the client sends and however the platform answers, the connection ends after at most
  -- one turn more than its budget of frames (a budget below the greatest 64-bit number), with at
  -- most the budget served, and for exactly one reason.
  pub serve_connection-closed :
      (rejection : Bytes) (rounds : ℕ → Round) (handler : p.State)
      → max_frames < 2 ^ 64 - 1
      → Ends (serve_connection f key p rejection max_frames rounds handler)
  unfolding serve_connection reasons
  serve_connection-closed [] rounds handler room =
      serve_loop-closed (max_frames + 1) rounds 0 _ room (omega arith)
        (record { served = omega arith; unclosed = refl })
  serve_connection-closed (b ∷ rest) rounds handler room =
      (_, refl, record { within = omega arith; one_reason = refl })
