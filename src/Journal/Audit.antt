-- ===== src/Journal/Audit.antt =====
-- The settings, the clock policy and the hash chain of the audit log in
-- journal/runtime_journal.cpp.
use qiven_runtime.Base.{
  ℕ, zero, suc, ◌+◌, ◌%◌, ◌^◌, Bool, false, not, ◌&&◌, ◌||◌, Option, none, some, List, [], ◌∷◌,
  ◌++◌, Bytes, length, ltb, nat_beq, bytes_beq, bytes_eq, lookup, put, if◌then◌else◌,
}
use qiven_runtime.Base.Text.{codes, to_string}
use qiven_runtime.Foundation.{Foundation}
use qiven_runtime.Journal.{
  Result, ok, err, ◌>>=◌, ◌>>◌, guard, found, err_chain, err_clock, constraint_failed, AuditRow,
  Tables, RuntimeJournal,
}
use qiven_runtime.Journal.Text.{parse_u64, to_hex}

abbrev pub read_meta : Bytes → Tables → Option Bytes
read_meta key t = lookup key t.meta

abbrev pub write_meta : Bytes → Bytes → Tables → Tables
write_meta key value t = record t { meta = put key value t.meta }

abbrev pub key_quarantine : Bytes
key_quarantine = codes "quarantine"

abbrev pub key_last_wall_ms : Bytes
key_last_wall_ms = codes "last_wall_ms"

abbrev pub key_genesis_hash : Bytes
key_genesis_hash = codes "genesis_hash"

-- `*flag == "1"` of a flag that is there
abbrev pub is_flagged : Option Bytes → Bool
is_flagged none = false
is_flagged (some flag) = bytes_beq flag (codes "1")

-- The watermark, where it is there and reads as a number.
abbrev pub watermark : Tables → Option ℕ
watermark t = elim (read_meta key_last_wall_ms t) [ none ↦ none | some text ↦ parse_u64 text ]

unfoldable pub deny_if_quarantined : RuntimeJournal → Result (Unit {0}) × RuntimeJournal
deny_if_quarantined j =
    let denied = is_flagged (read_meta key_quarantine j.tables) in
    (
      guard (not denied)
          (err_chain (codes "journal-quarantined (mutation denied; diagnostics remain)")),
      record j { is_quarantined = denied },
    )

abbrev pub is_regressed : ℕ → Option ℕ → Bool
is_regressed now none = false
is_regressed now (some last) = ltb ((now + 300000) % 2 ^ 64) last

unfoldable pub check_clock : ℕ → Tables → Result (Unit {0})
check_clock now t =
    guard (not (is_regressed now (watermark t)))
      (err_clock (codes "journal-clock-regression (now < last journal event - 300s)"))

abbrev later : ℕ → Option ℕ → ℕ
later now none = now
later now (some last) = if ltb now last then last else now

unfoldable pub touch_wall_clock : ℕ → Tables → Tables
touch_wall_clock now t = write_meta key_last_wall_ms (to_string (later now (watermark t))) t

abbrev pub zeros : ℕ → Bytes
zeros zero = []
zeros (suc n) = 0 ∷ zeros n

abbrev pub zero_hash : Bytes
zero_hash = zeros 32

-- The hash that the next row names: the newest row's, or zeros.
abbrev pub last_hash : List AuditRow → Bytes
last_hash [] = zero_hash
last_hash (r ∷ rows) = r.event_hash

-- AUTOINCREMENT, where no row is ever deleted.
abbrev pub next_seq : List AuditRow → ℕ
next_seq [] = 1
next_seq (r ∷ rows) = r.seq + 1

module _ (f : Foundation) where
  -- A payload's texts have a 32-bit length prefix.
  abbrev pub put_bytes : f.Builder → Bytes → f.Builder
  put_bytes out text = f.append (f.append_le_u32 out (length text % 2 ^ 32)) text

  unfoldable pub chain_hash : Bytes → Bytes → Bytes → Bytes
  chain_hash prev kind payload =
      f.sha256 (prev ++ f.contents (put_bytes f.new_builder kind) ++ payload)

  -- An empty payload is bound as NULL, which the column refuses.
  unfoldable pub append_audit_row : Bytes → Bytes → Tables → Result (Bytes × Tables)
  unfolding chain_hash
  append_audit_row kind payload t =
      let prev = last_hash t.audit in
      let event = chain_hash prev kind payload in
      let row : AuditRow = record {
        seq = next_seq t.audit;
        prev_hash = prev;
        event_hash = event;
        kind = kind;
        payload = payload;
      } in
      if not (nat_beq (length prev) 32)
      then err (err_chain (codes "audit-prev-hash-corrupt"))
      else if nat_beq (length payload) 0
      then err constraint_failed
      else ok (event, record t { audit = row ∷ t.audit })

  -- `append_audit`, then `touch_wall_clock`: how each transaction ends.
  unfoldable pub recorded : Bytes → f.Builder → ℕ → Tables → Result Tables
  unfolding append_audit_row touch_wall_clock
  recorded kind payload now t =
      append_audit_row kind (f.contents payload) t >>= λ (_, t'). ok (touch_wall_clock now t')

  unfoldable pub check_row : Bytes → AuditRow → Bytes × ℕ → Result (Bytes × ℕ)
  unfolding chain_hash
  check_row genesis r (prev, count) = do
    guard (nat_beq r.seq (count + 1)) (
        err_chain (
          codes "audit-seq-gap at seq "
          ++ to_string r.seq
          ++ codes " (expected "
          ++ to_string (count + 1)
          ++ codes ")"))
    guard
        (nat_beq (length r.prev_hash) 32
          && nat_beq (length r.event_hash) 32
          && not (nat_beq (length r.kind) 0))
        (err_chain (codes "audit-row-malformed at seq " ++ to_string r.seq))
    guard (bytes_beq prev r.prev_hash)
        (err_chain (codes "audit-prev-hash-mismatch at seq " ++ to_string r.seq))
    guard (bytes_beq (chain_hash prev r.kind r.payload) r.event_hash)
        (err_chain (codes "audit-event-hash-mismatch at seq " ++ to_string r.seq))
    guard (not (nat_beq count 0) || bytes_beq (to_hex r.event_hash) genesis)
        (err_chain (codes "audit-genesis-hash-mismatch"))
    ok (r.event_hash, count + 1)

  -- The loop of `verify_audit_chain`, which reads the oldest row first.
  unfoldable pub check_rows : Bytes → List AuditRow → Result (Bytes × ℕ)
  unfolding check_row
  check_rows genesis [] = ok (zero_hash, 0)
  check_rows genesis (r ∷ older) = check_rows genesis older >>= check_row genesis r

  unfoldable pub verify_audit_chain : Tables → Result (Unit {0})
  unfolding check_rows
  verify_audit_chain t = do
    genesis ←
        found (read_meta key_genesis_hash t) (err_chain (codes "journal-genesis-hash-missing"))
    (_, count) ← check_rows genesis t.audit
    guard (not (nat_beq count 0)) (err_chain (codes "audit-chain-empty"))
