-- ===== src/Journal/Chaining.antt =====
-- The hash chain of journal/runtime_journal.cpp stays intact.
use qiven_runtime.Base.{
  ℕ, zero, suc, ◌+◌, ◌≡◌, ◌≢◌, refl, ◌∙◌, ◌⊎◌, inl, inr, arith, some, List, [], ◌∷◌, Bytes, length,
  bytes_beq, bytes_beq_refl, bytes_eq, lookup-put, Option-cases,
}
use qiven_runtime.Foundation.{Foundation, IsLawful}
use qiven_runtime.Journal.{Result, Fault, ok, err, AuditRow, Tables}
use qiven_runtime.Journal.Audit.{
  read_meta, key_genesis_hash, key_last_wall_ms, last_hash, chain_hash, append_audit_row, recorded,
  touch_wall_clock, check_row, check_rows, verify_audit_chain, next_seq,
}

-- A result is a failure or a success.
pub Result-cases {ℓ} :
    {A : Type ℓ} (r : Result A) → ((a : A) × (r ≡ ok a)) ⊎ ((e : Fault) × (r ≡ err e))
Result-cases (ok a) = inl (a, refl)
Result-cases (err e) = inr (e, refl)

module _ (f : Foundation) where
  -- What a row that checks says of the walk so far.
  check_row-inv :
      (genesis : Bytes) (r : AuditRow) (prev : Bytes) (count : ℕ) (hash : Bytes) (next : ℕ)
      → check_row f genesis r (prev, count) ≡ ok (hash, next)
      → (hash ≡ r.event_hash) × (next ≡ count + 1) × (r.seq ≡ count + 1) × (length hash ≡ 32)
  unfolding check_row
  check_row-inv genesis r prev count hash next h = ground arith

  check_rows-inv :
      (genesis : Bytes) (rows : List AuditRow) (hash : Bytes) (count : ℕ)
      → check_rows f genesis rows ≡ ok (hash, count)
      → (hash ≡ last_hash rows) × (length hash ≡ 32) × (next_seq rows ≡ count + 1)
  unfolding check_rows
  check_rows-inv genesis [] hash count h = ground arith
  check_rows-inv genesis (r ∷ rows) hash count h = elim (Result-cases (check_rows f genesis rows)) [
    | inl ((prev, n), e) ↦ ground (arith, check_row-inv genesis r prev n hash count, e)
    | inr (fault, e) ↦ ground (arith, e)
  ]

-- A chain that verifies: the first row's hash is the genesis hash that the settings hold.
pub record IsVerified (f : Foundation) (t : Tables) : Type 0 where
  pub genesis : Bytes
  pub count : ℕ
  pub settled : read_meta key_genesis_hash t ≡ some genesis
  pub checked : check_rows f genesis t.audit ≡ ok (last_hash t.audit, suc count)
  pub sized : length (last_hash t.audit) ≡ 32
  pub numbered : next_seq t.audit ≡ count + 2

module _ (f : Foundation) where
  pub verify-inv : (t : Tables) → verify_audit_chain f t ≡ ok tt → IsVerified f t
  unfolding verify_audit_chain
  verify-inv t h = elim (Option-cases (read_meta key_genesis_hash t)) [
    | inl e ↦ absurd (let no_way : ⊥ = ground (arith, e) in no_way)
    | inr (g, e) ↦ elim (Result-cases (check_rows f g t.audit)) [
      | inr (fault, c) ↦ absurd (let no_way : ⊥ = ground (arith, e, c) in no_way)
      | inl ((hash, zero), c) ↦ absurd (let no_way : ⊥ = ground (arith, e, c) in no_way)
      | inl ((hash, suc n), c) ↦
          let facts = check_rows-inv f g t.audit hash (suc n) c in
          record {
            genesis = g;
            count = n;
            settled = e;
            checked = ground (arith, c, facts);
            sized = ground (arith, facts);
            numbered = ground (arith, facts);
          }
    ]
  ]

  pub verify-intro : (t : Tables) → IsVerified f t → verify_audit_chain f t ≡ ok tt
  unfolding verify_audit_chain
  verify-intro t v = rw (v.settled, v.checked) (ground arith)

  -- The row that `append_audit_row` adds.
  abbrev next_row : Bytes → Bytes → List AuditRow → AuditRow
  next_row kind payload rows = record {
    seq = next_seq rows;
    prev_hash = last_hash rows;
    event_hash = chain_hash f (last_hash rows) kind payload;
    kind = kind;
    payload = payload;
  }

  abbrev with_row : Bytes → Bytes → Tables → Tables
  with_row kind payload t = record t { audit = next_row kind payload t.audit ∷ t.audit }

  genesis-touch_wall_clock :
      (now : ℕ) (t : Tables)
      → read_meta key_genesis_hash (touch_wall_clock now t) ≡ read_meta key_genesis_hash t
  unfolding touch_wall_clock bytes_beq
  genesis-touch_wall_clock now t = lookup-put key_last_wall_ms key_genesis_hash _ t.meta

  audit-touch_wall_clock : (now : ℕ) (t : Tables) → (touch_wall_clock now t).audit ≡ t.audit
  unfolding touch_wall_clock
  audit-touch_wall_clock now t = refl

  append_audit_row-added :
      (kind payload : Bytes) (t t' : Tables) (event : Bytes)
      → append_audit_row f kind payload t ≡ ok (event, t')
      → t' ≡ with_row kind payload t
  unfolding append_audit_row
  append_audit_row-added kind payload t t' event h = ground arith

  recorded-added :
      (kind : Bytes) (payload : f.Builder) (now : ℕ) (t t' : Tables)
      → recorded f kind payload now t ≡ ok t'
      → t' ≡ touch_wall_clock now (with_row kind (f.contents payload) t)
  unfolding recorded append_audit_row
  recorded-added kind payload now t t' h = ground arith

  module _ (laws : IsLawful f) where
    pub length-chain_hash :
        (prev kind payload : Bytes) → length (chain_hash f prev kind payload) ≡ 32
    unfolding chain_hash
    length-chain_hash prev kind payload = laws.length-sha256 _

    -- The row that `append_audit_row` adds checks against the rows before it.
    check_row-next_row :
        (genesis kind payload : Bytes) (rows : List AuditRow) (n : ℕ)
        → length (last_hash rows) ≡ 32
        → next_seq rows ≡ n + 2
        → length kind ≢ 0
        → check_row f genesis (next_row kind payload rows) (last_hash rows, suc n)
          ≡ ok (chain_hash f (last_hash rows) kind payload, suc (suc n))
    unfolding check_row
    check_row-next_row genesis kind payload rows n sized numbered named =
        let same = bytes_beq_refl (last_hash rows) in
        let hashed = bytes_beq_refl (chain_hash f (last_hash rows) kind payload) in
        let wide = length-chain_hash (last_hash rows) kind payload in ground arith

    with_row-IsVerified :
        (kind payload : Bytes) (t : Tables)
        → length kind ≢ 0
        → IsVerified f t
        → IsVerified f (with_row kind payload t)
    unfolding check_rows
    with_row-IsVerified kind payload t named v = record {
      genesis = v.genesis;
      count = suc (v.count);
      settled = v.settled;
      checked =
          rw v.checked
            (check_row-next_row v.genesis kind payload t.audit v.count v.sized v.numbered named);
      sized = length-chain_hash (last_hash t.audit) kind payload;
      numbered = ground (arith, v.numbered);
    }

    pub append_audit_row-IsVerified :
        (kind payload : Bytes) (t t' : Tables) (event : Bytes)
        → length kind ≢ 0
        → append_audit_row f kind payload t ≡ ok (event, t')
        → IsVerified f t
        → IsVerified f t'
    append_audit_row-IsVerified kind payload t t' event named h v =
        rw (append_audit_row-added kind payload t t' event h)
          (with_row-IsVerified kind payload t named v)

    touch_wall_clock-IsVerified :
        (now : ℕ) (t : Tables) → IsVerified f t → IsVerified f (touch_wall_clock now t)
    touch_wall_clock-IsVerified now t v = record {
      genesis = v.genesis;
      count = v.count;
      settled = genesis-touch_wall_clock now t ∙ v.settled;
      checked = rw (audit-touch_wall_clock now t) v.checked;
      sized = rw (audit-touch_wall_clock now t) v.sized;
      numbered = rw (audit-touch_wall_clock now t) v.numbered;
    }

    -- A chain that verifies does so after `recorded`, where that does not fail.
    pub recorded-IsVerified :
        (kind : Bytes) (payload : f.Builder) (now : ℕ) (t t' : Tables)
        → length kind ≢ 0
        → recorded f kind payload now t ≡ ok t'
        → IsVerified f t
        → IsVerified f t'
    recorded-IsVerified kind payload now t t' named h v =
        rw (recorded-added kind payload now t t' h) (
          touch_wall_clock-IsVerified now _
            (with_row-IsVerified kind (f.contents payload) t named v))
