-- ===== src/Journal/Writes.antt =====
-- What the transactions of journal/runtime_journal.cpp write, read off from their success.
use qiven_runtime.Base.{
  ℕ, ◌+◌, ◌≤◌, ◌≡◌, ◌≢◌, inl, inr, arith, true, false, some, Option-cases, List, Bytes, length,
  lookup, has, bytes_eq, nat_eq,
}
use qiven_runtime.Base.Text.{codes}
use qiven_runtime.Foundation.{Foundation}
use qiven_runtime.Journal.{ok, TxState, TransactionRow, DecisionRow, DispatchRow, bound, Tables}
use qiven_runtime.Journal.Audit.{recorded}
use qiven_runtime.Journal.Control.{
  SessionOpen, TransactionOpen, session_rows, transaction_rows, evidence_rows, with_session,
  with_transaction, is_open_for_judgment, session_payload, transaction_payload, evidence_payload,
  max_key,
}
use qiven_runtime.Journal.Decisions.{
  DecisionBind, GenerationAdvance, bind_rows, consume_rows, advance_rows, with_decision,
  with_consumed, with_generation, holds_token, bind_payload, generation_payload, stale_changes,
  is_foreign,
}
use qiven_runtime.Journal.Effects.{
  LeaseRequest, LeaseState, DispatchPrepared, OutcomeRecord, is_held_against, lease_rows,
  dispatch_rows, outcome_rows, with_lease, with_dispatch, with_outcome, is_decided, is_prepared,
  dispatch_payload, lease_payload, lease_row, outcome_payload,
}
use qiven_runtime.Journal.Barriers.{
  BarrierOpen, JournalRecord, JournalRecordKind, barrier_rows, closing_rows, audit_rows,
  append_rows, with_barrier, with_closed, is_open_barrier, port_kind_name, barrier_payload,
  record_payload,
}

-- The rows `t'` are the rows `x` with an audit row and a watermark more.
pub record IsRecorded (f : Foundation) (x t' : Tables) : Type 0 where
  pub kind : Bytes
  pub payload : f.Builder
  pub now : ℕ
  pub named : length kind ≢ 0
  pub written : recorded f kind payload now x ≡ ok t'

module _ (f : Foundation) where
  module _ (now : ℕ) (t t' : Tables) where
    pub consume_rows-inv :
        (id : Bytes) (a : Unit {0})
        → consume_rows f id now t ≡ ok (a, t')
        → (row : DecisionRow) × (lookup id t.decisions ≡ some row)
          × (row.state ≡ bound)
          × (now ≤ row.expires_ms)
          × IsRecorded f (with_consumed f id now t) t'
    unfolding consume_rows
    consume_rows-inv id a h = elim (Option-cases (lookup id t.decisions)) [
      | inl e ↦ absurd (let no_way : ⊥ = ground (arith, e) in no_way)
      | inr (row, e) ↦ (
        row,
        e,
        ground (arith, e),
        ground (arith, e),
        record {
          kind = codes "decision_consumed";
          payload = f.append_le_u64 (f.append f.new_builder id) now;
          now = now;
          named = omega arith;
          written = ground (arith, e);
        },
      )
    ]

    pub session_rows-inv :
        (s : SessionOpen) (id : ℕ)
        → session_rows f s now t ≡ ok (id, t')
        → IsRecorded f (with_session f s now t) t'
    unfolding session_rows
    session_rows-inv s id h = record {
      kind = codes "session_opened";
      payload = session_payload f s (max_key t.sessions + 1) now;
      now = now;
      named = omega arith;
      written = ground (arith);
    }

    pub transaction_rows-inv :
        (epoch : ℕ) (o : TransactionOpen) (id : ℕ)
        → transaction_rows f epoch o now t ≡ ok (id, t')
        → (id ≡ max_key t.transactions + 1) × IsRecorded f (with_transaction f epoch o t) t'
    unfolding transaction_rows
    transaction_rows-inv epoch o id h = (
      ground arith,
      record {
        kind = codes "transaction_opened";
        payload = transaction_payload f epoch o (max_key t.transactions + 1);
        now = now;
        named = omega arith;
        written = ground (arith);
      },
    )

    pub evidence_rows-inv :
        (tx : ℕ) (evidence : List Bytes) (a : Unit {0})
        → evidence_rows f tx evidence now t ≡ ok (a, t')
        → IsRecorded f t t'
    unfolding evidence_rows
    evidence_rows-inv tx evidence a h = elim (Option-cases (lookup tx t.transactions)) [
      | inl e ↦ absurd (let no_way : ⊥ = ground (arith, e) in no_way)
      | inr (row, e) ↦ record {
        kind = codes "evidence_accepted";
        payload = evidence_payload f tx evidence now;
        now = now;
        named = omega arith;
        written = ground (arith, e);
      }
    ]

    pub bind_rows-inv :
        (d : DecisionBind) (a : Unit {0})
        → bind_rows f d now t ≡ ok (a, t')
        → (row : TransactionRow) × (lookup d.transaction t.transactions ≡ some row)
          × (is_open_for_judgment row.state ≡ true)
          × (has d.id t.decisions ≡ false)
          × (holds_token d.token_hash t.decisions ≡ false)
          × IsRecorded f (with_decision f d t) t'
    unfolding bind_rows
    bind_rows-inv d a h = elim (Option-cases (lookup d.transaction t.transactions)) [
      | inl e ↦ absurd (let no_way : ⊥ = ground (arith, e) in no_way)
      | inr (row, e) ↦ (
        row,
        e,
        ground (arith, e),
        ground (arith, e),
        ground (arith, e),
        record {
          kind = codes "decision_bound";
          payload = bind_payload f d now;
          now = now;
          named = omega arith;
          written = ground (arith, e);
        },
      )
    ]

    pub advance_rows-inv :
        (g : GenerationAdvance) (a : Unit {0})
        → advance_rows f g now t ≡ ok (a, t')
        → (has g.id t.generations ≡ false) × IsRecorded f (with_generation f g now t) t'
    unfolding advance_rows
    advance_rows-inv g a h = (
      ground arith,
      record {
        kind = codes "generation_advanced";
        payload = generation_payload f g now (stale_changes (is_foreign f g) t.decisions);
        now = now;
        named = omega arith;
        written = ground (arith);
      },
    )

    pub lease_rows-inv :
        (epoch : ℕ) (q : LeaseRequest) (l : LeaseState)
        → lease_rows f epoch q now t ≡ ok (l, t')
        → (is_held_against q now (lookup q.workspace t.leases) ≡ false)
          × (l ≡ record { workspace = q.workspace; row = lease_row f epoch q now t })
          × IsRecorded f (with_lease f epoch q now t) t'
    unfolding lease_rows
    lease_rows-inv epoch q l h = (
      ground arith,
      ground arith,
      record {
        kind = codes "lease_acquired";
        payload = lease_payload f q (lease_row f epoch q now t);
        now = now;
        named = omega arith;
        written = ground (arith);
      },
    )

    pub dispatch_rows-inv :
        (d : DispatchPrepared) (a : Unit {0})
        → dispatch_rows f d now t ≡ ok (a, t')
        → (row : TransactionRow) × (lookup d.transaction t.transactions ≡ some row)
          × (is_decided row.state ≡ true)
          × (has d.id t.dispatches ≡ false)
          × IsRecorded f (with_dispatch f d now t) t'
    unfolding dispatch_rows
    dispatch_rows-inv d a h = elim (Option-cases (lookup d.transaction t.transactions)) [
      | inl e ↦ absurd (let no_way : ⊥ = ground (arith, e) in no_way)
      | inr (row, e) ↦ (
        row,
        e,
        ground (arith, e),
        ground (arith, e),
        record {
          kind = codes "dispatch_prepared";
          payload = dispatch_payload f d now;
          now = now;
          named = omega arith;
          written = ground (arith, e);
        },
      )
    ]

    pub outcome_rows-inv :
        (o : OutcomeRecord) (status : TxState) (a : Unit {0})
        → outcome_rows f o status now t ≡ ok (a, t')
        → (row : DispatchRow) × (lookup o.dispatch t.dispatches ≡ some row)
          × (is_prepared row.state ≡ true)
          × (has o.dispatch t.outcomes ≡ false)
          × IsRecorded f (with_outcome f o status row.transaction now t) t'
    unfolding outcome_rows
    outcome_rows-inv o status a h = elim (Option-cases (lookup o.dispatch t.dispatches)) [
      | inl e ↦ absurd (let no_way : ⊥ = ground (arith, e) in no_way)
      | inr (row, e) ↦ (
        row,
        e,
        ground (arith, e),
        ground (arith, e),
        record {
          kind = codes "outcome_observed";
          payload = outcome_payload f o now;
          now = now;
          named = omega arith;
          written = ground (arith, e);
        },
      )
    ]

    pub barrier_rows-inv :
        (b : BarrierOpen) (a : Unit {0})
        → barrier_rows f b now t ≡ ok (a, t')
        → (has b.scope t.barriers ≡ false) × IsRecorded f (with_barrier f b now t) t'
    unfolding barrier_rows
    barrier_rows-inv b a h = (
      ground arith,
      record {
        kind = codes "barrier_opened";
        payload = barrier_payload f b.scope b.reason now;
        now = now;
        named = omega arith;
        written = ground (arith);
      },
    )

    pub closing_rows-inv :
        (scope evidence : Bytes) (a : Unit {0})
        → closing_rows f scope evidence now t ≡ ok (a, t')
        → (is_open_barrier (lookup scope t.barriers) ≡ true)
          × IsRecorded f (with_closed f scope now t) t'
    unfolding closing_rows
    closing_rows-inv scope evidence a h = (
      ground arith,
      record {
        kind = codes "barrier_closed";
        payload = barrier_payload f scope evidence now;
        now = now;
        named = omega arith;
        written = ground (arith);
      },
    )

    pub audit_rows-inv :
        (kind payload : Bytes) (a : Unit {0})
        → length kind ≢ 0
        → audit_rows f kind payload now t ≡ ok (a, t')
        → IsRecorded f t t'
    unfolding audit_rows
    audit_rows-inv kind payload a named h = record {
      kind = kind;
      payload = f.append f.new_builder payload;
      now = now;
      named = named;
      written = ground arith;
    }

    named-port_kind_name : (kind : JournalRecordKind) → length (port_kind_name kind) ≢ 0
    named-port_kind_name kind = ground arith

    pub append_rows-inv :
        (r : JournalRecord) (a : Unit {0}) → append_rows f r now t ≡ ok (a, t') → IsRecorded f t t'
    unfolding append_rows
    append_rows-inv r a h = record {
      kind = port_kind_name r.kind;
      payload = record_payload f r;
      now = now;
      named = named-port_kind_name r.kind;
      written = ground arith;
    }
