-- ===== src/Journal/Decisions.antt =====
-- The commands of journal/runtime_journal.cpp for decisions, and the activation of a generation.
use qiven_runtime.Base.{
  ℕ, ◌+◌, Bool, true, false, not, ◌&&◌, ◌||◌, none, some, List, [], ◌∷◌, ◌++◌, Bytes, ltb, nat_beq,
  bytes_beq, bytes_eq, nat_eq, lookup, has, if◌then◌else◌,
}
use qiven_runtime.Base.Text.{codes}
use qiven_runtime.Foundation.{Foundation}
use qiven_runtime.Journal.{
  Result, ok, err, ◌>>=◌, ◌>>◌, guard, found, err_constraint, constraint_failed, state_text,
  decided, DecisionState, bound, consumed, stale, GenerationRow, DecisionRow, Tables,
  RuntimeJournal, Engine,
}
use qiven_runtime.Journal.Audit.{put_bytes, recorded}
use qiven_runtime.Journal.Command.{command}
use qiven_runtime.Journal.Control.{row_not_found, is_open_for_judgment, advance_transaction, u64}

pub record DecisionBind : Type 0 where
  pub id : Bytes
  pub token_hash : Bytes
  pub transaction : ℕ
  pub generation : ℕ
  pub binding_digest : Bytes
  pub expires_ms : ℕ

pub record GenerationAdvance : Type 0 where
  pub id : ℕ
  pub bundle_digest : Bytes
  pub profile_digest : Bytes
  pub build_id : Bytes

abbrev pub is_bound : DecisionState → Bool
is_bound bound = true
is_bound _ = false

-- `UPDATE decisions SET state = 'stale' WHERE state = 'bound' AND …`
unfoldable pub mark_stale :
    (DecisionRow → Bool) → List (Bytes × DecisionRow) → List (Bytes × DecisionRow)
mark_stale p [] = []
mark_stale p ((k, r) ∷ rows) =
    (k, if is_bound r.state && p r then record r { state = stale } else r) ∷ mark_stale p rows

-- How many rows that update changes.
unfoldable pub stale_changes : (DecisionRow → Bool) → List (Bytes × DecisionRow) → ℕ
stale_changes p [] = 0
stale_changes p ((k, r) ∷ rows) = (if is_bound r.state && p r then 1 else 0) + stale_changes p rows

-- `UPDATE decisions SET state = 'consumed' … WHERE id = … AND state = 'bound'`
unfoldable pub mark_consumed : Bytes → ℕ → List (Bytes × DecisionRow) → List (Bytes × DecisionRow)
mark_consumed id now [] = []
mark_consumed id now ((k, r) ∷ rows) =
    (
      k,
      if bytes_beq k id && is_bound r.state
          then record r { state = consumed; consumed_ms = some now }
          else r,
    )
    ∷ mark_consumed id now rows

unfoldable pub holds_token : Bytes → List (Bytes × DecisionRow) → Bool
holds_token token [] = false
holds_token token ((k, r) ∷ rows) = bytes_beq r.token_hash token || holds_token token rows

unfoldable pub retire_active : List (ℕ × GenerationRow) → List (ℕ × GenerationRow)
retire_active [] = []
retire_active ((k, r) ∷ rows) = (k, record r { is_active = false }) ∷ retire_active rows

-- The state of a decision that may still be consumed.
abbrev consumable : DecisionRow → ℕ → Result (Unit {0})
consumable r now = elim (r.state) [
  | consumed ↦ err (err_constraint (codes "decision-already-consumed"))
  | stale ↦ err (err_constraint (codes "decision-stale"))
  | bound ↦ guard (not (ltb r.expires_ms now)) (err_constraint (codes "decision-expired"))
]

module _ (f : Foundation) where
  abbrev pub bound_row : DecisionBind → DecisionRow
  bound_row d = record {
    token_hash = d.token_hash;
    transaction = d.transaction;
    generation = d.generation;
    binding_digest = d.binding_digest;
    expires_ms = d.expires_ms;
    state = bound;
    consumed_ms = none;
  }

  abbrev pub bind_payload : DecisionBind → ℕ → f.Builder
  bind_payload d now =
      let head = f.append (f.append f.new_builder d.id) d.token_hash in
      u64 f now (
        u64 f d.expires_ms
          (f.append (u64 f d.generation (u64 f d.transaction head)) d.binding_digest))

  abbrev pub with_decision : DecisionBind → Tables → Tables
  with_decision d t = record t {
    decisions = (d.id, bound_row d) ∷ t.decisions;
    transactions = advance_transaction d.transaction is_open_for_judgment decided t.transactions;
  }

  unfoldable pub bind_rows : DecisionBind → ℕ → Tables → Result (Unit {0} × Tables)
  unfolding advance_transaction holds_token recorded
  bind_rows d now t = do
    row ← found (lookup d.transaction t.transactions) (err_constraint row_not_found)
    guard (is_open_for_judgment row.state)
        (err_constraint (codes "decision-tx-state-invalid: " ++ state_text row.state))
    guard (not (has d.id t.decisions || holds_token d.token_hash t.decisions)) constraint_failed
    t' ← recorded f (codes "decision_bound") (bind_payload d now) now (with_decision d t)
    ok (tt, t')

  abbrev pub with_consumed : Bytes → ℕ → Tables → Tables
  with_consumed id now t = record t { decisions = mark_consumed id now t.decisions }

  unfoldable pub consume_rows : Bytes → ℕ → Tables → Result (Unit {0} × Tables)
  unfolding mark_consumed recorded
  consume_rows id now t = do
    row ← found (lookup id t.decisions) (err_constraint (codes "decision-unknown"))
    consumable row now
    t' ←
        recorded f (codes "decision_consumed") (u64 f now (f.append f.new_builder id)) now
          (with_consumed id now t)
    ok (tt, t')

  abbrev pub is_foreign : GenerationAdvance → DecisionRow → Bool
  is_foreign g r = not (nat_beq r.generation g.id)

  abbrev pub generation_payload : GenerationAdvance → ℕ → ℕ → f.Builder
  generation_payload g now staled =
      let head = f.append (f.append (u64 f g.id f.new_builder) g.bundle_digest) g.profile_digest in
      u64 f staled (u64 f now (put_bytes f head g.build_id))

  abbrev pub with_generation : GenerationAdvance → ℕ → Tables → Tables
  with_generation g now t =
      let row : GenerationRow = record {
        bundle_digest = g.bundle_digest;
        profile_digest = g.profile_digest;
        build_id = g.build_id;
        activated_ms = now;
        is_active = true;
      } in
      record t {
        generations = (g.id, row) ∷ retire_active t.generations;
        decisions = mark_stale (is_foreign g) t.decisions;
      }

  unfoldable pub advance_rows : GenerationAdvance → ℕ → Tables → Result (Unit {0} × Tables)
  unfolding retire_active mark_stale stale_changes recorded
  advance_rows g now t = do
    guard (not (has g.id t.generations)) constraint_failed
    let staled = stale_changes (is_foreign g) t.decisions
    t' ←
        recorded f (codes "generation_advanced") (generation_payload g now staled) now
          (with_generation g now t)
    ok (tt, t')

  unfoldable pub bind_decision :
      Engine → DecisionBind → ℕ → RuntimeJournal → Result (Unit {0}) × RuntimeJournal
  unfolding command bind_rows
  bind_decision e d now j = command e now (bind_rows d now) j

  unfoldable pub consume_decision :
      Engine → Bytes → ℕ → RuntimeJournal → Result (Unit {0}) × RuntimeJournal
  unfolding command consume_rows
  consume_decision e id now j = command e now (consume_rows id now) j

  unfoldable pub advance_generation :
      Engine → GenerationAdvance → ℕ → RuntimeJournal → Result (Unit {0}) × RuntimeJournal
  unfolding command advance_rows
  advance_generation e g now j = command e now (advance_rows g now) j
