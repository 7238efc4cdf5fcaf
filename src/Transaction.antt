-- ===== src/Transaction.antt =====
-- transaction.cpp and transaction.hpp: one proposal, its phases, and the two preparation gates.
pub mod Gates
use qiven_runtime.Base.{
  ℕ, ◌+◌, ◌≡◌, Bool, true, false, not, ◌&&◌, ◌||◌, List, [], ◌∷◌, Option, Bytes, any, nat_beq,
  if◌then◌else◌,
}
use qiven_runtime.Context.{
  Context, Boundary, before_judgment, before_execution, Status, pending, satisfied, failed,
  PreparedRequirement, PreparationPacket,
}
use qiven_runtime.Identity.{CorrelationKey}
use qiven_runtime.Intent.{ObservedAction, IntentSet}

pub data TransactionPhase : Type 0 where
  observed classified policy_pinned requirements_derived : TransactionPhase
  preparing_before_judgment denied re_deliberation_required : TransactionPhase
  prepared_for_judgment preparing_before_execution awaiting_requirement : TransactionPhase
  cognitive_allowed stale : TransactionPhase

-- `port::PinnedCognition`; the snapshot is named by a number.
pub record PinnedCognition : Type 0 where
  pub revision : Bytes
  pub source_revision : Bytes
  pub snapshot_digest_sha256 : Bytes
  pub policy_digest : Bytes
  pub epoch : ℕ
  pub snapshot : ℕ

pub record ControlTransaction : Type 0 where
  pub id : ℕ
  pub causal_parent : Option ℕ
  pub correlation : CorrelationKey
  pub action : ObservedAction
  pub intents : IntentSet
  pub cognition : PinnedCognition
  pub packet : PreparationPacket
  pub phase : TransactionPhase

abbrev pub is_terminal : TransactionPhase → Bool
is_terminal denied = true
is_terminal re_deliberation_required = true
is_terminal _ = false

-- `TransactionMinter::next`: the id, and the next value.
unfoldable pub next_transaction_id : ℕ → ℕ × ℕ
next_transaction_id value = (value, value + 1)

unfoldable pub begin_control_transaction :
    ℕ
    → Option ℕ
    → CorrelationKey
    → ObservedAction
    → IntentSet
    → PinnedCognition
    → PreparationPacket
    → ControlTransaction
begin_control_transaction id causal_parent correlation action intents cognition packet = record {
  id = id;
  causal_parent = causal_parent;
  correlation = correlation;
  action = action;
  intents = intents;
  cognition = cognition;
  packet = packet;
  phase = requirements_derived;
}

abbrev pub is_pending : Status → Bool
is_pending pending = true
is_pending _ = false

abbrev pub is_failed : Status → Bool
is_failed failed = true
is_failed _ = false

abbrev pub is_before_judgment : Boundary → Bool
is_before_judgment before_judgment = true
is_before_judgment before_execution = false

-- The loop of `evaluate_before_judgment`: a blocking judgment requirement has failed.
unfoldable pub judgment_failed : List PreparedRequirement → Bool
judgment_failed = any (λ (p : PreparedRequirement).
    p.requirement.blocking && is_before_judgment p.boundary && is_failed p.status)

-- The loop of `evaluate_before_execution`.
unfoldable pub execution_failed : List PreparedRequirement → Bool
execution_failed = any (λ (p : PreparedRequirement). p.requirement.blocking && is_failed p.status)

abbrev pub may_execute_from : TransactionPhase → Bool
may_execute_from prepared_for_judgment = true
may_execute_from awaiting_requirement = true
may_execute_from _ = false

module _ (c : Context) where
  unfoldable pub judgment_phase : PreparationPacket → TransactionPhase
  judgment_phase packet =
      if not (nat_beq packet.failure 0)
      then denied
      else if c.ready_for_judgment packet
      then prepared_for_judgment
      else if judgment_failed packet.requirements
      then denied
      else re_deliberation_required

  -- The transaction after the call, and what it returns.
  unfoldable pub evaluate_before_judgment : ControlTransaction → ControlTransaction × Bool
  unfolding judgment_phase
  evaluate_before_judgment t =
      if is_terminal t.phase
      then (t, false)
      else (record t { phase = judgment_phase t.packet }, true)

  unfoldable pub execution_phase : PreparationPacket → TransactionPhase
  execution_phase packet =
      if not (nat_beq packet.failure 0)
      then denied
      else if c.ready_for_execution packet
      then cognitive_allowed
      else if execution_failed packet.requirements
      then denied
      else awaiting_requirement

  unfoldable pub evaluate_before_execution : ControlTransaction → ControlTransaction × Bool
  unfolding execution_phase
  evaluate_before_execution t =
      if may_execute_from t.phase
      then (record t { phase = execution_phase t.packet }, true)
      else (t, false)

pub data Disposition : Type 0 where
  allow re_deliberate await deny not_governed : Disposition

unfoldable pub disposition_for : TransactionPhase → Disposition
disposition_for cognitive_allowed = allow
disposition_for re_deliberation_required = re_deliberate
disposition_for awaiting_requirement = await
disposition_for preparing_before_execution = await
disposition_for prepared_for_judgment = await
disposition_for _ = deny
