-- ===== src/Core/State.antt =====
-- The state of the core, its tasks and its views.
use qiven_runtime.Base.{
  ℕ, Bool, ◌&&◌, List, [], Option, none, some, Bytes, nat_eq, lookup, count_if,
}
use qiven_runtime.Base.Text.{codes}
use qiven_runtime.Context.{PreparedRequirement}
use qiven_runtime.Identity.{CorrelationKey}
use qiven_runtime.Intent.{StructuralFacts}
use qiven_runtime.Requirement.{RequirementIdentity}
use qiven_runtime.Transaction.{
  TransactionPhase, PinnedCognition, ControlTransaction, is_pending, Disposition, disposition_for,
}
use qiven_runtime.Resolver.{ResolverBinding}
use qiven_runtime.Receipt.{EvidenceReceipt, ReceiptContext}
use qiven_runtime.Ingress.{IngressMessage, evidence_delivery, resolution_failure}
use qiven_runtime.Executor.{Executor}

-- What a dispatched task holds on to.
pub record Task : Type 0 where
  pub transaction : ℕ
  pub requirement : RequirementIdentity
  pub binding : ResolverBinding
  pub generation : ℕ
  pub policy_digest : Bytes
  pub source_revision : Bytes

-- The injected mechanism; no mechanism, a throw and `nullopt` are all `none`.
abbrev pub ResolverMechanism : Type 0
ResolverMechanism = ResolverBinding → RequirementIdentity → ReceiptContext → Option EvidenceReceipt

-- The one report that a task posts, at the time when it runs.
unfoldable pub run_task : ResolverMechanism → ℕ → Task → IngressMessage
run_task mechanism now_ms t = report (mechanism t.binding t.requirement ctx)
  where
    ctx : ReceiptContext
    ctx = record {
      generation = t.generation;
      policy_digest = t.policy_digest;
      source_revision = t.source_revision;
      resolver_build = codes "loopback";
      now_ms = now_ms;
    }

    report : Option EvidenceReceipt → IngressMessage
    report none = resolution_failure t.transaction t.requirement
    report (some receipt) = evidence_delivery t.transaction t.requirement receipt

pub record DrainResult : Type 0 where
  pub processed : ℕ
  pub dropped_unknown : ℕ
  pub integrity_failures : ℕ
  pub replays : ℕ
  pub receipt_rejections : ℕ

pub record ControlCore : Type 0 where
  pub next_id : ℕ
  pub executor : Executor Task
  pub registry : List ResolverBinding
  pub cognition : PinnedCognition
  pub facts : StructuralFacts
  pub transactions : List (ℕ × ControlTransaction)
  pub by_correlation : List (CorrelationKey × ℕ)
  pub conflicts : List (CorrelationKey × ℕ)
  pub outstanding : List (ℕ × ℕ)
  pub redeliberation_pending : List ℕ
  pub resume : List (ℕ × List EvidenceReceipt)
  pub spent_activations : List ℕ

pub record TransactionView : Type 0 where
  pub id : ℕ
  pub causal_parent : Option ℕ
  pub phase : TransactionPhase
  pub disposition : Disposition
  pub blocking_pending : ℕ

-- A requirement that still has to be reported.
abbrev pub awaits_report : PreparedRequirement → Bool
awaits_report p = p.requirement.blocking && is_pending p.status

-- `view`; `none` is the view with `exists` false.
unfoldable pub view : ControlCore → ℕ → Option TransactionView
view core id = elim (lookup id core.transactions) [
  | none ↦ none
  | some t ↦ some (record {
    id = t.id;
    causal_parent = t.causal_parent;
    phase = t.phase;
    disposition = disposition_for t.phase;
    blocking_pending = count_if awaits_report t.packet.requirements;
  })
]

abbrev pub or_empty {ℓ} : {A : Type ℓ} → Option (List A) → List A
or_empty none = []
or_empty (some xs) = xs

unfoldable pub resume_receipts : ControlCore → ℕ → List EvidenceReceipt
resume_receipts core id = or_empty (lookup id core.resume)

-- `ControlCore::ControlCore`, with a minter that has minted nothing.
unfoldable pub make_core :
    Executor Task → List ResolverBinding → PinnedCognition → StructuralFacts → ControlCore
make_core executor registry cognition facts = record {
  next_id = 1;
  executor = executor;
  registry = registry;
  cognition = cognition;
  facts = facts;
  transactions = [];
  by_correlation = [];
  conflicts = [];
  outstanding = [];
  redeliberation_pending = [];
  resume = [];
  spent_activations = [];
}

abbrev pub no_messages : DrainResult
no_messages = record {
  processed = 0;
  dropped_unknown = 0;
  integrity_failures = 0;
  replays = 0;
  receipt_rejections = 0;
}
