-- ===== src/Core/Handlers.antt =====
-- The three message handlers and the drain loop.
use qiven_runtime.Base.{
  ℕ, ◌+◌, Bool, true, false, ◌&&◌, List, [], ◌∷◌, ◌++◌, map, Option, none, some, nat_beq, nat_eq,
  bytes_beq, lookup, put, emplace, insert, if◌then◌else◌,
}
use qiven_runtime.Base.Text.{codes, to_string}
use qiven_runtime.Context.{Context, pending, satisfied, PreparedRequirement}
use qiven_runtime.Foundation.{Foundation}
use qiven_runtime.Identity.{key_eq}
use qiven_runtime.Intent.{IntentSet, classify}
use qiven_runtime.Requirement.{RequirementIdentity, RequirementInstance, derive_requirement_set}
use qiven_runtime.Transaction.{
  ControlTransaction, is_before_judgment, next_transaction_id, begin_control_transaction,
}
use qiven_runtime.Resolver.{ResolverBinding}
use qiven_runtime.Receipt.{EvidenceReceipt, ReceiptRejection, accepted, validate_receipt}
use qiven_runtime.Preimage.{action_digest_of}
use qiven_runtime.Ingress.{Proposal}
use qiven_runtime.Core.State.{Task, DrainResult, ControlCore, or_empty}
use qiven_runtime.Core.Steps.{
  binding_for, fail_closed, dispatch_all, presatisfy, unmatched, duplicate, settled, settle,
  reevaluate, finish_report,
}

abbrev pub count_of : Option ℕ → ℕ
count_of none = 0
count_of (some n) = n

abbrev pub prepared_of : RequirementInstance → PreparedRequirement
prepared_of i = record {
  requirement = record {
    kind = i.identity.kind;
    subject = i.identity.subject;
    blocking = i.identity.blocking;
  };
  boundary = i.identity.boundary;
  status = pending;
  evidence = [];
}

abbrev pub task_for :
    ControlCore → ControlTransaction → RequirementIdentity → ResolverBinding → Task
task_for core t identity binding = record {
  transaction = t.id;
  requirement = identity;
  binding = binding;
  generation = t.correlation.generation;
  policy_digest = core.cognition.policy_digest;
  source_revision = core.cognition.revision;
}

module _ (f : Foundation) (c : Context) where
  -- A proposal whose key is known: a replay, or an integrity failure.
  unfoldable pub repeat_proposal :
      ControlCore → Proposal → DrainResult → ℕ → ControlCore × DrainResult
  repeat_proposal core m result id = elim (lookup id core.transactions) [
    | none ↦ (core, record result { integrity_failures = result.integrity_failures + 1 })
    | some original ↦
        if bytes_beq (action_digest_of f original.action) (action_digest_of f m.action)
        then (core, record result { replays = result.replays + 1 })
        else (
          record core {
            conflicts =
                put m.correlation (count_of (lookup m.correlation core.conflicts) + 1)
                  core.conflicts;
          },
          record result { integrity_failures = result.integrity_failures + 1 },
        )
  ]

  -- `dispatch_resolvers` on the stored transaction; what it leaves outstanding is recorded.
  unfoldable pub dispatch_resolvers : ControlCore → ControlTransaction → ControlCore
  dispatch_resolvers core t =
      let (requirements, executor, outstanding) =
        dispatch_all core.registry (task_for core t) t.packet.requirements core.executor 0 in
      record core {
        executor = executor;
        transactions =
            put t.id (record t { packet = record t.packet { requirements = requirements } })
              core.transactions;
        outstanding = put t.id outstanding core.outstanding;
      }

  -- The new transaction, after its receipts have pre-satisfied what they can.
  unfoldable pub opened : ControlCore → Proposal → IntentSet → ℕ → ControlTransaction × List ℕ
  opened core m intents now_ms =
      let (requirements, spent) =
        presatisfy f
          (record {
            revision = core.cognition.revision;
            snapshot_digest = core.cognition.snapshot_digest_sha256;
            generation = m.correlation.generation;
            now_ms = now_ms;
          })
          m.activation_receipts
          (map prepared_of (derive_requirement_set c core.cognition.snapshot intents))
          core.spent_activations in
      (
        begin_control_transaction (next_transaction_id core.next_id).0 m.causal_parent m.correlation
            m.action intents core.cognition
            (record { requirements = requirements; failure = c.default_failure }),
        spent,
      )

  -- The new transaction stored and indexed.
  abbrev pub store : ControlCore → Proposal → ControlTransaction → List ℕ → ControlCore
  store core m t spent = record core {
    next_id = (next_transaction_id core.next_id).1;
    transactions = emplace t.id t core.transactions;
    by_correlation = emplace m.correlation t.id core.by_correlation;
    spent_activations = spent;
  }

  -- With nothing outstanding the transaction is evaluated at once.
  abbrev pub evaluate_if_quiet : ControlCore → ℕ → ControlCore
  evaluate_if_quiet core id =
      if nat_beq (count_of (lookup id core.outstanding)) 0 then reevaluate c core id else core

  unfoldable pub open_transaction : ControlCore → Proposal → IntentSet → ℕ → ControlCore
  unfolding dispatch_resolvers
  open_transaction core m intents now_ms =
      let (t, spent) = opened core m intents now_ms in
      evaluate_if_quiet (dispatch_resolvers (store core m t spent) t) t.id

  -- The classifier always gives a set; its other result would end the process.
  unfoldable pub handle_proposal :
      ControlCore → Proposal → DrainResult → ℕ → ControlCore × DrainResult
  handle_proposal core m result now_ms = elim (lookup m.correlation core.by_correlation) [
    | some id ↦ repeat_proposal core m result id
    | none ↦ elim (classify c m.action core.facts []) [
      | none ↦ (core, result)
      | some intents ↦ (open_transaction core m intents now_ms, result)
    ]
  ]

abbrev is_accepted : ReceiptRejection → Bool
is_accepted accepted = true
is_accepted _ = false

-- The validation of a delivered receipt for a requirement of a transaction.
unfoldable pub receipt_accepted :
    ControlCore → ControlTransaction → EvidenceReceipt → ℕ → RequirementIdentity → Bool
receipt_accepted core t receipt now_ms identity = elim (binding_for core.registry identity) [
  | none ↦ false
  | some b ↦ is_accepted (
      validate_receipt receipt b identity t.correlation.generation core.cognition.policy_digest
        now_ms)
]

abbrev pub evidence_update : Bool → EvidenceReceipt → PreparedRequirement → PreparedRequirement
evidence_update true receipt p = record p {
  status = satisfied;
  evidence = p.evidence ++ (codes "receipt:" ++ to_string receipt.id) ∷ [];
}
evidence_update false receipt p = fail_closed p

-- A judgment requirement that a receipt satisfies in flight.
abbrev pub resolves_judgment : Bool → PreparedRequirement → Bool
resolves_judgment ok p = ok && p.requirement.blocking && is_before_judgment p.boundary

abbrev pub with_requirements : ControlTransaction → List PreparedRequirement → ControlTransaction
with_requirements t requirements = record t {
  packet = record t.packet { requirements = requirements };
}

-- The core after the receipt has been recorded, before the count of reports.
unfoldable pub record_evidence :
    ControlCore
    → ℕ
    → ControlTransaction
    → EvidenceReceipt
    → Bool
    → PreparedRequirement
    → List PreparedRequirement
    → ControlCore
record_evidence core id t receipt ok p requirements =
    let stored = record core {
      transactions = put id (with_requirements t requirements) core.transactions;
    } in
    if resolves_judgment ok p
    then record stored {
      redeliberation_pending = insert t.id core.redeliberation_pending;
      resume = put t.id (or_empty (lookup t.id core.resume) ++ receipt ∷ []) core.resume;
    }
    else stored

module _ (c : Context) where
  unfoldable pub handle_evidence :
      ControlCore
      → ℕ
      → RequirementIdentity
      → EvidenceReceipt
      → DrainResult
      → ℕ
      → ControlCore × DrainResult
  handle_evidence core id identity receipt result now_ms = elim (lookup id core.transactions) [
    | none ↦ (core, record result { dropped_unknown = result.dropped_unknown + 1 })
    | some t ↦
        let ok = receipt_accepted core t receipt now_ms identity in
        elim (settle identity (evidence_update ok receipt) t.packet.requirements) [
          | unmatched ↦ (core, record result { dropped_unknown = result.dropped_unknown + 1 })
          | duplicate ↦ (core, record result { replays = result.replays + 1 })
          | settled p requirements ↦ (
            finish_report c (record_evidence core id t receipt ok p requirements) id,
            if ok then result else record result {
              receipt_rejections = result.receipt_rejections + 1;
              integrity_failures = result.integrity_failures + 1;
            },
          )
        ]
  ]

  -- A failure for a requirement that the transaction never derived is counted as a report all the
  -- same.
  unfoldable pub handle_failure :
      ControlCore → ℕ → RequirementIdentity → DrainResult → ControlCore × DrainResult
  handle_failure core id identity result = elim (lookup id core.transactions) [
    | none ↦ (core, record result { dropped_unknown = result.dropped_unknown + 1 })
    | some t ↦ elim (settle identity fail_closed t.packet.requirements) [
      | unmatched ↦ (finish_report c core id, result)
      | duplicate ↦ (core, record result { replays = result.replays + 1 })
      | settled p requirements ↦ (
        finish_report c
            (record core {
              transactions = put id (with_requirements t requirements) core.transactions;
            })
            id,
        result,
      )
    ]
  ]
