-- ===== src/Tests/PartRuns.antt =====
-- Runs of the parts around the core: receipts, gates, derivation, registry, executor, queue,
-- classification and ids.
use qiven_runtime.Base.{◌≡◌, refl, ◌↔◌, true, [], ◌∷◌, none, bytes_beq}
use qiven_runtime.Base.Text.{codes}
use qiven_runtime.Base.Sorts.{sort}
use qiven_runtime.Context.{pending, before_execution}
use qiven_runtime.Intent.{mechanical}
use qiven_runtime.Requirement.{derive_requirement_set}
use qiven_runtime.Requirement.Merging.{IsUnique}
use qiven_runtime.Requirement.Derivation.{Provenance, derive_requirement_set_lem}
use qiven_runtime.Transaction.{prepared_for_judgment, ControlTransaction, disposition_for, allow}
use qiven_runtime.Transaction.Gates.{both_gates, both_gates_allow}
use qiven_runtime.Resolver.{
  ResolverBinding, ResolverRegistry, is_incomplete, is_empty, binding_le, revision_of, build, built,
  same_key,
}
use qiven_runtime.Receipt.{
  any_digest_byte, ReceiptContext, accepted, validate_receipt, make_evidence_receipt,
}
use qiven_runtime.Receipt.Validation.{
  IsBound, validate_receipt_accepts, validate-make_evidence_receipt,
}
use qiven_runtime.Tests.Fixtures.{
  toy, toy_context, action, key, cognition, binding, claim, receipt, requirement_at, plain_intent,
}

validate_receipt_accepts_example :
    (validate_receipt receipt binding claim 1 (6 ∷ []) 200 ≡ accepted)
    ↔ IsBound receipt binding claim 1 (6 ∷ []) 200
validate_receipt_accepts_example = validate_receipt_accepts receipt binding claim 1 (6 ∷ []) 200

abbrev ctx : ReceiptContext
ctx = record {
  generation = 1;
  policy_digest = 6 ∷ [];
  source_revision = codes "r1";
  resolver_build = codes "loopback";
  now_ms = 100;
}

digested : any_digest_byte (toy.sha256 (codes "text")) ≡ true
unfolding any_digest_byte
digested = refl

validate-make_evidence_receipt_example :
    validate_receipt
      (make_evidence_receipt toy toy_context claim binding.resolver binding.key.resolver_type
        binding.accepted_evidence
        (codes "claim")
        (codes "file")
        (codes "text")
        ctx)
      binding
      claim
      1
      (6 ∷ [])
      200
    ≡ accepted
validate-make_evidence_receipt_example =
    validate-make_evidence_receipt toy toy_context claim binding (codes "claim") (codes "file")
      (codes "text") ctx 200 refl digested (λ e. cc e) (λ e. cc e)

abbrev prepared : ControlTransaction
prepared = record {
  id = 1;
  causal_parent = none;
  correlation = key;
  action = action;
  intents = record { members = record { intent = plain_intent; basis = mechanical } ∷ [] };
  cognition = cognition;
  packet = record { requirements = requirement_at before_execution pending ∷ []; failure = 0 };
  phase = prepared_for_judgment;
}

both_gates_allow_example : (disposition_for (both_gates toy_context prepared).phase ≡ allow) ↔ (
    (prepared.packet.failure ≡ 0)
    × (toy_context.ready_for_judgment prepared.packet ≡ true)
    × (toy_context.ready_for_execution prepared.packet ≡ true))
both_gates_allow_example = both_gates_allow toy_context prepared refl

derive_requirement_set_lem_example :
    IsUnique (derive_requirement_set toy_context 0 prepared.intents)
    × Provenance toy_context 0 0 prepared.intents.members
        (derive_requirement_set toy_context 0 prepared.intents)
derive_requirement_set_lem_example = derive_requirement_set_lem toy_context 0 prepared.intents

abbrev second : ResolverBinding
second = record binding {
  key = record {
    kind = 2;
    resolver_type = binding.key.resolver_type;
    version = 1;
    cognition_view = codes "default";
  };
}

abbrev registry : ResolverRegistry
registry = record {
  bindings = second ∷ binding ∷ [];
  revision = revision_of toy (binding ∷ second ∷ []) 7;
}

builds : build toy (binding ∷ second ∷ []) ≡ built registry
unfolding build is_incomplete is_empty same_key sort binding_le bytes_beq
builds = refl
