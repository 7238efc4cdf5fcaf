-- ===== src/Tests/AdmissionRuns.antt =====
-- Runs of the admission, of the memory of failures and of the receipts of injected cognition.
use qiven_runtime.Base.{
  nat_eq, ◌+◌, ◌≤◌, ◌≡◌, refl, true, false, List, [], ◌∷◌, lookup, contains, bytes_beq,
  if◌then◌else◌,
}
use qiven_runtime.Base.Text.{codes}
use qiven_runtime.Context.{FailureFingerprint}
use qiven_runtime.Intent.{structural, StructuralFacts, IntentClassification}
use qiven_runtime.Transaction.{allow}
use qiven_runtime.Identity.{key_eq}
use qiven_runtime.Preimage.{action_digest_of}
use qiven_runtime.Decision.{consumed, sealed, bound_facts}
use qiven_runtime.Outcome.{effect_scope_of}
use qiven_runtime.Reconciliation.{check, active}
use qiven_runtime.Admission.{
  simulated_proof, AdmissionRequest, AdmissionGrant, granted, permission_denied,
  NullExecutionAuthority, null_execution_authority, null_request_admission, null_grant_still_valid,
  new_authority, DispatchPermit, dispatched, compose, fence,
}
use qiven_runtime.Admission.Authority.{Use, requests, releases, after_uses, single_writer}
use qiven_runtime.Admission.Dispatch.{dispatched_inv}
use qiven_runtime.Failure.{FailureKey, failure_key_of}
use qiven_runtime.Activation.{ActivationReceipt, prompt_submission, ActivationLedger}
use qiven_runtime.Activation.Ledger.{spendings, spendings_at_most_once}
use qiven_runtime.Resolver.{canonical_record}
use qiven_runtime.Tests.DecisionRuns.{decision}
use qiven_runtime.Tests.Fixtures.{toy, action, key, facts, plain_intent, no_failure}

abbrev grant : AdmissionGrant
grant = record { lease_epoch = 1; fencing_token = 1; transaction = 1 }

abbrev held : NullExecutionAuthority
held = record { next_epoch = 2; current_lease = 1; holder = 1 }

abbrev permit : DispatchPermit
permit = record {
  grant = grant;
  transaction = 1;
  action_digest = decision.action_digest;
  effect_scope = effect_scope_of toy action;
}

composed :
    compose toy null_execution_authority [] new_authority decision consumed action key
      simulated_proof
    ≡ (dispatched permit, held)
unfolding compose fence null_request_admission null_grant_still_valid check bytes_beq lookup sealed
    bound_facts action_digest_of
composed = refl

dispatched_inv_example :
    (consumed ≡ consumed)
    × (decision.disposition ≡ allow)
    × (action_digest_of toy action ≡ decision.action_digest)
    × (active [] (effect_scope_of toy action) ≡ false)
    × (null_execution_authority.request_admission new_authority (record {
      purpose = simulated_proof;
      transaction = decision.transaction;
      token = decision.token;
      correlation = key;
    })
        ≡ (granted permit.grant, held))
    × (null_execution_authority.grant_still_valid held permit.grant ≡ true)
    × (permit.transaction ≡ decision.transaction)
    × (permit.action_digest ≡ decision.action_digest)
    × (permit.effect_scope ≡ effect_scope_of toy action)
dispatched_inv_example =
    dispatched_inv toy null_execution_authority [] new_authority held decision consumed action key
      simulated_proof permit composed

abbrev request : AdmissionRequest
request = record {
  purpose = simulated_proof;
  transaction = 2;
  token = decision.token;
  correlation = key;
}

abbrev uses : List Use
uses = requests request ∷ releases (record grant { lease_epoch = 9 }) ∷ []

holds : null_grant_still_valid held grant ≡ true
unfolding null_grant_still_valid
holds = refl

single_writer_example :
    (null_grant_still_valid (after_uses held uses) grant ≡ true)
    × ((null_request_admission (after_uses held uses) request).0 ≡ permission_denied)
single_writer_example = single_writer held grant uses request holds refl

abbrev failure_key : FailureKey
failure_key = failure_key_of toy action

abbrev exit_failure : FailureFingerprint
exit_failure = record no_failure { tool = codes "cmake" }

-- The floor is a claim and the mutation of a public contract.
abbrev publishing : StructuralFacts
publishing = record {
  capability = record facts.capability { can_mutate_world = true; can_publish_claims = true };
  target_is_public_contract = true;
}

abbrev api_mutation : IntentClassification
api_mutation = record {
  intent = record plain_intent { kind = 2; tool = action.operation; files = action.target ∷ [] };
  basis = structural;
}

abbrev pub injected : ActivationReceipt
injected = record {
  kind = prompt_submission;
  subject = codes "claim";
  canonical_revision = codes "r1";
  injected_digest = 5 ∷ [];
  evidence_type = canonical_record;
  generation = 1;
  actor_token = 3;
  session_token = 2;
  injection_event = 1;
  expires_at_ms = 0;
}

abbrev notified : ActivationLedger
notified = record { next_event = 2; recorded_events = 1 ∷ []; spent = [] }

spendings_at_most_once_example :
    spendings toy notified 5 (injected ∷ injected ∷ [])
      + (if contains 5 notified.spent then 1 else 0)
    ≤ 1
spendings_at_most_once_example = spendings_at_most_once toy notified 5 (injected ∷ injected ∷ [])
