-- ===== src/Admission.antt =====
-- admission.hpp and admission.cpp, port/execution_authority.hpp and port/execution_authority.cpp: the
-- two gates in a row, the authority port as an interface, and the authority that denies every real
-- mutation.
pub mod Authority
pub mod Dispatch
use qiven_runtime.Base.{
  ℕ, ◌+◌, ◌%◌, ◌^◌, Bool, true, false, not, ◌&&◌, ◌||◌, Option, none, some, Bytes, nat_beq,
  bytes_beq, if◌then◌else◌,
}
use qiven_runtime.Foundation.{Foundation}
use qiven_runtime.Identity.{CorrelationKey}
use qiven_runtime.Intent.{ObservedAction}
use qiven_runtime.Transaction.{Disposition, allow}
use qiven_runtime.Preimage.{action_digest_of}
use qiven_runtime.Decision.{DecisionToken, ExecutionDecision, ConsumeOutcome, consumed}
use qiven_runtime.Outcome.{effect_scope_of}
use qiven_runtime.Reconciliation.{
  ReconciliationBarrier, BarrierCheck, blocked_scope, equivalent, check,
}

pub data AdmissionPurpose : Type 0 where
  real_mutation simulated_proof : AdmissionPurpose

pub record AdmissionRequest : Type 0 where
  pub purpose : AdmissionPurpose
  pub transaction : ℕ
  pub token : DecisionToken
  pub correlation : CorrelationKey

pub record AdmissionGrant : Type 0 where
  pub lease_epoch : ℕ
  pub fencing_token : ℕ
  pub transaction : ℕ

-- The category of a failed result, and the grant of a good one.
pub data Admission : Type 0 where
  permission_denied other_error : Admission
  granted : AdmissionGrant → Admission

-- `IExecutionAuthorityPort` over the authority's state.
pub record AuthorityPort (S : Type 0) : Type 0 where
  pub request_admission : S → AdmissionRequest → Admission × S
  pub release : S → AdmissionGrant → S
  pub grant_still_valid : S → AdmissionGrant → Bool

pub record NullExecutionAuthority : Type 0 where
  pub next_epoch : ℕ
  pub current_lease : ℕ
  pub holder : ℕ

-- The answer of `NullExecutionAuthority` for each purpose.
abbrev answer_for :
    NullExecutionAuthority → ℕ → AdmissionPurpose → Admission × NullExecutionAuthority
answer_for s transaction real_mutation = (permission_denied, s)
answer_for s transaction simulated_proof =
    if not (nat_beq s.current_lease 0) then (permission_denied, s) else (
      granted (record {
        lease_epoch = s.next_epoch;
        fencing_token = s.next_epoch;
        transaction = transaction;
      }),
      record {
        next_epoch = (s.next_epoch + 1) % 2 ^ 64;
        current_lease = s.next_epoch;
        holder = transaction;
      },
    )

unfoldable pub null_request_admission :
    NullExecutionAuthority → AdmissionRequest → Admission × NullExecutionAuthority
null_request_admission s request = answer_for s request.transaction request.purpose

unfoldable pub null_release : NullExecutionAuthority → AdmissionGrant → NullExecutionAuthority
null_release s grant =
    if nat_beq s.current_lease grant.lease_epoch
    then record s { current_lease = 0; holder = 0 }
    else s

unfoldable pub null_grant_still_valid : NullExecutionAuthority → AdmissionGrant → Bool
null_grant_still_valid s grant =
    not (nat_beq grant.lease_epoch 0) && nat_beq s.current_lease grant.lease_epoch

abbrev pub null_execution_authority : AuthorityPort NullExecutionAuthority
null_execution_authority = record {
  request_admission = null_request_admission;
  release = null_release;
  grant_still_valid = null_grant_still_valid;
}

abbrev pub new_authority : NullExecutionAuthority
new_authority = record { next_epoch = 1; current_lease = 0; holder = 0 }

pub record DispatchPermit : Type 0 where
  pub grant : AdmissionGrant
  pub transaction : ℕ
  pub action_digest : Bytes
  pub effect_scope : ℕ

-- `AdmissionResult`: the permit comes with the outcome that it is valid for.
pub data AdmissionResult : Type 0 where
  dispatched : DispatchPermit → AdmissionResult
  denied_no_cognitive_allow denied_by_execution_authority : AdmissionResult
  denied_authority_error denied_stale_grant denied_reconciliation_barrier : AdmissionResult

abbrev pub is_consumed : ConsumeOutcome → Bool
is_consumed consumed = true
is_consumed _ = false

abbrev pub is_allow : Disposition → Bool
is_allow allow = true
is_allow _ = false

abbrev pub is_blocked : BarrierCheck → Bool
is_blocked blocked_scope = true
is_blocked _ = false

module _ (f : Foundation) {S : Type 0} (port : AuthorityPort S) where
  -- The fencing between admission and dispatch.
  unfoldable pub fence : ExecutionDecision → ℕ → Admission → S → AdmissionResult × S
  fence d scope permission_denied s = (denied_by_execution_authority, s)
  fence d scope other_error s = (denied_authority_error, s)
  fence d scope (granted grant) s =
      if not (port.grant_still_valid s grant) then (denied_stale_grant, port.release s grant) else (
        dispatched (record {
          grant = grant;
          transaction = d.transaction;
          action_digest = d.action_digest;
          effect_scope = scope;
        }),
        s,
      )

  unfoldable pub compose :
      ReconciliationBarrier
      → S
      → ExecutionDecision
      → ConsumeOutcome
      → ObservedAction
      → CorrelationKey
      → AdmissionPurpose
      → AdmissionResult × S
  unfolding fence
  compose barriers s d consumption action correlation purpose =
      let scope = effect_scope_of f action in
      let (answer, s') = port.request_admission s (record {
        purpose = purpose;
        transaction = d.transaction;
        token = d.token;
        correlation = correlation;
      }) in
      if not (is_consumed consumption) || not (is_allow d.disposition)
      then (denied_no_cognitive_allow, s)
      else if not (bytes_beq (action_digest_of f action) d.action_digest)
      then (denied_no_cognitive_allow, s)
      else if is_blocked (check barriers scope equivalent)
      then (denied_reconciliation_barrier, s)
      else fence d scope answer s'
