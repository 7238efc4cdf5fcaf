-- ===== src/Admission/Dispatch.antt =====
-- What a dispatch rests on.
use qiven_runtime.Base.{◌≡◌, ◌≢◌, arith, true, false, bytes_beq_iff}
use qiven_runtime.Foundation.{Foundation}
use qiven_runtime.Identity.{CorrelationKey}
use qiven_runtime.Intent.{ObservedAction}
use qiven_runtime.Transaction.{allow}
use qiven_runtime.Preimage.{action_digest_of}
use qiven_runtime.Decision.{ExecutionDecision, ConsumeOutcome, consumed}
use qiven_runtime.Outcome.{effect_scope_of}
use qiven_runtime.Reconciliation.{ReconciliationBarrier, active, check}
use qiven_runtime.Admission.{
  AdmissionPurpose, real_mutation, AuthorityPort, granted, NullExecutionAuthority,
  null_execution_authority, null_request_admission, DispatchPermit, dispatched, fence, compose,
}

module _ (f : Foundation) {S : Type 0} (port : AuthorityPort S) where
  -- An action is dispatched only if its decision was consumed and allows, its digest is the one that
  -- the decision bound, its effect scope is not barred, and the authority gave a grant that it still
  -- holds valid; the permit then carries that grant and the decision's transaction, digest and the
  -- scope.
  pub dispatched_inv :
      (barriers : ReconciliationBarrier) (s s' : S) (d : ExecutionDecision)
      (consumption : ConsumeOutcome) (action : ObservedAction) (correlation : CorrelationKey)
      (purpose : AdmissionPurpose) (permit : DispatchPermit)
      → compose f port barriers s d consumption action correlation purpose ≡ (dispatched permit, s')
      → (consumption ≡ consumed)
        × (d.disposition ≡ allow)
        × (action_digest_of f action ≡ d.action_digest)
        × (active barriers (effect_scope_of f action) ≡ false)
        × (port.request_admission s (record {
          purpose = purpose;
          transaction = d.transaction;
          token = d.token;
          correlation = correlation;
        })
            ≡ (granted permit.grant, s'))
        × (port.grant_still_valid s' permit.grant ≡ true)
        × (permit.transaction ≡ d.transaction)
        × (permit.action_digest ≡ d.action_digest)
        × (permit.effect_scope ≡ effect_scope_of f action)
  unfolding compose fence check active
  dispatched_inv barriers s s' d consumption action correlation purpose permit h = (
    ground (arith, h),
    ground (arith, h),
    ground (arith, h, bytes_beq_iff (action_digest_of f action) d.action_digest),
    ground (arith, h),
    ground (arith, h),
    ground (arith, h),
    ground (arith, h),
    ground (arith, h),
    ground (arith, h),
  )

-- Under the authority of the host no real mutation is ever dispatched, whatever was decided.
pub real_mutation_denied :
    (f : Foundation) (barriers : ReconciliationBarrier) (s : NullExecutionAuthority)
    (d : ExecutionDecision) (consumption : ConsumeOutcome) (action : ObservedAction)
    (correlation : CorrelationKey) (permit : DispatchPermit)
    → (compose f null_execution_authority barriers s d consumption action correlation
        real_mutation).0
      ≢ dispatched permit
unfolding compose fence null_request_admission
real_mutation_denied f barriers s d consumption action correlation permit = λ h. ground arith
