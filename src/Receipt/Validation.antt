-- ===== src/Receipt/Validation.antt =====
-- When a receipt is accepted (resolver.hpp, the acceptance check).
use qiven_runtime.Base.{
  ℕ, ◌≡◌, refl, ◌≢◌, ◌↔◌, true, false, [], ◌∷◌, arith, Bytes, bytes_beq_iff, nat_beq_iff,
}
use qiven_runtime.Context.{Context}
use qiven_runtime.Foundation.{Foundation}
use qiven_runtime.Requirement.{RequirementIdentity, identity_beq_iff}
use qiven_runtime.Resolver.{
  ResolverBinding, type_beq_iff, resolver_beq_iff, evidence_beq_iff, is_empty,
}
use qiven_runtime.Receipt.{
  EvidenceReceipt, ReceiptContext, accepted, is_expired, any_digest_byte, validate_receipt,
  make_evidence_receipt,
}

-- The receipt is bound to the requirement, the binding and the live facts, is not expired, and
-- names its evidence.
pub record IsBound (r : EvidenceReceipt) (binding : ResolverBinding)
    (requirement : RequirementIdentity) (generation : ℕ) (policy_digest : Bytes) (now_ms : ℕ)
    : Type 0 where
  pub requirement_met : r.requirement ≡ requirement
  pub type_met : r.resolver_type ≡ binding.key.resolver_type
  pub version_met : r.resolver.version ≡ binding.key.version
  pub resolver_met : r.resolver ≡ binding.resolver
  pub evidence_met : r.evidence_type ≡ binding.accepted_evidence
  pub generation_met : r.generation ≡ generation
  pub policy_met : r.policy_digest ≡ policy_digest
  pub live : is_expired r.expires_at_ms now_ms ≡ false
  pub has_digest : any_digest_byte r.content_digest ≡ true
  pub has_revision : r.source_revision ≢ []
  pub has_subject : r.subject ≢ []

pub is_empty_iff : (x : Bytes) → (is_empty x ≡ true) ↔ (x ≡ [])
unfolding is_empty
is_empty_iff [] = ground arith
is_empty_iff (b ∷ x) = ground arith

module _ (r : EvidenceReceipt) (binding : ResolverBinding) (requirement : RequirementIdentity)
    (generation : ℕ) (policy_digest : Bytes) (now_ms : ℕ) where
  validate_receipt-IsBound :
      validate_receipt r binding requirement generation policy_digest now_ms ≡ accepted
      → IsBound r binding requirement generation policy_digest now_ms
  unfolding validate_receipt
  validate_receipt-IsBound h = record {
    requirement_met = ground (arith, identity_beq_iff r.requirement requirement);
    type_met = ground (arith, type_beq_iff r.resolver_type binding.key.resolver_type);
    version_met = ground arith;
    resolver_met = ground (arith, resolver_beq_iff r.resolver binding.resolver);
    evidence_met = ground (arith, evidence_beq_iff r.evidence_type binding.accepted_evidence);
    generation_met = ground arith;
    policy_met = ground (arith, bytes_beq_iff r.policy_digest policy_digest);
    live = ground arith;
    has_digest = ground arith;
    has_revision = ground (arith, is_empty_iff r.source_revision);
    has_subject = ground (arith, is_empty_iff r.subject);
  }

  not_empty : (x : Bytes) → x ≢ [] → is_empty x ≡ false
  not_empty x h = ground (arith, is_empty_iff x)

  IsBound-validate_receipt :
      IsBound r binding requirement generation policy_digest now_ms
      → validate_receipt r binding requirement generation policy_digest now_ms ≡ accepted
  unfolding validate_receipt
  IsBound-validate_receipt b =
      rw
        (
          (identity_beq_iff r.requirement requirement).1 b.requirement_met,
          (type_beq_iff r.resolver_type binding.key.resolver_type).1 b.type_met,
          (nat_beq_iff r.resolver.version binding.key.version).1 b.version_met,
          (resolver_beq_iff r.resolver binding.resolver).1 b.resolver_met,
          (evidence_beq_iff r.evidence_type binding.accepted_evidence).1 b.evidence_met,
          (nat_beq_iff r.generation generation).1 b.generation_met,
          (bytes_beq_iff r.policy_digest policy_digest).1 b.policy_met,
          b.live,
          b.has_digest,
          not_empty r.source_revision b.has_revision,
          not_empty r.subject b.has_subject,
        )
        refl

  -- A receipt is accepted exactly when it is bound to the requirement, the binding, the live
  -- generation and policy, is not expired, has a digest byte other than 0, and has a source revision
  -- and a subject; any other receipt is rejected. The source of the receipt is not asked for.
  pub validate_receipt_accepts :
      (validate_receipt r binding requirement generation policy_digest now_ms ≡ accepted)
      ↔ IsBound r binding requirement generation policy_digest now_ms
  validate_receipt_accepts = (validate_receipt-IsBound, IsBound-validate_receipt)

-- A receipt that a mechanism mints for the accepted binding in the live context is accepted at any
-- time, whatever its source, if the resolver of the binding has the version of its key, the digest
-- has a byte other than 0, and the subject and the source revision are not empty.
pub validate-make_evidence_receipt :
    (f : Foundation) (c : Context) (requirement : RequirementIdentity) (binding : ResolverBinding)
    (subject source content : Bytes) (ctx : ReceiptContext) (now_ms : ℕ)
    → binding.resolver.version ≡ binding.key.version
    → any_digest_byte (f.sha256 content) ≡ true
    → subject ≢ []
    → ctx.source_revision ≢ []
    → validate_receipt
        (make_evidence_receipt f c requirement binding.resolver binding.key.resolver_type
          binding.accepted_evidence subject source content ctx)
        binding
        requirement
        ctx.generation
        ctx.policy_digest
        now_ms
      ≡ accepted
unfolding make_evidence_receipt is_expired
validate-make_evidence_receipt f c requirement binding subject source content ctx now_ms v d s t =
    IsBound-validate_receipt _ binding requirement ctx.generation ctx.policy_digest now_ms (record {
      requirement_met = refl;
      type_met = refl;
      version_met = v;
      resolver_met = refl;
      evidence_met = refl;
      generation_met = refl;
      policy_met = refl;
      live = refl;
      has_digest = d;
      has_revision = t;
      has_subject = s;
    })
