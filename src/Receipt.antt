-- ===== src/Receipt.antt =====
-- resolver.cpp and resolver.hpp: evidence receipts, how they are minted and how they are validated.
pub mod Validation
use Prim.Native.Nat.{bit_and, bit_xor}
use qiven_runtime.Base.{
  ℕ, ◌+◌, ◌*◌, ◌/◌, ◌%◌, ◌^◌, ◌≡◌, ◌↔◌, Bool, true, false, not, ◌&&◌, ◌||◌, List, [], ◌∷◌, ◌++◌,
  Option, none, some, arith, Bytes, length, any, ltb, nat_beq, bytes_beq, bytes_beq_iff,
  HasEquality, if◌then◌else◌,
}
use qiven_runtime.Base.Sorts.{lex_le, sort}
use qiven_runtime.Context.{Context}
use qiven_runtime.Foundation.{Foundation, le_bytes}
use qiven_runtime.Identity.{u64_mod, fnv_mix}
use qiven_runtime.Requirement.{RequirementIdentity, identity_beq, bool_beq}
use qiven_runtime.Resolver.{
  EvidenceType, ResolverType, ResolverIdentity, ResolverBinding, type_code, evidence_code, type_beq,
  evidence_beq, resolver_beq, is_empty,
}

pub record EvidenceReceipt : Type 0 where
  pub id : ℕ
  pub requirement : RequirementIdentity
  pub resolver : ResolverIdentity
  pub resolver_type : ResolverType
  pub resolver_build : Bytes
  pub source_revision : Bytes
  pub source_path : Bytes
  pub evidence_type : EvidenceType
  pub subject : Bytes
  pub source : Bytes
  pub content_digest : Bytes
  pub issued_at_ms : ℕ
  pub expires_at_ms : ℕ
  pub policy_digest : Bytes
  pub generation : ℕ
  pub reusable_across_transactions : Bool

pub record ReceiptContext : Type 0 where
  pub generation : ℕ
  pub policy_digest : Bytes
  pub source_revision : Bytes
  pub resolver_build : Bytes
  pub now_ms : ℕ

pub data ReceiptRejection : Type 0 where
  accepted wrong_requirement wrong_resolver_type wrong_version : ReceiptRejection
  wrong_evidence_type wrong_generation wrong_policy expired : ReceiptRejection
  bad_digest bad_source : ReceiptRejection

-- `receipt.expires_at_ms != 0 && now_ms != 0 && now_ms > receipt.expires_at_ms`
unfoldable pub is_expired : ℕ → ℕ → Bool
is_expired expires_at_ms now_ms =
    not (nat_beq expires_at_ms 0) && not (nat_beq now_ms 0) && ltb expires_at_ms now_ms

unfoldable pub any_digest_byte : Bytes → Bool
any_digest_byte = any (λ (b : ℕ). not (nat_beq b 0))

unfoldable pub validate_receipt :
    EvidenceReceipt → ResolverBinding → RequirementIdentity → ℕ → Bytes → ℕ → ReceiptRejection
validate_receipt r binding requirement generation policy_digest now_ms =
    if not (identity_beq r.requirement requirement)
    then wrong_requirement
    else if not (type_beq r.resolver_type binding.key.resolver_type)
    then wrong_resolver_type
    else if not (nat_beq r.resolver.version binding.key.version)
        || not (resolver_beq r.resolver binding.resolver)
    then wrong_version
    else if not (evidence_beq r.evidence_type binding.accepted_evidence)
    then wrong_evidence_type
    else if not (nat_beq r.generation generation)
    then wrong_generation
    else if not (bytes_beq r.policy_digest policy_digest)
    then wrong_policy
    else if is_expired r.expires_at_ms now_ms
    then expired
    else if not (any_digest_byte r.content_digest)
    then bad_digest
    else if is_empty r.source_revision || is_empty r.subject
    then bad_source
    else accepted

-- `receipt_id_of`: fnv1a64 byte by byte over the bound fields.
abbrev flag : Bool → ℕ
flag b = if b then 1 else 0

module _ (f : Foundation) (c : Context) where
  mix_bytes : Bytes → ℕ → ℕ
  mix_bytes [] hash = hash
  mix_bytes (b ∷ rest) hash = mix_bytes rest (fnv_mix f hash b)

  mix_u64 : ℕ → ℕ → ℕ
  mix_u64 value = mix_bytes (le_bytes 8 value)

  mix_text : Bytes → ℕ → ℕ
  mix_text text hash = mix_bytes text (mix_u64 (length text) hash)

  unfoldable pub receipt_id_of : EvidenceReceipt → ℕ
  unfolding mix_bytes mix_u64 mix_text
  receipt_id_of r =
      let a = mix_u64 r.requirement.kind f.fnv1a64_offset_basis in
      let b = mix_text r.requirement.subject a in
      let bound = mix_u64 (c.boundary_code r.requirement.boundary) b in
      let d = mix_u64 (flag r.requirement.blocking) bound in
      let e = mix_u64 r.resolver.version (mix_text r.resolver.name d) in
      let g = mix_text r.resolver_build (mix_u64 (type_code r.resolver_type) e) in
      let h = mix_text r.source_path (mix_text r.source_revision g) in
      let i = mix_text r.subject (mix_u64 (evidence_code r.evidence_type) h) in
      let j = mix_bytes r.content_digest (mix_text r.source i) in
      let k = mix_u64 r.expires_at_ms (mix_u64 r.issued_at_ms j) in
      let l = mix_u64 r.generation (mix_bytes r.policy_digest k) in
      mix_u64 (flag r.reusable_across_transactions) l

  unfoldable pub make_evidence_receipt :
      RequirementIdentity
      → ResolverIdentity
      → ResolverType
      → EvidenceType
      → Bytes
      → Bytes
      → Bytes
      → ReceiptContext
      → EvidenceReceipt
  make_evidence_receipt requirement resolver resolver_type evidence_type subject source content
        ctx =
      record receipt { id = receipt_id_of receipt }
    where
      receipt : EvidenceReceipt
      receipt = record {
        id = 0;
        requirement = requirement;
        resolver = resolver;
        resolver_type = resolver_type;
        resolver_build = ctx.resolver_build;
        source_revision = ctx.source_revision;
        source_path = [];
        evidence_type = evidence_type;
        subject = subject;
        source = source;
        content_digest = f.sha256 content;
        issued_at_ms = ctx.now_ms;
        expires_at_ms = 0;
        policy_digest = ctx.policy_digest;
        generation = ctx.generation;
        reusable_across_transactions = false;
      }
