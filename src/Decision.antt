-- ===== src/Decision.antt =====
-- decision.hpp and decision.cpp: the authorization that a transaction earns, bound by a keyed
-- digest, and the ledger that spends it once. The canonical preimages stand in Preimage.
pub mod Binding
pub mod Spending
use qiven_runtime.Base.{
  ℕ, ◌+◌, ◌%◌, Bool, true, false, not, ◌&&◌, ◌||◌, List, [], ◌∷◌, ◌++◌, Option, none, some, Bytes,
  ltb, nat_beq, bytes_beq, bytes_eq, contains, insert, if◌then◌else◌,
}
use qiven_runtime.Context.{Context}
use qiven_runtime.Foundation.{Foundation}
use qiven_runtime.Identity.{next_id, u64_mod}
use qiven_runtime.Transaction.{
  TransactionPhase, cognitive_allowed, ControlTransaction, Disposition, allow,
}
use qiven_runtime.Receipt.{EvidenceReceipt}
use qiven_runtime.Preimage.{
  put_bytes, digest_of, action_digest_of, put_intents, put_evidence, put_requirements,
}
use qiven_runtime.Auth.{hmac_sha256, constant_time_equal}

-- The id and the profile revision of a RuntimeGeneration; bind_allow reads no more of it.
pub record GenerationFacts : Type 0 where
  pub id : ℕ
  pub profile_revision : ℕ

pub record DecisionToken : Type 0 where
  pub mac : Bytes
  pub nonce : Bytes

-- The classifier contract is never set.
pub record ExecutionDecision : Type 0 where
  pub id : Bytes
  pub token : DecisionToken
  pub token_hash : Bytes
  pub transaction : ℕ
  pub generation : ℕ
  pub session : ℕ
  pub actor : ℕ
  pub capability : ℕ
  pub operation : Bytes
  pub target : Bytes
  pub resource_scope_digest : Bytes
  pub expires_at_ms : ℕ
  pub action_digest : Bytes
  pub intent_set_digest : Bytes
  pub cognition_revision : Bytes
  pub policy_digest : Bytes
  pub requirement_set_digest : Bytes
  pub evidence_set_digest : Bytes
  pub profile : ℕ
  pub resolver_registry_revision : ℕ
  pub disposition : Disposition

pub record FreshnessFacts : Type 0 where
  pub action_digest : Bytes
  pub generation : ℕ
  pub cognition_revision : Bytes
  pub profile : ℕ
  pub resolver_registry_revision : ℕ
  pub evidence_set_digest : Option Bytes
  pub resource_scope_digest : Bytes

pub data ConsumeOutcome : Type 0 where
  consumed already_consumed stale_action stale_generation stale_cognition : ConsumeOutcome
  stale_policy stale_registry stale_evidence stale_scope expired invalid_token : ConsumeOutcome

abbrev pub is_cognitive_allowed : TransactionPhase → Bool
is_cognitive_allowed cognitive_allowed = true
is_cognitive_allowed _ = false

module _ (f : Foundation) where
  unfoldable pub put_binding : f.Builder → ExecutionDecision → f.Builder
  put_binding out d =
      let named =
        f.append_le_u64
          (f.append_le_u64
            (f.append_le_u64
              (f.append_le_u64
                (f.append_le_u64 (f.append (f.append_le_u32 out 1) d.id) d.transaction)
                d.generation)
              d.session)
            d.actor)
          d.capability in
      let scoped =
        f.append_le_u64
          (f.append (put_bytes f (put_bytes f named d.operation) d.target) d.resource_scope_digest)
          d.expires_at_ms in
      let digests =
        f.append
          (f.append
            (f.append
              (put_bytes f (f.append (f.append scoped d.action_digest) d.intent_set_digest)
                d.cognition_revision)
              d.policy_digest)
            d.requirement_set_digest)
          d.evidence_set_digest in
      f.append_le_u64 (f.append_le_u64 digests d.profile) d.resolver_registry_revision

  unfoldable pub token_hash_of : DecisionToken → Bytes
  token_hash_of token = f.sha256 (token.mac ++ token.nonce)

  -- The keyed digest of the binding and the nonce.
  unfoldable pub binding_mac : Bytes → ExecutionDecision → Bytes → Bytes
  unfolding put_binding
  binding_mac secret d nonce =
      hmac_sha256 f secret (f.contents (f.append (put_binding f.new_builder d) nonce))

  -- The facts that a decision binds, before its token exists.
  unfoldable pub bound_facts :
      Context
      → ControlTransaction
      → GenerationFacts
      → Bytes
      → ℕ
      → List EvidenceReceipt
      → Bytes
      → ℕ
      → ExecutionDecision
  bound_facts c t generation scope_digest registry_revision evidence id expires = record {
    id = id;
    token = record { mac = []; nonce = [] };
    token_hash = [];
    transaction = t.id;
    generation = generation.id;
    session = t.action.session;
    actor = t.action.actor;
    capability = t.action.capability;
    operation = t.action.operation;
    target = t.action.target;
    resource_scope_digest = scope_digest;
    expires_at_ms = expires;
    action_digest = action_digest_of f t.action;
    intent_set_digest = digest_of f (put_intents f f.new_builder t.intents);
    cognition_revision = t.cognition.revision;
    policy_digest = t.cognition.policy_digest;
    requirement_set_digest = digest_of f (put_requirements f c f.new_builder t.packet);
    evidence_set_digest = digest_of f (put_evidence f c f.new_builder evidence);
    profile = generation.profile_revision;
    resolver_registry_revision = registry_revision;
    disposition = allow;
  }

  -- The token over the facts.
  unfoldable pub sealed : Bytes → Bytes → ExecutionDecision → ExecutionDecision
  unfolding binding_mac token_hash_of
  sealed secret nonce d =
      let token : DecisionToken = record { mac = binding_mac secret d nonce; nonce = nonce } in
      record d { token = token; token_hash = token_hash_of token }

  -- `bind_allow` at the minter's counter and with the bytes that the random source gives; the
  -- counter moves only with a decision. The end of the window is a 64-bit sum.
  unfoldable pub bind_allow :
      Context
      → ControlTransaction
      → GenerationFacts
      → Bytes
      → ℕ
      → List EvidenceReceipt
      → Bytes
      → Bytes
      → (counter unix_ms now_ms ttl_ms : ℕ) → Option (ExecutionDecision × ℕ)
  unfolding bound_facts sealed
  bind_allow c t generation scope_digest registry_revision evidence secret nonce counter unix_ms
        now_ms ttl_ms =
      let (id, counter') = next_id f unix_ms counter in
      if is_cognitive_allowed t.phase
      then some (
        sealed secret nonce (
            bound_facts c t generation scope_digest registry_revision evidence id
              ((now_ms + ttl_ms) % u64_mod)),
        counter',
      )
      else none

  unfoldable pub decision_binding_valid : ExecutionDecision → Bytes → Bool
  unfolding binding_mac
  decision_binding_valid d secret =
      constant_time_equal (binding_mac secret d d.token.nonce) d.token.mac

-- Facts without an evidence digest leave the evidence unchecked.
abbrev pub evidence_changed : Bytes → Option Bytes → Bool
evidence_changed bound none = false
evidence_changed bound (some digest) = not (bytes_beq bound digest)

-- The comparisons of `consume` with the facts of the moment, in their order.
unfoldable pub freshness : ExecutionDecision → FreshnessFacts → ConsumeOutcome
freshness d now =
    if not (bytes_beq d.action_digest now.action_digest)
    then stale_action
    else if not (nat_beq d.generation now.generation)
    then stale_generation
    else if not (bytes_beq d.cognition_revision now.cognition_revision)
    then stale_cognition
    else if not (nat_beq d.profile now.profile)
    then stale_policy
    else if not (nat_beq d.resolver_registry_revision now.resolver_registry_revision)
    then stale_registry
    else if evidence_changed d.evidence_set_digest now.evidence_set_digest
    then stale_evidence
    else if not (bytes_beq d.resource_scope_digest now.resource_scope_digest)
    then stale_scope
    else consumed

-- No end of the window is 0.
abbrev pub is_over : ℕ → ℕ → Bool
is_over expires_at_ms now_ms = not (nat_beq expires_at_ms 0) && ltb expires_at_ms now_ms

pub record DecisionLedger : Type 0 where
  pub secret : Bytes
  pub spent : List Bytes

unfoldable pub was_consumed : DecisionLedger → Bytes → Bool
was_consumed l token = contains token l.spent

unfoldable pub seed_consumed : DecisionLedger → Bytes → DecisionLedger
seed_consumed l token = record l { spent = insert token l.spent }

unfoldable pub consume :
    Foundation
    → DecisionLedger
    → ExecutionDecision
    → FreshnessFacts
    → ℕ
    → ConsumeOutcome × DecisionLedger
unfolding freshness
consume f l d now now_ms =
    let burnt = record l { spent = insert d.token_hash l.spent } in
    if contains d.token_hash l.spent
    then (already_consumed, l)
    else if not (decision_binding_valid f d l.secret)
        || not (bytes_beq (token_hash_of f d.token) d.token_hash)
    then (invalid_token, burnt)
    else if is_over d.expires_at_ms now_ms
    then (expired, burnt)
    else (freshness d now, burnt)
