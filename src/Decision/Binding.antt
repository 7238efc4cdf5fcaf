-- ===== src/Decision/Binding.antt =====
-- What bind_allow seals, and how it is checked.
use qiven_runtime.Base.{
  ℕ, ◌+◌, ◌%◌, ◌^◌, ◌≡◌, refl, ap, ◌∙◌, ◌↔◌, arith, true, false, List, some, Bytes, is_some,
}
use qiven_runtime.Context.{Context}
use qiven_runtime.Foundation.{Foundation}
use qiven_runtime.Identity.{next_id}
use qiven_runtime.Transaction.{ControlTransaction, disposition_for, allow}
use qiven_runtime.Receipt.{EvidenceReceipt}
use qiven_runtime.Auth.Equality.{constant_time_equal_lem}
use qiven_runtime.Decision.{
  GenerationFacts, ExecutionDecision, FreshnessFacts, consumed, DecisionLedger, is_over,
  is_cognitive_allowed, put_binding, binding_mac, sealed, bound_facts, bind_allow, token_hash_of,
  decision_binding_valid, was_consumed, consume,
}
use qiven_runtime.Decision.Spending.{IsFresh, consume_iff}

pub sealed_valid :
    (f : Foundation) (secret nonce : Bytes) (d : ExecutionDecision)
    → decision_binding_valid f (sealed f secret nonce d) secret ≡ true
unfolding decision_binding_valid binding_mac sealed put_binding
sealed_valid f secret nonce d = (constant_time_equal_lem _ _).1 refl

is_cognitive_allowed_iff :
    (t : ControlTransaction)
    → (is_cognitive_allowed t.phase ≡ true) ↔ (disposition_for t.phase ≡ allow)
unfolding disposition_for
is_cognitive_allowed_iff t = ground arith

-- A decision is bound exactly for a transaction that is reported as allowed.
pub bind_allow_iff :
    (f : Foundation) (c : Context) (t : ControlTransaction) (generation : GenerationFacts)
    (scope_digest : Bytes) (registry_revision : ℕ) (evidence : List EvidenceReceipt)
    (secret nonce : Bytes) (counter unix_ms now_ms ttl_ms : ℕ)
    → (is_some (
          bind_allow f c t generation scope_digest registry_revision evidence secret nonce counter
            unix_ms now_ms ttl_ms)
        ≡ true)
      ↔ (disposition_for t.phase ≡ allow)
unfolding bind_allow
bind_allow_iff f c t generation scope_digest registry_revision evidence secret nonce counter unix_ms
      now_ms ttl_ms =
    ground (arith, is_cognitive_allowed_iff t)

-- The decision is the sealed one over the bound facts.
bind_allow_inv :
    (f : Foundation) (c : Context) (t : ControlTransaction) (generation : GenerationFacts)
    (scope_digest : Bytes) (registry_revision : ℕ) (evidence : List EvidenceReceipt)
    (secret nonce : Bytes) (counter unix_ms now_ms ttl_ms : ℕ) (d : ExecutionDecision)
    (counter' : ℕ)
    → bind_allow f c t generation scope_digest registry_revision evidence secret nonce counter
        unix_ms now_ms ttl_ms
      ≡ some (d, counter')
    → (facts : ExecutionDecision) × (d ≡ sealed f secret nonce facts)
      × (facts.expires_at_ms ≡ (now_ms + ttl_ms) % 2 ^ 64)
unfolding bind_allow bound_facts
bind_allow_inv f c t generation scope_digest registry_revision evidence secret nonce counter unix_ms
      now_ms ttl_ms d counter' e =
    (
      bound_facts f c t generation scope_digest registry_revision evidence
          (next_id f unix_ms counter).0 ((now_ms + ttl_ms) % 2 ^ 64),
      ground (arith, e),
      refl,
    )

sealed_hash :
    (f : Foundation) (secret nonce : Bytes) (d : ExecutionDecision)
    → token_hash_of f (sealed f secret nonce d).token ≡ (sealed f secret nonce d).token_hash
unfolding sealed
sealed_hash f secret nonce d = refl

sealed_expires :
    (f : Foundation) (secret nonce : Bytes) (d : ExecutionDecision)
    → (sealed f secret nonce d).expires_at_ms ≡ d.expires_at_ms
unfolding sealed
sealed_expires f secret nonce d = refl

-- A decision that bind_allow gives is consumed by a ledger with the same secret that has not seen
-- its token, inside its window, when the facts of the moment are those it binds.
pub consume-bind_allow :
    (f : Foundation) (c : Context) (t : ControlTransaction) (generation : GenerationFacts)
    (scope_digest : Bytes) (registry_revision : ℕ) (evidence : List EvidenceReceipt) (nonce : Bytes)
    (counter unix_ms now_ms ttl_ms : ℕ) (l : DecisionLedger) (d : ExecutionDecision) (counter' : ℕ)
    (now : FreshnessFacts) (later_ms : ℕ)
    → bind_allow f c t generation scope_digest registry_revision evidence l.secret nonce counter
        unix_ms now_ms ttl_ms
      ≡ some (d, counter')
    → was_consumed l d.token_hash ≡ false
    → is_over ((now_ms + ttl_ms) % 2 ^ 64) later_ms ≡ false
    → IsFresh d now
    → (consume f l d now later_ms).0 ≡ consumed
consume-bind_allow f c t generation scope_digest registry_revision evidence nonce counter unix_ms
      now_ms ttl_ms l d counter' now later_ms e unspent open_ fresh =
    let (facts, same, window) =
      bind_allow_inv f c t generation scope_digest registry_revision evidence l.secret nonce counter
        unix_ms now_ms ttl_ms d counter' e in
    (consume_iff f l d now later_ms).1 (
      record {
        unspent = unspent;
        authentic = rw same (sealed_valid f l.secret nonce facts);
        hashed = rw same (sealed_hash f l.secret nonce facts);
        in_time =
            ap (λ (w : ℕ). is_over w later_ms)
              (ap (λ (x : ExecutionDecision). x.expires_at_ms) same
                ∙ sealed_expires f l.secret nonce facts
                ∙ window)
            ∙ open_;
      },
      fresh,
    )
