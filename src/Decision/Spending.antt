-- ===== src/Decision/Spending.antt =====
-- How the ledger of decision.cpp spends tokens.
use qiven_runtime.Base.{
  ℕ, ◌+◌, ◌≤◌, ◌≡◌, refl, sym, ap, ◌∙◌, ◌↔◌, arith, Bool, true, false, ◌||◌, List, [], ◌∷◌, Option,
  none, some, Bytes, bytes_beq, bytes_beq_iff, bytes_beq_refl, bytes_eq, nat_beq_iff, ◌&&◌,
  if◌then◌else◌, contains-insert,
}
use qiven_runtime.Foundation.{Foundation}
use qiven_runtime.Decision.{
  ExecutionDecision, FreshnessFacts, ConsumeOutcome, consumed, DecisionLedger, token_hash_of,
  decision_binding_valid, evidence_changed, is_over, freshness, consume, was_consumed,
}

-- What the moment must agree with.
pub record IsFresh (d : ExecutionDecision) (now : FreshnessFacts) : Type 0 where
  pub same_action : d.action_digest ≡ now.action_digest
  pub same_generation : d.generation ≡ now.generation
  pub same_cognition : d.cognition_revision ≡ now.cognition_revision
  pub same_profile : d.profile ≡ now.profile
  pub same_registry : d.resolver_registry_revision ≡ now.resolver_registry_revision
  pub same_evidence :
      (digest : Bytes) → now.evidence_set_digest ≡ some digest → d.evidence_set_digest ≡ digest
  pub same_scope : d.resource_scope_digest ≡ now.resource_scope_digest

-- What the ledger and the clock must agree with.
pub record IsSpendable (f : Foundation) (l : DecisionLedger) (d : ExecutionDecision) (now_ms : ℕ)
    : Type 0 where
  pub unspent : was_consumed l d.token_hash ≡ false
  pub authentic : decision_binding_valid f d l.secret ≡ true
  pub hashed : token_hash_of f d.token ≡ d.token_hash
  pub in_time : is_over d.expires_at_ms now_ms ≡ false

evidence_inv :
    (bound : Bytes) (now : Option Bytes) (digest : Bytes)
    → evidence_changed bound now ≡ false
    → now ≡ some digest
    → bound ≡ digest
evidence_inv bound none digest same h = absurd (cc h)
evidence_inv bound (some x) digest same h = ground (arith, bytes_beq_iff bound x)

evidence_same :
    (bound : Bytes) (now : Option Bytes)
    → ((digest : Bytes) → now ≡ some digest → bound ≡ digest)
    → evidence_changed bound now ≡ false
evidence_same bound none h = refl
evidence_same bound (some x) h = rw (h x refl, bytes_beq_refl x) refl

module _ (d : ExecutionDecision) (now : FreshnessFacts) where
  freshness_inv : freshness d now ≡ consumed → IsFresh d now
  unfolding freshness
  freshness_inv h =
      let kept : evidence_changed d.evidence_set_digest now.evidence_set_digest ≡ false =
        ground arith in
      record {
        same_action = ground (arith, bytes_beq_iff d.action_digest now.action_digest);
        same_generation = ground arith;
        same_cognition = ground (arith, bytes_beq_iff d.cognition_revision now.cognition_revision);
        same_profile = ground arith;
        same_registry = ground arith;
        same_evidence = λ digest e. evidence_inv _ _ digest kept e;
        same_scope =
            ground (arith, bytes_beq_iff d.resource_scope_digest now.resource_scope_digest);
      }

  freshness_fresh : IsFresh d now → freshness d now ≡ consumed
  unfolding freshness
  freshness_fresh h =
      rw
        (
          (bytes_beq_iff d.action_digest now.action_digest).1 h.same_action,
          (nat_beq_iff d.generation now.generation).1 h.same_generation,
          (bytes_beq_iff d.cognition_revision now.cognition_revision).1 h.same_cognition,
          (nat_beq_iff d.profile now.profile).1 h.same_profile,
          (nat_beq_iff d.resolver_registry_revision now.resolver_registry_revision).1
              h.same_registry,
          evidence_same d.evidence_set_digest now.evidence_set_digest h.same_evidence,
          (bytes_beq_iff d.resource_scope_digest now.resource_scope_digest).1 h.same_scope,
        )
        refl

module _ (f : Foundation) (l : DecisionLedger) (d : ExecutionDecision) (now : FreshnessFacts)
    (now_ms : ℕ) where
  IsSpendable-inv :
      (consume f l d now now_ms).0 ≡ consumed
      → IsSpendable f l d now_ms × (freshness d now ≡ consumed)
  unfolding consume was_consumed
  IsSpendable-inv h = (
    record {
      unspent = ground arith;
      authentic = ground arith;
      hashed = ground (arith, bytes_beq_iff (token_hash_of f d.token) d.token_hash);
      in_time = ground arith;
    },
    ground arith,
  )

  IsSpendable-consumed :
      IsSpendable f l d now_ms
      → freshness d now ≡ consumed
      → (consume f l d now now_ms).0 ≡ consumed
  unfolding consume was_consumed
  IsSpendable-consumed s fresh =
      rw
        (
          s.unspent,
          s.authentic,
          (bytes_beq_iff (token_hash_of f d.token) d.token_hash).1 s.hashed,
          s.in_time,
          fresh,
        )
        refl

  -- A decision is consumed exactly if its token is unspent, the keyed digest and the token's hash
  -- are right, its window is open, and each bound fact agrees with the facts of the moment (the
  -- evidence only where the facts name it).
  pub consume_iff :
      ((consume f l d now now_ms).0 ≡ consumed) ↔ (IsSpendable f l d now_ms × IsFresh d now)
  consume_iff = (
    λ h. let parts = IsSpendable-inv h in (parts.0, freshness_inv d now parts.1),
    λ h. IsSpendable-consumed h.0 (freshness_fresh d now h.1),
  )

  burns :
      (token : Bytes)
      → was_consumed (consume f l d now now_ms).1 token
        ≡ (bytes_beq d.token_hash token || was_consumed l token)
  unfolding consume was_consumed
  burns token =
      ground (arith, contains-insert d.token_hash token l.spent, bytes_beq_iff d.token_hash token)

abbrev is_consumed : ConsumeOutcome → Bool
is_consumed consumed = true
is_consumed _ = false

-- How many of the attempts, made one after the other, consume the token.
unfoldable pub consumptions :
    Foundation → DecisionLedger → Bytes → List (ExecutionDecision × FreshnessFacts × ℕ) → ℕ
consumptions f l token [] = 0
consumptions f l token ((d, now, now_ms) ∷ rest) =
    let (outcome, l') = consume f l d now now_ms in
    (if bytes_beq d.token_hash token && is_consumed outcome then 1 else 0)
    + consumptions f l' token rest

-- However often and with whatever decisions, facts and times the ledger is asked, a token is
-- consumed at most once, and never if the ledger began with it spent.
pub consumptions_at_most_once :
    (f : Foundation) (l : DecisionLedger) (token : Bytes)
    (attempts : List (ExecutionDecision × FreshnessFacts × ℕ))
    → consumptions f l token attempts + (if was_consumed l token then 1 else 0) ≤ 1
unfolding consumptions
consumptions_at_most_once f l token [] = ground arith
consumptions_at_most_once f l token ((d, now, now_ms) ∷ rest) = ground (
  arith,
  burns f l d now now_ms token,
  consumptions_at_most_once f (consume f l d now now_ms).1 token rest,
  first_time,
  bytes_beq_iff d.token_hash token,
)
  where
    first_time :
        d.token_hash ≡ token
        → (consume f l d now now_ms).0 ≡ consumed
        → was_consumed l token ≡ false
    first_time same h =
        sym (ap (was_consumed l) same) ∙ (IsSpendable-inv f l d now now_ms h).0.unspent
