-- ===== src/Core/Proposals.antt =====
-- A proposal keeps the invariant, and so does every message.
use qiven_runtime.Base.{
  ℕ, ◌+◌, ◌<◌, ◌≡◌, refl, ap, ◌⊎◌, inl, inr, Bool, false, List, [], ◌∷◌, some, arith, All, nat_beq,
  nat_beq_iff, nat_eq, lookup, has, emplace, lookup-emplace, Bool-cases, Option-cases, both_ways,
  bytes_beq,
}
use qiven_runtime.Context.{Context, IsFrozen}
use qiven_runtime.Foundation.{Foundation}
use qiven_runtime.Identity.{CorrelationKey, key_beq_iff, key_eq}
use qiven_runtime.Intent.{IntentSet, classify}
use qiven_runtime.Transaction.{
  requirements_derived, ControlTransaction, next_transaction_id, begin_control_transaction,
}
use qiven_runtime.Preimage.{action_digest_of}
use qiven_runtime.Ingress.{Proposal, IngressMessage, propose, evidence_delivery, resolution_failure}
use qiven_runtime.Core.State.{ControlCore, DrainResult}
use qiven_runtime.Core.Handlers.{
  count_of, store, evaluate_if_quiet, repeat_proposal, dispatch_resolvers, opened, open_transaction,
  handle_proposal, task_for,
}
use qiven_runtime.Core.Draining.{Arrival, handle, drain}
use qiven_runtime.Core.Soundness.{IsSound, is_judged, IsUndelivered}
use qiven_runtime.Core.Undelivered.{dispatch_all-IsUndelivered, opened-IsUndelivered}
use qiven_runtime.Core.Invariant.{Inv, Consistent, put-Consistent, reevaluate-Inv}
use qiven_runtime.Core.Reports.{handle_evidence-Inv, handle_failure-Inv}

derived-IsSound :
    (in_flight : Bool) (t : ControlTransaction)
    → t.phase ≡ requirements_derived
    → All IsUndelivered t.packet.requirements
    → IsSound in_flight t
derived-IsSound in_flight t e fresh = record {
  undelivered = λ _. fresh;
  timing = λ _. ap is_judged e;
  judged = λ past. both_ways past (ap is_judged e);
  allowed = λ done. both_ways (ap is_judged done) (ap is_judged e);
}

emplace_inv :
    (k j : ℕ) (v u : ControlTransaction) (m : List (ℕ × ControlTransaction))
    → lookup j (emplace k v m) ≡ some u
    → ((j ≡ k) × (u ≡ v)) ⊎ (lookup j m ≡ some u)
emplace_inv k j v u m h = ground (arith, lookup-emplace k j v m, nat_beq_iff k j)

emplace_key_inv :
    (k j : CorrelationKey) (v u : ℕ) (m : List (CorrelationKey × ℕ))
    → lookup j (emplace k v m) ≡ some u
    → (u ≡ v) ⊎ (lookup j m ≡ some u)
emplace_key_inv k j v u m h = ground (arith, lookup-emplace k j v m, key_beq_iff k j)

module _ (next_id : ℕ) (by_correlation : List (CorrelationKey × ℕ))
    (transactions : List (ℕ × ControlTransaction)) (in_flight : List ℕ)
    (h : Consistent next_id by_correlation transactions in_flight) where
  next_unused : has next_id transactions ≡ false
  next_unused = elim (Option-cases (lookup next_id transactions)) [
    | inl e ↦ rw e refl
    | inr (t, e) ↦ let below : next_id < next_id = (h.keyed next_id t e).1 in absurd (omega arith)
  ]

  pub lookup-emplace_next :
      (t : ControlTransaction) → lookup next_id (emplace next_id t transactions) ≡ some t
  lookup-emplace_next t = ground (arith, lookup-emplace next_id next_id t transactions, next_unused)

  emplace-Consistent :
      (k : CorrelationKey) (t : ControlTransaction)
      → t.id ≡ next_id
      → t.phase ≡ requirements_derived
      → All IsUndelivered t.packet.requirements
      → Consistent
          (next_id + 1)
          (emplace k next_id by_correlation)
          (emplace next_id t transactions)
          in_flight
  emplace-Consistent k t own derived fresh = record {
    keyed = λ j u e. elim (emplace_inv next_id j t u transactions e) [
      | inl (here, new) ↦ rw (here, new) (own, omega arith)
      | inr old ↦
          let kept = h.keyed j u old in let below : j < next_id = kept.1 in (kept.0, omega arith)
    ];
    sound = λ j u e. elim (emplace_inv next_id j t u transactions e) [
      | inl (_, new) ↦ rw new (derived-IsSound _ t derived fresh)
      | inr old ↦ h.sound j u old
    ];
    indexed = λ q id e. elim (emplace_key_inv k q next_id id by_correlation e) [
      | inl new ↦ rw (new, lookup-emplace_next t) refl
      | inr old ↦ ground (arith, lookup-emplace next_id id t transactions, h.indexed q id old)
    ];
  }

module _ (f : Foundation) (c : Context) (frozen : IsFrozen c) where
  dispatch_resolvers-Inv :
      (core : ControlCore) (t : ControlTransaction)
      → lookup t.id core.transactions ≡ some t
      → t.phase ≡ requirements_derived
      → All IsUndelivered t.packet.requirements
      → Inv core
      → Inv (dispatch_resolvers f c core t)
  unfolding dispatch_resolvers
  dispatch_resolvers-Inv core t at derived fresh h =
      put-Consistent core.next_id core.by_correlation core.transactions core.redeliberation_pending
        core.redeliberation_pending t.id t _ at refl
        (derived-IsSound _ _ derived (
          dispatch_all-IsUndelivered core.registry (task_for core t) t.packet.requirements
            core.executor 0 fresh))
        (λ j _. refl) h

  evaluate_if_quiet-Inv :
      (core : ControlCore) (id : ℕ) → Inv core → Inv (evaluate_if_quiet f c core id)
  evaluate_if_quiet-Inv core id h =
      elim (Bool-cases (nat_beq (count_of (lookup id core.outstanding)) 0)) [
        | inl quiet ↦ rw quiet (reevaluate-Inv c frozen core id h)
        | inr busy ↦ rw busy h
      ]

  open_transaction-Inv :
      (core : ControlCore) (m : Proposal) (intents : IntentSet) (now_ms : ℕ)
      → Inv core
      → Inv (open_transaction f c core m intents now_ms)
  unfolding open_transaction opened next_transaction_id begin_control_transaction
  open_transaction-Inv core m intents now_ms h =
      let made = opened f c core m intents now_ms in
      let fresh = opened-IsUndelivered f c core m intents now_ms in
      evaluate_if_quiet-Inv _ made.0.id (
        dispatch_resolvers-Inv (store f c core m made.0 made.1) made.0
          (lookup-emplace_next core.next_id core.by_correlation core.transactions
            core.redeliberation_pending h made.0)
          refl fresh
          (emplace-Consistent core.next_id core.by_correlation core.transactions
            core.redeliberation_pending h m.correlation made.0 refl refl fresh))

  repeat_proposal-Inv :
      (core : ControlCore) (m : Proposal) (result : DrainResult) (id : ℕ)
      → Inv core
      → Inv (repeat_proposal f c core m result id).0
  unfolding repeat_proposal
  repeat_proposal-Inv core m result id h = elim (Option-cases (lookup id core.transactions)) [
    | inl e ↦ rw (e, repeat_proposal) h
    | inr (t, e) ↦
        elim (Bool-cases (bytes_beq (action_digest_of f t.action) (action_digest_of f m.action))) [
          | inl same ↦ rw (e, repeat_proposal) (rw same h)
          | inr other ↦ rw (e, repeat_proposal) (rw other h)
        ]
  ]

  pub handle_proposal-Inv :
      (core : ControlCore) (m : Proposal) (result : DrainResult) (now_ms : ℕ)
      → Inv core
      → Inv (handle_proposal f c core m result now_ms).0
  unfolding handle_proposal
  handle_proposal-Inv core m result now_ms h =
      elim (Option-cases (lookup m.correlation core.by_correlation)) [
        | inr (id, e) ↦ rw (e, handle_proposal) (repeat_proposal-Inv core m result id h)
        | inl e ↦ elim (Option-cases (classify c m.action core.facts [])) [
          | inl failed ↦ rw (e, handle_proposal) (rw (failed, handle_proposal) h)
          | inr (intents, made) ↦
              rw (e, handle_proposal)
                (rw (made, handle_proposal) (open_transaction-Inv core m intents now_ms h))
        ]
      ]

  pub handle-Inv :
      (core : ControlCore) (m : IngressMessage) (result : DrainResult) (now_ms : ℕ)
      → Inv core
      → Inv (handle f c core m result now_ms).0
  unfolding handle
  handle-Inv core (propose m) result now_ms h = handle_proposal-Inv core m result now_ms h
  handle-Inv core (evidence_delivery id identity receipt) result now_ms h =
      handle_evidence-Inv c frozen core id identity receipt result now_ms h
  handle-Inv core (resolution_failure id identity) result now_ms h =
      handle_failure-Inv c frozen core id identity result h

  pub drain-Inv :
      (core : ControlCore) (result : DrainResult) (arrivals : List Arrival)
      → Inv core
      → Inv (drain f c core result arrivals).0
  unfolding drain
  drain-Inv core result [] h = h
  drain-Inv core result (a ∷ rest) h =
      let awake : ControlCore = record core { executor = a.progress core.executor } in
      let next = handle f c awake a.message result a.now_ms in
      drain-Inv next.0 (record next.1 { processed = next.1.processed + 1 }) rest
        (handle-Inv awake a.message result a.now_ms h)
