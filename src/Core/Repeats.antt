-- ===== src/Core/Repeats.antt =====
-- A correlation key names the first action that was proposed under it, for good.
use qiven_runtime.Base.{
  ℕ, ◌+◌, ◌≡◌, ◌≢◌, refl, sym, ap, ◌∙◌, inl, inr, true, List, [], ◌∷◌, none, some, arith, nat_beq,
  nat_beq_iff, nat_eq, lookup, put, lookup-emplace, Bool-cases, Option-cases, bytes_beq,
  bytes_beq_iff,
}
use qiven_runtime.Context.{Context, IsFrozen}
use qiven_runtime.Foundation.{Foundation}
use qiven_runtime.Identity.{CorrelationKey, key_beq_iff, key_eq}
use qiven_runtime.Intent.{ObservedAction, IntentSet, StructuralFacts}
use qiven_runtime.Intent.Floor.{classify_lem}
use qiven_runtime.Transaction.{
  PinnedCognition, ControlTransaction, next_transaction_id, begin_control_transaction,
}
use qiven_runtime.Resolver.{ResolverBinding}
use qiven_runtime.Preimage.{action_digest_of}
use qiven_runtime.Ingress.{Proposal, IngressMessage, propose, evidence_delivery, resolution_failure}
use qiven_runtime.Executor.{Executor}
use qiven_runtime.Core.State.{Task, ControlCore, DrainResult, make_core, no_messages}
use qiven_runtime.Core.Handlers.{
  count_of, repeat_proposal, store, dispatch_resolvers, opened, open_transaction, handle_proposal,
}
use qiven_runtime.Core.Draining.{Arrival, handle, drain}
use qiven_runtime.Core.Invariant.{Inv}
use qiven_runtime.Core.Proposals.{lookup-emplace_next, handle_proposal-Inv, handle-Inv, drain-Inv}
use qiven_runtime.Core.Timing.{make_core-Inv}
use qiven_runtime.Core.Naming.{
  IsNamed, put-Names, reevaluate-IsNamed, handle_evidence-IsNamed, handle_failure-IsNamed,
}

module _ (f : Foundation) (c : Context) (frozen : IsFrozen c) where
  -- The new transaction, once stored, is dispatched and evaluated under the names of the store.
  open_transaction-IsNamed :
      (key : CorrelationKey) (id : ℕ) (action : ObservedAction) (core : ControlCore) (m : Proposal)
      (intents : IntentSet) (now_ms : ℕ)
      → Inv core
      → let made = opened f c core m intents now_ms in
        IsNamed key id action (store f c core m made.0 made.1)
        → IsNamed key id action (open_transaction f c core m intents now_ms)
  unfolding open_transaction opened next_transaction_id begin_control_transaction dispatch_resolvers
  open_transaction-IsNamed key id action core m intents now_ms inv h =
      let made = opened f c core m intents now_ms in
      let stored = store f c core m made.0 made.1 in
      let at =
        lookup-emplace_next core.next_id core.by_correlation core.transactions
          core.redeliberation_pending inv made.0 in
      let sent : IsNamed key id action (dispatch_resolvers f c stored made.0) =
        put-Names key id action stored.by_correlation stored.transactions made.0.id made.0 _ at refl
          h in
      elim (Bool-cases (
        nat_beq (count_of (lookup made.0.id (dispatch_resolvers f c stored made.0).outstanding))
          0)) [
            | inl quiet ↦ rw quiet (
                reevaluate-IsNamed key id action c (dispatch_resolvers f c stored made.0) made.0.id
                  sent)
            | inr busy ↦ rw busy sent
          ]

  -- What is named stays named when another transaction is stored.
  store-IsNamed :
      (key : CorrelationKey) (id : ℕ) (action : ObservedAction) (core : ControlCore) (m : Proposal)
      (t : ControlTransaction) (spent : List ℕ)
      → IsNamed key id action core
      → IsNamed key id action (store f c core m t spent)
  store-IsNamed key id action core m t spent (known, v, found, first) = (
    ground (
      arith,
      lookup-emplace m.correlation key t.id core.by_correlation,
      key_beq_iff m.correlation key,
    ),
    v,
    ground (arith, lookup-emplace t.id id t core.transactions, nat_beq_iff t.id id),
    first,
  )

  handle_proposal-IsNamed :
      (key : CorrelationKey) (id : ℕ) (action : ObservedAction) (core : ControlCore) (m : Proposal)
      (result : DrainResult) (now_ms : ℕ)
      → Inv core
      → IsNamed key id action core
      → IsNamed key id action (handle_proposal f c core m result now_ms).0
  unfolding handle_proposal repeat_proposal
  handle_proposal-IsNamed key id action core m result now_ms inv h =
      elim (Option-cases (lookup m.correlation core.by_correlation)) [
        | inr (j, e) ↦ elim (Option-cases (lookup j core.transactions)) [
          | inl unknown ↦ rw (e, handle_proposal) (rw (unknown, repeat_proposal) h)
          | inr (t, at) ↦
              elim (Bool-cases
                (bytes_beq (action_digest_of f t.action) (action_digest_of f m.action))) [
                  | inl same ↦ rw (e, handle_proposal) (rw (at, repeat_proposal) (rw same h))
                  | inr other ↦ rw (e, handle_proposal) (rw (at, repeat_proposal) (rw other h))
                ]
        ]
        | inl e ↦
            let (intents, made, _, _, _) = classify_lem c m.action core.facts [] in
            let first = opened f c core m intents now_ms in
            rw (e, handle_proposal)
              (rw (made, handle_proposal)
                (open_transaction-IsNamed key id action core m intents now_ms inv
                  (store-IsNamed key id action core m first.0 first.1 h)))
      ]

  handle-IsNamed :
      (key : CorrelationKey) (id : ℕ) (action : ObservedAction) (core : ControlCore)
      (m : IngressMessage) (result : DrainResult) (now_ms : ℕ)
      → Inv core
      → IsNamed key id action core
      → IsNamed key id action (handle f c core m result now_ms).0
  unfolding handle
  handle-IsNamed key id action core (propose m) result now_ms inv h =
      handle_proposal-IsNamed key id action core m result now_ms inv h
  handle-IsNamed key id action core (evidence_delivery j identity receipt) result now_ms inv h =
      handle_evidence-IsNamed key id action c core j identity receipt result now_ms h
  handle-IsNamed key id action core (resolution_failure j identity) result now_ms inv h =
      handle_failure-IsNamed key id action c core j identity result h

  drain-IsNamed :
      (key : CorrelationKey) (id : ℕ) (action : ObservedAction) (core : ControlCore)
      (result : DrainResult) (arrivals : List Arrival)
      → Inv core
      → IsNamed key id action core
      → IsNamed key id action (drain f c core result arrivals).0
  unfolding drain
  drain-IsNamed key id action core result [] inv h = h
  drain-IsNamed key id action core result (a ∷ rest) inv h =
      let awake : ControlCore = record core { executor = a.progress core.executor } in
      let next = handle f c awake a.message result a.now_ms in
      drain-IsNamed key id action next.0 (record next.1 { processed = next.1.processed + 1 }) rest
        (handle-Inv f c frozen awake a.message result a.now_ms inv)
        (handle-IsNamed key id action awake a.message result a.now_ms inv h)

  -- A proposal under a new key is stored with its action.
  first_proposal :
      (core : ControlCore) (m : Proposal) (result : DrainResult) (now_ms : ℕ)
      → Inv core
      → lookup m.correlation core.by_correlation ≡ none
      → IsNamed m.correlation core.next_id m.action (handle_proposal f c core m result now_ms).0
  unfolding handle_proposal opened next_transaction_id begin_control_transaction
  first_proposal core m result now_ms inv e =
      let (intents, made, _, _, _) = classify_lem c m.action core.facts [] in
      let first = opened f c core m intents now_ms in
      rw (e, handle_proposal)
        (rw (made, handle_proposal)
          (open_transaction-IsNamed m.correlation core.next_id m.action core m intents now_ms inv (
            ground (
              arith,
              lookup-emplace m.correlation m.correlation core.next_id core.by_correlation,
              key_beq_iff m.correlation m.correlation,
              e,
            ),
            first.0,
            lookup-emplace_next core.next_id core.by_correlation core.transactions
                core.redeliberation_pending inv first.0,
            refl,
          )))

-- Under the frozen meaning of the two gates: start a core, drain any messages, and take a proposal
-- under a key that is new to it. Drain any
-- messages after it, and take another proposal under the same key: no second transaction is opened.
-- If its action has the digest of the action that was proposed first, it is counted as a replay and
-- changes nothing; otherwise it is counted as an integrity failure, and only the count of conflicts
-- of that key changes.
pub repeat_proposal_lem :
    (f : Foundation) (c : Context)
    → IsFrozen c
    → (executor : Executor Task) (registry : List ResolverBinding) (cognition : PinnedCognition)
      (facts : StructuralFacts) (before between : List Arrival) (m again : Proposal)
      (first_result later result : DrainResult) (first_ms now_ms : ℕ)
    → let start = (drain f c (make_core executor registry cognition facts) no_messages before).0 in
      let first = (handle_proposal f c start m first_result first_ms).0 in
      let core = (drain f c first later between).0 in
      lookup m.correlation start.by_correlation ≡ none
      → again.correlation ≡ m.correlation
      → (action_digest_of f again.action ≡ action_digest_of f m.action
          → handle_proposal f c core again result now_ms
            ≡ (core, record result { replays = result.replays + 1 }))
        × (action_digest_of f again.action ≢ action_digest_of f m.action
            → handle_proposal f c core again result now_ms ≡ (
              record core {
                conflicts =
                    put m.correlation
                      (count_of (lookup m.correlation core.conflicts) + 1)
                      core.conflicts;
              },
              record result { integrity_failures = result.integrity_failures + 1 },
            ))
unfolding handle_proposal repeat_proposal
repeat_proposal_lem f c frozen executor registry cognition facts before between m again first_result
      later result first_ms now_ms unknown same_key =
    let fresh = make_core executor registry cognition facts in
    let start = (drain f c fresh no_messages before).0 in
    let first = (handle_proposal f c start m first_result first_ms).0 in
    let core = (drain f c first later between).0 in
    let start_inv =
      drain-Inv f c frozen fresh no_messages before
        (make_core-Inv executor registry cognition facts) in
    let (known, t, at, action) =
      drain-IsNamed f c frozen m.correlation start.next_id m.action first later between
        (handle_proposal-Inv f c frozen start m first_result first_ms start_inv)
        (first_proposal f c frozen start m first_result first_ms start_inv unknown) in
    let met : lookup again.correlation core.by_correlation ≡ some start.next_id =
      ap (λ (k : CorrelationKey). lookup k core.by_correlation) same_key ∙ known in
    let own : action_digest_of f t.action ≡ action_digest_of f m.action =
      ap (action_digest_of f) action in
    (
      λ same.
          let equal : bytes_beq (action_digest_of f t.action) (action_digest_of f again.action)
              ≡ true =
            (bytes_beq_iff _ _).1 (own ∙ sym same) in
          rw (met, handle_proposal) (rw (at, repeat_proposal) (rw equal refl)),
      λ differs.
          elim (Bool-cases
            (bytes_beq (action_digest_of f t.action) (action_digest_of f again.action))) [
              | inl equal ↦ absurd (differs (sym ((bytes_beq_iff _ _).0 equal) ∙ own))
              | inr other ↦
                  rw (met, handle_proposal) (rw (at, repeat_proposal) (rw other (rw same_key refl)))
            ],
    )
