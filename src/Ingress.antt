-- ===== src/Ingress.antt =====
-- ingress.cpp and ingress.hpp: the bounded queue between producers and the control thread. Each
-- operation runs under the queue's lock, so it is one step; a wait that times out is a `pop` on an
-- empty queue. A capacity of 0 is refused by the constructor.
pub mod Bounds
use qiven_runtime.Base.{
  ℕ, ◌≡◌, Bool, true, false, not, ◌||◌, List, [], ◌∷◌, ◌++◌, Option, none, some, length, leb,
  nat_beq, if◌then◌else◌,
}
use qiven_runtime.Activation.{ActivationReceipt}
use qiven_runtime.Identity.{CorrelationKey}
use qiven_runtime.Intent.{ObservedAction}
use qiven_runtime.Requirement.{RequirementIdentity}
use qiven_runtime.Receipt.{EvidenceReceipt}

-- The payload of `Kind::Proposal`.
pub record Proposal : Type 0 where
  pub correlation : CorrelationKey
  pub action : ObservedAction
  pub causal_parent : Option ℕ
  pub activation_receipts : List ActivationReceipt

-- One constructor for each `Kind`, with the fields that the kind uses.
pub data IngressMessage : Type 0 where
  propose : Proposal → IngressMessage
  evidence_delivery : ℕ → RequirementIdentity → EvidenceReceipt → IngressMessage
  resolution_failure : ℕ → RequirementIdentity → IngressMessage

pub record BoundedQueue {ℓ} (A : Type ℓ) : Type ℓ where
  pub capacity : ℕ
  pub messages : List A
  pub closed : Bool

module _ {ℓ} {A : Type ℓ} where
  unfoldable pub make_queue : ℕ → Option (BoundedQueue A)
  make_queue capacity =
      if nat_beq capacity 0
      then none
      else some (record { capacity = capacity; messages = []; closed = false })

  unfoldable pub try_push : BoundedQueue A → A → BoundedQueue A × Bool
  try_push q m =
      if q.closed || leb q.capacity (length q.messages)
      then (q, false)
      else (record q { messages = q.messages ++ m ∷ [] }, true)

  -- The front, and the rest.
  pop_front : BoundedQueue A → List A → Option (A × BoundedQueue A)
  pop_front q [] = none
  pop_front q (m ∷ rest) = some (m, record q { messages = rest })

  unfoldable pub pop : BoundedQueue A → Option (A × BoundedQueue A)
  unfolding pop_front
  pop q = pop_front q q.messages

  unfoldable pub close : BoundedQueue A → BoundedQueue A
  close q = record q { closed = true }

  -- What producers and the consumer do, in the order in which they take the lock.
  pub data QueueStep (q : BoundedQueue A) : BoundedQueue A → Type ℓ where
    pushes : (m : A) → QueueStep q (try_push q m).0
    pops : (m : A) (r : BoundedQueue A) → pop q ≡ some (m, r) → QueueStep q r
    closes : QueueStep q (close q)

  pub data QueueReach (q : BoundedQueue A) : BoundedQueue A → Type ℓ where
    here : QueueReach q q
    next : {r s : BoundedQueue A} → QueueReach q r → QueueStep r s → QueueReach q s
