-- ===== src/Ingress/Bounds.antt =====
-- The queue never grows past its capacity, refuses loudly, and keeps the order of arrival.
use qiven_runtime.Base.{
  ◌≤◌, ◌<◌, ◌≡◌, ap, ◌↔◌, true, false, [], ◌∷◌, ◌++◌, some, arith, length, length-append,
}
use qiven_runtime.Ingress.{
  BoundedQueue, QueueStep, pushes, pops, closes, QueueReach, here, next, try_push, pop, close,
}

module _ {ℓ} {A : Type ℓ} where
  abbrev pub IsBounded : BoundedQueue A → Type 0
  IsBounded q = length q.messages ≤ q.capacity

  pop_inv :
      (q r : BoundedQueue A) (m : A)
      → pop q ≡ some (m, r)
      → (q.messages ≡ m ∷ r.messages) × (r.capacity ≡ q.capacity) × (r.closed ≡ q.closed)
  unfolding pop
  pop_inv q r m h = ground arith

  QueueStep-IsBounded : {q r : BoundedQueue A} → QueueStep q r → IsBounded q → IsBounded r
  unfolding try_push close
  QueueStep-IsBounded {q} (pushes m) h = ground (arith, length-append q.messages (m ∷ []))
  QueueStep-IsBounded {q} (pops m r e) h =
      let inv = pop_inv q r m e in omega (arith, ap length inv.0, inv.1)
  QueueStep-IsBounded closes h = h

  -- However producers, the consumer and a close interleave, a queue within its capacity stays
  -- within it.
  pub QueueReach-IsBounded : {q r : BoundedQueue A} → IsBounded q → QueueReach q r → IsBounded r
  QueueReach-IsBounded h here = h
  QueueReach-IsBounded h (next reach s) = QueueStep-IsBounded s (QueueReach-IsBounded h reach)

  -- A push is taken exactly when the queue is open and has room, and then the message stands behind
  -- all others; a refused push changes nothing.
  pub try_push_lem :
      (q : BoundedQueue A) (m : A)
      → (((try_push q m).1 ≡ true) ↔ ((q.closed ≡ false) × (length q.messages < q.capacity)))
        × ((try_push q m).1 ≡ true → (try_push q m).0.messages ≡ q.messages ++ m ∷ [])
        × ((try_push q m).1 ≡ false → (try_push q m).0 ≡ q)
  unfolding try_push
  try_push_lem q m = (ground arith, ground arith, ground arith)

  -- Messages leave in the order in which they were taken in: a push onto a queue that is not empty
  -- does not change what a pop takes.
  pub pop-try_push :
      (q r : BoundedQueue A) (a m : A)
      → pop q ≡ some (a, r)
      → (try_push q m).1 ≡ true
      → (s : BoundedQueue A) × (pop (try_push q m).0 ≡ some (a, s))
        × (s.messages ≡ r.messages ++ m ∷ [])
  unfolding pop try_push
  pop-try_push q r a m h k =
      (record q { messages = r.messages ++ m ∷ [] }, ground arith, ground arith)
