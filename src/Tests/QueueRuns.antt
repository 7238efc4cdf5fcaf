-- ===== src/Tests/QueueRuns.antt =====
-- Runs of the ingress queue, of the classification and of the minter.
use qiven_runtime.Base.{ℕ, ◌≡◌, refl, ◌≢◌, true, false, [], ◌∷◌, List, some, arith}
use qiven_runtime.Ingress.{
  BoundedQueue, QueueReach, here, next, pushes, closes, try_push, pop, close,
}
use qiven_runtime.Ingress.Bounds.{IsBounded, QueueReach-IsBounded}
use qiven_runtime.Identity.{next_id}
use qiven_runtime.Identity.Minting.{next_id_collides}
use qiven_runtime.Intent.{mechanical, declared, IntentClassification, IntentSet, classify}
use qiven_runtime.Intent.Sets.{IsDistinct}
use qiven_runtime.Intent.Floor.{Represents, classify_lem}
use qiven_runtime.Tests.Fixtures.{toy, toy-IsLawful, toy_context, action, facts, plain_intent}

abbrev queue : BoundedQueue ℕ
queue = record { capacity = 2; messages = 4 ∷ []; closed = false }

abbrev popped : BoundedQueue ℕ
popped = record queue { messages = [] }

pops_four : pop queue ≡ some (4, popped)
unfolding pop
pops_four = refl

abbrev filled : BoundedQueue ℕ
filled = (try_push (try_push queue 5).0 6).0

fills : QueueReach queue (close filled)
fills = next (next (next here (pushes 5)) (pushes 6)) closes

QueueReach-IsBounded_example : IsBounded (close filled)
QueueReach-IsBounded_example = QueueReach-IsBounded (omega arith) fills

taken : (try_push queue 5).1 ≡ true
unfolding try_push
taken = refl

abbrev stated : List IntentClassification
stated =
    record { intent = plain_intent; basis = mechanical }
    ∷ record { intent = record plain_intent { kind = 4 }; basis = declared }
    ∷ record { intent = plain_intent; basis = mechanical }
    ∷ []

classify_lem_example :
    (s : IntentSet) × (classify toy_context action facts (plain_intent ∷ []) ≡ some s)
    × Represents toy_context action facts (plain_intent ∷ []) s
    × IsDistinct s.members
    × (s.members ≢ [])
classify_lem_example = classify_lem toy_context action facts (plain_intent ∷ [])

next_id_collides_example : (next_id toy 1700000000000 65).0 ≡ (next_id toy 1700000000000 1).0
next_id_collides_example = next_id_collides toy toy-IsLawful 1700000000000 1 (omega arith)
