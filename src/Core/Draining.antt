-- ===== src/Core/Draining.antt =====
-- The dispatch on a message's kind, and the drain loop.
use qiven_runtime.Base.{ℕ, ◌+◌, List, [], ◌∷◌}
use qiven_runtime.Context.{Context}
use qiven_runtime.Foundation.{Foundation}
use qiven_runtime.Ingress.{IngressMessage, propose, evidence_delivery, resolution_failure}
use qiven_runtime.Executor.{Executor}
use qiven_runtime.Core.State.{Task, DrainResult, ControlCore}
use qiven_runtime.Core.Handlers.{handle_proposal, handle_evidence, handle_failure}

-- A message that the loop takes, the clock's reading then, and what the workers have done to the
-- executor since the message before.
pub record Arrival : Type 0 where
  pub now_ms : ℕ
  pub progress : Executor Task → Executor Task
  pub message : IngressMessage

module _ (f : Foundation) (c : Context) where
  unfoldable pub handle : ControlCore → IngressMessage → DrainResult → ℕ → ControlCore × DrainResult
  handle core (propose m) result now_ms = handle_proposal f c core m result now_ms
  handle core (evidence_delivery id identity receipt) result now_ms =
      handle_evidence c core id identity receipt result now_ms
  handle core (resolution_failure id identity) result now_ms =
      handle_failure c core id identity result

  -- The arrivals until the queue stays empty.
  unfoldable pub drain : ControlCore → DrainResult → List Arrival → ControlCore × DrainResult
  drain core result [] = (core, result)
  drain core result (a ∷ rest) =
      let (core', result') =
        handle (record core { executor = a.progress core.executor }) a.message result a.now_ms in
      drain core' (record result' { processed = result'.processed + 1 }) rest
