-- ===== src/Transaction/Gates.antt =====
-- What the two gates let through.
use qiven_runtime.Base.{◌≡◌, ◌↔◌, true, false, arith, nat_beq_iff}
use qiven_runtime.Context.{Context}
use qiven_runtime.Transaction.{
  ControlTransaction, is_terminal, judgment_failed, execution_failed, evaluate_before_judgment,
  evaluate_before_execution, disposition_for, allow, await, re_deliberate,
}

-- Both gates in a row, as the core runs them.
abbrev pub both_gates : Context → ControlTransaction → ControlTransaction
both_gates c t = (evaluate_before_execution c (evaluate_before_judgment c t).0).0

-- A transaction that has not ended is allowed by the two gates exactly when preparation did not
-- fail and both frozen predicates hold of its packet.
pub both_gates_allow :
    (c : Context) (t : ControlTransaction)
    → is_terminal t.phase ≡ false
    → (disposition_for (both_gates c t).phase ≡ allow) ↔ (
        (t.packet.failure ≡ 0)
        × (c.ready_for_judgment t.packet ≡ true)
        × (c.ready_for_execution t.packet ≡ true))
unfolding evaluate_before_judgment evaluate_before_execution disposition_for
both_gates_allow c t open_ = ground (arith, nat_beq_iff t.packet.failure 0)

-- Without a preparation failure such a transaction must deliberate again exactly when the judgment
-- predicate does not hold and no blocking judgment requirement has failed; and it waits exactly when
-- only the execution predicate does not hold and no blocking requirement has failed.
pub both_gates_hold :
    (c : Context) (t : ControlTransaction)
    → is_terminal t.phase ≡ false
    → t.packet.failure ≡ 0
    → ((disposition_for (both_gates c t).phase ≡ re_deliberate) ↔ (
        (c.ready_for_judgment t.packet ≡ false) × (judgment_failed t.packet.requirements ≡ false)))
      × ((disposition_for (both_gates c t).phase ≡ await) ↔ (
          (c.ready_for_judgment t.packet ≡ true)
          × (c.ready_for_execution t.packet ≡ false)
          × (execution_failed t.packet.requirements ≡ false)))
unfolding evaluate_before_judgment evaluate_before_execution disposition_for
both_gates_hold c t open_ none_failed = ground (arith, nat_beq_iff t.packet.failure 0)
