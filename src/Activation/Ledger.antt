-- ===== src/Activation/Ledger.antt =====
-- What a receipt of injected cognition may satisfy, and how often.
use qiven_runtime.Base.{
  ℕ, ◌+◌, ◌≤◌, ◌≡◌, ◌≢◌, ◌↔◌, sym, ap, ◌∙◌, arith, true, false, ◌&&◌, ◌||◌, List, [], ◌∷◌, some,
  nat_beq, nat_beq_iff, nat_eq, contains, contains-insert, if◌then◌else◌,
}
use qiven_runtime.Foundation.{Foundation}
use qiven_runtime.Receipt.Validation.{is_empty_iff}
use qiven_runtime.Activation.{
  ActivationReceipt, complete, activation_use_identity, ActivationLedger, mint_receipt, try_spend,
}

pub record IsComplete (r : ActivationReceipt) : Type 0 where
  pub has_subject : r.subject ≢ []
  pub has_revision : r.canonical_revision ≢ []
  pub has_actor : r.actor_token ≢ 0
  pub has_session : r.session_token ≢ 0
  pub has_event : r.injection_event ≢ 0

complete_iff : (r : ActivationReceipt) → (complete r ≡ true) ↔ IsComplete r
unfolding complete
complete_iff r = (
  λ h. record {
    has_subject = ground (arith, is_empty_iff r.subject);
    has_revision = ground (arith, is_empty_iff r.canonical_revision);
    has_actor = ground arith;
    has_session = ground arith;
    has_event = ground arith;
  },
  λ h. ground (
    arith,
    is_empty_iff r.subject,
    is_empty_iff r.canonical_revision,
    h.has_subject,
    h.has_revision,
    h.has_actor,
    h.has_session,
    h.has_event,
  ),
)

-- A ledger mints a receipt, as it was asked for, exactly if the receipt is complete and names an
-- event that the ledger has recorded.
pub mint_receipt_iff :
    (l : ActivationLedger) (asked minted : ActivationReceipt)
    → (mint_receipt l asked ≡ some minted) ↔ (
        IsComplete asked
        × (contains asked.injection_event l.recorded_events ≡ true)
        × (minted ≡ asked))
unfolding mint_receipt
mint_receipt_iff l asked minted = (
  λ h. ((complete_iff asked).0 (ground (arith, h)), ground (arith, h), ground (arith, h)),
  λ h. rw ((complete_iff asked).1 h.0, h.1) (ap some (sym h.2)),
)

-- How many of the receipts, presented one after the other, are spent under the use identity.
unfoldable pub spendings : Foundation → ActivationLedger → ℕ → List ActivationReceipt → ℕ
spendings f l use_ [] = 0
spendings f l use_ (r ∷ rest) =
    let (l', taken) = try_spend f l r in
    (if nat_beq (activation_use_identity f r) use_ && taken then 1 else 0)
    + spendings f l' use_ rest

try_spend-spent :
    (f : Foundation) (l : ActivationLedger) (r : ActivationReceipt) (use_ : ℕ)
    → contains use_ (try_spend f l r).0.spent
      ≡ (nat_beq (activation_use_identity f r) use_ || contains use_ l.spent)
unfolding try_spend
try_spend-spent f l r use_ = ground (
  arith,
  contains-insert (activation_use_identity f r) use_ l.spent,
  nat_beq_iff (activation_use_identity f r) use_,
)

try_spend_taken :
    (f : Foundation) (l : ActivationLedger) (r : ActivationReceipt)
    → (try_spend f l r).1 ≡ true
    → contains (activation_use_identity f r) l.spent ≡ false
unfolding try_spend
try_spend_taken f l r h = ground arith

-- Whatever receipts are presented, each use identity is spent at most once, and never if it was
-- spent before.
pub spendings_at_most_once :
    (f : Foundation) (l : ActivationLedger) (use_ : ℕ) (receipts : List ActivationReceipt)
    → spendings f l use_ receipts + (if contains use_ l.spent then 1 else 0) ≤ 1
unfolding spendings
spendings_at_most_once f l use_ [] = ground arith
spendings_at_most_once f l use_ (r ∷ rest) = ground (
  arith,
  try_spend-spent f l r use_,
  spendings_at_most_once f (try_spend f l r).0 use_ rest,
  λ (same : activation_use_identity f r ≡ use_) (h : (try_spend f l r).1 ≡ true).
      (sym (ap (λ (i : ℕ). contains i l.spent) same) ∙ try_spend_taken f l r h),
  nat_beq_iff (activation_use_identity f r) use_,
)
