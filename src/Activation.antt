-- ===== src/Activation.antt =====
-- port/activation.cpp and activation.hpp: receipts of injected cognition, and their ledger.
pub mod Ledger
use Prim.Native.Nat.{bit_xor}
use qiven_runtime.Base.{
  ℕ, ◌+◌, Bool, true, false, not, ◌&&◌, ◌||◌, List, [], ◌∷◌, Option, none, some, Bytes, nat_beq,
  nat_eq, bytes_beq, contains, insert, if◌then◌else◌,
}
use qiven_runtime.Foundation.{Foundation}
use qiven_runtime.Identity.{fnv_mix}
use qiven_runtime.Requirement.{RequirementIdentity}
use qiven_runtime.Resolver.{EvidenceType, canonical_record, evidence_beq, is_empty}
use qiven_runtime.Receipt.{is_expired}

pub data ActivationKind : Type 0 where
  session_start prompt_submission task_transition : ActivationKind
  workflow_transition declared_intent : ActivationKind

pub record ActivationReceipt : Type 0 where
  pub kind : ActivationKind
  pub subject : Bytes
  pub canonical_revision : Bytes
  pub injected_digest : Bytes
  pub evidence_type : EvidenceType
  pub generation : ℕ
  pub actor_token : ℕ
  pub session_token : ℕ
  pub injection_event : ℕ
  pub expires_at_ms : ℕ

unfoldable pub complete : ActivationReceipt → Bool
complete r =
    not (is_empty r.subject)
    && not (is_empty r.canonical_revision)
    && not (nat_beq r.actor_token 0)
    && not (nat_beq r.session_token 0)
    && not (nat_beq r.injection_event 0)

-- The policy digest of the source is not read there either.
unfoldable pub valid_for : ActivationReceipt → RequirementIdentity → Bytes → Bytes → ℕ → ℕ → Bool
unfolding complete
valid_for r requirement pinned_revision pinned_digest live_generation now_ms =
    complete r
    && bytes_beq r.subject requirement.subject
    && evidence_beq r.evidence_type canonical_record
    && bytes_beq r.canonical_revision pinned_revision
    && bytes_beq r.injected_digest pinned_digest
    && nat_beq r.generation live_generation
    && not (is_expired r.expires_at_ms now_ms)

unfoldable pub activation_use_identity : Foundation → ActivationReceipt → ℕ
activation_use_identity f r =
    fnv_mix f (fnv_mix f (f.fnv1a64 r.subject f.fnv1a64_offset_basis) r.generation)
      r.injection_event

pub record ActivationLedger : Type 0 where
  pub next_event : ℕ
  pub recorded_events : List ℕ
  pub spent : List ℕ

abbrev pub empty_ledger : ActivationLedger
empty_ledger = record { next_event = 1; recorded_events = []; spent = [] }

-- The event's identity, and the ledger that has recorded it.
unfoldable pub notify_activation : ActivationLedger → ℕ × ActivationLedger
notify_activation l = (
  l.next_event,
  record l {
    next_event = l.next_event + 1;
    recorded_events = insert l.next_event l.recorded_events;
  },
)

unfoldable pub mint_receipt : ActivationLedger → ActivationReceipt → Option ActivationReceipt
mint_receipt l requested =
    if not (complete requested) || not (contains requested.injection_event l.recorded_events)
    then none
    else some requested

unfoldable pub try_spend :
    Foundation → ActivationLedger → ActivationReceipt → ActivationLedger × Bool
try_spend f l r =
    let use_ = activation_use_identity f r in
    if contains use_ l.spent then (l, false) else (record l { spent = insert use_ l.spent }, true)

pub is_spent : Foundation → ActivationLedger → ActivationReceipt → Bool
is_spent f l r = contains (activation_use_identity f r) l.spent
