-- ===== src/Context.antt =====
-- The types and functions of qiven-context (the frozen draft semantics, another repository) that
-- the runtime uses. An enum that the runtime only compares or writes out is its number; the
-- boundary and the status are data, since the code branches on them. `IsFrozen` states the
-- documented meaning of the two gates (docs/architecture/runtime-component-adl.md, 31 and 32).
use qiven_runtime.Base.{ℕ, ◌≡◌, Bool, true, Option, List, Bytes, All}

pub record FailureFingerprint : Type 0 where
  pub operation : Bytes
  pub tool : Bytes
  pub category : Bytes
  pub stable_message : Bytes
  pub exit_code : ℕ

pub record ActionIntent : Type 0 where
  pub kind : ℕ
  pub claim_class : ℕ
  pub tool : Bytes
  pub operation : Bytes
  pub concepts : List Bytes
  pub files : List Bytes
  pub prior_failure : Option FailureFingerprint

pub data Boundary : Type 0 where
  before_judgment before_execution : Boundary

pub data Status : Type 0 where
  pending satisfied failed : Status

pub record CognitiveRequirement : Type 0 where
  pub kind : ℕ
  pub subject : Bytes
  pub blocking : Bool

pub record PreparedRequirement : Type 0 where
  pub requirement : CognitiveRequirement
  pub boundary : Boundary
  pub status : Status
  pub evidence : List Bytes

-- The failure's number; 0 is `PreparationFailure::None`.
pub record PreparationPacket : Type 0 where
  pub requirements : List PreparedRequirement
  pub failure : ℕ

pub record Context : Type 0 where
  pub begin_task : ℕ
  pub make_canonical_claim : ℕ
  pub modify_public_api : ℕ
  pub modify_referenced_contract : ℕ
  pub invoke_tool : ℕ
  pub retry_failure : ℕ
  pub canonical_fact : ℕ
  pub local_recall : ℕ
  pub boundary_code : Boundary → ℕ
  pub status_code : Status → ℕ
  pub default_intent : ActionIntent
  pub default_fingerprint : FailureFingerprint
  pub normalize_failure_text : Bytes → Bytes
  -- `failure` of a packet as it is constructed.
  pub default_failure : ℕ
  -- A pinned snapshot is named by its number.
  pub derive_requirements : ℕ → ActionIntent → List PreparedRequirement
  pub ready_for_judgment : PreparationPacket → Bool
  pub ready_for_execution : PreparationPacket → Bool

-- A blocking requirement at the judgment boundary is satisfied; so is every blocking one.
abbrev pub JudgmentMet : PreparedRequirement → Type 0
JudgmentMet p = p.requirement.blocking ≡ true → p.boundary ≡ before_judgment → p.status ≡ satisfied

abbrev pub ExecutionMet : PreparedRequirement → Type 0
ExecutionMet p = p.requirement.blocking ≡ true → p.status ≡ satisfied

pub record IsFrozen (c : Context) : Type 0 where
  pub judgment_gate :
      (p : PreparationPacket) → c.ready_for_judgment p ≡ true → All JudgmentMet p.requirements
  pub execution_gate :
      (p : PreparationPacket) → c.ready_for_execution p ≡ true → All ExecutionMet p.requirements
