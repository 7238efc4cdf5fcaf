-- ===== src/Requirement.antt =====
-- requirement.cpp: the derived requirements of an intent set, merged by identity with provenance.
pub mod Merging
pub mod Derivation
use qiven_runtime.Base.{
  ℕ, ◌+◌, ◌≡◌, refl, ◌↔◌, Bool, true, false, ◌&&◌, ◌||◌, List, [], ◌∷◌, ◌++◌, Option, none, some,
  arith, Bytes, nat_beq, nat_eq, HasEquality, ◌==◌, bytes_beq, bytes_beq_iff, contains,
  if◌then◌else◌,
}
use qiven_runtime.Context.{
  Context, Boundary, before_judgment, before_execution, CognitiveRequirement, PreparedRequirement,
}
use qiven_runtime.Intent.{IntentClassification, IntentSet}

pub record RequirementIdentity : Type 0 where
  pub kind : ℕ
  pub subject : Bytes
  pub boundary : Boundary
  pub blocking : Bool

abbrev pub boundary_beq : Boundary → Boundary → Bool
boundary_beq before_judgment before_judgment = true
boundary_beq before_execution before_execution = true
boundary_beq _ _ = false

abbrev pub bool_beq : Bool → Bool → Bool
bool_beq true b = b
bool_beq false true = false
bool_beq false false = true

unfoldable pub identity_beq : RequirementIdentity → RequirementIdentity → Bool
identity_beq a b =
    nat_beq a.kind b.kind
    && bytes_beq a.subject b.subject
    && boundary_beq a.boundary b.boundary
    && bool_beq a.blocking b.blocking

pub identity_beq_iff : (a b : RequirementIdentity) → (identity_beq a b ≡ true) ↔ (a ≡ b)
unfolding identity_beq
identity_beq_iff a b = ground (arith, bytes_beq_iff a.subject b.subject)

instance abbrev pub identity_eq : HasEquality RequirementIdentity
identity_eq = record { is_same = identity_beq; is_same_iff = identity_beq_iff }

pub record RequirementInstance : Type 0 where
  pub identity : RequirementIdentity
  pub spec : CognitiveRequirement
  pub origin_intents : List ℕ

-- The identity that the code spells out field by field wherever it meets a prepared requirement.
abbrev pub identity_of : PreparedRequirement → RequirementIdentity
identity_of p = record {
  kind = p.requirement.kind;
  subject = p.requirement.subject;
  boundary = p.boundary;
  blocking = p.requirement.blocking;
}

-- `RequirementSet::find`
unfoldable pub find : RequirementIdentity → List RequirementInstance → Option RequirementInstance
find identity [] = none
find identity (i ∷ rest) = if i.identity == identity then some i else find identity rest

unfoldable pub add_origins : List ℕ → List ℕ → List ℕ
add_origins known [] = known
add_origins known (o ∷ rest) =
    add_origins (if contains o known then known else known ++ o ∷ []) rest

-- `RequirementSet::merge`
unfoldable pub merge : RequirementInstance → List RequirementInstance → List RequirementInstance
merge new [] = new ∷ []
merge new (i ∷ rest) =
    if i.identity == new.identity
    then record i { origin_intents = add_origins i.origin_intents new.origin_intents } ∷ rest
    else i ∷ merge new rest

unfoldable pub merge_prepared :
    ℕ → List PreparedRequirement → List RequirementInstance → List RequirementInstance
merge_prepared index [] acc = acc
merge_prepared index (p ∷ rest) acc = merge_prepared index rest (
    merge (record { identity = identity_of p; spec = p.requirement; origin_intents = index ∷ [] })
      acc)

unfoldable pub derive_members :
    Context
    → ℕ
    → ℕ
    → List IntentClassification
    → List RequirementInstance
    → List RequirementInstance
derive_members c snapshot index [] acc = acc
derive_members c snapshot index (m ∷ rest) acc =
    derive_members c snapshot (index + 1) rest
      (merge_prepared index (c.derive_requirements snapshot m.intent) acc)

-- `derive_requirement_set`
unfoldable pub derive_requirement_set : Context → ℕ → IntentSet → List RequirementInstance
derive_requirement_set c snapshot intents = derive_members c snapshot 0 intents.members []
