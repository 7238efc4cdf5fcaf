-- ===== src/Requirement/Derivation.antt =====
-- The derivation is a union with provenance: nothing is asked for twice, and no origin is lost.
use qiven_runtime.Base.{ℕ, ◌+◌, ◌≡◌, refl, true, List, [], ◌∷◌, All}
use qiven_runtime.Context.{Context, PreparedRequirement}
use qiven_runtime.Intent.{IntentClassification, IntentSet}
use qiven_runtime.Requirement.{
  RequirementIdentity, RequirementInstance, identity_of, merge, merge_prepared, derive_members,
  derive_requirement_set,
}
use qiven_runtime.Requirement.Merging.{
  IsUnique, has_origin, merge-IsUnique, has_origin-merge_old, has_origin-merge_new,
}

abbrev instance_for : ℕ → PreparedRequirement → RequirementInstance
instance_for index p = record {
  identity = identity_of p;
  spec = p.requirement;
  origin_intents = index ∷ [];
}

merge_prepared-IsUnique :
    (index : ℕ) (ps : List PreparedRequirement) (acc : List RequirementInstance)
    → IsUnique acc
    → IsUnique (merge_prepared index ps acc)
unfolding merge_prepared
merge_prepared-IsUnique index [] acc h = h
merge_prepared-IsUnique index (p ∷ ps) acc h =
    merge_prepared-IsUnique index ps (merge (instance_for index p) acc)
      (merge-IsUnique (instance_for index p) acc h)

merge_prepared_old :
    (index : ℕ) (ps : List PreparedRequirement) (acc : List RequirementInstance)
    (k : RequirementIdentity) (i : ℕ)
    → has_origin k i acc ≡ true
    → has_origin k i (merge_prepared index ps acc) ≡ true
unfolding merge_prepared
merge_prepared_old index [] acc k i h = h
merge_prepared_old index (p ∷ ps) acc k i h =
    merge_prepared_old index ps (merge (instance_for index p) acc) k i
      (has_origin-merge_old (instance_for index p) k i acc h)

merge_prepared_new :
    (index : ℕ) (ps : List PreparedRequirement) (acc : List RequirementInstance)
    → All (λ p. has_origin (identity_of p) index (merge_prepared index ps acc) ≡ true) ps
unfolding merge_prepared
merge_prepared_new index [] acc = tt
merge_prepared_new index (p ∷ ps) acc = (
  merge_prepared_old index ps (merge (instance_for index p) acc) (identity_of p) index
      (has_origin-merge_new (instance_for index p) index acc refl),
  merge_prepared_new index ps (merge (instance_for index p) acc),
)

module _ (c : Context) (snapshot : ℕ) where
  derive_members-IsUnique :
      (index : ℕ) (ms : List IntentClassification) (acc : List RequirementInstance)
      → IsUnique acc
      → IsUnique (derive_members c snapshot index ms acc)
  unfolding derive_members
  derive_members-IsUnique index [] acc h = h
  derive_members-IsUnique index (m ∷ ms) acc h =
      derive_members-IsUnique (index + 1) ms _
        (merge_prepared-IsUnique index (c.derive_requirements snapshot m.intent) acc h)

  derive_members_old :
      (index : ℕ) (ms : List IntentClassification) (acc : List RequirementInstance)
      (k : RequirementIdentity) (i : ℕ)
      → has_origin k i acc ≡ true
      → has_origin k i (derive_members c snapshot index ms acc) ≡ true
  unfolding derive_members
  derive_members_old index [] acc k i h = h
  derive_members_old index (m ∷ ms) acc k i h =
      derive_members_old (index + 1) ms _ k i
        (merge_prepared_old index (c.derive_requirements snapshot m.intent) acc k i h)

  -- Each requirement that the frozen semantics derives from the intent at a position has its
  -- instance, with that position among its origins.
  abbrev pub Provenance : ℕ → List IntentClassification → List RequirementInstance → Type 0
  Provenance index [] acc = Unit
  Provenance index (m ∷ ms) acc =
      All (λ p. has_origin (identity_of p) index acc ≡ true)
        (c.derive_requirements snapshot m.intent)
      × Provenance (index + 1) ms acc

  derived_origins :
      (index : ℕ) (rest : List IntentClassification) (ps : List PreparedRequirement)
      (acc : List RequirementInstance) (i : ℕ)
      → All (λ p. has_origin (identity_of p) i acc ≡ true) ps
      → All (λ p. has_origin (identity_of p) i (derive_members c snapshot index rest acc) ≡ true) ps
  derived_origins index rest [] acc i h = tt
  derived_origins index rest (p ∷ ps) acc i h = (
    derive_members_old index rest acc (identity_of p) i h.0,
    derived_origins index rest ps acc i h.1,
  )

  derive_members-Provenance :
      (index : ℕ) (ms : List IntentClassification) (acc : List RequirementInstance)
      → Provenance index ms (derive_members c snapshot index ms acc)
  unfolding derive_members
  derive_members-Provenance index [] acc = tt
  derive_members-Provenance index (m ∷ ms) acc = (
    derived_origins (index + 1) ms (c.derive_requirements snapshot m.intent) _ index
        (merge_prepared_new index (c.derive_requirements snapshot m.intent) acc),
    derive_members-Provenance (index + 1) ms _,
  )

  -- No identity stands twice in the derived set. Each requirement that the frozen semantics derives
  -- from an intent of the set has an instance there, and the intent's position is among the
  -- instance's origins.
  pub derive_requirement_set_lem :
      (intents : IntentSet)
      → IsUnique (derive_requirement_set c snapshot intents)
        × Provenance 0 intents.members (derive_requirement_set c snapshot intents)
  unfolding derive_requirement_set
  derive_requirement_set_lem intents = (
    derive_members-IsUnique 0 intents.members [] tt,
    derive_members-Provenance 0 intents.members [],
  )
