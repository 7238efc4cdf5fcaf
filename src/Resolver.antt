-- ===== src/Resolver.antt =====
-- resolver.cpp and resolver.hpp: the registry of accepted bindings and the evidence receipts.
pub mod Registry
use Prim.Native.Nat.{bit_and, bit_xor}
use qiven_runtime.Base.{
  ℕ, ◌+◌, ◌*◌, ◌/◌, ◌%◌, ◌^◌, ◌≡◌, ◌↔◌, Bool, true, false, not, ◌&&◌, ◌||◌, List, [], ◌∷◌, ◌++◌,
  Option, none, some, arith, Bytes, length, any, ltb, nat_beq, bytes_beq, bytes_beq_iff,
  HasEquality, if◌then◌else◌,
}
use qiven_runtime.Base.Sorts.{lex_le, sort}
use qiven_runtime.Context.{Context}
use qiven_runtime.Foundation.{Foundation, le_bytes}
use qiven_runtime.Identity.{u64_mod, fnv_mix}
use qiven_runtime.Requirement.{RequirementIdentity, identity_beq, bool_beq}

-- Enumerators in the order of the source; the number is `static_cast` of the enumerator.
pub data EvidenceType : Type 0 where
  attributable_search canonical_record live_observation : EvidenceType
  tool_contract_document mechanical_check_receipt typed_human_handoff : EvidenceType

abbrev pub evidence_code : EvidenceType → ℕ
evidence_code attributable_search = 0
evidence_code canonical_record = 1
evidence_code live_observation = 2
evidence_code tool_contract_document = 3
evidence_code mechanical_check_receipt = 4
evidence_code typed_human_handoff = 5

pub data TrustDomain : Type 0 where
  mechanism canonical human : TrustDomain

pub data ResolverType : Type 0 where
  search_type recall_type observation_type : ResolverType
  contract_type check_type handoff_type : ResolverType

abbrev pub type_code : ResolverType → ℕ
type_code search_type = 0
type_code recall_type = 1
type_code observation_type = 2
type_code contract_type = 3
type_code check_type = 4
type_code handoff_type = 5

pub record ResolverIdentity : Type 0 where
  pub name : Bytes
  pub version : ℕ

-- Enumerators are compared by their numbers.
unfoldable pub evidence_beq : EvidenceType → EvidenceType → Bool
evidence_beq a b = nat_beq (evidence_code a) (evidence_code b)

pub evidence_beq_iff : (a b : EvidenceType) → (evidence_beq a b ≡ true) ↔ (a ≡ b)
unfolding evidence_beq
evidence_beq_iff a b = ground arith

unfoldable pub type_beq : ResolverType → ResolverType → Bool
type_beq a b = nat_beq (type_code a) (type_code b)

pub type_beq_iff : (a b : ResolverType) → (type_beq a b ≡ true) ↔ (a ≡ b)
unfolding type_beq
type_beq_iff a b = ground arith

-- `ResolverIdentity::operator==`
unfoldable pub resolver_beq : ResolverIdentity → ResolverIdentity → Bool
resolver_beq a b = bytes_beq a.name b.name && nat_beq a.version b.version

pub resolver_beq_iff : (a b : ResolverIdentity) → (resolver_beq a b ≡ true) ↔ (a ≡ b)
unfolding resolver_beq
resolver_beq_iff a b = ground (arith, bytes_beq_iff a.name b.name)

pub record ResolverKey : Type 0 where
  pub kind : ℕ
  pub resolver_type : ResolverType
  pub version : ℕ
  pub cognition_view : Bytes

pub record ResolverBinding : Type 0 where
  pub key : ResolverKey
  pub resolver : ResolverIdentity
  pub accepted_evidence : EvidenceType
  pub trust : TrustDomain

unfoldable pub same_key : ResolverKey → ResolverKey → Bool
same_key a b =
    nat_beq a.kind b.kind
    && type_beq a.resolver_type b.resolver_type
    && nat_beq a.version b.version
    && bytes_beq a.cognition_view b.cognition_view

pub same_key_iff : (a b : ResolverKey) → (same_key a b ≡ true) ↔ (a ≡ b)
unfolding same_key
same_key_iff a b = ground (
  arith,
  type_beq_iff a.resolver_type b.resolver_type,
  bytes_beq_iff a.cognition_view b.cognition_view,
)

-- `RequirementResolverRegistry::find` over its bindings.
unfoldable pub find : List ResolverBinding → ResolverKey → Option ResolverBinding
find [] key = none
find (b ∷ rest) key = if same_key b.key key then some b else find rest key

-- `find_for_kind_and_view`
unfoldable pub find_for_kind_and_view : List ResolverBinding → ℕ → Bytes → List ResolverBinding
find_for_kind_and_view [] kind view = []
find_for_kind_and_view (b ∷ rest) kind view =
    let found = find_for_kind_and_view rest kind view in
    if nat_beq b.key.kind kind && bytes_beq b.key.cognition_view view then b ∷ found else found

pub record ResolverRegistry : Type 0 where
  pub bindings : List ResolverBinding
  pub revision : ℕ

-- The two failures of `Builder::build`, with their codes 20 and 21.
pub data BuildError : Type 0 where
  incomplete_binding duplicate_key : BuildError

pub data BuildResult : Type 0 where
  built : ResolverRegistry → BuildResult
  refused : BuildError → BuildResult

unfoldable pub is_empty : Bytes → Bool
is_empty [] = true
is_empty (x ∷ xs) = false

unfoldable pub is_incomplete : ResolverBinding → Bool
is_incomplete b =
    is_empty b.resolver.name || nat_beq b.key.version 0 || is_empty b.key.cognition_view

-- The loop of `build`: an entry is tested before the later entries are compared with it.
unfoldable pub first_error : List ResolverBinding → Option BuildError
first_error [] = none
first_error (b ∷ rest) =
    if is_incomplete b
    then some incomplete_binding
    else if any (λ (o : ResolverBinding). same_key b.key o.key) rest
    then some duplicate_key
    else first_error rest

module _ (f : Foundation) where
  unfoldable pub revision_of : List ResolverBinding → ℕ → ℕ
  revision_of [] seed = seed
  revision_of (b ∷ rest) seed =
      let named = f.fnv1a64 b.resolver.name seed in
      let keyed =
        fnv_mix f (fnv_mix f (fnv_mix f named b.resolver.version) b.key.kind)
          (type_code b.key.resolver_type) in
      revision_of rest
        (fnv_mix f (f.fnv1a64 b.key.cognition_view keyed) (evidence_code b.accepted_evidence))

  -- The order of `std::sort` in `build`: by view, then by kind. The source leaves the order of
  -- entries that agree in both open; here they keep that of the list.
  unfoldable pub binding_le : ResolverBinding → ResolverBinding → Bool
  binding_le a b =
      if bytes_beq a.key.cognition_view b.key.cognition_view
      then not (ltb b.key.kind a.key.kind)
      else lex_le a.key.cognition_view b.key.cognition_view

  unfoldable pub build : List ResolverBinding → BuildResult
  unfolding first_error
  build entries = elim (first_error entries) [
    | some e ↦ refused e
    | none ↦ built (record {
      bindings = sort binding_le entries;
      revision = revision_of entries f.fnv1a64_offset_basis;
    })
  ]
