-- ===== src/Intent.antt =====
-- intent.cpp and observed_action.cpp: intent sets and the deterministic classification.
pub mod Sets
pub mod Floor
use qiven_runtime.Base.{
  ℕ, ◌≡◌, refl, Bool, true, false, not, ◌&&◌, ◌||◌, List, [], ◌∷◌, ◌++◌, map, Option, none, some,
  arith, Bytes, length, any, nat_beq, bytes_beq, bytes_beq_refl, if◌then◌else◌,
}
use qiven_runtime.Base.Sorts.{lex_le, sort, texts_beq, texts_beq_refl}
use qiven_runtime.Context.{Context, ActionIntent, FailureFingerprint}
use qiven_runtime.Foundation.{Foundation}
use qiven_runtime.Identity.{CorrelationKey}

pub record ObservedAction : Type 0 where
  pub adapter : ℕ
  pub session : ℕ
  pub actor : ℕ
  pub capability : ℕ
  pub operation : Bytes
  pub target : Bytes
  pub argument_digest : Bytes
  pub argument_blob : Bytes

pub observe_action : Foundation → ℕ → ℕ → ℕ → ℕ → Bytes → Bytes → Bytes → ObservedAction
observe_action f adapter session actor capability operation target arguments = record {
  adapter = adapter;
  session = session;
  actor = actor;
  capability = capability;
  operation = operation;
  target = target;
  argument_digest = f.sha256 arguments;
  argument_blob = arguments;
}

unfoldable pub correlation_key : ℕ → ObservedAction → ℕ → CorrelationKey
correlation_key generation action harness_action = record {
  generation = generation;
  adapter = action.adapter;
  session = action.session;
  actor = action.actor;
  action = harness_action;
}

pub data Basis : Type 0 where
  mechanical structural declared judgment : Basis

abbrev pub basis_code : Basis → ℕ
basis_code mechanical = 0
basis_code structural = 1
basis_code declared = 2
basis_code judgment = 3

pub record IntentClassification : Type 0 where
  pub intent : ActionIntent
  pub basis : Basis

-- Built by `make_intent_set` only.
pub record IntentSet : Type 0 where
  pub members : List IntentClassification

same_string_set : List Bytes → List Bytes → Bool
same_string_set left right =
    nat_beq (length left) (length right) && texts_beq (sort lex_le left) (sort lex_le right)

same_failure : Option FailureFingerprint → Option FailureFingerprint → Bool
same_failure none none = true
same_failure (some l) (some r) =
    bytes_beq l.operation r.operation
    && bytes_beq l.tool r.tool
    && bytes_beq l.category r.category
    && bytes_beq l.stable_message r.stable_message
    && nat_beq l.exit_code r.exit_code
same_failure _ _ = false

unfoldable pub same_projection : ActionIntent → ActionIntent → Bool
unfolding same_string_set same_failure
same_projection left right =
    nat_beq left.kind right.kind
    && nat_beq left.claim_class right.claim_class
    && bytes_beq left.tool right.tool
    && bytes_beq left.operation right.operation
    && same_string_set left.concepts right.concepts
    && same_string_set left.files right.files
    && same_failure left.prior_failure right.prior_failure

pub same_projection_refl : (i : ActionIntent) → same_projection i i ≡ true
unfolding same_projection
same_projection_refl i = ground (
  arith,
  bytes_beq_refl i.tool,
  bytes_beq_refl i.operation,
  texts_beq_refl (sort lex_le i.concepts),
  texts_beq_refl (sort lex_le i.files),
  same_failure_refl i.prior_failure,
)
  where
    same_failure_refl : (o : Option FailureFingerprint) → same_failure o o ≡ true
    same_failure_refl none = refl
    same_failure_refl (some l) = ground (
      arith,
      bytes_beq_refl l.operation,
      bytes_beq_refl l.tool,
      bytes_beq_refl l.category,
      bytes_beq_refl l.stable_message,
    )

-- The test for a duplicate in `make_intent_set`, and the member test of `IntentSet::operator==`.
unfoldable pub same_member : IntentClassification → IntentClassification → Bool
same_member kept member =
    nat_beq (basis_code kept.basis) (basis_code member.basis)
    && same_projection kept.intent member.intent

pub contains_kind : IntentSet → ℕ → Bool
contains_kind s kind = any (λ (m : IntentClassification). nat_beq m.intent.kind kind) s.members

same_members : List IntentClassification → List IntentClassification → Bool
same_members [] [] = true
same_members (x ∷ xs) (y ∷ ys) = same_member x y && same_members xs ys
same_members _ _ = false

pub intent_set_beq : IntentSet → IntentSet → Bool
unfolding same_members
intent_set_beq a b = same_members a.members b.members

-- The loop of `make_intent_set` over what it has kept so far.
unfoldable pub dedupe :
    List IntentClassification → List IntentClassification → List IntentClassification
dedupe kept [] = kept
dedupe kept (m ∷ rest) =
    dedupe (if any (λ k. same_member k m) kept then kept else kept ++ m ∷ []) rest

-- `none` is the typed failure on no members.
unfoldable pub make_intent_set : List IntentClassification → Option IntentSet
make_intent_set [] = none
make_intent_set (m ∷ rest) = some (record { members = dedupe [] (m ∷ rest) })

pub data OperationClass : Type 0 where
  observe file_system_read file_system_write process_launch : OperationClass
  network_access claim_channel : OperationClass

pub record CapabilityDescriptor : Type 0 where
  pub id : ℕ
  pub adapter : ℕ
  pub operation_class : OperationClass
  pub can_mutate_world : Bool
  pub can_publish_claims : Bool
  pub requires_execution_authority : Bool

pub record StructuralFacts : Type 0 where
  pub capability : CapabilityDescriptor
  pub target_is_public_contract : Bool

abbrev pub is_process_launch : OperationClass → Bool
is_process_launch process_launch = true
is_process_launch _ = false

module _ (c : Context) where
  abbrev claim_intent : ObservedAction → IntentClassification
  claim_intent action = record {
    intent = record c.default_intent {
      kind = c.make_canonical_claim;
      claim_class = c.canonical_fact;
      tool = action.operation;
    };
    basis = mechanical;
  }

  -- ModifyPublicAPI on a public contract, and the dependent sweep on any other target.
  abbrev mutation_intent : ObservedAction → StructuralFacts → IntentClassification
  mutation_intent action facts = record {
    intent = record c.default_intent {
      kind =
          if facts.target_is_public_contract
          then c.modify_public_api
          else c.modify_referenced_contract;
      tool = action.operation;
      files = c.default_intent.files ++ action.target ∷ [];
    };
    basis = structural;
  }

  abbrev launch_intent : ObservedAction → IntentClassification
  launch_intent action = record {
    intent = record c.default_intent {
      kind = c.invoke_tool;
      claim_class = c.local_recall;
      tool = action.operation;
    };
    basis = mechanical;
  }

  abbrev begin_task_intent : IntentClassification
  begin_task_intent = record {
    intent = record c.default_intent { kind = c.begin_task };
    basis = mechanical;
  }

  -- The members before the floor, in the order of the rules.
  unfoldable pub rule_members :
      ObservedAction → StructuralFacts → List ActionIntent → List IntentClassification
  rule_members action facts stated =
      (if facts.capability.can_publish_claims then claim_intent action ∷ [] else [])
      ++ (if facts.capability.can_mutate_world then mutation_intent action facts ∷ [] else [])
      ++ (if is_process_launch facts.capability.operation_class
          then launch_intent action ∷ []
          else [])
      ++ map (λ i. record { intent = i; basis = declared }) stated

  abbrev with_floor : List IntentClassification → List IntentClassification
  with_floor [] = begin_task_intent ∷ []
  with_floor (m ∷ rest) = m ∷ rest

  -- `none` would be the failed QIVEN_VERIFY, which ends the process.
  unfoldable pub classify : ObservedAction → StructuralFacts → List ActionIntent → Option IntentSet
  unfolding rule_members
  classify action facts stated = make_intent_set (with_floor (rule_members action facts stated))
