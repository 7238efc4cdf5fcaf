-- ===== src/Tests/Fixtures.antt =====
-- A foundation and a context that keep their documented laws, and small values of the program's
-- types.
use qiven_runtime.Base.{
  ℕ, zero, suc, ◌+◌, ◌*◌, ◌/◌, ◌^◌, ◌<◌, ◌≡◌, refl, ap, arith, Bool, true, false, not, ◌||◌, List,
  [], ◌∷◌, ◌++◌, none, some, Bytes, All, all,
}
use qiven_runtime.Base.Text.{codes}
use qiven_runtime.Context.{
  FailureFingerprint, ActionIntent, Boundary, before_judgment, before_execution, Status, pending,
  satisfied, failed, PreparedRequirement, Context, JudgmentMet, ExecutionMet, IsFrozen,
}
use qiven_runtime.Foundation.{Foundation, le_bytes, IsLawful}
use qiven_runtime.Identity.{CorrelationKey}
use qiven_runtime.Intent.{ObservedAction, StructuralFacts, file_system_read}
use qiven_runtime.Requirement.{RequirementIdentity}
use qiven_runtime.Transaction.{PinnedCognition}
use qiven_runtime.Resolver.{ResolverBinding, search_type, mechanism, canonical_record}
use qiven_runtime.Receipt.{EvidenceReceipt}

abbrev pub sum_from : ℕ → Bytes → ℕ
sum_from seed [] = seed
sum_from seed (b ∷ rest) = sum_from (seed * 3 + b) rest

abbrev pub value_of : Bytes → ℕ
value_of [] = 0
value_of (b ∷ rest) = b + 256 * value_of rest

value_of-le_bytes : (k v : ℕ) → v < 256 ^ k → value_of (le_bytes k v) ≡ v
value_of-le_bytes zero v h = omega (arith, h)
value_of-le_bytes (suc k) v h = omega (arith, value_of-le_bytes k (v / 256) (omega (arith, h)))

abbrev pub toy : Foundation
toy = record {
  sha256 = λ m. 1 ∷ le_bytes 31 (sum_from 0 m);
  fnv1a64_offset_basis = 7;
  fnv1a64_prime = 31;
  fnv1a64 = λ text seed. sum_from seed text;
  encode_le_u32 = le_bytes 4;
  encode_le_u64 = le_bytes 8;
  decode_le_u32 = λ b. some (value_of b);
  decode_le_u64 = λ b. some (value_of b);
  Builder = Bytes;
  new_builder = [];
  append = λ b x. b ++ x;
  append_le_u32 = λ b v. b ++ le_bytes 4 v;
  append_le_u64 = λ b v. b ++ le_bytes 8 v;
  contents = λ b. b;
}

pub toy-IsLawful : IsLawful toy
toy-IsLawful = record {
  length-sha256 = λ m. refl;
  u32_layout = λ v. refl;
  u64_layout = λ v. refl;
  decode_u32 = λ v h. ap some (value_of-le_bytes 4 v h);
  decode_u64 = λ v h. ap some (value_of-le_bytes 8 v h);
  contents-new_builder = refl;
  contents-append = λ b x. refl;
  contents-append_le_u32 = λ b v. refl;
  contents-append_le_u64 = λ b v. refl;
}

abbrev pub no_failure : FailureFingerprint
no_failure = record { operation = []; tool = []; category = []; stable_message = []; exit_code = 0 }

abbrev pub plain_intent : ActionIntent
plain_intent = record {
  kind = 0;
  claim_class = 0;
  tool = [];
  operation = [];
  concepts = [];
  files = [];
  prior_failure = none;
}

abbrev pub is_satisfied : Status → Bool
is_satisfied satisfied = true
is_satisfied _ = false

abbrev pub is_judgment : Boundary → Bool
is_judgment before_judgment = true
is_judgment before_execution = false

abbrev pub boundary_number : Boundary → ℕ
boundary_number before_judgment = 0
boundary_number before_execution = 1

abbrev pub status_number : Status → ℕ
status_number pending = 0
status_number satisfied = 1
status_number failed = 2

abbrev pub judgment_ok : PreparedRequirement → Bool
judgment_ok p = not p.requirement.blocking || not (is_judgment p.boundary) || is_satisfied p.status

abbrev pub execution_ok : PreparedRequirement → Bool
execution_ok p = not p.requirement.blocking || is_satisfied p.status

abbrev pub requirement_at : Boundary → Status → PreparedRequirement
requirement_at boundary status = record {
  requirement = record { kind = 3; subject = codes "claim"; blocking = true };
  boundary = boundary;
  status = status;
  evidence = [];
}

abbrev pub toy_context : Context
toy_context = record {
  begin_task = 0;
  make_canonical_claim = 1;
  modify_public_api = 2;
  modify_referenced_contract = 3;
  invoke_tool = 4;
  retry_failure = 5;
  canonical_fact = 1;
  local_recall = 2;
  boundary_code = boundary_number;
  status_code = status_number;
  default_intent = plain_intent;
  default_fingerprint = no_failure;
  normalize_failure_text = λ x. x;
  default_failure = 0;
  derive_requirements = λ snapshot i. requirement_at before_execution pending ∷ [];
  ready_for_judgment = λ p. all judgment_ok p.requirements;
  ready_for_execution = λ p. all execution_ok p.requirements;
}

judgment_gate : (ps : List PreparedRequirement) → all judgment_ok ps ≡ true → All JudgmentMet ps
judgment_gate [] h = tt
judgment_gate (p ∷ ps) h = (λ blocks early. ground arith, judgment_gate ps (ground (arith, h)))

execution_gate : (ps : List PreparedRequirement) → all execution_ok ps ≡ true → All ExecutionMet ps
execution_gate [] h = tt
execution_gate (p ∷ ps) h = (λ blocks. ground arith, execution_gate ps (ground (arith, h)))

pub toy_context-IsFrozen : IsFrozen toy_context
toy_context-IsFrozen = record {
  judgment_gate = λ p h. judgment_gate p.requirements h;
  execution_gate = λ p h. execution_gate p.requirements h;
}

abbrev pub action : ObservedAction
action = record {
  adapter = 1;
  session = 2;
  actor = 3;
  capability = 4;
  operation = codes "read";
  target = codes "src/a";
  argument_digest = 9 ∷ [];
  argument_blob = [];
}

abbrev pub key : CorrelationKey
key = record { generation = 1; adapter = 1; session = 2; actor = 3; action = 7 }

abbrev pub facts : StructuralFacts
facts = record {
  capability = record {
    id = 4;
    adapter = 1;
    operation_class = file_system_read;
    can_mutate_world = false;
    can_publish_claims = false;
    requires_execution_authority = false;
  };
  target_is_public_contract = false;
}

abbrev pub cognition : PinnedCognition
cognition = record {
  revision = codes "r1";
  source_revision = codes "s1";
  snapshot_digest_sha256 = 5 ∷ [];
  policy_digest = 6 ∷ [];
  epoch = 1;
  snapshot = 0;
}

abbrev pub binding : ResolverBinding
binding = record {
  key = record {
    kind = 3;
    resolver_type = search_type;
    version = 1;
    cognition_view = codes "default";
  };
  resolver = record { name = codes "local"; version = 1 };
  accepted_evidence = canonical_record;
  trust = mechanism;
}

abbrev pub claim : RequirementIdentity
claim = record { kind = 3; subject = codes "claim"; boundary = before_execution; blocking = true }

abbrev pub receipt : EvidenceReceipt
receipt = record {
  id = 11;
  requirement = claim;
  resolver = record { name = codes "local"; version = 1 };
  resolver_type = search_type;
  resolver_build = codes "loopback";
  source_revision = codes "r1";
  source_path = [];
  evidence_type = canonical_record;
  subject = codes "claim";
  source = codes "file";
  content_digest = 1 ∷ [];
  issued_at_ms = 5;
  expires_at_ms = 0;
  policy_digest = 6 ∷ [];
  generation = 1;
  reusable_across_transactions = false;
}
