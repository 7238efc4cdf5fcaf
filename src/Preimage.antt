-- ===== src/Preimage.antt =====
-- The canonical preimages of decision.cpp: what each digest covers, and in which order.
use qiven_runtime.Base.{ℕ, ◌^◌, ◌%◌, Bool, List, [], ◌∷◌, Bytes, length, is_some, if◌then◌else◌}
use qiven_runtime.Context.{Context, PreparedRequirement, PreparationPacket}
use qiven_runtime.Foundation.{Foundation}
use qiven_runtime.Intent.{ObservedAction, IntentClassification, IntentSet, basis_code}
use qiven_runtime.Resolver.{type_code}
use qiven_runtime.Receipt.{EvidenceReceipt}

abbrev u32_mod : ℕ
u32_mod = 2 ^ 32

abbrev flag : Bool → ℕ
flag b = if b then 1 else 0

module _ (f : Foundation) where
  -- A length prefix and the bytes.
  unfoldable pub put_bytes : f.Builder → Bytes → f.Builder
  put_bytes out text = f.append (f.append_le_u64 out (length text)) text

  unfoldable pub put_texts : f.Builder → List Bytes → f.Builder
  unfolding put_bytes
  put_texts out [] = out
  put_texts out (t ∷ rest) = put_texts (put_bytes out t) rest

  unfoldable pub put_action : f.Builder → ObservedAction → f.Builder
  unfolding put_bytes
  put_action out a =
      let fields =
        f.append_le_u64
          (f.append_le_u64 (f.append_le_u64 (f.append_le_u64 out a.adapter) a.session) a.actor)
          a.capability in
      f.append (put_bytes (put_bytes fields a.operation) a.target) a.argument_digest

  -- `digest_of`
  abbrev pub digest_of : f.Builder → Bytes
  digest_of preimage = f.sha256 (f.contents preimage)

  unfoldable pub action_digest_of : ObservedAction → Bytes
  unfolding put_action
  action_digest_of action = digest_of (put_action f.new_builder action)

module _ (f : Foundation) where
  put_members : f.Builder → List IntentClassification → f.Builder
  put_members out [] = out
  put_members out (m ∷ rest) =
      let coded =
        f.append_le_u32 (f.append_le_u32 (f.append_le_u32 out (basis_code m.basis)) m.intent.kind)
          m.intent.claim_class in
      let named = put_bytes f (put_bytes f coded m.intent.tool) m.intent.operation in
      let concepts =
        put_texts f (f.append_le_u64 named (length m.intent.concepts)) m.intent.concepts in
      let files = put_texts f (f.append_le_u64 concepts (length m.intent.files)) m.intent.files in
      put_members (f.append_le_u32 files (flag (is_some m.intent.prior_failure))) rest

  unfoldable pub put_intents : f.Builder → IntentSet → f.Builder
  unfolding put_members put_bytes put_texts
  put_intents out intents =
      put_members (f.append_le_u32 out (length intents.members % u32_mod)) intents.members

  put_evidence_rows : Context → f.Builder → List EvidenceReceipt → f.Builder
  put_evidence_rows c out [] = out
  put_evidence_rows c out (r ∷ rest) =
      let required =
        put_bytes f (f.append_le_u32 (f.append_le_u64 out r.id) r.requirement.kind)
          r.requirement.subject in
      let bound =
        f.append_le_u32 (f.append_le_u32 required (c.boundary_code r.requirement.boundary))
          (flag r.requirement.blocking) in
      let resolved =
        f.append_le_u64
          (put_bytes f (f.append_le_u64 bound (type_code r.resolver_type)) r.resolver.name)
          r.resolver.version in
      let sourced =
        put_bytes f
          (put_bytes f
            (put_bytes f (put_bytes f (put_bytes f resolved r.subject) r.source) r.source_revision)
            r.source_path)
          r.resolver_build in
      let dated =
        f.append_le_u64 (f.append_le_u64 (f.append sourced r.content_digest) r.issued_at_ms)
          r.expires_at_ms in
      put_evidence_rows c
        (f.append_le_u32 (f.append_le_u64 (f.append dated r.policy_digest) r.generation)
          (flag r.reusable_across_transactions))
        rest

  unfoldable pub put_evidence : Context → f.Builder → List EvidenceReceipt → f.Builder
  unfolding put_evidence_rows
  put_evidence c out receipts =
      put_evidence_rows c (f.append_le_u32 out (length receipts % u32_mod)) receipts

  put_requirement_rows : Context → f.Builder → List PreparedRequirement → f.Builder
  put_requirement_rows c out [] = out
  put_requirement_rows c out (p ∷ rest) =
      let named = put_bytes f (f.append_le_u32 out p.requirement.kind) p.requirement.subject in
      let coded =
        f.append_le_u32
          (f.append_le_u32 (f.append_le_u32 named (c.boundary_code p.boundary))
            (flag p.requirement.blocking))
          (c.status_code p.status) in
      put_requirement_rows c (put_texts f (f.append_le_u64 coded (length p.evidence)) p.evidence)
        rest

  unfoldable pub put_requirements : Context → f.Builder → PreparationPacket → f.Builder
  unfolding put_requirement_rows
  put_requirements c out packet =
      put_requirement_rows c (f.append_le_u32 out (length packet.requirements % u32_mod))
        packet.requirements
