-- ===== src/StateStore.antt =====
-- state_store.cpp: the image of the consumed tokens and the raised barriers, and the store that
-- holds it. What has not been read yet stands for the offset into the image.
pub mod RoundTrip
pub mod Parts
pub mod Codec
use qiven_runtime.Base.{
  ℕ, zero, suc, ◌+◌, ◌*◌, ◌%◌, ◌^◌, Bool, true, false, Option, none, some, List, [], ◌∷◌, ◌++◌,
  Bytes, length, take, drop, ltb, nat_beq, if◌then◌else◌,
}
use qiven_runtime.Base.Sorts.{sort, lex_le}
use qiven_runtime.Foundation.{Foundation}
use qiven_runtime.Reconciliation.{ReconciliationBarrier, active_scope_ids, raise_barrier}
use qiven_runtime.Decision.{DecisionLedger, seed_consumed}

infixl 5 ◌>>=◌
abbrev pub ◌>>=◌ {ℓ κ} : {A : Type ℓ} {B : Type κ} → Option A → (A → Option B) → Option B
none >>= k = none
some a >>= k = k a

abbrev pub test_state_magic : ℕ
test_state_magic = 0x51535432

pub record TestOnlyStateImage : Type 0 where
  pub consumed_token_hashes : List Bytes
  pub barrier_scopes : List ℕ

module _ (f : Foundation) where
  abbrev pub put_hashes : f.Builder → List Bytes → f.Builder
  put_hashes out [] = out
  put_hashes out (h ∷ rest) = put_hashes (f.append out h) rest

  abbrev pub put_scopes : f.Builder → List ℕ → f.Builder
  put_scopes out [] = out
  put_scopes out (s ∷ rest) = put_scopes (f.append_le_u64 out s) rest

  unfoldable pub serialize_test_state_image : List Bytes → ReconciliationBarrier → Bytes
  serialize_test_state_image consumed barriers =
      let hashes = sort lex_le consumed in
      let scopes = active_scope_ids barriers in
      let head =
        f.append_le_u32 (f.append_le_u32 f.new_builder test_state_magic) (length hashes % 2 ^ 32) in
      let middle = f.append_le_u32 (put_hashes head hashes) (length scopes % 2 ^ 32) in
      f.contents (put_scopes middle scopes)

  unfoldable pub get_u32 : Bytes → Option (ℕ × Bytes)
  get_u32 bytes =
      if ltb (length bytes) 4
      then none
      else f.decode_le_u32 (take 4 bytes) >>= λ value. some (value, drop 4 bytes)

  unfoldable pub get_u64 : Bytes → Option (ℕ × Bytes)
  get_u64 bytes =
      if ltb (length bytes) 8
      then none
      else f.decode_le_u64 (take 8 bytes) >>= λ value. some (value, drop 8 bytes)

  -- The loop over the hashes.
  unfoldable pub get_hashes : ℕ → Bytes → Option (List Bytes × Bytes)
  get_hashes zero bytes = some ([], bytes)
  get_hashes (suc n) bytes =
      let rest = get_hashes n (drop 32 bytes) in
      if ltb (length bytes) 32
      then none
      else rest >>= λ (hashes, left). some (take 32 bytes ∷ hashes, left)

  -- The loop over the scopes.
  unfoldable pub get_scopes : ℕ → Bytes → Option (List ℕ × Bytes)
  unfolding get_u64
  get_scopes zero bytes = some ([], bytes)
  get_scopes (suc n) bytes = get_u64 bytes >>= λ (scope, left).
      get_scopes n left >>= λ (scopes, end). some (scope ∷ scopes, end)

  abbrev finish : List Bytes → List ℕ × Bytes → Option TestOnlyStateImage
  finish hashes (scopes, []) =
      some (record { consumed_token_hashes = hashes; barrier_scopes = scopes })
  finish hashes (scopes, b ∷ trailing) = none

  unfoldable pub deserialize_test_state_image : Bytes → Option TestOnlyStateImage
  unfolding get_u32 get_hashes get_scopes
  deserialize_test_state_image bytes = do
    (magic, after_magic) ← get_u32 bytes
    checked ← if nat_beq magic test_state_magic then some after_magic else none
    (hash_count, after_count) ← get_u32 checked
    counted ← if ltb (length after_count) (hash_count * 32) then none else some after_count
    (hashes, after_hashes) ← get_hashes hash_count counted
    (scope_count, after_scope_count) ← get_u32 after_hashes
    bounded ←
        if ltb (length after_scope_count) (scope_count * 8) then none else some after_scope_count
    read ← get_scopes scope_count bounded
    finish hashes read

-- `InMemoryTestStateStore`
abbrev pub InMemoryTestStateStore : Type 0
InMemoryTestStateStore = Option Bytes

unfoldable pub save : Bytes → InMemoryTestStateStore → Bool × InMemoryTestStateStore
save image store = (true, some image)

unfoldable pub load : InMemoryTestStateStore → Option Bytes
load store = store

unfoldable pub restore_barriers : ReconciliationBarrier → List ℕ → ReconciliationBarrier
restore_barriers barriers [] = barriers
restore_barriers barriers (scope ∷ rest) = restore_barriers (raise_barrier barriers scope 0) rest

unfoldable pub seed_consumed_tokens : DecisionLedger → List Bytes → DecisionLedger
seed_consumed_tokens ledger [] = ledger
seed_consumed_tokens ledger (hash ∷ rest) = seed_consumed_tokens (seed_consumed ledger hash) rest
