-- ===== src/StateStore/RoundTrip.antt =====
-- The image of state_store.cpp is read back as it was written, and restores what it holds.
use qiven_runtime.Base.{
  ℕ, ◌*◌, ◌%◌, ◌^◌, ◌<◌, ◌≡◌, refl, sym, ap, ◌∙◌, arith, ◌||◌, false, some, List, [], ◌∷◌, ◌++◌,
  Bytes, length, length-append, All, map, ltb, leb, nat_beq, nat_beq_iff, bytes_beq, bytes_eq,
  nat_eq, contains, contains-insert, lookup-emplace,
}
use mathlib.Core.List.{append_assoc, append-nil}
use qiven_runtime.Base.Sorts.{sort, lex_le}
use qiven_runtime.Foundation.{Foundation, IsLawful}
use qiven_runtime.Reconciliation.{ReconciliationBarrier, active_scope_ids, raise_barrier, active}
use qiven_runtime.Decision.{DecisionLedger, seed_consumed, was_consumed}
use qiven_runtime.StateStore.{
  test_state_magic, put_hashes, put_scopes, serialize_test_state_image, get_scopes,
  deserialize_test_state_image, restore_barriers, seed_consumed_tokens,
}
use qiven_runtime.StateStore.Parts.{All-sort, length-sort}
use qiven_runtime.StateStore.Codec.{
  IsHash, IsU64, joined, coded, contents-put_hashes, contents-put_scopes, get_u32-encoded,
  get_hashes-joined, get_scopes-coded, length-joined, length-coded,
}

module _ {f : Foundation} (laws : IsLawful f) where
  module _ (hashes : List Bytes) (scopes : List ℕ) (sized : All IsHash hashes)
      (bounded : All IsU64 scopes) (few : length hashes < 2 ^ 32)
      (few' : length scopes < 2 ^ 32) where
    abbrev tail : Bytes
    tail = f.encode_le_u32 (length scopes) ++ coded laws scopes

    abbrev image : Bytes
    image =
        f.encode_le_u32 test_state_magic
        ++ (f.encode_le_u32 (length hashes) ++ (joined hashes ++ tail))

    hashes_room : ltb (length (joined hashes ++ tail)) (length hashes * 32) ≡ false
    hashes_room =
        let long = length-append (joined hashes) tail in
        let exact = length-joined laws hashes sized in ground (arith, long, exact)

    scopes_room : ltb (length (coded laws scopes)) (length scopes * 8) ≡ false
    scopes_room = let exact = length-coded laws scopes in ground (arith, exact)

    scopes_read : get_scopes f (length scopes) (coded laws scopes) ≡ some (scopes, [])
    scopes_read =
        sym (ap (get_scopes f (length scopes)) (append-nil (coded laws scopes)))
        ∙ get_scopes-coded laws scopes [] bounded

    deserialize-image :
        deserialize_test_state_image f image
        ≡ some (record { consumed_token_hashes = hashes; barrier_scopes = scopes })
    unfolding deserialize_test_state_image
    deserialize-image =
        rw
          (
            get_u32-encoded laws test_state_magic
                (f.encode_le_u32 (length hashes) ++ (joined hashes ++ tail)) (omega arith),
            get_u32-encoded laws (length hashes) (joined hashes ++ tail) few,
            hashes_room,
            get_hashes-joined laws hashes tail sized,
            get_u32-encoded laws (length scopes) (coded laws scopes) few',
            scopes_room,
            scopes_read,
          )
          refl

  contents-counts :
      (out : f.Builder) (n m : ℕ)
      → f.contents (f.append_le_u32 (f.append_le_u32 out n) m)
        ≡ (f.contents out ++ f.encode_le_u32 n) ++ f.encode_le_u32 m
  contents-counts out n m =
      laws.contents-append_le_u32 (f.append_le_u32 out n) m
      ∙ ap (λ x. x ++ f.encode_le_u32 m) (laws.contents-append_le_u32 out n)

  written :
      (hashes : List Bytes) (scopes : List ℕ)
      → length hashes < 2 ^ 32
      → length scopes < 2 ^ 32
      → f.contents (
          put_scopes f
            (f.append_le_u32
              (put_hashes f
                (f.append_le_u32
                  (f.append_le_u32 f.new_builder test_state_magic)
                  (length hashes % 2 ^ 32))
                hashes)
              (length scopes % 2 ^ 32))
            scopes)
        ≡ f.encode_le_u32 test_state_magic
          ++ (f.encode_le_u32 (length hashes)
              ++ (joined hashes ++ (f.encode_le_u32 (length scopes) ++ coded laws scopes)))
  written hashes scopes few few' =
      let n : length hashes % 2 ^ 32 ≡ length hashes = omega (arith, few) in
      let m : length scopes % 2 ^ 32 ≡ length scopes = omega (arith, few') in
      let magic = f.encode_le_u32 test_state_magic in
      let count = f.encode_le_u32 (length hashes) in
      let count' = f.encode_le_u32 (length scopes) in
      rw
        (
          n,
          m,
          contents-put_scopes laws
              (f.append_le_u32
                (put_hashes f
                  (f.append_le_u32 (f.append_le_u32 f.new_builder test_state_magic) (length hashes))
                  hashes)
                (length scopes))
              scopes,
          laws.contents-append_le_u32
              (put_hashes f
                (f.append_le_u32 (f.append_le_u32 f.new_builder test_state_magic) (length hashes))
                hashes)
              (length scopes),
          contents-put_hashes laws
              (f.append_le_u32 (f.append_le_u32 f.new_builder test_state_magic) (length hashes))
              hashes,
          contents-counts f.new_builder test_state_magic (length hashes),
          laws.contents-new_builder,
        )
        (append_assoc ((magic ++ count) ++ joined hashes) count' (coded laws scopes)
          ∙ append_assoc (magic ++ count) (joined hashes) (count' ++ coded laws scopes)
          ∙ append_assoc magic count (joined hashes ++ (count' ++ coded laws scopes)))

  -- The image of tokens of 32 bytes and scopes of 64 bits, fewer than 2 ^ 32 of each, is read back:
  -- the tokens in byte order, the raised scopes in order.
  pub deserialize-serialize :
      (consumed : List Bytes) (barriers : ReconciliationBarrier)
      → All IsHash consumed
      → All IsU64 (map (λ e. e.0) barriers)
      → length consumed < 2 ^ 32
      → length (map (λ e. e.0) barriers) < 2 ^ 32
      → deserialize_test_state_image f (serialize_test_state_image f consumed barriers)
        ≡ some (record {
          consumed_token_hashes = sort lex_le consumed;
          barrier_scopes = active_scope_ids barriers;
        })
  unfolding serialize_test_state_image active_scope_ids
  deserialize-serialize consumed barriers sized bounded few few' =
      let hashes = sort lex_le consumed in
      let scopes = sort leb (map (λ e. e.0) barriers) in
      let few_hashes : length hashes < 2 ^ 32 = omega (arith, length-sort lex_le consumed, few) in
      let few_scopes : length scopes < 2 ^ 32 =
        omega (arith, length-sort leb (map (λ e. e.0) barriers), few') in
      ap (deserialize_test_state_image f) (written hashes scopes few_hashes few_scopes)
      ∙ deserialize-image hashes scopes (All-sort lex_le IsHash consumed sized)
          (All-sort leb IsU64 (map (λ e. e.0) barriers) bounded) few_hashes few_scopes

active-raise_barrier :
    (barriers : ReconciliationBarrier) (s transaction scope : ℕ)
    → active (raise_barrier barriers s transaction) scope
      ≡ (nat_beq s scope || active barriers scope)
unfolding active raise_barrier
active-raise_barrier barriers s transaction scope =
    ground (arith, lookup-emplace s scope transaction barriers, nat_beq_iff s scope)

-- Restoring an image raises the scopes that it holds, and those that were raised stay so.
pub restored_active :
    (scopes : List ℕ) (barriers : ReconciliationBarrier) (scope : ℕ)
    → active (restore_barriers barriers scopes) scope
      ≡ (contains scope scopes || active barriers scope)
unfolding restore_barriers contains
restored_active [] barriers scope = refl
restored_active (s ∷ rest) barriers scope = ground (
  arith,
  restored_active rest (raise_barrier barriers s 0) scope,
  active-raise_barrier barriers s 0 scope,
)

was_consumed-seed_consumed :
    (ledger : DecisionLedger) (hash token : Bytes)
    → was_consumed (seed_consumed ledger hash) token
      ≡ (bytes_beq hash token || was_consumed ledger token)
unfolding was_consumed seed_consumed
was_consumed-seed_consumed ledger hash token = contains-insert hash token ledger.spent

-- Seeding a ledger from an image marks the tokens that it holds as consumed, and those that were
-- consumed stay so.
pub seeded_was_consumed :
    (hashes : List Bytes) (ledger : DecisionLedger) (token : Bytes)
    → was_consumed (seed_consumed_tokens ledger hashes) token
      ≡ (contains token hashes || was_consumed ledger token)
unfolding seed_consumed_tokens contains
seeded_was_consumed [] ledger token = refl
seeded_was_consumed (h ∷ rest) ledger token = ground (
  arith,
  seeded_was_consumed rest (seed_consumed ledger h) token,
  was_consumed-seed_consumed ledger h token,
)
