-- ===== src/Tests/StoreRuns.antt =====
-- Runs of state_store.cpp, at which its theorems are applied.
use qiven_runtime.Base.{◌≡◌, refl, arith, some, [], ◌∷◌, Bytes, bytes_eq}
use qiven_runtime.Base.Sorts.{sort, lex_le}
use qiven_runtime.Reconciliation.{active_scope_ids}
use qiven_runtime.StateStore.{serialize_test_state_image, deserialize_test_state_image}
use qiven_runtime.StateStore.RoundTrip.{deserialize-serialize}
use qiven_runtime.Tests.Fixtures.{toy, toy-IsLawful}

abbrev spent_token : Bytes
spent_token = toy.sha256 (1 ∷ 2 ∷ [])

deserialize-serialize_example :
    deserialize_test_state_image toy
      (serialize_test_state_image toy (spent_token ∷ []) ((9, 1) ∷ (4, 2) ∷ []))
    ≡ some (record {
      consumed_token_hashes = sort lex_le (spent_token ∷ []);
      barrier_scopes = active_scope_ids ((9, 1) ∷ (4, 2) ∷ []);
    })
deserialize-serialize_example =
    deserialize-serialize toy-IsLawful (spent_token ∷ []) ((9, 1) ∷ (4, 2) ∷ []) (refl, tt)
      (omega arith, (omega arith, tt)) (omega arith) (omega arith)
