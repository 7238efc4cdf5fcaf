-- ===== src/Failure/Retries.antt =====
-- What the memory of failures adds to a classification, and what it drops.
use qiven_runtime.Base.{◌≡◌, refl, false, Option, none, some, nat_eq, lookup, lookup-put, beq_refl}
use qiven_runtime.Context.{Context, FailureFingerprint}
use qiven_runtime.Foundation.{Foundation}
use qiven_runtime.Failure.{
  FailureKey, failure_key_eq, failure_key_beq, FailureEntry, FailureTracker, next_entry,
  record_failure, retry_intent, retry_intent_for,
}

-- After a failure is recorded, an equivalent proposal carries the retry intent with that very
-- fingerprint, and any other key carries what it carried before.
pub retry_intent_for-record_failure :
    (c : Context) (entries : FailureTracker) (key other : FailureKey)
    (fingerprint : FailureFingerprint)
    → (retry_intent_for c (record_failure entries key fingerprint) key
        ≡ some (retry_intent c fingerprint))
      × (failure_key_beq key other ≡ false
          → retry_intent_for c (record_failure entries key fingerprint) other
            ≡ retry_intent_for c entries other)
unfolding retry_intent_for record_failure
retry_intent_for-record_failure c entries key other fingerprint = (
  rw
      (
        lookup-put key key (next_entry (lookup key entries) fingerprint) entries,
        beq_refl key,
        retry_intent_for,
        record_failure,
      )
      (fingerprint_of (lookup key entries)),
  λ differs.
      rw
        (
          lookup-put key other (next_entry (lookup key entries) fingerprint) entries,
          differs,
          retry_intent_for,
          record_failure,
        )
        refl,
)
  where
    fingerprint_of :
        (e : Option FailureEntry)
        → some (retry_intent c (next_entry e fingerprint).fingerprint)
          ≡ some (retry_intent c fingerprint)
    fingerprint_of none = refl
    fingerprint_of (some e) = refl
