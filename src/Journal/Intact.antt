-- ===== src/Journal/Intact.antt =====
-- The audit chain of journal/runtime_journal.cpp verifies after any run.
use qiven_runtime.Base.{
  ℕ, ◌≡◌, subst, refl, arith, Option, List, Bytes, not, has, ◌∙◌, false, lookup-put, bytes_eq,
  bytes_beq,
}
use qiven_runtime.Base.Text.{codes, to_string}
use qiven_runtime.Foundation.{Foundation, IsLawful}
use qiven_runtime.Journal.{
  ok, >>=-inv, ok-injective, guard, constraint_failed, TxState, Tables, RuntimeJournal, Engine,
}
use qiven_runtime.Journal.Audit.{
  verify_audit_chain, read_meta, write_meta, key_quarantine, key_genesis_hash, append_audit_row,
}
use qiven_runtime.Journal.Chaining.{
  IsVerified, append_audit_row-IsVerified, recorded-IsVerified, verify-inv, verify-intro,
}
use qiven_runtime.Journal.Writes.{
  IsRecorded, session_rows-inv, transaction_rows-inv, evidence_rows-inv, bind_rows-inv,
  consume_rows-inv, advance_rows-inv, lease_rows-inv, dispatch_rows-inv, outcome_rows-inv,
  barrier_rows-inv, closing_rows-inv, audit_rows-inv, append_rows-inv,
}
use qiven_runtime.Journal.Runs.{IsKept, JournalCommand, AllNamed, IsNonempty, run, run-keeps}
use qiven_runtime.Journal.Recovery.{key_boot_epoch, restarted}
use qiven_runtime.Journal.Resolution.{
  PendingDispatch, apply_resolution, resolution_payload, with_resolution, reconcile_barrier,
  reconcile_scope,
}
use qiven_runtime.Journal.Walks.{IsKeptByRecovery, recovery_rows-kept}

module _ (f : Foundation) where
  -- Only the settings' genesis hash and the audit rows matter.
  carried :
      (t x : Tables)
      → read_meta key_genesis_hash x ≡ read_meta key_genesis_hash t
      → x.audit ≡ t.audit
      → IsVerified f t
      → IsVerified f x
  carried t x meta audit v = record {
    genesis = v.genesis;
    count = v.count;
    settled = rw meta v.settled;
    checked = rw audit v.checked;
    sized = rw audit v.sized;
    numbered = rw audit v.numbered;
  }

  module _ (laws : IsLawful f) where
    IsRecorded-IsVerified : (x t' : Tables) → IsRecorded f x t' → IsVerified f x → IsVerified f t'
    IsRecorded-IsVerified x t' r v =
        recorded-IsVerified f laws r.kind r.payload r.now x t' r.named r.written v

    applied-IsVerified :
        (d : PendingDispatch) (status : TxState) (ref_observed : Option Bytes) (now : ℕ)
        (t t' : Tables)
        → apply_resolution f d status ref_observed now t ≡ ok t'
        → IsVerified f t
        → IsVerified f t'
    unfolding apply_resolution
    applied-IsVerified d status ref_observed now t t' h v =
        let (_, _, h1) = >>=-inv (guard (not (has d.id t.outcomes)) constraint_failed) _ h in
        let ((event, made), e, h2) =
          >>=-inv
            (append_audit_row f (codes "outcome_observed")
              (f.contents (resolution_payload f d status now))
              (with_resolution f d status ref_observed now t))
            _ h1 in
        let same : made ≡ t' = cc in
        subst (IsVerified f) same (
          append_audit_row-IsVerified f laws (codes "outcome_observed")
            (f.contents (resolution_payload f d status now)) _ made event (omega arith) e
            (carried t (with_resolution f d status ref_observed now t) refl refl v))

    barred-IsVerified :
        (d : PendingDispatch) (now : ℕ) (t t' : Tables)
        → reconcile_barrier f d now t ≡ ok t'
        → IsVerified f t
        → IsVerified f t'
    unfolding reconcile_barrier
    barred-IsVerified d now t t' h v =
        let (_, _, h1) =
          >>=-inv (guard (not (has (reconcile_scope d) t.barriers)) constraint_failed) _ h in
        subst (IsVerified f) (ok-injective h1) (carried t _ refl refl v)

    key_apart :
        (key value : Bytes) (t : Tables)
        → bytes_beq key key_genesis_hash ≡ false
        → IsVerified f t
        → IsVerified f (write_meta key value t)
    key_apart key value t apart v =
        carried t (write_meta key value t)
          (lookup-put key key_genesis_hash value t.meta ∙ rw apart refl) refl v

    restarted-IsVerified :
        (epoch : ℕ) (t : Tables) → IsVerified f t → IsVerified f (restarted f epoch t)
    unfolding restarted bytes_beq
    restarted-IsVerified epoch t v =
        let v' = key_apart key_boot_epoch (to_string epoch) t refl v in
        carried _ (restarted f epoch t) refl refl v'

    recovery-IsVerified : IsKeptByRecovery f (IsVerified f)
    unfolding bytes_beq
    recovery-IsVerified = record {
      restarted-keeps = restarted-IsVerified;
      apply_resolution-keeps = applied-IsVerified;
      barriers-keep = barred-IsVerified;
      IsRecorded-keeps = IsRecorded-IsVerified;
      meta-keeps = λ t value v. key_apart key_quarantine value t refl v;
    }

    -- What a transaction has recorded over rows whose settings and chain are the old ones.
    over :
        (t x t' : Tables)
        → read_meta key_genesis_hash x ≡ read_meta key_genesis_hash t
        → x.audit ≡ t.audit
        → IsRecorded f x t'
        → IsVerified f t
        → IsVerified f t'
    over t x t' meta audit r v = IsRecorded-IsVerified x t' r (carried t x meta audit v)

    rows-IsVerified : IsKept f IsNonempty (IsVerified f)
    unfolding bytes_beq
    rows-IsVerified = record {
      session_rows-keeps =
          λ s now t a t' h v. over t _ t' refl refl (session_rows-inv f now t t' s a h) v;
      transaction_rows-keeps = λ epoch o now t a t' h v.
          over t _ t' refl refl (transaction_rows-inv f now t t' epoch o a h).1 v;
      evidence_rows-keeps = λ tx evidence now t a t' h v.
          over t t t' refl refl (evidence_rows-inv f now t t' tx evidence a h) v;
      bind_rows-keeps =
          λ d now t a t' h v. over t _ t' refl refl (bind_rows-inv f now t t' d a h).5 v;
      consume_rows-keeps =
          λ id now t a t' h v. over t _ t' refl refl (consume_rows-inv f now t t' id a h).4 v;
      advance_rows-keeps =
          λ g now t a t' h v. over t _ t' refl refl (advance_rows-inv f now t t' g a h).1 v;
      lease_rows-keeps = λ epoch q now t a t' h v.
          over t _ t' refl refl (lease_rows-inv f now t t' epoch q a h).2 v;
      dispatch_rows-keeps =
          λ d now t a t' h v. over t _ t' refl refl (dispatch_rows-inv f now t t' d a h).4 v;
      outcome_rows-keeps = λ o status now t a t' h v.
          over t _ t' refl refl (outcome_rows-inv f now t t' o status a h).4 v;
      barrier_rows-keeps =
          λ b now t a t' h v. over t _ t' refl refl (barrier_rows-inv f now t t' b a h).1 v;
      closing_rows-keeps = λ scope evidence now t a t' h v.
          over t _ t' refl refl (closing_rows-inv f now t t' scope evidence a h).1 v;
      audit_rows-keeps = λ kind payload now named t a t' h v.
          over t t t' refl refl (audit_rows-inv f now t t' kind payload a named h) v;
      append_rows-keeps =
          λ r now t a t' h v. over t t t' refl refl (append_rows-inv f now t t' r a h) v;
      recovery_rows-keeps = recovery_rows-kept f (IsVerified f) recovery-IsVerified;
      flag-keeps = λ t value v. key_apart key_quarantine value t refl v;
    }

    -- A journal whose audit chain verifies has one that verifies after any commands, recoveries
    -- included, each of them with any engine, where no audit event is appended with an empty kind.
    pub run-verified :
        (cs : List (JournalCommand × Engine × ℕ)) (j : RuntimeJournal)
        → AllNamed IsNonempty cs
        → verify_audit_chain f j.tables ≡ ok tt
        → verify_audit_chain f (run f cs j).tables ≡ ok tt
    run-verified cs j named h =
        verify-intro f _ (
          run-keeps f IsNonempty (IsVerified f) rows-IsVerified cs j named
            (verify-inv f j.tables h))
