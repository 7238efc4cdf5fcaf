-- ===== src/Journal/Frames.antt =====
-- What an audit append of journal/runtime_journal.cpp leaves alone: everything but the audit rows
-- and the watermark.
use qiven_runtime.Base.{ℕ, ◌≡◌, arith, not, Option, Bytes, has, bytes_eq, false}
use qiven_runtime.Base.Text.{codes}
use qiven_runtime.Foundation.{Foundation}
use qiven_runtime.Journal.{ok, >>=-inv, guard, constraint_failed, TxState, Tables}
use qiven_runtime.Journal.Audit.{recorded, append_audit_row, touch_wall_clock}
use qiven_runtime.Journal.Barriers.{audit_rows}
use qiven_runtime.Journal.Resolution.{
  PendingDispatch, apply_resolution, resolution_payload, with_resolution,
}
use qiven_runtime.Journal.Writes.{IsRecorded}

-- The rows of every table but the settings and the audit log are the same.
pub record IsFramed (x t' : Tables) : Type 0 where
  pub generations : t'.generations ≡ x.generations
  pub sessions : t'.sessions ≡ x.sessions
  pub transactions : t'.transactions ≡ x.transactions
  pub decisions : t'.decisions ≡ x.decisions
  pub leases : t'.leases ≡ x.leases
  pub dispatches : t'.dispatches ≡ x.dispatches
  pub outcomes : t'.outcomes ≡ x.outcomes
  pub barriers : t'.barriers ≡ x.barriers

module _ (f : Foundation) where
  appended-IsFramed :
      (kind payload event : Bytes) (x t' : Tables)
      → append_audit_row f kind payload x ≡ ok (event, t')
      → IsFramed x t'
  unfolding append_audit_row
  appended-IsFramed kind payload event x t' h = ground arith

  pub recorded-IsFramed :
      (kind : Bytes) (payload : f.Builder) (now : ℕ) (x t' : Tables)
      → recorded f kind payload now x ≡ ok t'
      → IsFramed x t'
  unfolding recorded touch_wall_clock
  recorded-IsFramed kind payload now x t' h =
      let ((event, made), e, h1) = >>=-inv (append_audit_row f kind (f.contents payload) x) _ h in
      let frame = appended-IsFramed kind (f.contents payload) event x made e in
      ground (arith, frame)

  pub IsRecorded-IsFramed : (x t' : Tables) → IsRecorded f x t' → IsFramed x t'
  IsRecorded-IsFramed x t' r = recorded-IsFramed r.kind r.payload r.now x t' r.written

  pub audit_rows-IsFramed :
      (kind payload : Bytes) (now : ℕ) (t t' : Tables) (a : Unit {0})
      → audit_rows f kind payload now t ≡ ok (a, t')
      → IsFramed t t'
  unfolding audit_rows
  audit_rows-IsFramed kind payload now t t' a h =
      recorded-IsFramed kind (f.append f.new_builder payload) now t t' (ground arith)

  -- A resolution writes an outcome where there was none.
  pub apply_resolution-inv :
      (d : PendingDispatch) (status : TxState) (ref_observed : Option Bytes) (now : ℕ)
      (t t' : Tables)
      → apply_resolution f d status ref_observed now t ≡ ok t'
      → (has d.id t.outcomes ≡ false) × IsFramed (with_resolution f d status ref_observed now t) t'
  unfolding apply_resolution
  apply_resolution-inv d status ref_observed now t t' h =
      let (_, g, h1) = >>=-inv (guard (not (has d.id t.outcomes)) constraint_failed) _ h in
      let ((event, made), e, h2) =
        >>=-inv
          (append_audit_row f (codes "outcome_observed")
            (f.contents (resolution_payload f d status now))
            (with_resolution f d status ref_observed now t))
          _ h1 in
      let frame =
        appended-IsFramed (codes "outcome_observed")
          (f.contents (resolution_payload f d status now)) event
          (with_resolution f d status ref_observed now t) made e in
      (ground (arith, g), ground (arith, frame, h2))
