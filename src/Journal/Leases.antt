-- ===== src/Journal/Leases.antt =====
-- Leases and their fences in journal/runtime_journal.cpp.
use qiven_runtime.Base.{
  ℕ, ◌+◌, ◌-◌, ◌^◌, ◌<◌, ◌≡◌, ◌∙◌, refl, arith, ◌⊎◌, false, Option, none, some, Bytes, lookup,
  lookup-put, beq_refl, bytes_eq, bytes_beq_iff,
}
use qiven_runtime.Foundation.{Foundation}
use qiven_runtime.Journal.{ok, LeaseRow, Tables, RuntimeJournal, Engine}
use qiven_runtime.Journal.Effects.{
  LeaseRequest, LeaseState, lease_row, is_held_against, next_fence, acquire_lease, lease_rows,
}
use qiven_runtime.Journal.Command.{command-ok}
use qiven_runtime.Journal.Writes.{lease_rows-inv}
use qiven_runtime.Journal.Frames.{IsRecorded-IsFramed}
use qiven_runtime.Journal.Reads.{lease_of}

-- The fence that the journal holds for a workspace; 0 where none was ever taken.
abbrev pub fence_in : Option LeaseRow → ℕ
fence_in none = 0
fence_in (some r) = r.fencing_epoch

-- Nobody holds the workspace, or the lease has run out, or the one who asks holds it.
abbrev pub IsFree : LeaseRequest → ℕ → Option LeaseRow → Type 0
IsFree q now none = Unit
IsFree q now (some r) = (r.expires_ms < now) ⊎ (r.holder_install ≡ q.holder_install)

free :
    (q : LeaseRequest) (now : ℕ) (r : Option LeaseRow)
    → is_held_against q now r ≡ false
    → IsFree q now r
free q now none h = tt
free q now (some r) h = ground (arith, bytes_beq_iff r.holder_install q.holder_install)

fence-next_fence : (r : Option LeaseRow) → fence_in r < 2 ^ 64 - 1 → next_fence r ≡ fence_in r + 1
fence-next_fence none h = refl
fence-next_fence (some r) h = omega (arith, h)

lease_of-there :
    (workspace : Bytes) (row : LeaseRow) (t : Tables)
    → lookup workspace t.leases ≡ some row
    → lease_of workspace t ≡ some (record { workspace = workspace; row = row })
unfolding lease_of
lease_of-there workspace row t h = rw (lease_of, h) refl

-- A lease is acquired only where nobody else holds the workspace; the journal then holds what it
-- answers, with a fence one greater than the one before (as long as that is below the greatest
-- 64-bit number) and the epoch of this boot.
pub acquire_lease-fenced :
    (f : Foundation) (e : Engine) (q : LeaseRequest) (now : ℕ) (j : RuntimeJournal) (l : LeaseState)
    → fence_in (lookup q.workspace j.tables.leases) < 2 ^ 64 - 1
    → (acquire_lease f e q now j).0 ≡ ok l
    → IsFree q now (lookup q.workspace j.tables.leases)
      × (l.row.fencing_epoch ≡ fence_in (lookup q.workspace j.tables.leases) + 1)
      × (l.row.boot_epoch ≡ j.boot_epoch)
      × (l.row.holder_install ≡ q.holder_install)
      × (lease_of q.workspace (acquire_lease f e q now j).1.tables ≡ some l)
unfolding acquire_lease
acquire_lease-fenced f e q now j l room h =
    let done_ = command-ok e now (lease_rows f j.boot_epoch q now) j l h in
    let (unheld, same, r) = lease_rows-inv f now j.tables _ j.boot_epoch q l done_ in
    let frame = IsRecorded-IsFramed f _ _ r in
    let row = lease_row f j.boot_epoch q now j.tables in
    let there = lookup-put q.workspace q.workspace row j.tables.leases in
    (
      free q now _ unheld,
      rw same (fence-next_fence _ room),
      rw same refl,
      rw same refl,
      rw same (
          lease_of-there q.workspace row _
            (rw frame.leases (there ∙ rw (beq_refl q.workspace) refl))),
    )
