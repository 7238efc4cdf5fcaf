-- ===== src/Journal/Founding.antt =====
-- A new journal of journal/runtime_journal.cpp, and its first opening after that.
use qiven_runtime.Base.{
  ℕ, ◌≡◌, refl, arith, Bool, true, false, nat_beq, length, length-append, Bytes, [], ◌∷◌, lookup,
  put, bytes_eq, bytes_beq, bytes_beq_refl,
}
use qiven_runtime.Base.Text.{codes, to_string}
use qiven_runtime.Foundation.{Foundation, IsLawful, length-encode_le_u64}
use qiven_runtime.Journal.{ok, Tables, RuntimeJournal, Engine}
use qiven_runtime.Journal.Text.{to_hex, parse_u64, parse_digits, parse_digit}
use qiven_runtime.Journal.Audit.{
  verify_audit_chain, chain_hash, append_audit_row, check_rows, check_row, zero_hash, put_bytes,
}
use qiven_runtime.Journal.Chaining.{length-chain_hash}
use qiven_runtime.Journal.Command.{txn}
use qiven_runtime.Journal.Opening.{
  create_new, open_existing, absent, journal, no_rows, populated, validated, settled, open_journal,
  opened_with,
}

module _ (f : Foundation) (install_bytes : Bytes) (now : ℕ) where
  -- The first audit row.
  abbrev pub first_payload : Bytes
  first_payload =
      f.contents
        (f.append_le_u64 (f.append_le_u64 (put_bytes f f.new_builder (to_hex install_bytes)) 1) now)

  abbrev pub first_hash : Bytes
  first_hash = chain_hash f zero_hash (codes "journal_created") first_payload

  abbrev pub new_tables : Tables
  new_tables = record no_rows {
    meta =
        (codes "schema_version", codes "1")
        ∷ (codes "install_id", to_hex install_bytes)
        ∷ (codes "boot_epoch", codes "0")
        ∷ (codes "quarantine", codes "0")
        ∷ (codes "last_wall_ms", to_string now)
        ∷ (codes "genesis_hash", to_hex first_hash)
        ∷ [];
    audit =
        record {
          seq = 1;
          prev_hash = zero_hash;
          event_hash = first_hash;
          kind = codes "journal_created";
          payload = first_payload;
        }
        ∷ [];
  }

  payload_there : IsLawful f → nat_beq (length first_payload) 0 ≡ false
  payload_there laws =
      let out = f.append_le_u64 (put_bytes f f.new_builder (to_hex install_bytes)) 1 in
      let last = laws.contents-append_le_u64 out now in
      let long = length-append (f.contents out) (f.encode_le_u64 now) in
      let eight = length-encode_le_u64 laws now in rw last (ground (arith, long, eight))

  populated-new_tables : IsLawful f → populated f install_bytes now no_rows ≡ ok (tt, new_tables)
  unfolding populated put bytes_beq append_audit_row
  populated-new_tables laws = rw (payload_there laws) refl

  settled-new_tables : settled new_tables ≡ ok (opened_with new_tables (to_hex install_bytes) 0)
  unfolding settled lookup bytes_beq parse_u64 parse_digits parse_digit
  settled-new_tables = refl

  validated-new_tables : validated new_tables ≡ ok new_tables
  unfolding validated lookup bytes_beq
  validated-new_tables = refl

  pub verified_new_tables : IsLawful f → verify_audit_chain f new_tables ≡ ok tt
  unfolding verify_audit_chain check_rows check_row lookup bytes_beq
  verified_new_tables laws =
      let wide = length-chain_hash f laws zero_hash (codes "journal_created") first_payload in
      let hashed = bytes_beq_refl first_hash in
      let named = bytes_beq_refl (to_hex first_hash) in ground arith

  created_new_tables :
      IsLawful f
      → (e : Engine) → e.begins ≡ true
      → e.commits ≡ true
      → txn e (populated f install_bytes now) no_rows ≡ (ok tt, new_tables)
  unfolding txn
  created_new_tables laws e begins commits = rw (begins, commits, populated-new_tables laws) refl

  -- Where nothing stands at the path and the engine begins and commits, a new journal is made: its
  -- chain verifies, its epoch is 0, and opening the file that it makes gives the same journal.
  pub open_journal-open_journal :
      (e e' : Engine) (healthy healthy' : Bool) (now' : ℕ) (other_bytes : Bytes)
      → IsLawful f
      → e.begins ≡ true
      → e.commits ≡ true
      → (j : RuntimeJournal) × (open_journal f e (ok healthy) create_new absent install_bytes now
          ≡ ok j)
        × (verify_audit_chain f j.tables ≡ ok tt)
        × (j.boot_epoch ≡ 0)
        × (open_journal f e' (ok healthy') open_existing (journal j.tables) other_bytes now' ≡ ok j)
  unfolding open_journal
  open_journal-open_journal e e' healthy healthy' now' other_bytes laws begins commits = (
    opened_with new_tables (to_hex install_bytes) 0,
    rw (created_new_tables laws e begins commits) settled-new_tables,
    verified_new_tables laws,
    refl,
    rw validated-new_tables settled-new_tables,
  )
