-- ===== src/Journal/Opening.antt =====
-- `JournalDb::open` and `RuntimeJournal::open` of journal/runtime_journal.cpp: what a new journal
-- holds, and what a file must hold to be taken for a journal.
use qiven_runtime.Base.{ℕ, Bool, false, List, [], ◌∷◌, ◌++◌, Bytes, bytes_beq, is_some}
use qiven_runtime.Base.Text.{codes, to_string}
use qiven_runtime.Foundation.{Foundation}
use qiven_runtime.Journal.{
  Result, ok, err, ◌>>=◌, ◌>>◌, guard, found, err_open, err_migration, Tables, RuntimeJournal,
  Engine,
}
use qiven_runtime.Journal.Text.{parse_u64, to_hex}
use qiven_runtime.Journal.Audit.{
  read_meta, write_meta, key_quarantine, key_last_wall_ms, key_genesis_hash, put_bytes,
  append_audit_row,
}
use qiven_runtime.Journal.Command.{txn}
use qiven_runtime.Journal.Recovery.{key_boot_epoch}

-- What stands at the path: nothing, a file without bytes, a database without the journal's
-- catalog, or a journal.
pub data FileContent : Type 0 where
  absent zero_byte foreign : FileContent
  journal : Tables → FileContent

pub data JournalOpenIntent : Type 0 where
  create_new open_existing : JournalOpenIntent

abbrev pub key_schema_version : Bytes
key_schema_version = codes "schema_version"

abbrev pub key_install_id : Bytes
key_install_id = codes "install_id"

abbrev pub no_rows : Tables
no_rows = record {
  meta = [];
  generations = [];
  sessions = [];
  transactions = [];
  decisions = [];
  leases = [];
  dispatches = [];
  outcomes = [];
  barriers = [];
  audit = [];
}

-- `JournalRuntime`'s constructor
abbrev pub opened_with : Tables → Bytes → ℕ → RuntimeJournal
opened_with t install epoch = record {
  tables = t;
  install_id = install;
  boot_epoch = epoch;
  is_quarantined = false;
  audit_append_failures = 0;
}

-- The keys that an existing journal must have.
abbrev required_keys : List Bytes
required_keys =
    key_install_id ∷ key_boot_epoch ∷ key_quarantine ∷ key_last_wall_ms ∷ key_genesis_hash ∷ []

abbrev has_keys : Tables → List Bytes → Result (Unit {0})
has_keys t [] = ok tt
has_keys t (key ∷ rest) =
    guard (is_some (read_meta key t)) (err_open (codes "journal-meta-missing: " ++ key))
    >> has_keys t rest

-- The version, then the keys.
unfoldable pub validated : Tables → Result Tables
validated t = do
  version ←
      found (read_meta key_schema_version t)
        (err_migration (codes "journal-schema-version-missing (not a qiven journal)"))
  guard (bytes_beq version (codes "1"))
      (err_migration (codes "journal-schema-version-unknown: " ++ version))
  has_keys t required_keys
  ok t

-- How `RuntimeJournal::open` reads the settings.
unfoldable pub settled : Tables → Result RuntimeJournal
unfolding parse_u64
settled t = do
  install ← found (read_meta key_install_id t) (err_open (codes "journal-install-id-missing"))
  text ← found (read_meta key_boot_epoch t) (err_open (codes "journal-boot-epoch-unreadable"))
  epoch ← found (parse_u64 text) (err_open (codes "journal-boot-epoch-unreadable"))
  ok (opened_with t install epoch)

abbrev adopted : FileContent → Result Tables
adopted absent = err (err_open (codes "journal-file-missing"))
adopted zero_byte = err (err_open (codes "journal-zero-byte-file"))
adopted foreign = err (err_migration (codes "journal-schema-missing (not a qiven journal)"))
adopted (journal t) = validated t

module _ (f : Foundation) where
  -- The transaction that fills a new journal; `install_bytes` are the sixteen random bytes.
  unfoldable pub populated : Bytes → ℕ → Tables → Result (Unit {0} × Tables)
  unfolding to_hex append_audit_row
  populated install_bytes now t = do
    let install = to_hex install_bytes
    let settings = write_meta key_last_wall_ms (to_string now) (
        write_meta key_quarantine (codes "0") (
          write_meta key_boot_epoch (codes "0")
            (write_meta key_install_id install (write_meta key_schema_version (codes "1") t))))
    let payload = f.append_le_u64 (f.append_le_u64 (put_bytes f f.new_builder install) 1) now
    (genesis, t') ← append_audit_row f (codes "journal_created") (f.contents payload) settings
    ok (tt, write_meta key_genesis_hash (to_hex genesis) t')

  abbrev created : Engine → Bytes → ℕ → FileContent → Result Tables
  created e install_bytes now absent =
      let (answer, t) = txn e (populated install_bytes now) no_rows in answer >>= λ _. ok t
  created e install_bytes now _ = err (err_open (codes "journal-create-refuses-existing-path"))

  -- A failure of the engine while it opens the file or checks it is `quick_check`.
  unfoldable pub open_journal :
      Engine → Result Bool → JournalOpenIntent → FileContent → Bytes → ℕ → Result RuntimeJournal
  unfolding validated settled populated txn
  open_journal e quick_check create_new file install_bytes now = elim file [
    | absent ↦ quick_check >>= λ _. created e install_bytes now absent >>= settled
    | _ ↦ err (err_open (codes "journal-create-refuses-existing-path"))
  ]
  open_journal e quick_check open_existing file install_bytes now = elim file [
    | absent ↦ err (err_open (codes "journal-file-missing"))
    | zero_byte ↦ err (err_open (codes "journal-zero-byte-file"))
    | content ↦ quick_check >>= λ _. adopted content >>= settled
  ]
