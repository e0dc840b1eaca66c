-- ===== src/Cloud/Recovery.antt =====
-- src/omp/cloud/recovery.py: the inventory of a backup, and LocalRecoveryFixture, which restores one into
-- an isolated service.
pub mod Isolated
use umcp.Prelude.{
  ℕ, ◌-◌, String, Eq, string_eq, ◌==◌, Bool, true, false, ◌||◌, not, List, [], ◌∷◌, ◌++◌, length,
  if◌then◌else◌,
}
use umcp.Text.{is_empty}
use umcp.Domain.Errors.{
  Error, Result, ok, err, value_error, recovery_unavailable, ◌>>=◌, ◌>>◌, raise_if,
}
use umcp.Domain.Values.{Datetime, aware, instant, utc}
use umcp.Cloud.Envelope.{is_naive}
use umcp.Cloud.EncryptedMemory.{Platform, CloudStore, Answer}
use umcp.Cloud.EncryptedMemory.Restoring.{Backup, Tombstone, backup, backup_format, restore}

pub record RecoveryInventory : Type 0 where
  pub backup_id : String
  pub captured_at : Datetime
  pub migration_head : String
  pub encrypted_payloads : Bool
  pub tombstones_included : Bool
  pub source : String

unfoldable pub make_inventory : RecoveryInventory → Result RecoveryInventory
make_inventory x = do
  raise_if (is_empty x.backup_id || is_empty x.migration_head) value_error
  raise_if (is_naive x.captured_at) value_error
  raise_if (not x.encrypted_payloads || not x.tombstones_included) value_error
  ok x

-- Counts are natural numbers, so the checks of the receipt hold. Seconds are microseconds here.
pub record RecoveryReceipt : Type 0 where
  pub backup_id : String
  pub target : String
  pub restored_records : ℕ
  pub tombstones_replayed : ℕ
  pub rpo : ℕ
  pub rto : ℕ
  pub observed_at : Datetime

-- The hosted adapter, whose two methods only raise.
abbrev pub hosted_recovery : Result RecoveryReceipt
hosted_recovery = err recovery_unavailable

-- `backup`; `backup_id` is what `uuid4` gives, and `now` the instant of the call.
unfoldable pub take_backup : String → ℕ → String → CloudStore → Result (Backup × RecoveryInventory)
take_backup migration_head now backup_id s = do
  inventory ← make_inventory (record {
    backup_id = backup_id;
    captured_at = utc now;
    migration_head = migration_head;
    encrypted_payloads = true;
    tombstones_included = true;
    source = "local-fixture";
  })
  ok (backup s, inventory)

abbrev pub checked_source : RecoveryInventory → Backup → Result (Unit {0})
checked_source inventory snapshot = do
  raise_if (not (inventory.source == "local-fixture")) recovery_unavailable
  raise_if (not (snapshot.format == backup_format)) value_error

abbrev pub receipt_of :
    RecoveryInventory → ℕ → ℕ → ℕ → Answer ℕ → Result RecoveryReceipt × CloudStore
receipt_of inventory replayed now elapsed (err e, s) = (err e, s)
receipt_of inventory replayed now elapsed (ok restored, s) = (
  ok (record {
    backup_id = inventory.backup_id;
    target = "isolated";
    restored_records = restored;
    tombstones_replayed = replayed;
    rpo = now - instant inventory.captured_at;
    rto = elapsed;
    observed_at = utc now;
  }),
  s,
)

module _ {J : Type 0} (p : Platform J) where
  abbrev pub restore_checked :
      Result (Unit {0})
      → RecoveryInventory
      → List (Result Tombstone)
      → ℕ
      → ℕ
      → Backup
      → CloudStore
      → Result RecoveryReceipt × CloudStore
  restore_checked (err e) inventory ledger now elapsed snapshot s = (err e, s)
  restore_checked (ok _) inventory ledger now elapsed snapshot s =
      receipt_of inventory (length ledger) now elapsed (restore p snapshot ledger s)

  -- `now` is the instant of the call, and `elapsed` what the monotonic clock measures of it.
  unfoldable pub restore_isolated :
      Backup
      → RecoveryInventory
      → List (Result Tombstone)
      → ℕ
      → ℕ
      → CloudStore
      → Result RecoveryReceipt × CloudStore
  restore_isolated snapshot inventory ledger now elapsed s =
      restore_checked (checked_source inventory snapshot) inventory (snapshot.tombstones ++ ledger)
        now elapsed snapshot s
