-- ===== src/Cloud/EncryptedMemory/Restoring.antt =====
-- `backup` and `restore` of EncryptedCloudMemoryService.
use umcp.Prelude.{
  ℕ, String, nat_eq, string_eq, pair_eq, ◌==◌, Bool, false, ◌&&◌, not, Option, none, some, List, [],
  ◌∷◌, ◌++◌, length, if◌then◌else◌,
}
use umcp.Dict.{Dict, lookup, insert, erase}
use umcp.Domain.Errors.{Result, ok, err, value_error, ◌>>=◌, ◌>>◌, raise_if}
use umcp.Cloud.EncryptedMemory.{
  Platform, Stored, Embedding, CloudStore, OwnerKey, Answer, tenant_of,
}
use umcp.Cloud.EncryptedMemory.Deleting.{is_owned, tombstones}

-- One entry of a deletion ledger: ((owner, memory), time).
abbrev pub Tombstone : Type 0
Tombstone = OwnerKey × String

-- A snapshot as JSON may give it. A value of another shape than the one asked for is `err e`, where
-- `e` is the error that the checks of its shape raise.
pub record Backup : Type 0 where
  pub format : String
  pub records : Result (Dict String (Result Stored))
  pub tombstones : List (Result Tombstone)

abbrev pub backup_format : String
backup_format = "omp.cloud.backup.v1"

abbrev pub shaped {ℓ κ} : {K : Type ℓ} {A : Type κ} → Dict K A → Dict K (Result A)
shaped [] = []
shaped ((k, a) ∷ d) = (k, ok a) ∷ shaped d

abbrev pub shaped_list {ℓ} : {A : Type ℓ} → List A → List (Result A)
shaped_list [] = []
shaped_list (a ∷ d) = ok a ∷ shaped_list d

unfoldable pub backup : CloudStore → Backup
backup s = record {
  format = backup_format;
  records = ok (shaped s.records);
  tombstones = shaped_list (tombstones s);
}

abbrev pub resume_ledger : Answer (Unit {0}) → (CloudStore → Answer (Unit {0})) → Answer (Unit {0})
resume_ledger (err e, s) k = (err e, s)
resume_ledger (ok _, s) k = k s

module _ {J : Type 0} (p : Platform J) where
  abbrev pub checked_tombstone : Result Tombstone → Result Tombstone
  checked_tombstone entry = do
    t ← entry
    tenant_of p t.0.0
    raise_if (not (p.is_time t.1)) value_error
    ok t

  abbrev pub note_tombstone : Result Tombstone → CloudStore → Answer (Unit {0})
  note_tombstone (err e) s = (err e, s)
  note_tombstone (ok (key, deleted_at)) s =
      (ok tt, record s { tombstones = insert key deleted_at s.tombstones })

  -- What was noted before a bad entry stays noted.
  unfoldable pub note_ledger : List (Result Tombstone) → CloudStore → Answer (Unit {0})
  note_ledger [] s = (ok tt, s)
  note_ledger (entry ∷ ledger) s =
      resume_ledger (note_tombstone (checked_tombstone entry) s) (note_ledger ledger)

  -- The shape of the whole record comes first, also that of its ciphertexts, which the source looks at
  -- after the tenant and the identifier: a record with several faults raises another of its errors.
  unfoldable pub checked_record : String → Result Stored → Result Stored
  checked_record memory_id shape = do
    stored ← shape
    tenant_of p stored.owner_id
    raise_if (not (stored.id == memory_id)) value_error
    ok stored

  unfoldable pub checked_records : Dict String (Result Stored) → Result (Dict String Stored)
  checked_records [] = ok []
  checked_records ((memory_id, shape) ∷ records) = do
    stored ← checked_record memory_id shape
    rest ← checked_records records
    ok ((memory_id, stored) ∷ rest)

-- the records without the one that the tombstone is for
abbrev pub without_buried : OwnerKey → Dict String Stored → Dict String Stored
without_buried (owner_id, memory_id) records =
    if is_owned owner_id (lookup memory_id records) then erase memory_id records else records

unfoldable pub replay : Dict OwnerKey String → Dict String Stored → Dict String Stored
replay [] records = records
replay ((key, deleted_at) ∷ ledger) records = replay ledger (without_buried key records)

abbrev pub matches_record : Embedding → Option Stored → Bool
matches_record e none = false
matches_record e (some stored) = e.owner_id == stored.owner_id && e.source_version == stored.version

unfoldable pub live_embeddings : Dict String Stored → Dict String Embedding → Dict String Embedding
live_embeddings records [] = []
live_embeddings records ((memory_id, e) ∷ embeddings) =
    let rest = live_embeddings records embeddings in
    if matches_record e (lookup memory_id records) then (memory_id, e) ∷ rest else rest

unfoldable pub replayed_keys : Dict String Stored → Dict OwnerKey String → Dict OwnerKey String
replayed_keys records [] = []
replayed_keys records ((key, memory_id) ∷ keys) =
    let rest = replayed_keys records keys in
    if is_owned key.0 (lookup memory_id records) then (key, memory_id) ∷ rest else rest

abbrev pub exposed : Dict String Stored → CloudStore → CloudStore
exposed records s = record s {
  records = records;
  embeddings = live_embeddings records s.embeddings;
  write_keys = replayed_keys records s.write_keys;
}

abbrev pub expose : Result (Dict String Stored) → CloudStore → Answer ℕ
expose (err e) s = (err e, s)
expose (ok restored) s =
    let records = replay s.tombstones restored in (ok (length records), exposed records s)

module _ {J : Type 0} (p : Platform J) where
  abbrev pub restore_noted : Dict String (Result Stored) → Answer (Unit {0}) → Answer ℕ
  restore_noted records (err e, s) = (err e, s)
  restore_noted records (ok _, s) = expose (checked_records p records) s

  abbrev pub restore_records :
      Result (Dict String (Result Stored)) → List (Result Tombstone) → CloudStore → Answer ℕ
  restore_records (err e) ledger s = (err e, s)
  restore_records (ok records) ledger s =
      restore_noted records (note_ledger p (shaped_list (tombstones s) ++ ledger) s)

  -- The tombstones of the snapshot itself are not read: the caller hands over a ledger.
  unfoldable pub restore : Backup → List (Result Tombstone) → CloudStore → Answer ℕ
  restore snapshot ledger s =
      if not (snapshot.format == backup_format)
      then (err value_error, s)
      else restore_records snapshot.records ledger s
