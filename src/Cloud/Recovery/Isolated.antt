-- ===== src/Cloud/Recovery/Isolated.antt =====
-- A backup that is restored into a fresh service reads as the service that it was taken from.
use mathlib.Core.Path.{subst}
use umcp.Prelude.{
  ℕ, ◌-◌, String, string_eq, pair_eq, ==_refl, ◌≡◌, refl, sym, ap, true, ◌||◌, List, [], ◌∷◌, ◌++◌,
  length, inl, inr, Bool-cases,
}
use umcp.Text.{is_empty}
use umcp.Dict.{Dict, insert}
use umcp.Dict.Entries.{Every, Every-insert}
use umcp.Sorting.{sort}
use umcp.Sorting.Laws.{All, All-sort}
use umcp.Domain.Errors.{ok, ◌>>=◌, ok_injective}
use umcp.Domain.Values.{Uuid, instant, utc}
use umcp.Cloud.EncryptedMemory.{Platform, Stored, CloudStore, OwnerKey, make_store, tenant_of}
use umcp.Cloud.EncryptedMemory.Reading.{get}
use umcp.Cloud.EncryptedMemory.Deleting.{leb_key, tombstones}
use umcp.Cloud.EncryptedMemory.Restoring.{
  Backup, Tombstone, shaped, shaped_list, backup, restore, note_ledger, checked_record,
  checked_records, replay, exposed,
}
use umcp.Cloud.EncryptedMemory.Forgetting.{Absent}
use umcp.Cloud.Recovery.{
  RecoveryReceipt, RecoveryInventory, take_backup, make_inventory, restore_isolated,
}

module _ {J : Type 0} (p : Platform J) (records : Dict String Stored) where
  -- The record stands under its identifier, and its owner is bound to a tenant.
  abbrev pub IsSound : String → Stored → Type 0
  IsSound i x = (x.id ≡ i) × ((tenant : Uuid) × (tenant_of p x.owner_id ≡ ok tenant))

  -- The tombstone is a well-formed one, of a memory that is not among the records.
  abbrev pub IsLaid : OwnerKey × String → Type 0
  IsLaid (key, t) =
      ((tenant : Uuid) × (tenant_of p key.0 ≡ ok tenant))
      × (p.is_time t ≡ true)
      × Absent key.0 key.1 records

  checked_records-shaped :
      (d : Dict String Stored) → Every IsSound d → checked_records p (shaped d) ≡ ok d
  unfolding checked_records checked_record ◌>>=◌
  checked_records-shaped [] h = refl
  checked_records-shaped ((i, x) ∷ d) ((named, (tenant, bound)), h) =
      rw (bound, named, ==_refl i, checked_records-shaped d h) refl

  -- every key of the ledger is of an absent memory
  abbrev Gone : Dict OwnerKey String → Type 0
  Gone ledger = Every (λ key t. Absent key.0 key.1 records) ledger

  replay-Gone : (ledger : Dict OwnerKey String) → Gone ledger → replay ledger records ≡ records
  unfolding replay
  replay-Gone [] h = refl
  replay-Gone ((key, t) ∷ ledger) h = rw h.0 (replay-Gone ledger h.1)

  -- What noting well-formed tombstones leaves: they are noted, and nothing else has changed.
  record Noted (s : CloudStore) (ledger : List Tombstone) : Type 0 where
    noted : Dict OwnerKey String
    gone : Gone noted
    made : note_ledger p (shaped_list ledger) s ≡ (ok tt, record s { tombstones = noted })

  note_ledger-Noted :
      (ledger : List Tombstone) (s : CloudStore)
      → All IsLaid ledger
      → Gone s.tombstones
      → Noted s ledger
  unfolding note_ledger ◌>>=◌
  note_ledger-Noted [] s h g = record { noted = s.tombstones; gone = g; made = refl }
  note_ledger-Noted ((key, t) ∷ ledger) s (((tenant, bound), timed, absent), h) g =
      let rest =
        note_ledger-Noted ledger (record s { tombstones = insert key t s.tombstones }) h
          (Every-insert (λ k u. Absent k.0 k.1 records) key t s.tombstones absent g) in
      record { noted = rest.noted; gone = rest.gone; made = rw (bound, timed) rest.made }

module _ {J : Type 0} (p : Platform J) (s : CloudStore)
    (sound : Every (IsSound p s.records) s.records)
    (laid : All (IsLaid p s.records) s.tombstones) where
  ledger : Noted p s.records (make_store s.key_version) (tombstones s)
  unfolding tombstones
  ledger =
      note_ledger-Noted p s.records (tombstones s) (make_store s.key_version)
        (All-sort (IsLaid p s.records) leb_key s.tombstones laid) tt

  append-nothing : {A : Type 0} (xs : List A) → xs ++ [] ≡ xs
  append-nothing [] = refl
  append-nothing (x ∷ xs) = ap (◌∷◌ x) (append-nothing xs)

  restored_store : CloudStore
  restored_store =
      exposed s.records (record (make_store s.key_version) { tombstones = ledger.noted })

  restore-made :
      restore p (backup s) (shaped_list (tombstones s) ++ []) (make_store s.key_version)
      ≡ (ok (length s.records), restored_store)
  unfolding restore backup restored_store tombstones sort
  restore-made =
      rw
        (
          append-nothing (shaped_list (tombstones s)),
          ledger.made,
          checked_records-shaped p s.records s.records sound,
          replay-Gone p s.records ledger.noted ledger.gone,
        )
        refl

  get-restored : (owner i : String) → get p owner i restored_store ≡ get p owner i s
  unfolding get restored_store
  get-restored owner i = refl

-- the receipt of a restore of all records
abbrev receipt_for : CloudStore → RecoveryInventory → ℕ → ℕ → RecoveryReceipt
receipt_for s inventory now elapsed = record {
  backup_id = inventory.backup_id;
  target = "isolated";
  restored_records = length s.records;
  tombstones_replayed = length (shaped_list (tombstones s) ++ []);
  rpo = now - instant inventory.captured_at;
  rto = elapsed;
  observed_at = utc now;
}

module _ {J : Type 0} (p : Platform J) (s : CloudStore)
    (sound : Every (IsSound p s.records) s.records)
    (laid : All (IsLaid p s.records) s.tombstones) where
  isolated :
      (inventory : RecoveryInventory) (now elapsed : ℕ)
      → inventory.source ≡ "local-fixture"
      → restore_isolated p (backup s) inventory [] now elapsed (make_store s.key_version)
        ≡ (ok (receipt_for s inventory now elapsed), restored_store p s sound laid)
  unfolding restore_isolated backup ◌>>=◌
  isolated inventory now elapsed local = rw (local, restore-made p s sound laid) refl

taken-whole :
    (head id : String) (taken : ℕ) (s : CloudStore) (snapshot : Backup)
    (inventory : RecoveryInventory)
    → take_backup head taken id s ≡ ok (snapshot, inventory)
    → (snapshot ≡ backup s) × (inventory.source ≡ "local-fixture")
unfolding take_backup make_inventory ◌>>=◌
taken-whole head id taken s snapshot inventory h =
    elim (Bool-cases (is_empty id || is_empty head)) [
      | inl blank ↦ let m = rw blank at h in cc
      | inr full ↦
          (let m = ok_injective _ _ (rw full at h) in
            (ap (λ x. x.0) (sym m), ap (λ (x : Backup × RecoveryInventory). x.1.source) (sym m)))
    ]

-- What a restore into a fresh service leaves.
pub record Isolated {J : Type 0} (p : Platform J) (s : CloudStore) (snapshot : Backup)
    (inventory : RecoveryInventory) (now elapsed : ℕ) : Type 0 where
  pub receipt : RecoveryReceipt
  pub after : CloudStore
  pub restored :
      restore_isolated p snapshot inventory [] now elapsed (make_store s.key_version)
      ≡ (ok receipt, after)
  pub count : receipt.restored_records ≡ length s.records
  pub same : (owner i : String) → get p owner i after ≡ get p owner i s

-- A backup that was taken of a service is accepted by a fresh one, which then counts as many records and
-- gives every owner the same answer for every memory, if each record stands under its own identifier and
-- has a bound owner, and each tombstone is well formed and of a memory that is not there.
pub take_backup-Isolated :
    {J : Type 0} (p : Platform J) (s : CloudStore) (head id : String) (taken now elapsed : ℕ)
    (snapshot : Backup) (inventory : RecoveryInventory)
    → Every (IsSound p s.records) s.records
    → All (IsLaid p s.records) s.tombstones
    → take_backup head taken id s ≡ ok (snapshot, inventory)
    → Isolated p s snapshot inventory now elapsed
take_backup-Isolated p s head id taken now elapsed snapshot inventory sound laid made =
    let (whole, local) = taken-whole head id taken s snapshot inventory made in
    subst (λ b. Isolated p s b inventory now elapsed) (sym whole)
      (record {
        receipt = receipt_for s inventory now elapsed;
        after = restored_store p s sound laid;
        restored = isolated p s sound laid inventory now elapsed local;
        count = refl;
        same = get-restored p s sound laid;
      })
