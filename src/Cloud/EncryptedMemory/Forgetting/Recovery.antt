-- ===== src/Cloud/EncryptedMemory/Forgetting/Recovery.antt =====
-- Restoring a backup and rewrapping, for memories that a tombstone stands for.
use umcp.Prelude.{
  ℕ, String, nat_eq, string_eq, pair_eq, ◌==◌, ◌≡◌, refl, sym, ap, ◌∙◌, List, [], ◌∷◌, ◌++◌, ◌||◌,
  ltb, inl, inr, Bool-cases,
}
use umcp.Dict.{Dict, lookup}
use umcp.Dict.Laws.{lookup-insert_ne-none}
use umcp.Domain.Errors.{Result, ok, err, >>=-eq-ok, ok_injective}
use umcp.Cloud.Cipher.{Entropy}
use umcp.Cloud.EncryptedMemory.{Platform, Stored, CloudStore, Answer}
use umcp.Cloud.EncryptedMemory.Deleting.{is_owned, tombstones}
use umcp.Cloud.EncryptedMemory.Restoring.{
  Backup, Tombstone, restore, restore_records, restore_noted, note_ledger, note_tombstone,
  resume_ledger, checked_tombstone, checked_records, expose, shaped_list,
}
use umcp.Cloud.EncryptedMemory.Rewrapping.{rewrap, rewrap_records, rewrap_record, take_rewrapped}
use umcp.Cloud.EncryptedMemory.Forgetting.{Buried, replay-buried}

module _ (o i : String) where
  module _ {J : Type 0} (p : Platform J) where
    note-Buried :
        (e : Result Tombstone) (s : CloudStore) → Buried o i s → Buried o i (note_tombstone p e s).1
    note-Buried (err e) s h = h
    note-Buried (ok (key, t)) s h = (lookup-insert_ne-none key (o, i) t s.tombstones h.0, h.1)

    resume_ledger-Buried :
        (a : Answer (Unit {0})) (k : CloudStore → Answer (Unit {0}))
        → ((s : CloudStore) → Buried o i s → Buried o i (k s).1)
        → Buried o i a.1
        → Buried o i (resume_ledger a k).1
    resume_ledger-Buried (err e, t) k f h = h
    resume_ledger-Buried (ok _, t) k f h = f t h

    note_ledger-Buried :
        (ledger : List (Result Tombstone)) (s : CloudStore)
        → Buried o i s
        → Buried o i (note_ledger p ledger s).1
    unfolding note_ledger
    note_ledger-Buried [] s h = h
    note_ledger-Buried (e ∷ ledger) s h =
        resume_ledger-Buried (note_tombstone p (checked_tombstone p e) s) (note_ledger p ledger)
          (note_ledger-Buried ledger) (note-Buried (checked_tombstone p e) s h)

    expose-Buried :
        (r : Result (Dict String Stored)) (s : CloudStore)
        → Buried o i s
        → Buried o i (expose r s).1
    expose-Buried (err e) s h = h
    expose-Buried (ok restored) s h = (h.0, replay-buried o i s.tombstones restored h.0)

    restore_noted-Buried :
        (records : Dict String (Result Stored)) (a : Answer (Unit {0}))
        → Buried o i a.1
        → Buried o i (restore_noted p records a).1
    restore_noted-Buried records (err e, s) h = h
    restore_noted-Buried records (ok _, s) h = expose-Buried (checked_records p records) s h

    restore_records-Buried :
        (r : Result (Dict String (Result Stored))) (ledger : List (Result Tombstone))
        (s : CloudStore)
        → Buried o i s
        → Buried o i (restore_records p r ledger s).1
    restore_records-Buried (err e) ledger s h = h
    restore_records-Buried (ok records) ledger s h =
        restore_noted-Buried records _
          (note_ledger-Buried (shaped_list (tombstones s) ++ ledger) s h)

    pub restore-Buried :
        (b : Backup) (ledger : List (Result Tombstone)) (s : CloudStore)
        → Buried o i s
        → Buried o i (restore p b ledger s).1
    unfolding restore
    restore-Buried b ledger s h = elim (Bool-cases (b.format == "omp.cloud.backup.v1")) [
      | inl same ↦ rw same (restore_records-Buried b.records ledger s h)
      | inr other ↦ rw other h
    ]

    -- a rewrapped record has the owner it had
    rewrap_record-owner :
        (draw : String → String → Entropy) (version : ℕ) (stored : Stored) (x : Stored × ℕ)
        → rewrap_record p draw version stored ≡ ok x
        → x.0.owner_id ≡ stored.owner_id
    unfolding rewrap_record
    rewrap_record-owner draw version stored x h =
        let (a, _, h1) = >>=-eq-ok _ _ h in
        let (b, _, h2) = >>=-eq-ok _ _ h1 in
        let (c, _, h3) = >>=-eq-ok _ _ h2 in
        let (d, _, h4) = >>=-eq-ok _ _ h3 in
        ap (λ (y : Stored × ℕ). y.0.owner_id) (sym (ok_injective _ _ h4))

    rewrap_records-Absent :
        (draw : String → String → Entropy) (version : ℕ) (d : Dict String Stored)
        (x : Dict String Stored × ℕ)
        → rewrap_records p draw version d ≡ ok x
        → is_owned o (lookup i x.0) ≡ is_owned o (lookup i d)
    unfolding rewrap_records lookup
    rewrap_records-Absent draw version [] x h = rw (← ok_injective _ _ h) refl
    rewrap_records-Absent draw version ((j, stored) ∷ d) x h =
        let (a, first, h1) = >>=-eq-ok (rewrap_record p draw version stored) _ h in
        let (b, rest, h2) = >>=-eq-ok (rewrap_records p draw version d) _ h1 in
        let same = rewrap_record-owner draw version stored a first in
        let later = rewrap_records-Absent draw version d b rest in
        rw (← ok_injective _ _ h2) (elim (Bool-cases (j == i)) [
          | inl here ↦ rw (here, same) refl
          | inr other ↦ rw (other, later) refl
        ])

    take_rewrapped-Buried :
        (draw : String → String → Entropy) (version : ℕ) (s : CloudStore)
        (r : Result (Dict String Stored × ℕ))
        → rewrap_records p draw version s.records ≡ r
        → Buried o i s
        → Buried o i (take_rewrapped version r s).1
    take_rewrapped-Buried draw version s (err e) m h = h
    take_rewrapped-Buried draw version s (ok x) m h =
        (h.0, rewrap_records-Absent draw version s.records x m ∙ h.1)

    pub rewrap-Buried :
        (draw : String → String → Entropy) (version : ℕ) (s : CloudStore)
        → Buried o i s
        → Buried o i (rewrap p draw version s).1
    unfolding rewrap
    rewrap-Buried draw version s h =
        elim (Bool-cases (ltb version 1 || ltb version s.key_version)) [
          | inl bad ↦ rw bad h
          | inr good ↦ rw good (take_rewrapped-Buried draw version s _ refl h)
        ]
