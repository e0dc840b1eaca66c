-- ===== src/Cloud/EncryptedMemory/Absence.antt =====
-- Two ways in which a forgotten memory is not simply gone.
use umcp.Prelude.{
  String, nat_eq, string_eq, pair_eq, ◌==◌, ==_refl, ◌≡◌, refl, sym, ap, ◌∙◌, true, false, none,
  some, List, [], ◌∷◌, ◌++◌, elem, inl, inr, Bool-cases,
}
use umcp.Text.{is_empty}
use umcp.Dict.{Dict, lookup}
use umcp.Dict.Laws.{lookup-erase_self}
use umcp.Domain.Errors.{Result, ok, err, key_error, ◌>>=◌}
use umcp.Domain.Values.{Uuid}
use umcp.Cloud.EncryptedMemory.{Platform, Stored, View, CloudStore, OwnerKey, Answer, tenant_of}
use umcp.Cloud.EncryptedMemory.Writing.{WritePayload, Draws, write, write_keyed}
use umcp.Cloud.EncryptedMemory.Reading.{get}
use umcp.Cloud.EncryptedMemory.Deleting.{is_owned, bury, forget, tombstones}
use umcp.Cloud.EncryptedMemory.Restoring.{
  Backup, Tombstone, restore, restore_records, restore_noted, note_ledger, note_tombstone,
  resume_ledger, checked_tombstone, checked_records, expose, shaped_list,
}

module _ (now o i : String) (s : CloudStore) where
  forgotten-bury : (t : CloudStore) → forget now o i s ≡ ("forgotten", t) → bury now o i s ≡ t
  unfolding forget
  forgotten-bury t h = elim (Bool-cases (elem (o, i) s.forget_keys)) [
    | inl seen ↦ let m = rw seen at h in cc
    | inr new ↦ elim (Bool-cases (is_owned o (lookup i s.records))) [
      | inr missing ↦ let m = rw (new, missing) at h in cc
      | inl here ↦ let m = rw (new, here) at h in ap (λ x. x.1) m
    ]
  ]

  forget-seen : elem (o, i) s.forget_keys ≡ true → forget now o i s ≡ ("already_absent", s)
  unfolding forget
  forget-seen seen = rw seen refl

  elem_head : (xs : List OwnerKey) → elem (o, i) ((o, i) ∷ xs) ≡ true
  elem_head xs = rw (==_refl o, ==_refl i) refl

  -- whatever `forget` answers, it notes that it was asked
  forget-notes :
      (r : String) (t : CloudStore) → forget now o i s ≡ (r, t) → elem (o, i) t.forget_keys ≡ true
  unfolding forget
  forget-notes r t h = elim (Bool-cases (elem (o, i) s.forget_keys)) [
    | inl seen ↦ (let m = rw seen at h in ap (λ x. elem (o, i) x.1.forget_keys) (sym m) ∙ seen)
    | inr new ↦ elim (Bool-cases (is_owned o (lookup i s.records))) [
      | inr missing ↦
          (let m = rw (new, missing) at h in
            ap (λ x. elem (o, i) x.1.forget_keys) (sym m) ∙ elem_head s.forget_keys)
      | inl here ↦
          (let m = rw (new, here) at h in
            ap (λ x. elem (o, i) x.1.forget_keys) (sym m) ∙ elem_head s.forget_keys)
    ]
  ]

module _ {J : Type 0} (p : Platform J) where
  -- the record that the key leads to is gone
  write-lost :
      (d : Draws) (payload : WritePayload J) (s : CloudStore) (tenant : Uuid) (id : String)
      → tenant_of p payload.owner_id ≡ ok tenant
      → lookup (payload.owner_id, payload.idempotency_key) s.write_keys ≡ some id
      → is_empty id ≡ false
      → lookup id s.records ≡ none
      → write p d payload s ≡ (err key_error, s)
  unfolding write write_keyed ◌>>=◌
  write-lost d payload s tenant id bound used named gone = rw (bound, used, named, gone) refl

  -- After a memory was forgotten, a write with the idempotency key that it was written with
  -- raises KeyError and changes nothing, for an owner that is bound to a tenant.
  pub forget-write :
      (now : String) (d : Draws) (payload : WritePayload J) (s t : CloudStore) (tenant : Uuid)
      (id : String)
      → tenant_of p payload.owner_id ≡ ok tenant
      → lookup (payload.owner_id, payload.idempotency_key) s.write_keys ≡ some id
      → is_empty id ≡ false
      → forget now payload.owner_id id s ≡ ("forgotten", t)
      → write p d payload t ≡ (err key_error, t)
  forget-write now d payload s t tenant id bound used named gone =
      let same = forgotten-bury now payload.owner_id id s t gone in
      write-lost d payload t tenant id bound
        (ap (λ (x : CloudStore). lookup (payload.owner_id, payload.idempotency_key) x.write_keys)
            (sym same)
          ∙ used)
        named
        (ap (λ (x : CloudStore). lookup id x.records) (sym same) ∙ lookup-erase_self id s.records)

  note-keys :
      (e : Result Tombstone) (s : CloudStore) → (note_tombstone p e s).1.forget_keys ≡ s.forget_keys
  note-keys (err e) s = refl
  note-keys (ok (key, t)) s = refl

  resume_ledger-keys :
      (a : Answer (Unit {0})) (k : CloudStore → Answer (Unit {0}))
      → ((s : CloudStore) → (k s).1.forget_keys ≡ s.forget_keys)
      → (resume_ledger a k).1.forget_keys ≡ a.1.forget_keys
  resume_ledger-keys (err e, t) k f = refl
  resume_ledger-keys (ok _, t) k f = f t

  note_ledger-keys :
      (ledger : List (Result Tombstone)) (s : CloudStore)
      → (note_ledger p ledger s).1.forget_keys ≡ s.forget_keys
  unfolding note_ledger
  note_ledger-keys [] s = refl
  note_ledger-keys (e ∷ ledger) s =
      resume_ledger-keys (note_tombstone p (checked_tombstone p e) s) (note_ledger p ledger)
        (note_ledger-keys ledger)
      ∙ note-keys (checked_tombstone p e) s

  expose-keys :
      (r : Result (Dict String Stored)) (s : CloudStore)
      → (expose r s).1.forget_keys ≡ s.forget_keys
  expose-keys (err e) s = refl
  expose-keys (ok d) s = refl

  restore_noted-keys :
      (records : Dict String (Result Stored)) (a : Answer (Unit {0}))
      → (restore_noted p records a).1.forget_keys ≡ a.1.forget_keys
  restore_noted-keys records (err e, s) = refl
  restore_noted-keys records (ok _, s) = expose-keys (checked_records p records) s

  restore_records-keys :
      (r : Result (Dict String (Result Stored))) (ledger : List (Result Tombstone)) (s : CloudStore)
      → (restore_records p r ledger s).1.forget_keys ≡ s.forget_keys
  restore_records-keys (err e) ledger s = refl
  restore_records-keys (ok records) ledger s =
      restore_noted-keys records (note_ledger p (shaped_list (tombstones s) ++ ledger) s)
      ∙ note_ledger-keys (shaped_list (tombstones s) ++ ledger) s

  restore-keys :
      (b : Backup) (ledger : List (Result Tombstone)) (s : CloudStore)
      → (restore p b ledger s).1.forget_keys ≡ s.forget_keys
  unfolding restore
  restore-keys b ledger s = elim (Bool-cases (b.format == "omp.cloud.backup.v1")) [
    | inl same ↦ rw same (restore_records-keys b.records ledger s)
    | inr other ↦ rw other refl
  ]

  -- A memory that was asked to be forgotten, and that a restore then brought back readable,
  -- cannot be forgotten: `forget` answers that it is already absent, and its owner reads it as
  -- before.
  pub forget-restore-forget :
      (now later o i r : String) (b : Backup) (ledger : List (Result Tombstone)) (s t : CloudStore)
      (view : View J)
      → forget now o i s ≡ (r, t)
      → get p o i (restore p b ledger t).1 ≡ ok (some view)
      → (forget later o i (restore p b ledger t).1 ≡ ("already_absent", (restore p b ledger t).1))
        × (get p o i (forget later o i (restore p b ledger t).1).1 ≡ ok (some view))
  forget-restore-forget now later o i r b ledger s t view asked readable =
      let again =
        forget-seen later o i (restore p b ledger t).1
          (ap (elem (o, i)) (restore-keys b ledger t) ∙ forget-notes now o i s r t asked) in
      (again, ap (λ x. get p o i x.1) again ∙ readable)
