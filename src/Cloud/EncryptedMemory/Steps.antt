-- ===== src/Cloud/EncryptedMemory/Steps.antt =====
-- The calls that change the store of EncryptedCloudMemoryService, as steps, and what each can do.
use umcp.Prelude.{
  ℕ, ◌+◌, String, nat_eq, string_eq, pair_eq, ◌≡◌, refl, sym, ap, Option, none, some, List, arith,
  inl, inr, Bool-cases,
}
use umcp.Score.{ℤ}
use umcp.Text.{is_empty}
use umcp.Dict.{lookup}
use umcp.Domain.Errors.{Result, ok, err, ◌>>=◌, >>=-eq-ok, ok_injective}
use umcp.Domain.Values.{Uuid}
use umcp.Cloud.Cipher.{Entropy}
use umcp.Cloud.EncryptedMemory.{Platform, Stored, CloudStore, Answer}
use umcp.Cloud.EncryptedMemory.Writing.{
  WritePayload, UpdatePayload, Draws, memory_id, new_record, add_record, write, write_keyed,
  write_new, write_bound, Written, updatable, apply_patch, replace_record, update, Patch,
}
use umcp.Cloud.EncryptedMemory.Vectors.{store_embedding}
use umcp.Cloud.EncryptedMemory.Deleting.{forget, delete_owner}
use umcp.Cloud.EncryptedMemory.Restoring.{Backup, Tombstone, restore}
use umcp.Cloud.EncryptedMemory.Rewrapping.{rotate, rewrap}

module _ {J : Type 0} (p : Platform J) where
  -- the identifier that `uuid4` drew was never used
  pub record IsUnused (draws : Draws) (payload : WritePayload J) (s : CloudStore) : Type 0 where
    pub records : lookup (memory_id p draws) s.records ≡ none
    pub tombstones : lookup (payload.owner_id, memory_id p draws) s.tombstones ≡ none

  pub data Step : CloudStore → CloudStore → Type 0 where
    writes :
        {s : CloudStore} (d : Draws) (payload : WritePayload J)
        → IsUnused d payload s
        → Step s (write p d payload s).1
    updates :
        {s : CloudStore} (r : Entropy) (now : String) (payload : UpdatePayload)
        → Step s (update p r now payload s).1
    embeds :
        {s : CloudStore} (owner_id memory_id : String) (version : ℕ) (values : List ℤ)
        → Step s (store_embedding p owner_id memory_id version values s).1
    forgets :
        {s : CloudStore} (now owner_id memory_id : String)
        → Step s (forget now owner_id memory_id s).1
    deletes : {s : CloudStore} (now owner_id : String) → Step s (delete_owner p now owner_id s).1
    restores :
        {s : CloudStore} (b : Backup) (ledger : List (Result Tombstone))
        → Step s (restore p b ledger s).1
    rotates : {s : CloudStore} (version : ℕ) → Step s (rotate version s).1
    rewraps :
        {s : CloudStore} (draw : String → String → Entropy) (version : ℕ)
        → Step s (rewrap p draw version s).1

  pub data Steps : CloudStore → CloudStore → Type 0 where
    done : {s : CloudStore} → Steps s s
    then_ : {s t u : CloudStore} → Steps s t → Step t u → Steps s u

  -- a new record is the payload's, at version 1
  pub record New (d : Draws) (payload : WritePayload J) (stored : Stored) : Type 0 where
    pub id : stored.id ≡ memory_id p d
    pub owner : stored.owner_id ≡ payload.owner_id
    pub version : stored.version ≡ 1

  new_record-New :
      (d : Draws) (key_version : ℕ) (payload : WritePayload J) (stored : Stored)
      → new_record p d key_version payload ≡ ok stored
      → New d payload stored
  unfolding new_record
  new_record-New d key_version payload stored h =
      let (a, _, h1) = >>=-eq-ok _ _ h in
      let (b, _, h2) = >>=-eq-ok _ _ h1 in
      let (c, _, h3) = >>=-eq-ok _ _ h2 in
      let (e, _, h4) = >>=-eq-ok _ _ h3 in
      let same = sym (ok_injective _ _ h4) in
      record {
        id = ap (λ (x : Stored). x.id) same;
        owner = ap (λ (x : Stored). x.owner_id) same;
        version = ap (λ (x : Stored). x.version) same;
      }

  -- A write leaves the store alone or adds a new record.
  module _ (P : CloudStore → Type 0) (d : Draws) (payload : WritePayload J) (s : CloudStore)
      (same : P s)
      (added : (stored : Stored) → New d payload stored → P (add_record p payload stored s)) where
    write_new-cases :
        (r : Result Stored)
        → new_record p d s.key_version payload ≡ r
        → P (write_new p payload r s).1
    write_new-cases (err e) h = same
    write_new-cases (ok stored) h = added stored (new_record-New d s.key_version payload stored h)

    write_keyed-cases : (o : Option String) → P (write_keyed p d payload o s).1
    unfolding write_keyed
    write_keyed-cases none = write_new-cases _ refl
    write_keyed-cases (some existing) = elim (Bool-cases (is_empty existing)) [
      | inl blank ↦ rw blank (write_new-cases _ refl)
      | inr full ↦ rw full same
    ]

    write_bound-cases :
        (r : Result Uuid) (a : Answer (Written J)) → P a.1 → P (write_bound p r a s).1
    write_bound-cases (err e) a h = same
    write_bound-cases (ok t) a h = h

    pub write-cases : P (write p d payload s).1
    unfolding write
    write-cases = write_bound-cases _ _ (write_keyed-cases _)

  -- an updated record is the old one at its next version
  pub record Next (old stored : Stored) : Type 0 where
    pub id : stored.id ≡ old.id
    pub owner : stored.owner_id ≡ old.owner_id
    pub version : stored.version ≡ old.version + 1

  apply_patch-Next :
      (r : Entropy) (now : String) (key_version : ℕ) (patch : Patch) (old stored : Stored)
      → apply_patch p r now key_version patch old ≡ ok stored
      → Next old stored
  unfolding apply_patch
  apply_patch-Next r now key_version patch old stored h =
      let (a, _, h1) = >>=-eq-ok _ _ h in
      let (b, _, h2) = >>=-eq-ok _ _ h1 in
      let (c, _, h3) = >>=-eq-ok _ _ h2 in
      let same = sym (ok_injective _ _ h3) in
      record {
        id = ap (λ (x : Stored). x.id) same;
        owner = ap (λ (x : Stored). x.owner_id) same;
        version = ap (λ (x : Stored). x.version) same;
      }

  updatable-some :
      (payload : UpdatePayload) (o : Option Stored) (old : Stored)
      → updatable payload o ≡ ok old
      → o ≡ some old
  unfolding updatable ◌>>=◌
  updatable-some payload none old h = cc
  updatable-some payload (some stored) old h = ground arith

  -- An update leaves the store alone or puts the next version of a record in its place.
  module _ (P : CloudStore → Type 0) (r : Entropy) (now : String) (payload : UpdatePayload)
      (s : CloudStore) (same : P s)
      (replaced : (old stored : Stored)
        → lookup payload.id s.records ≡ some old
        → Next old stored
        → P (replace_record p payload.id (ok stored) s).1) where
    replace_record-cases :
        (o : Result Stored)
        → (updatable payload (lookup payload.id s.records) >>= λ stored.
            apply_patch p r now s.key_version payload.patch stored)
          ≡ o
        → P (replace_record p payload.id o s).1
    replace_record-cases (err e) h = same
    replace_record-cases (ok stored) h =
        let (old, allowed, made) =
          >>=-eq-ok (updatable payload (lookup payload.id s.records)) _ h in
        replaced old stored (updatable-some payload _ old allowed)
          (apply_patch-Next r now s.key_version payload.patch old stored made)

    pub update-cases : P (update p r now payload s).1
    unfolding update
    update-cases = replace_record-cases _ refl
