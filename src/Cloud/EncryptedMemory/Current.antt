-- ===== src/Cloud/EncryptedMemory/Current.antt =====
-- Vectors that belong to the records as they stand now, and what the calls on records leave of them.
pub mod Recovery
pub mod Bound
use mathlib.Core.Path.{subst}
use umcp.Prelude.{
  ℕ, ◌+◌, String, Eq, nat_eq, string_eq, pair_eq, ◌==◌, ==_refl, ◌≡◌, ◌≢◌, refl, sym, ap, ◌∙◌, Bool,
  true, false, not, Option, none, some, List, [], ◌∷◌, ◌++◌, ◌||◌, ◌&&◌, &&_iff, ltb, elem, arith,
  inl, inr, Bool-cases, Option-cases, if◌then◌else◌,
}
use umcp.Score.{ℤ}
use umcp.Dict.{Dict, lookup, insert, erase}
use umcp.Dict.Laws.{
  lookup-insert, lookup-erase, lookup-insert_cases, lookup-insert_ne, lookup-insert_self,
  lookup-erase-some, lookup-erase_ne,
}
use umcp.Domain.Errors.{Error, Result, ok, err, ◌>>=◌, >>=-eq-ok, ok_injective}
use umcp.Domain.Values.{Uuid}
use umcp.Cloud.Cipher.{Entropy}
use umcp.Cloud.EncryptedMemory.{
  Platform, Stored, Embedding, CloudStore, OwnerKey, Answer, make_store,
}
use umcp.Cloud.EncryptedMemory.Writing.{
  WritePayload, UpdatePayload, Draws, memory_id, add_record, write, replace_record, update,
}
use umcp.Cloud.EncryptedMemory.Vectors.{store_embedding, put_embedding, embed_bound, is_current}
use umcp.Cloud.EncryptedMemory.Deleting.{
  is_owned, bury, forget, bury_each, delete_owner, delete_bound, owned_ids, tombstones,
}
use umcp.Cloud.EncryptedMemory.Restoring.{
  Backup, Tombstone, restore, restore_records, restore_noted, note_ledger, note_tombstone,
  resume_ledger, checked_tombstone, checked_record, checked_records, expose, exposed, replay,
  without_buried, shaped_list, live_embeddings, matches_record,
}
use umcp.Cloud.EncryptedMemory.Rewrapping.{
  rotate, rewrap, rewrap_records, rewrap_record, take_rewrapped,
}
use umcp.Cloud.EncryptedMemory.Steps.{
  IsUnused, Step, writes, updates, embeds, forgets, deletes, restores, rotates, rewraps, Steps,
  done, then_, New, Next, write-cases, update-cases,
}

-- Each record stands under its own identifier.
abbrev pub Keyed : Dict String Stored → Type 0
Keyed records = (i : String) (x : Stored) → lookup i records ≡ some x → x.id ≡ i

-- Each vector has a record of the same owner, at the version that it was made from.
abbrev pub Fresh : Dict String Stored → Dict String Embedding → Type 0
Fresh records embeddings =
    (i : String) (e : Embedding)
    → lookup i embeddings ≡ some e
    → matches_record e (lookup i records) ≡ true

pub record Current (s : CloudStore) : Type 0 where
  pub keyed : Keyed s.records
  pub fresh : Fresh s.records s.embeddings

pub make_store-Current : (n : ℕ) → Current (make_store n)
unfolding lookup
make_store-Current n = record { keyed = λ i x l. cc; fresh = λ i e l. cc }

pub Keyed-erase : (j : String) (d : Dict String Stored) → Keyed d → Keyed (erase j d)
Keyed-erase j d h i x l = h i x (lookup-erase-some j i x d l).1

pub Keyed-insert :
    (j : String) (stored : Stored) (d : Dict String Stored)
    → stored.id ≡ j
    → Keyed d
    → Keyed (insert j stored d)
Keyed-insert j stored d same h i x l = elim (lookup-insert_cases j i stored x d l) [
  | inl (here, new) ↦ ap (λ (y : Stored). y.id) new ∙ same ∙ sym here
  | inr (other, old) ↦ h i x old
]

-- a record and its vector go together
Fresh-erase :
    (j : String) (d : Dict String Stored) (v : Dict String Embedding)
    → Fresh d v
    → Fresh (erase j d) (erase j v)
Fresh-erase j d v h i e l =
    let (other, old) = lookup-erase-some j i e v l in
    ap (matches_record e) (lookup-erase_ne j i d other) ∙ h i e old

-- a record changes, and its vector goes
pub Fresh-update :
    (j : String) (stored : Stored) (d : Dict String Stored) (v : Dict String Embedding)
    → Fresh d v
    → Fresh (insert j stored d) (erase j v)
Fresh-update j stored d v h i e l =
    let (other, old) = lookup-erase-some j i e v l in
    ap (matches_record e) (lookup-insert_ne j i stored d other) ∙ h i e old

-- a record is new
pub Fresh-add :
    (j : String) (stored : Stored) (d : Dict String Stored) (v : Dict String Embedding)
    → lookup j d ≡ none
    → Fresh d v
    → Fresh (insert j stored d) v
Fresh-add j stored d v new h i e l = elim (Bool-cases (j == i)) [
  | inl here ↦
      (let m = h i e l in
        let same = (string_eq.beq_iff j i).0 here in cc (m, ap (λ k. lookup k d) same, new))
  | inr other ↦
      ap (matches_record e)
        (lookup-insert_ne j i stored d (λ same. cc (other, (string_eq.beq_iff j i).1 same)))
      ∙ h i e l
]

-- a vector is stored for a record that is still current
pub is_current-matches :
    (owner : String) (version : ℕ) (values : List ℤ) (o : Option Stored)
    → is_current owner version o ≡ true
    → matches_record (record { owner_id = owner; source_version = version; values = values }) o
      ≡ true
unfolding is_current
is_current-matches owner version values none h = h
is_current-matches owner version values (some x) h =
    ground (arith, string_eq.beq_iff x.owner_id owner, string_eq.beq_iff owner x.owner_id)

pub Fresh-put :
    (j : String) (e : Embedding) (d : Dict String Stored) (v : Dict String Embedding)
    → matches_record e (lookup j d) ≡ true
    → Fresh d v
    → Fresh d (insert j e v)
Fresh-put j e d v good h i x l = elim (lookup-insert_cases j i e x v l) [
  | inl (here, new) ↦ rw (here, new) good
  | inr (other, old) ↦ h i x old
]

bury-Current : (now owner j : String) (s : CloudStore) → Current s → Current (bury now owner j s)
bury-Current now owner j s h = record {
  keyed = Keyed-erase j s.records h.keyed;
  fresh = Fresh-erase j s.records s.embeddings h.fresh;
}

pub bury_each-Current :
    (now owner : String) (ids : List String) (s : CloudStore)
    → Current s
    → Current (bury_each now owner ids s)
unfolding bury_each
bury_each-Current now owner [] s h = h
bury_each-Current now owner (j ∷ ids) s h =
    bury_each-Current now owner ids (bury now owner j s) (bury-Current now owner j s h)

pub forget-Current :
    (now owner j : String) (s : CloudStore) → Current s → Current (forget now owner j s).1
unfolding forget
forget-Current now owner j s h = elim (Bool-cases (elem (owner, j) s.forget_keys)) [
  | inl seen ↦ rw seen h
  | inr new ↦ rw new (elim (Bool-cases (is_owned owner (lookup j s.records))) [
    | inr missing ↦ rw missing (record { keyed = h.keyed; fresh = h.fresh })
    | inl here ↦ rw here (bury-Current now owner j s h)
  ])
]
