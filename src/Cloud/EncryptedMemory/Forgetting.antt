-- ===== src/Cloud/EncryptedMemory/Forgetting.antt =====
-- Memories that a tombstone stands for, and what the calls leave of them.
pub mod Recovery
pub mod Lasting
use mathlib.Core.Path.{subst}
use umcp.Prelude.{
  ℕ, ◌+◌, String, Eq, nat_eq, string_eq, pair_eq, ◌==◌, ◌≡◌, ◌≢◌, refl, sym, ap, ◌∙◌, Bool, true,
  false, not, Option, none, some, List, [], ◌∷◌, ◌++◌, ◌||◌, ltb, elem, arith, inl, inr, Bool-cases,
  Option-cases, if◌then◌else◌,
}
use umcp.Score.{ℤ}
use umcp.Dict.{Dict, lookup, insert, erase}
use umcp.Dict.Laws.{
  lookup-insert, lookup-erase, lookup-insert_ne-none, lookup-insert_self, lookup-erase_self,
}
use umcp.Domain.Errors.{Error, Result, ok, err, ◌>>=◌, >>=-eq-ok, ok_injective}
use umcp.Domain.Values.{Uuid}
use umcp.Cloud.Cipher.{Entropy}
use umcp.Cloud.EncryptedMemory.{
  Platform, Stored, Embedding, CloudStore, OwnerKey, Answer, tenant_of, record_uuid, View,
}
use umcp.Cloud.EncryptedMemory.Writing.{
  WritePayload, UpdatePayload, Draws, memory_id, add_record, write, replace_record, update,
}
use umcp.Cloud.EncryptedMemory.Reading.{get, get_owned}
use umcp.Cloud.EncryptedMemory.Vectors.{store_embedding, put_embedding, embed_bound}
use umcp.Cloud.EncryptedMemory.Deleting.{
  is_owned, bury, forget, bury_each, delete_owner, delete_bound, owned_ids, drop_keys, tombstones,
}
use umcp.Cloud.EncryptedMemory.Restoring.{
  Backup, Tombstone, restore, restore_records, restore_noted, note_ledger, note_tombstone,
  resume_ledger, checked_tombstone, checked_records, expose, exposed, replay, without_buried,
  shaped_list,
}
use umcp.Cloud.EncryptedMemory.Rewrapping.{
  rotate, rewrap, rewrap_records, rewrap_record, take_rewrapped,
}
use umcp.Cloud.EncryptedMemory.Steps.{
  IsUnused, Step, writes, updates, embeds, forgets, deletes, restores, rotates, rewraps, Steps,
  done, then_, New, Next, write-cases, update-cases,
}

-- The owner has no record under the identifier.
abbrev pub Absent : String → String → Dict String Stored → Type 0
Absent o i records = is_owned o (lookup i records) ≡ false

-- A tombstone stands for the memory, and the record is not there.
abbrev pub Buried : String → String → CloudStore → Type 0
Buried o i s = (lookup (o, i) s.tombstones ≢ none) × Absent o i s.records

module _ (o i : String) where
  Absent-erase : (j : String) (d : Dict String Stored) → Absent o i d → Absent o i (erase j d)
  Absent-erase j d h = ground (arith, lookup-erase j i d, h)

  pub Absent-insert :
      (j : String) (stored : Stored) (d : Dict String Stored)
      → Absent o i d
      → (i ≡ j → is_owned o (some stored) ≡ false)
      → Absent o i (insert j stored d)
  Absent-insert j stored d h k =
      ground (arith, lookup-insert j i stored d, string_eq.beq_iff j i, h, k)

  -- a record that is replaced by one of the same owner
  pub Absent-replace :
      (j : String) (old stored : Stored) (d : Dict String Stored)
      → lookup j d ≡ some old
      → stored.owner_id ≡ old.owner_id
      → Absent o i d
      → Absent o i (insert j stored d)
  Absent-replace j old stored d at same h =
      Absent-insert j stored d h
        (λ here. ap (λ x. x == o) same ∙ ap (is_owned o) (sym (ap (λ x. lookup x d) here ∙ at)) ∙ h)

  bury-Buried :
      (now owner j : String) (s : CloudStore) → Buried o i s → Buried o i (bury now owner j s)
  bury-Buried now owner j s (t, h) =
      (lookup-insert_ne-none (owner, j) (o, i) now s.tombstones t, Absent-erase j s.records h)

  pub bury_each-Buried :
      (now owner : String) (ids : List String) (s : CloudStore)
      → Buried o i s
      → Buried o i (bury_each now owner ids s)
  unfolding bury_each
  bury_each-Buried now owner [] s h = h
  bury_each-Buried now owner (j ∷ ids) s h =
      bury_each-Buried now owner ids (bury now owner j s) (bury-Buried now owner j s h)

  pub forget-Buried :
      (now owner j : String) (s : CloudStore) → Buried o i s → Buried o i (forget now owner j s).1
  unfolding forget
  forget-Buried now owner j s h = elim (Bool-cases (elem (owner, j) s.forget_keys)) [
    | inl seen ↦ rw seen h
    | inr new ↦ rw new (elim (Bool-cases (is_owned owner (lookup j s.records))) [
      | inr missing ↦ rw missing h
      | inl here ↦ rw here (bury-Buried now owner j s h)
    ])
  ]

  -- replaying a ledger: what was absent stays so, and what the ledger names becomes so
  without_buried-Absent :
      (key : OwnerKey) (d : Dict String Stored) → Absent o i d → Absent o i (without_buried key d)
  without_buried-Absent (owner, j) d h = elim (Bool-cases (is_owned owner (lookup j d))) [
    | inl here ↦ rw here (Absent-erase j d h)
    | inr missing ↦ rw missing h
  ]

  without_buried-here : (d : Dict String Stored) → Absent o i (without_buried (o, i) d)
  without_buried-here d = elim (Bool-cases (is_owned o (lookup i d))) [
    | inl here ↦ rw (here, lookup-erase_self i d) refl
    | inr missing ↦ rw missing missing
  ]

  replay-Absent :
      (ledger : Dict OwnerKey String) (d : Dict String Stored)
      → Absent o i d
      → Absent o i (replay ledger d)
  unfolding replay
  replay-Absent [] d h = h
  replay-Absent ((key, t) ∷ ledger) d h =
      replay-Absent ledger (without_buried key d) (without_buried-Absent key d h)

  pub replay-buried :
      (ledger : Dict OwnerKey String) (d : Dict String Stored)
      → lookup (o, i) ledger ≢ none
      → Absent o i (replay ledger d)
  unfolding replay lookup
  replay-buried [] d h = absurd (h refl)
  replay-buried ((key, t) ∷ ledger) d h = elim (Bool-cases (key == (o, i))) [
    | inl same ↦
        replay-Absent ledger (without_buried key d)
          (rw ((pair_eq.beq_iff key (o, i)).0 same) (without_buried-here d))
    | inr other ↦ replay-buried ledger (without_buried key d) (rw other at h)
  ]
