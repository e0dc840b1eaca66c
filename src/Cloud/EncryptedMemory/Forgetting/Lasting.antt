-- ===== src/Cloud/EncryptedMemory/Forgetting/Lasting.antt =====
-- What is forgotten stays forgotten: no later call makes the memory readable for its owner again.
use mathlib.Core.Path.{subst}
use umcp.Prelude.{
  ℕ, String, nat_eq, string_eq, pair_eq, ◌==◌, ◌≡◌, refl, sym, ap, ◌∙◌, Bool, true, false, Option,
  none, some, ◌||◌, ltb, elem, inl, inr, Bool-cases,
}
use umcp.Dict.{lookup}
use umcp.Dict.Laws.{lookup-insert_self, lookup-erase_self}
use umcp.Domain.Errors.{Result, ok, err, ◌>>=◌}
use umcp.Domain.Values.{Uuid}
use umcp.Cloud.Cipher.{Entropy}
use umcp.Cloud.EncryptedMemory.{Platform, Stored, Embedding, CloudStore, Answer, tenant_of}
use umcp.Cloud.EncryptedMemory.Writing.{WritePayload, UpdatePayload, Draws, write, update}
use umcp.Cloud.EncryptedMemory.Reading.{get, get_owned}
use umcp.Cloud.EncryptedMemory.Vectors.{store_embedding, put_embedding, embed_bound}
use umcp.Cloud.EncryptedMemory.Deleting.{
  is_owned, bury, forget, delete_owner, delete_bound, owned_ids,
}
use umcp.Cloud.EncryptedMemory.Rewrapping.{rotate}
use umcp.Cloud.EncryptedMemory.Steps.{
  IsUnused, Step, writes, updates, embeds, forgets, deletes, restores, rotates, rewraps, Steps,
  done, then_, write-cases, update-cases,
}
use umcp.Cloud.EncryptedMemory.Forgetting.{
  Absent, Absent-insert, Absent-replace, Buried, bury_each-Buried, forget-Buried,
}
use umcp.Cloud.EncryptedMemory.Forgetting.Recovery.{restore-Buried, rewrap-Buried}

module _ (o i : String) where
  module _ {J : Type 0} (p : Platform J) where
    put_embedding-Buried :
        (j : String) (e : Embedding) (b : Bool) (s : CloudStore)
        → Buried o i s
        → Buried o i (put_embedding j e b s).1
    put_embedding-Buried j e false s h = h
    put_embedding-Buried j e true s h = h

    embed-Buried :
        (r : Result Uuid) (a : Answer Bool) (s : CloudStore)
        → Buried o i s
        → Buried o i a.1
        → Buried o i (embed_bound r a s).1
    embed-Buried (err e) a s h k = h
    embed-Buried (ok t) a s h k = k

    delete-Buried :
        (r : Result Uuid) (a : Answer ℕ) (s : CloudStore)
        → Buried o i s
        → Buried o i a.1
        → Buried o i (delete_bound r a s).1
    delete-Buried (err e) a s h k = h
    delete-Buried (ok t) a s h k = k

    rotate-Buried : (version : ℕ) (s : CloudStore) → Buried o i s → Buried o i (rotate version s).1
    unfolding rotate
    rotate-Buried version s h = elim (Bool-cases (ltb version 1 || ltb version s.key_version)) [
      | inl bad ↦ rw bad h
      | inr good ↦ rw good h
    ]

    write-Buried :
        (d : Draws) (payload : WritePayload J) (s : CloudStore)
        → IsUnused p d payload s
        → Buried o i s
        → Buried o i (write p d payload s).1
    write-Buried d payload s unused h = write-cases p (Buried o i) d payload s h (λ stored new. (
      h.0,
      Absent-insert o i stored.id stored s.records h.1 (λ here.
          elim (Bool-cases (stored.owner_id == o)) [
            | inr other ↦ other
            | inl mine ↦ absurd (
                h.0 (
                  ap (λ k. lookup k s.tombstones)
                    (ap (λ (a : String). (a, i))
                        (sym ((string_eq.beq_iff stored.owner_id o).0 mine) ∙ new.owner)
                      ∙ ap (λ (b : String). (payload.owner_id, b)) (here ∙ new.id))
                  ∙ unused.tombstones))
          ]),
    ))

    update-Buried :
        (r : Entropy) (now : String) (payload : UpdatePayload) (s : CloudStore)
        → Buried o i s
        → Buried o i (update p r now payload s).1
    update-Buried r now payload s h =
        update-cases p (Buried o i) r now payload s h (λ old stored at next.
          (h.0, Absent-replace o i payload.id old stored s.records at next.owner h.1))

    Step-Buried : (s t : CloudStore) → Step p s t → Buried o i s → Buried o i t
    unfolding store_embedding delete_owner
    Step-Buried s _ (writes d payload unused) h = write-Buried d payload s unused h
    Step-Buried s _ (updates r now payload) h = update-Buried r now payload s h
    Step-Buried s _ (embeds owner j version values) h =
        embed-Buried _ _ s h (put_embedding-Buried j _ _ s h)
    Step-Buried s _ (forgets now owner j) h = forget-Buried o i now owner j s h
    Step-Buried s _ (deletes now owner) h =
        delete-Buried _ _ s h (bury_each-Buried o i now owner (owned_ids owner s.records) s h)
    Step-Buried s _ (restores b ledger) h = restore-Buried o i p b ledger s h
    Step-Buried s _ (rotates version) h = rotate-Buried version s h
    Step-Buried s _ (rewraps draw version) h = rewrap-Buried o i p draw version s h

    Steps-Buried : (s t : CloudStore) → Steps p s t → Buried o i s → Buried o i t
    Steps-Buried s _ done h = h
    Steps-Buried s u (then_ {t} before last) h = Step-Buried t u last (Steps-Buried s t before h)

    just-Buried : (now : String) (s : CloudStore) → Buried o i (bury now o i s)
    just-Buried now s = (
      λ none_. cc (none_, lookup-insert_self (o, i) now s.tombstones),
      ap (is_owned o) (lookup-erase_self i s.records),
    )

    forgotten_now :
        (now : String) (s t : CloudStore) → forget now o i s ≡ ("forgotten", t) → Buried o i t
    unfolding forget
    forgotten_now now s t h = elim (Bool-cases (elem (o, i) s.forget_keys)) [
      | inl seen ↦ let m = rw seen at h in cc
      | inr new ↦ elim (Bool-cases (is_owned o (lookup i s.records))) [
        | inr missing ↦ let m = rw (new, missing) at h in cc
        | inl here ↦
            let m = rw (new, here) at h in subst (Buried o i) (ap (λ x. x.1) m) (just-Buried now s)
      ]
    ]

    got_absent : (found : Option Stored) → is_owned o found ≡ false → get_owned p o found ≡ ok none
    unfolding get_owned
    got_absent none h = refl
    got_absent (some stored) h = rw h refl

    get-none :
        (s : CloudStore) (tenant : Uuid)
        → tenant_of p o ≡ ok tenant
        → Absent o i s.records
        → get p o i s ≡ ok none
    unfolding get get_owned ◌>>=◌
    get-none s tenant bound h = rw bound (got_absent (lookup i s.records) h)

    -- A memory that its owner, bound to a tenant, forgot is never read again, whatever is
    -- written, updated, deleted, restored from any backup with any ledger, or rewrapped later, as
    -- long as `uuid4` gives unused identifiers.
    pub forget-Steps-get :
        (now : String) (s t u : CloudStore) (tenant : Uuid)
        → tenant_of p o ≡ ok tenant
        → forget now o i s ≡ ("forgotten", t)
        → Steps p t u
        → get p o i u ≡ ok none
    forget-Steps-get now s t u tenant bound gone later =
        get-none u tenant bound (Steps-Buried t u later (forgotten_now now s t gone)).1
