-- ===== src/Cloud/EncryptedMemory/Current/Bound.antt =====
-- No vector outlives the version of the record that it was made from.
use mathlib.Core.Path.{subst}
use umcp.Prelude.{
  ℕ, String, nat_eq, string_eq, pair_eq, ◌≡◌, refl, sym, ap, ◌∙◌, Bool, true, false, length, ◌||◌,
  ltb, inl, inr, Bool-cases,
}
use umcp.Dict.{lookup, insert, erase}
use umcp.Domain.Errors.{Result, ok, err}
use umcp.Domain.Values.{Uuid}
use umcp.Cloud.Cipher.{Entropy}
use umcp.Cloud.EncryptedMemory.{Platform, Embedding, CloudStore, Answer, make_store, tenant_of}
use umcp.Cloud.EncryptedMemory.Writing.{WritePayload, UpdatePayload, Draws, write, update}
use umcp.Cloud.EncryptedMemory.Vectors.{store_embedding, put_embedding, embed_bound}
use umcp.Cloud.EncryptedMemory.Deleting.{
  bury_each, delete_owner, delete_bound, owned_ids, drop_keys,
}
use umcp.Cloud.EncryptedMemory.Restoring.{matches_record}
use umcp.Cloud.EncryptedMemory.Rewrapping.{rotate}
use umcp.Cloud.EncryptedMemory.Steps.{
  IsUnused, Step, writes, updates, embeds, forgets, deletes, restores, rotates, rewraps, Steps,
  done, then_, write-cases, update-cases,
}
use umcp.Cloud.EncryptedMemory.Current.{
  Fresh, Current, make_store-Current, Keyed-insert, Fresh-update, Fresh-add, is_current-matches,
  Fresh-put, bury_each-Current, forget-Current,
}
use umcp.Cloud.EncryptedMemory.Current.Recovery.{restore-Current, rewrap-Current}

embed-Current :
    (r : Result Uuid) (a : Answer Bool) (s : CloudStore)
    → Current s
    → Current a.1
    → Current (embed_bound r a s).1
embed-Current (err e) a s h k = h
embed-Current (ok t) a s h k = k

delete-Current :
    (r : Result Uuid) (a : Answer ℕ) (s : CloudStore)
    → Current s
    → Current a.1
    → Current (delete_bound r a s).1
delete-Current (err e) a s h k = h
delete-Current (ok t) a s h k = k

drop_keys-Current : (owner : String) (s : CloudStore) → Current s → Current (drop_keys owner s)
drop_keys-Current owner s h = record { keyed = h.keyed; fresh = h.fresh }

put_embedding-Current :
    (j : String) (e : Embedding) (b : Bool) (s : CloudStore)
    → (b ≡ true → matches_record e (lookup j s.records) ≡ true)
    → Current s
    → Current (put_embedding j e b s).1
put_embedding-Current j e false s k h = h
put_embedding-Current j e true s k h = record {
  keyed = h.keyed;
  fresh = Fresh-put j e s.records s.embeddings (k refl) h.fresh;
}

rotate-Current : (version : ℕ) (s : CloudStore) → Current s → Current (rotate version s).1
unfolding rotate
rotate-Current version s h = elim (Bool-cases (ltb version 1 || ltb version s.key_version)) [
  | inl bad ↦ rw bad h
  | inr good ↦ rw good (record { keyed = h.keyed; fresh = h.fresh })
]

module _ {J : Type 0} (p : Platform J) where
  write-Current :
      (d : Draws) (payload : WritePayload J) (s : CloudStore)
      → IsUnused p d payload s
      → Current s
      → Current (write p d payload s).1
  write-Current d payload s unused h = write-cases p Current d payload s h (λ stored new. record {
    keyed = Keyed-insert stored.id stored s.records refl h.keyed;
    fresh =
        Fresh-add stored.id stored s.records s.embeddings
          (ap (λ k. lookup k s.records) new.id ∙ unused.records) h.fresh;
  })

  update-Current :
      (r : Entropy) (now : String) (payload : UpdatePayload) (s : CloudStore)
      → Current s
      → Current (update p r now payload s).1
  update-Current r now payload s h = update-cases p Current r now payload s h (λ old stored at next.
      let same = next.id ∙ h.keyed payload.id old at in
      record {
        keyed = Keyed-insert payload.id stored s.records same h.keyed;
        fresh =
            subst (λ k. Fresh (insert payload.id stored s.records) (erase k s.embeddings))
              (sym same) (Fresh-update payload.id stored s.records s.embeddings h.fresh);
      })

  Step-Current : (s t : CloudStore) → Step p s t → Current s → Current t
  unfolding store_embedding delete_owner
  Step-Current s _ (writes d payload unused) h = write-Current d payload s unused h
  Step-Current s _ (updates r now payload) h = update-Current r now payload s h
  Step-Current s _ (embeds owner j version values) h = embed-Current _ _ s h (
      put_embedding-Current j _ _ s (is_current-matches owner version values (lookup j s.records))
        h)
  Step-Current s _ (forgets now owner j) h = forget-Current now owner j s h
  Step-Current s _ (deletes now owner) h =
      delete-Current (tenant_of p owner)
        (
          ok (length (owned_ids owner s.records)),
          drop_keys owner (bury_each now owner (owned_ids owner s.records) s),
        )
        s h
        (drop_keys-Current owner _ (bury_each-Current now owner (owned_ids owner s.records) s h))
  Step-Current s _ (restores b ledger) h = restore-Current p b ledger s h
  Step-Current s _ (rotates version) h = rotate-Current version s h
  Step-Current s _ (rewraps draw version) h = rewrap-Current p draw version s h

  every : (s t : CloudStore) → Steps p s t → Current s → Current t
  every s _ done h = h
  every s u (then_ {t} before last) h = Step-Current t u last (every s t before h)

  -- Whatever is written, updated, embedded, forgotten, deleted, restored from any backup, or rewrapped:
  -- each record stands under its own identifier, and each vector belongs to a record that is there, of
  -- the same owner and at the version that the vector was made from, as long as `uuid4` gives unused
  -- identifiers.
  pub Steps-Current : (n : ℕ) (s : CloudStore) → Steps p (make_store n) s → Current s
  Steps-Current n s steps = every (make_store n) s steps (make_store-Current n)
