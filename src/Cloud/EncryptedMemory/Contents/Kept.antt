-- ===== src/Cloud/EncryptedMemory/Contents/Kept.antt =====
-- What a write leaves for its owner, and for nobody else.
use umcp.Prelude.{
  ◌≤◌, String, nat_eq, string_eq, pair_eq, ◌==◌, ==_refl, ◌≡◌, ◌≢◌, refl, ap, ◌∙◌, false, none,
  some, arith,
}
use umcp.Text.{is_empty}
use umcp.Dict.{lookup}
use umcp.Dict.Laws.{lookup-insert_self}
use umcp.Domain.Errors.{ok, ◌>>=◌}
use umcp.Domain.Values.{Uuid}
use umcp.Cloud.Cipher.RoundTrip.{IsDrawn}
use umcp.Cloud.EncryptedMemory.{Platform, Stored, View, CloudStore, tenant_of, read}
use umcp.Cloud.EncryptedMemory.Writing.{WritePayload, Draws, add_record, write, write_keyed}
use umcp.Cloud.EncryptedMemory.Reading.{get, get_owned}
use umcp.Cloud.EncryptedMemory.Contents.{Lawful, view_of, Fresh, new_record-Fresh}

different : (a b : String) → a ≢ b → (a == b) ≡ false
different a b h = ground (arith, string_eq.beq_iff a b, h)

module _ {J : Type 0} (p : Platform J) where
  -- What a first write with a key leaves.
  pub record Kept (d : Draws) (payload : WritePayload J) (s : CloudStore) : Type 0 where
    pub view : View J
    pub after : CloudStore
    pub written : write p d payload s ≡ (ok (record { memory = view; status = "created" }), after)
    pub content : view.content ≡ payload.content
    pub provenance : view.provenance ≡ payload.provenance
    pub version : view.version ≡ 1
    pub found : get p payload.owner_id view.id after ≡ ok (some view)
    pub hidden :
        (other : String) (tenant : Uuid)
        → tenant_of p other ≡ ok tenant
        → payload.owner_id ≢ other
        → get p other view.id after ≡ ok none
    pub repeated :
        (d' : Draws) (again : WritePayload J)
        → again.owner_id ≡ payload.owner_id
        → again.idempotency_key ≡ payload.idempotency_key
        → write p d' again after ≡ (ok (record { memory = view; status = "already_exists" }), after)

  other_owner :
      (owner other : String) (stored : Stored)
      → stored.owner_id ≡ owner
      → owner ≢ other
      → get_owned p other (some stored) ≡ ok none
  unfolding get_owned
  other_owner owner other stored is not_ = rw (is, different owner other not_) refl

  own_record :
      (owner : String) (stored : Stored) (view : View J)
      → stored.owner_id ≡ owner
      → read p stored ≡ ok view
      → get_owned p owner (some stored) ≡ ok (some view)
  unfolding get_owned ◌>>=◌
  own_record owner stored view is readable = rw (readable, is, ==_refl owner) refl

  -- a write with a key that leads to a record
  pub write-found :
      (d : Draws) (payload : WritePayload J) (s : CloudStore) (tenant : Uuid) (id : String)
      (stored : Stored) (view : View J)
      → tenant_of p payload.owner_id ≡ ok tenant
      → lookup (payload.owner_id, payload.idempotency_key) s.write_keys ≡ some id
      → is_empty id ≡ false
      → lookup id s.records ≡ some stored
      → read p stored ≡ ok view
      → write p d payload s ≡ (ok (record { memory = view; status = "already_exists" }), s)
  unfolding write write_keyed ◌>>=◌
  write-found d payload s tenant id stored view bound used named at readable =
      rw (bound, used, named, at, readable) refl

  module _ (d : Draws) (payload : WritePayload J) (s : CloudStore) (tenant : Uuid)
      (f : Fresh p d s.key_version payload) (bound : tenant_of p payload.owner_id ≡ ok tenant)
      (unused : lookup (payload.owner_id, payload.idempotency_key) s.write_keys ≡ none) where
    first : View J
    first = view_of p f.stored payload.content payload.provenance

    after_first : CloudStore
    after_first = add_record p payload f.stored s

    written_first :
        write p d payload s ≡ (ok (record { memory = first; status = "created" }), after_first)
    unfolding first after_first write write_keyed ◌>>=◌
    written_first = rw (bound, unused, f.made, f.readable) refl

    found_first : get p payload.owner_id f.stored.id after_first ≡ ok (some first)
    unfolding first after_first get ◌>>=◌
    found_first =
        rw (bound, lookup-insert_self f.stored.id f.stored s.records)
          (own_record payload.owner_id f.stored first f.owner f.readable)

    hidden_first :
        (other : String) (t : Uuid)
        → tenant_of p other ≡ ok t
        → payload.owner_id ≢ other
        → get p other f.stored.id after_first ≡ ok none
    unfolding after_first get ◌>>=◌
    hidden_first other t ok_ not_ =
        rw (ok_, lookup-insert_self f.stored.id f.stored s.records)
          (other_owner payload.owner_id other f.stored f.owner not_)

    repeated_first :
        (d' : Draws) (again : WritePayload J)
        → again.owner_id ≡ payload.owner_id
        → again.idempotency_key ≡ payload.idempotency_key
        → write p d' again after_first
          ≡ (ok (record { memory = first; status = "already_exists" }), after_first)
    unfolding first after_first
    repeated_first d' again same key =
        write-found d' again after_first tenant f.stored.id f.stored first
          (ap (tenant_of p) same ∙ bound)
          (rw (same, key)
            (lookup-insert_self (payload.owner_id, payload.idempotency_key) f.stored.id
              s.write_keys))
          f.named (lookup-insert_self f.stored.id f.stored s.records) f.readable

    first-Kept : Kept d payload s
    unfolding first
    first-Kept = record {
      view = first;
      after = after_first;
      written = written_first;
      content = refl;
      provenance = refl;
      version = f.version;
      found = found_first;
      hidden = hidden_first;
      repeated = repeated_first;
    }

  -- The first write of an owner, bound to a tenant, with an idempotency key is kept: the owner
  -- reads back its text and provenance, at version 1; any other owner finds nothing under the
  -- identifier; and a second write with the key, even with another payload, answers with the first
  -- and changes nothing, where the documents ask for a conflict. The version of the key is positive, the random bytes have the length asked
  -- for, and encryption, UUIDs and JSON read back what they wrote.
  pub write-Kept :
      (d : Draws) (payload : WritePayload J) (s : CloudStore) (tenant : Uuid)
      → Lawful p
      → IsDrawn d.content
      → IsDrawn d.provenance
      → 1 ≤ s.key_version
      → tenant_of p payload.owner_id ≡ ok tenant
      → lookup (payload.owner_id, payload.idempotency_key) s.write_keys ≡ none
      → Kept d payload s
  write-Kept d payload s tenant l drawn drawn_too positive bound unused =
      first-Kept d payload s tenant
        (new_record-Fresh p d s.key_version payload tenant l drawn drawn_too positive bound) bound
        unused
