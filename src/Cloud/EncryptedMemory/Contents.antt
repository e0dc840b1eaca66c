-- ===== src/Cloud/EncryptedMemory/Contents.antt =====
-- What can be read of a record that was written or rewrapped.
pub mod Rewrapped
pub mod Kept
use umcp.Prelude.{
  ℕ, ◌≤◌, String, ◌≡◌, refl, sym, ap, ◌∙◌, Bool, true, false, Option, none, some, arith,
}
use umcp.Domain.Errors.{Error, Result, ok, err, ◌>>=◌, >>=-eq-ok, ok_injective}
use umcp.Domain.Values.{Uuid}
use umcp.Cloud.Worker.Snapshot.{parsed}
use umcp.Text.{all_chars, is_empty}
use umcp.Cloud.Cipher.{no_slash, Entropy, EnvelopeCiphertext, encrypt, decrypt}
use umcp.Cloud.Cipher.RoundTrip.{Opens, IsDrawn, Unwraps, Encrypted, decrypt-encrypt}
use umcp.Cloud.EncryptedMemory.{Platform, Stored, View, tenant_of, record_uuid, read, drop_chars}
use umcp.Cloud.EncryptedMemory.Writing.{WritePayload, Draws, memory_id, new_record, or_half}

-- What the service relies on: its encryptor reads back what it wrote, and so do UUIDs and JSON.
pub record Lawful {J : Type 0} (p : Platform J) : Type 0 where
  pub opens : Opens p.encryptor.crypto
  pub unwraps : Unwraps p.encryptor.kms
  pub hex : (u : Uuid) → p.uuid_of (p.hex u) ≡ some u
  pub loads : (j : J) → p.loads (p.dumps j) ≡ some j

module _ {J : Type 0} (p : Platform J) where
  -- what a caller sees of a record whose texts are known
  abbrev pub view_of : Stored → String → J → View J
  view_of stored content provenance = record {
    id = stored.id;
    owner_id = stored.owner_id;
    kind = stored.kind;
    space = stored.space;
    importance = stored.importance;
    confidence = stored.confidence;
    state = stored.state;
    version = stored.version;
    created_at = stored.created_at;
    updated_at = stored.updated_at;
    occurred_at = stored.occurred_at;
    content = content;
    provenance = provenance;
  }

  -- The texts of a record that can be read.
  pub record Readable (stored : Stored) (view : View J) : Type 0 where
    pub tenant : Uuid
    pub record_id : Uuid
    pub content : String
    pub json : String
    pub provenance : J
    pub bound : tenant_of p stored.owner_id ≡ ok tenant
    pub named : record_uuid p stored.id ≡ ok record_id
    pub opened :
        decrypt p.encryptor tenant record_id "content" stored.content_ciphertext ≡ ok content
    pub opened_json :
        decrypt p.encryptor tenant record_id "provenance" stored.provenance_ciphertext ≡ ok json
    pub loaded : p.loads json ≡ some provenance
    pub seen : view ≡ view_of stored content provenance

  parsed-eq-ok : {A : Type 0} (o : Option A) (a : A) → parsed o ≡ ok a → o ≡ some a
  parsed-eq-ok none a h = cc
  parsed-eq-ok (some b) a h = ap some (ok_injective _ _ h)

  pub read-Readable :
      (stored : Stored) (view : View J) → read p stored ≡ ok view → Readable stored view
  unfolding read
  read-Readable stored view h =
      let (tenant, bound, h1) = >>=-eq-ok (tenant_of p stored.owner_id) _ h in
      let (record_id, named, h2) = >>=-eq-ok (record_uuid p stored.id) _ h1 in
      let (content, opened, h3) =
        >>=-eq-ok (decrypt p.encryptor tenant record_id "content" stored.content_ciphertext) _ h2 in
      let (json, opened_json, h4) =
        >>=-eq-ok (decrypt p.encryptor tenant record_id "provenance" stored.provenance_ciphertext) _
          h3 in
      let (provenance, loaded, h5) = >>=-eq-ok (parsed (p.loads json)) _ h4 in
      record {
        tenant = tenant;
        record_id = record_id;
        content = content;
        json = json;
        provenance = provenance;
        bound = bound;
        named = named;
        opened = opened;
        opened_json = opened_json;
        loaded = parsed-eq-ok (p.loads json) provenance loaded;
        seen = sym (ok_injective _ _ h5);
      }

  pub Readable-read :
      (stored : Stored) (view : View J) → Readable stored view → read p stored ≡ ok view
  unfolding read ◌>>=◌
  Readable-read stored view r =
      rw (r.bound, r.named, r.opened, r.opened_json, r.loaded) (ap ok (sym r.seen))

  memory_id-uuid : Lawful p → (d : Draws) → record_uuid p (memory_id p d) ≡ ok d.memory
  unfolding record_uuid
  memory_id-uuid l d = ap parsed (l.hex d.memory)

  -- A new record, and what can be read of it.
  pub record Fresh (d : Draws) (v : ℕ) (payload : WritePayload J) : Type 0 where
    pub stored : Stored
    pub made : new_record p d v payload ≡ ok stored
    pub id : stored.id ≡ memory_id p d
    pub owner : stored.owner_id ≡ payload.owner_id
    pub version : stored.version ≡ 1
    pub named : is_empty stored.id ≡ false
    pub readable : read p stored ≡ ok (view_of stored payload.content payload.provenance)

  pub new_record-Fresh :
      (d : Draws) (v : ℕ) (payload : WritePayload J) (tenant : Uuid)
      → Lawful p
      → IsDrawn d.content
      → IsDrawn d.provenance
      → 1 ≤ v
      → tenant_of p payload.owner_id ≡ ok tenant
      → Fresh d v payload
  unfolding new_record ◌>>=◌ no_slash all_chars
  new_record-Fresh d v payload tenant l drawn drawn_too positive bound =
      let c =
        decrypt-encrypt p.encryptor l.opens l.unwraps d.content tenant d.memory "content"
          payload.content v drawn positive refl refl in
      let e =
        decrypt-encrypt p.encryptor l.opens l.unwraps d.provenance tenant d.memory "provenance"
          (p.dumps payload.provenance) v drawn_too positive refl refl in
      let stored : Stored = record {
        id = memory_id p d;
        owner_id = payload.owner_id;
        kind = payload.kind;
        space = payload.space;
        importance = or_half payload.importance;
        confidence = or_half payload.confidence;
        state = "active";
        version = 1;
        created_at = d.now;
        updated_at = d.now;
        occurred_at = none;
        content_ciphertext = c.value;
        provenance_ciphertext = e.value;
      } in
      record {
        stored = stored;
        made = rw (bound, memory_id-uuid l d, c.made, e.made) refl;
        id = refl;
        owner = refl;
        version = refl;
        named = refl;
        readable =
            Readable-read stored (view_of stored payload.content payload.provenance) (record {
              tenant = tenant;
              record_id = d.memory;
              content = payload.content;
              json = p.dumps payload.provenance;
              provenance = payload.provenance;
              bound = bound;
              named = memory_id-uuid l d;
              opened = c.read;
              opened_json = e.read;
              loaded = l.loads payload.provenance;
              seen = refl;
            });
      }
