-- ===== src/Cloud/EncryptedMemory/Writing.antt =====
-- `write` and `update` of EncryptedCloudMemoryService.
use umcp.Prelude.{
  ℕ, ◌+◌, String, nat_eq, string_eq, pair_eq, ◌==◌, not, Option, none, some, if◌then◌else◌,
}
use umcp.Text.{is_empty, append}
use umcp.Score.{ℤ}
use umcp.Dict.{lookup, insert, erase}
use umcp.Domain.Errors.{Result, ok, err, key_error, value_error, ◌>>=◌, ◌>>◌, raise_if}
use umcp.Domain.Values.{Uuid}
use umcp.Cloud.Cipher.{Entropy, EnvelopeCiphertext, encrypt}
use umcp.Cloud.EncryptedMemory.{
  Platform, Stored, CloudStore, View, Answer, tenant_of, record_uuid, read,
}

-- The defaults that `write` takes for importance and confidence are `none` here.
pub record WritePayload (J : Type 0) : Type 0 where
  pub owner_id : String
  pub idempotency_key : String
  pub kind : String
  pub space : Option String
  pub importance : Option ℤ
  pub confidence : Option ℤ
  pub content : String
  pub provenance : J

-- What the calls of `uuid.uuid4`, `_now` and `os.urandom` give during a write.
pub record Draws : Type 0 where
  pub memory : Uuid
  pub now : String
  pub content : Entropy
  pub provenance : Entropy

pub record Written (J : Type 0) : Type 0 where
  pub memory : View J
  pub status : String

abbrev pub or_half : Option ℤ → ℤ
or_half none = ℤ.pos 500000
or_half (some x) = x

-- `self._records[id]`
abbrev pub record_or_error : Option Stored → Result Stored
record_or_error none = err key_error
record_or_error (some stored) = ok stored

module _ {J : Type 0} (p : Platform J) where
  abbrev pub memory_id : Draws → String
  memory_id draws = append "mem_" (p.hex draws.memory)

  unfoldable pub new_record : Draws → ℕ → WritePayload J → Result Stored
  new_record draws key_version payload = do
    tenant ← tenant_of p payload.owner_id
    record_id ← record_uuid p (memory_id draws)
    content ←
        encrypt p.encryptor draws.content tenant record_id "content" payload.content key_version
    provenance ←
        encrypt p.encryptor draws.provenance tenant record_id "provenance"
          (p.dumps payload.provenance) key_version
    ok (record {
      id = memory_id draws;
      owner_id = payload.owner_id;
      kind = payload.kind;
      space = payload.space;
      importance = or_half payload.importance;
      confidence = or_half payload.confidence;
      state = "active";
      version = 1;
      created_at = draws.now;
      updated_at = draws.now;
      occurred_at = none;
      content_ciphertext = content;
      provenance_ciphertext = provenance;
    })

  abbrev pub answered : String → Stored → Result (Written J)
  answered status stored = do
    memory ← read p stored
    ok (record { memory = memory; status = status })

  abbrev pub add_record : WritePayload J → Stored → CloudStore → CloudStore
  add_record payload stored s = record s {
    records = insert stored.id stored s.records;
    write_keys = insert (payload.owner_id, payload.idempotency_key) stored.id s.write_keys;
  }

  abbrev pub write_new : WritePayload J → Result Stored → CloudStore → Answer (Written J)
  write_new payload (err e) s = (err e, s)
  write_new payload (ok stored) s = (answered "created" stored, add_record payload stored s)

  abbrev pub write_again : String → CloudStore → Result (Written J)
  write_again existing s = do
    stored ← record_or_error (lookup existing s.records)
    answered "already_exists" stored

  -- by what the idempotency key leads to
  unfoldable pub write_keyed :
      Draws → WritePayload J → Option String → CloudStore → Answer (Written J)
  write_keyed draws payload none s = write_new payload (new_record draws s.key_version payload) s
  write_keyed draws payload (some existing) s =
      if is_empty existing
      then write_new payload (new_record draws s.key_version payload) s
      else (write_again existing s, s)

  abbrev pub write_bound : Result Uuid → Answer (Written J) → CloudStore → Answer (Written J)
  write_bound (err e) answer s = (err e, s)
  write_bound (ok tenant) answer s = answer

  unfoldable pub write : Draws → WritePayload J → CloudStore → Answer (Written J)
  write draws payload s =
      write_bound (tenant_of p payload.owner_id)
        (write_keyed draws payload (lookup (payload.owner_id, payload.idempotency_key) s.write_keys)
          s)
        s

pub record Patch : Type 0 where
  pub content : Option String
  pub kind : Option String
  pub space : Option String
  pub importance : Option ℤ
  pub confidence : Option ℤ
  pub state : Option String

pub record UpdatePayload : Type 0 where
  pub id : String
  pub owner_id : String
  pub expected_version : ℕ
  pub patch : Patch

-- `stored[key] = patch[key]` where the patch has one
abbrev pub patched {ℓ} : {A : Type ℓ} → Option A → A → A
patched none a = a
patched (some b) a = b

abbrev pub patched_space : Option String → Option String → Option String
patched_space none space = space
patched_space (some t) space = some t

-- the checks of `update` on the record that the identifier leads to
unfoldable pub updatable : UpdatePayload → Option Stored → Result Stored
updatable payload none = err key_error
updatable payload (some stored) = do
  raise_if (not (stored.owner_id == payload.owner_id)) key_error
  raise_if (not (stored.version == payload.expected_version)) value_error
  ok stored

module _ {J : Type 0} (p : Platform J) where
  abbrev pub new_content :
      Entropy → ℕ → Uuid → Uuid → Option String → EnvelopeCiphertext → Result EnvelopeCiphertext
  new_content random key_version tenant record_id none old = ok old
  new_content random key_version tenant record_id (some text) old =
      encrypt p.encryptor random tenant record_id "content" text key_version

  -- the record with the patch applied, at its next version
  unfoldable pub apply_patch : Entropy → String → ℕ → Patch → Stored → Result Stored
  apply_patch random now key_version patch stored = do
    record_id ← record_uuid p stored.id
    tenant ← tenant_of p stored.owner_id
    content ←
        new_content random key_version tenant record_id patch.content stored.content_ciphertext
    ok (record stored {
      content_ciphertext = content;
      kind = patched patch.kind stored.kind;
      space = patched_space patch.space stored.space;
      importance = patched patch.importance stored.importance;
      confidence = patched patch.confidence stored.confidence;
      state = patched patch.state stored.state;
      version = stored.version + 1;
      updated_at = now;
    })

  abbrev pub replace_record : String → Result Stored → CloudStore → Answer (Written J)
  replace_record id (err e) s = (err e, s)
  replace_record id (ok stored) s = (
    answered p "updated" stored,
    record s { records = insert id stored s.records; embeddings = erase stored.id s.embeddings },
  )

  -- The record is changed before the answer is read from it.
  unfoldable pub update : Entropy → String → UpdatePayload → CloudStore → Answer (Written J)
  update random now payload s =
      replace_record payload.id
        (updatable payload (lookup payload.id s.records) >>= λ stored.
          apply_patch random now s.key_version payload.patch stored)
        s
