-- ===== src/Cloud/EncryptedMemory.antt =====
-- src/omp/cloud/encrypted_memory.py: EncryptedCloudMemoryService, which keeps the text and the
-- provenance of a memory as ciphertext only.
pub mod Writing
pub mod Reading
pub mod Vectors
pub mod Deleting
pub mod Restoring
pub mod Rewrapping
pub mod Steps
pub mod Forgetting
pub mod Current
pub mod Contents
pub mod Absence
use Prim.Native.Char.{Char, code}
use umcp.Prelude.{
  ℕ, zero, suc, ◌+◌, String, Eq, nat_eq, string_eq, ◌==◌, Bool, true, false, ◌||◌, not, Option,
  none, some, List, [], ◌∷◌, if◌then◌else◌,
}
use umcp.Text.{is_empty, append}
use umcp.Score.{ℤ}
use umcp.Dict.{Dict}
use umcp.Domain.Errors.{
  Error, Result, ok, err, key_error, value_error, permission_error, ◌>>=◌, ◌>>◌, raise_if,
}
use umcp.Domain.Values.{Uuid}
use umcp.Cloud.Worker.Snapshot.{parsed}
use umcp.Cloud.Cipher.{EnvelopeCiphertext, TenantEnvelopeEncryptor, decrypt, all_as}

-- What the service is given: its encryptor, and of Python's library `UUID(text)` and `uuid.hex`, JSON
-- with sorted keys, the words of a case-folded text, and whether a text is a time. `J` is a value of JSON.
pub record Platform (J : Type 0) : Type 0 where
  pub encryptor : TenantEnvelopeEncryptor
  pub uuid_of : String → Option Uuid
  pub hex : Uuid → String
  pub dumps : J → String
  pub loads : String → Option J
  pub words : String → List String
  pub is_time : String → Bool

pub record Stored : Type 0 where
  pub id : String
  pub owner_id : String
  pub kind : String
  pub space : Option String
  pub importance : ℤ
  pub confidence : ℤ
  pub state : String
  pub version : ℕ
  pub created_at : String
  pub updated_at : String
  pub occurred_at : Option String
  pub content_ciphertext : EnvelopeCiphertext
  pub provenance_ciphertext : EnvelopeCiphertext

-- A vector and the version it was made from.
pub record Embedding : Type 0 where
  pub owner_id : String
  pub source_version : ℕ
  pub values : List ℤ

-- (owner, idempotency key) or (owner, memory)
abbrev pub OwnerKey : Type 0
OwnerKey = String × String

pub record CloudStore : Type 0 where
  pub key_version : ℕ
  pub records : Dict String Stored
  pub write_keys : Dict OwnerKey String
  pub forget_keys : List OwnerKey
  pub tombstones : Dict OwnerKey String
  pub embeddings : Dict String Embedding

-- the service as `__init__` leaves it
abbrev pub make_store : ℕ → CloudStore
make_store key_version = record {
  key_version = key_version;
  records = [];
  write_keys = [];
  forget_keys = [];
  tombstones = [];
  embeddings = [];
}

-- what a caller sees of a memory
pub record View (J : Type 0) : Type 0 where
  pub id : String
  pub owner_id : String
  pub kind : String
  pub space : Option String
  pub importance : ℤ
  pub confidence : ℤ
  pub state : String
  pub version : ℕ
  pub created_at : String
  pub updated_at : String
  pub occurred_at : Option String
  pub content : String
  pub provenance : J

abbrev pub Answer : Type 0 → Type 0
Answer A = Result A × CloudStore

abbrev pub is_colon : Char → Bool
is_colon ch = code ch == 58

abbrev pub cut_after : Char → Option (String × String) → Option (String × String)
cut_after c none = none
cut_after c (some (a, b)) = some (String.◌∷◌ c a, b)

-- the text before the first `:` and after it
unfoldable pub cut : String → Option (String × String)
cut String.[] = none
cut (String.◌∷◌ c s) =
    let rest = cut s in if is_colon c then some (String.[], s) else cut_after c rest

abbrev pub drop_chars : ℕ → String → String
drop_chars zero s = s
drop_chars (suc n) String.[] = String.[]
drop_chars (suc n) (String.◌∷◌ c s) = drop_chars n s

-- `owner_id.split(":", 2)`
abbrev pub owner_parts : String → Result (String × String × String)
owner_parts owner_id = do
  first ← parsed (cut owner_id)
  second ← parsed (cut first.1)
  ok (first.0, second.0, second.1)

module _ {J : Type 0} (p : Platform J) where
  abbrev pub checked_tenant : String × String × String → Result Uuid
  checked_tenant (prefix, tenant, subject) = do
    raise_if (not (prefix == "cloud") || is_empty subject) value_error
    parsed (p.uuid_of subject)
    parsed (p.uuid_of tenant)

  unfoldable pub tenant_of : String → Result Uuid
  tenant_of owner_id = all_as permission_error (owner_parts owner_id >>= checked_tenant)

  -- `UUID(stored["id"][4:])`
  unfoldable pub record_uuid : String → Result Uuid
  record_uuid id = parsed (p.uuid_of (drop_chars 4 id))

  -- `_read`
  unfoldable pub read : Stored → Result (View J)
  read stored = do
    tenant ← tenant_of stored.owner_id
    record_id ← record_uuid stored.id
    content ← decrypt p.encryptor tenant record_id "content" stored.content_ciphertext
    json ← decrypt p.encryptor tenant record_id "provenance" stored.provenance_ciphertext
    provenance ← parsed (p.loads json)
    ok (record {
      id = stored.id;
      owner_id = stored.owner_id;
      kind = stored.kind;
      space = stored.space;
      importance = stored.importance;
      confidence = stored.confidence;
      state = stored.state;
      version = stored.version;
      created_at = stored.created_at;
      updated_at = stored.updated_at;
      occurred_at = stored.occurred_at;
      content = content;
      provenance = provenance;
    })
