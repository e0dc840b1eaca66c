-- ===== src/Cloud/Cipher.antt =====
-- src/omp/cloud/security.py: the key management services, EnvelopeCiphertext and
-- TenantEnvelopeEncryptor.
pub mod Binding
pub mod RoundTrip
use Prim.Native.Char.{Char, code}
use umcp.Prelude.{
  ℕ, ◌+◌, String, Eq, nat_eq, string_eq, ◌==◌, ◌≡◌, Bool, true, false, ◌||◌, not, Option, none,
  some, List, [], ◌∷◌, ◌++◌, length, take, drop, ltb, if◌then◌else◌,
}
use umcp.Text.{is_empty, append, all_chars}
use umcp.Score.{ℤ, pos, negsuc, int_eq}
use umcp.Dict.{Dict, lookup}
use umcp.Domain.Errors.{
  Error, Result, ok, err, key_error, value_error, permission_error, kms_unavailable, ◌>>=◌, ◌>>◌,
  raise_if,
}
use umcp.Domain.Values.{Uuid}
use umcp.Cloud.Worker.Snapshot.{Scalar, text, number, Item, str, parsed, text_field, field}

abbrev pub Bytes : Type 0
Bytes = List ℕ

-- What libraries give: `AESGCM(key).encrypt(nonce, data, aad)` and its inverse, where `none` is
-- `InvalidTag`, UTF-8, `str` of a UUID and of a number, JSON objects and URL-safe base64.
pub record Crypto : Type 0 where
  pub seal : Bytes → Bytes → Bytes → Bytes → Bytes
  pub unseal : Bytes → Bytes → Bytes → Bytes → Option Bytes
  pub utf8 : String → Bytes
  pub utf8_decode : Bytes → Option String
  pub uuid_text : Uuid → String
  pub digits : ℤ → String
  pub dumps : Item → String
  pub loads : String → Option Item
  pub base64 : Bytes → String
  pub base64_decode : String → Option Bytes

-- Only an `err` of `unwrap` and `wrap` matters to the callers, not which one. The first argument of
-- `wrap` is what `os.urandom` gives during the call.
pub record KeyManagementService : Type 0 where
  pub wrap : Bytes → Uuid → ℕ → Bytes → Result Bytes
  pub unwrap : Uuid → ℕ → Bytes → Result Bytes

abbrev pub hosted_kms_unavailable : KeyManagementService
hosted_kms_unavailable = record {
  wrap = λ nonce tenant_id key_version dek. err kms_unavailable;
  unwrap = λ tenant_id key_version wrapped_dek. err kms_unavailable;
}

-- The authenticated bytes of a wrapped key.
unfoldable pub dek_aad : Crypto → Uuid → ℕ → Bytes
dek_aad c tenant_id key_version = c.utf8 (
    append "umcp/dek/v1/"
      (append (c.uuid_text tenant_id) (append "/" (c.digits (pos key_version)))))

-- `decrypt`, and every exception of it
abbrev pub opened {ℓ} : {A : Type ℓ} → Error → Option A → Result A
opened e none = err e
opened e (some a) = ok a

-- `nonce + ciphertext`
unfoldable pub local_wrap : Crypto → Bytes → Bytes → Uuid → ℕ → Bytes → Result Bytes
local_wrap c master_key nonce tenant_id key_version dek = do
  raise_if (ltb key_version 1 || not (length dek == 32)) kms_unavailable
  ok (nonce ++ c.seal master_key nonce dek (dek_aad c tenant_id key_version))

unfoldable pub local_unwrap : Crypto → Bytes → Uuid → ℕ → Bytes → Result Bytes
local_unwrap c master_key tenant_id key_version wrapped_dek = do
  raise_if (ltb key_version 1 || ltb (length wrapped_dek) (12 + 16)) kms_unavailable
  dek ← opened kms_unavailable (
      c.unseal master_key (take 12 wrapped_dek) (drop 12 wrapped_dek)
        (dek_aad c tenant_id key_version))
  raise_if (not (length dek == 32)) kms_unavailable
  ok dek

abbrev pub local_kms : Crypto → Bytes → KeyManagementService
local_kms c master_key = record {
  wrap = local_wrap c master_key;
  unwrap = local_unwrap c master_key;
}

-- LocalDevelopmentKMS(master_key)
unfoldable pub make_local_kms : Crypto → Bytes → Result KeyManagementService
make_local_kms c master_key = do
  raise_if (not (length master_key == 16 || length master_key == 24 || length master_key == 32))
      value_error
  ok (local_kms c master_key)

pub record EnvelopeCiphertext : Type 0 where
  pub key_version : ℕ
  pub wrapped_dek : Bytes
  pub nonce : Bytes
  pub ciphertext : Bytes

abbrev pub envelope_item : Crypto → EnvelopeCiphertext → Item
envelope_item c e =
    ("v", number (pos 1))
    ∷ ("k", number (pos e.key_version))
    ∷ ("w", text (c.base64 e.wrapped_dek))
    ∷ ("n", text (c.base64 e.nonce))
    ∷ ("c", text (c.base64 e.ciphertext))
    ∷ []

unfoldable pub encode : Crypto → EnvelopeCiphertext → String
encode c e = c.dumps (envelope_item c e)

-- `payload["v"] != 1`
abbrev pub is_one : Scalar → Bool
is_one (text t) = false
is_one (number n) = n == pos 1

-- `isinstance(value, int)` and at least 1
abbrev pub positive_version : Scalar → Result ℕ
positive_version (text t) = err value_error
positive_version (number (negsuc n)) = err value_error
positive_version (number (pos n)) = raise_if (ltb n 1) value_error >> ok n

-- `str(value)`
abbrev pub scalar_text : Crypto → Scalar → String
scalar_text c (text t) = t
scalar_text c (number n) = c.digits n

-- `base64.urlsafe_b64decode(str(item[name]))`
abbrev pub bytes_field : Crypto → String → Item → Result Bytes
bytes_field c name item = do value ← field name item; parsed (c.base64_decode (scalar_text c value))

unfoldable pub read_envelope : Crypto → Item → Result EnvelopeCiphertext
read_envelope c item = do
  v ← field "v" item
  raise_if (not (is_one v)) value_error
  k ← field "k" item
  key_version ← positive_version k
  wrapped_dek ← bytes_field c "w" item
  nonce ← bytes_field c "n" item
  ciphertext ← bytes_field c "c" item
  raise_if
      (ltb (length wrapped_dek) (12 + 16) || not (length nonce == 12) || ltb (length ciphertext) 16)
      value_error
  ok (record {
    key_version = key_version;
    wrapped_dek = wrapped_dek;
    nonce = nonce;
    ciphertext = ciphertext;
  })

-- `except …: raise e`
abbrev pub all_as {ℓ} : {A : Type ℓ} → Error → Result A → Result A
all_as e (err raised) = err e
all_as e (ok a) = ok a

unfoldable pub decode : Crypto → String → Result EnvelopeCiphertext
decode c value = all_as permission_error (parsed (c.loads value) >>= λ item. read_envelope c item)

-- The authenticated bytes of a field: its tenant, its record, its name and the key's version.
unfoldable pub aad_text : Crypto → Uuid → Uuid → String → ℕ → String
aad_text c tenant_id record_id name key_version = append "umcp/content/v1/" (
    append (c.uuid_text tenant_id) (
      append "/" (
        append (c.uuid_text record_id)
          (append "/" (append name (append "/" (c.digits (pos key_version))))))))

abbrev pub aad : Crypto → Uuid → Uuid → String → ℕ → Bytes
aad c tenant_id record_id name key_version =
    c.utf8 (aad_text c tenant_id record_id name key_version)

abbrev pub is_slash : Char → Bool
is_slash ch = code ch == 47

-- no `/` in the text
unfoldable pub no_slash : String → Bool
no_slash s = all_chars (λ ch. not (is_slash ch)) s

-- What `os.urandom` gives during one encryption.
pub record Entropy : Type 0 where
  pub dek : Bytes
  pub nonce : Bytes
  pub wrap_nonce : Bytes

pub record TenantEnvelopeEncryptor : Type 0 where
  pub crypto : Crypto
  pub kms : KeyManagementService

unfoldable pub encrypt :
    TenantEnvelopeEncryptor
    → Entropy
    → Uuid
    → Uuid
    → String
    → String
    → ℕ
    → Result EnvelopeCiphertext
encrypt x random tenant_id record_id name plaintext key_version = do
  raise_if (ltb key_version 1 || is_empty name || not (no_slash name)) value_error
  let ciphertext =
      x.crypto.seal random.dek random.nonce (x.crypto.utf8 plaintext)
        (aad x.crypto tenant_id record_id name key_version)
  wrapped_dek ←
      all_as kms_unavailable (x.kms.wrap random.wrap_nonce tenant_id key_version random.dek)
  ok (record {
    key_version = key_version;
    wrapped_dek = wrapped_dek;
    nonce = random.nonce;
    ciphertext = ciphertext;
  })

unfoldable pub decrypt :
    TenantEnvelopeEncryptor → Uuid → Uuid → String → EnvelopeCiphertext → Result String
decrypt x tenant_id record_id name value = do
  raise_if
      (ltb value.key_version 1
        || not (length value.nonce == 12)
        || ltb (length value.ciphertext) 16)
      permission_error
  dek ← all_as kms_unavailable (x.kms.unwrap tenant_id value.key_version value.wrapped_dek)
  raise_if (not (length dek == 32)) kms_unavailable
  plain ← opened permission_error (
      x.crypto.unseal dek value.nonce value.ciphertext
        (aad x.crypto tenant_id record_id name value.key_version))
  opened permission_error (x.crypto.utf8_decode plain)

unfoldable pub rewrap :
    TenantEnvelopeEncryptor
    → Entropy
    → Uuid
    → Uuid
    → String
    → EnvelopeCiphertext
    → ℕ
    → Result EnvelopeCiphertext
rewrap x random tenant_id record_id name value key_version = do
  raise_if (ltb key_version 1) value_error
  plaintext ← decrypt x tenant_id record_id name value
  encrypt x random tenant_id record_id name plaintext key_version
