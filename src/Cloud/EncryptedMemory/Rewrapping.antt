-- ===== src/Cloud/EncryptedMemory/Rewrapping.antt =====
-- `rotate` and `rewrap` of EncryptedCloudMemoryService.
use umcp.Prelude.{ℕ, ◌+◌, String, nat_eq, ◌==◌, ◌||◌, [], ◌∷◌, ltb, if◌then◌else◌}
use umcp.Dict.{Dict}
use umcp.Domain.Errors.{Result, ok, err, value_error, ◌>>=◌}
use umcp.Domain.Values.{Uuid}
use umcp.Cloud.Cipher
use umcp.Cloud.Cipher.{Entropy, EnvelopeCiphertext}
use umcp.Cloud.EncryptedMemory.{Platform, Stored, CloudStore, Answer, tenant_of, record_uuid}

unfoldable pub rotate : ℕ → CloudStore → Answer (Unit {0})
rotate version s =
    if ltb version 1 || ltb version s.key_version
    then (err value_error, s)
    else (ok tt, record s { key_version = version })

abbrev pub take_rewrapped : ℕ → Result (Dict String Stored × ℕ) → CloudStore → Answer ℕ
take_rewrapped version (err e) s = (err e, s)
take_rewrapped version (ok (records, count)) s =
    (ok count, record s { records = records; key_version = version })

module _ {J : Type 0} (p : Platform J) where
  -- A ciphertext under the version, and whether it is a new one. The randomness of a rewrap is the
  -- argument's.
  unfoldable pub rewrap_field :
      Entropy → ℕ → Uuid → Uuid → String → EnvelopeCiphertext → Result (EnvelopeCiphertext × ℕ)
  rewrap_field random version tenant record_id name current =
      if current.key_version == version
      then ok (current, 0)
      else Cipher.rewrap p.encryptor random tenant record_id name current version >>= λ rotated.
          ok (rotated, 1)

  unfoldable pub rewrap_record : (String → String → Entropy) → ℕ → Stored → Result (Stored × ℕ)
  rewrap_record draw version stored = do
    tenant ← tenant_of p stored.owner_id
    record_id ← record_uuid p stored.id
    content ←
        rewrap_field (draw stored.id "content") version tenant record_id "content"
          stored.content_ciphertext
    provenance ←
        rewrap_field (draw stored.id "provenance") version tenant record_id "provenance"
          stored.provenance_ciphertext
    ok (
      record stored { content_ciphertext = content.0; provenance_ciphertext = provenance.0 },
      content.1 + provenance.1,
    )

  unfoldable pub rewrap_records :
      (String → String → Entropy) → ℕ → Dict String Stored → Result (Dict String Stored × ℕ)
  rewrap_records draw version [] = ok ([], 0)
  rewrap_records draw version ((memory_id, stored) ∷ records) = do
    first ← rewrap_record draw version stored
    rest ← rewrap_records draw version records
    ok ((memory_id, first.0) ∷ rest.0, first.1 + rest.1)

  -- Nothing is stored before every field was rewrapped.
  unfoldable pub rewrap : (String → String → Entropy) → ℕ → CloudStore → Answer ℕ
  rewrap draw version s =
      if ltb version 1 || ltb version s.key_version
      then (err value_error, s)
      else take_rewrapped version (rewrap_records draw version s.records) s
