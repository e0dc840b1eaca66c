-- ===== src/Cloud/EncryptedMemory/Vectors.antt =====
-- `store_embedding` and `embedding` of EncryptedCloudMemoryService.
use umcp.Prelude.{
  ℕ, String, nat_eq, string_eq, ◌==◌, Bool, true, false, ◌||◌, not, Option, none, some, List,
  if◌then◌else◌,
}
use umcp.Score.{ℤ}
use umcp.Dict.{lookup, insert}
use umcp.Domain.Errors.{Result, ok, err, ◌>>◌}
use umcp.Domain.Values.{Uuid}
use umcp.Cloud.EncryptedMemory.{Platform, Stored, Embedding, CloudStore, Answer, tenant_of}

-- the record is still the one that the vector was made from
unfoldable pub is_current : String → ℕ → Option Stored → Bool
is_current owner_id source_version none = false
is_current owner_id source_version (some stored) = not (
    not (stored.owner_id == owner_id)
    || not (stored.state == "active")
    || not (stored.version == source_version))

abbrev pub put_embedding : String → Embedding → Bool → CloudStore → Answer Bool
put_embedding memory_id e false s = (ok false, s)
put_embedding memory_id e true s =
    (ok true, record s { embeddings = insert memory_id e s.embeddings })

abbrev pub embed_bound : Result Uuid → Answer Bool → CloudStore → Answer Bool
embed_bound (err e) answer s = (err e, s)
embed_bound (ok tenant) answer s = answer

module _ {J : Type 0} (p : Platform J) where
  unfoldable pub store_embedding : String → String → ℕ → List ℤ → CloudStore → Answer Bool
  store_embedding owner_id memory_id source_version values s =
      embed_bound (tenant_of p owner_id)
        (put_embedding memory_id
          (record { owner_id = owner_id; source_version = source_version; values = values })
          (is_current owner_id source_version (lookup memory_id s.records)) s)
        s

  abbrev pub owned_embedding : String → Option Embedding → Option Embedding
  owned_embedding owner_id none = none
  owned_embedding owner_id (some e) = if not (e.owner_id == owner_id) then none else some e

  unfoldable pub embedding : String → String → CloudStore → Result (Option Embedding)
  embedding owner_id memory_id s = do
    tenant_of p owner_id
    ok (owned_embedding owner_id (lookup memory_id s.embeddings))
