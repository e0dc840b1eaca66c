-- ===== src/Cloud/Reembedding.antt =====
-- `reembed_memory` of src/omp/cloud/worker.py: the job handler that embeds one version of a memory of
-- EncryptedCloudMemoryService.
pub mod Composed
pub mod Outcome
use Prim.Native.Char.{Char}
use umcp.Prelude.{
  ℕ, String, Eq, nat_eq, string_eq, ◌==◌, Bool, true, false, ◌||◌, not, Option, none, some, List,
  ltb, if◌then◌else◌,
}
use umcp.Text.{is_empty, append}
use umcp.Score.{ℤ, pos, negsuc}
use umcp.Domain.Errors.{Error, Result, ok, err, ◌>>=◌}
use umcp.Cloud.Envelope.{Signer, WorkerEnvelope}
use umcp.Cloud.Worker.{JobState, ready, stale, LocalJob}
use umcp.Cloud.Worker.Snapshot.{Parsers}
use umcp.Cloud.EncryptedMemory.{Platform, CloudStore, View, Answer, is_colon, cut_after}
use umcp.Cloud.EncryptedMemory.Reading.{get}
use umcp.Cloud.EncryptedMemory.Vectors.{store_embedding}

-- by the split of the rest
abbrev pub cut_here : Char → String → Option (String × String) → Option (String × String)
cut_here c s (some parts) = cut_after c (some parts)
cut_here c s none = if is_colon c then some (String.[], s) else none

-- the text before the last `:` and after it: `text.rsplit(":", 1)`
unfoldable pub cut_last : String → Option (String × String)
cut_last String.[] = none
cut_last (String.◌∷◌ c s) = cut_here c s (cut_last s)

abbrev pub target_version : String → Option ℤ → Option (String × ℕ)
target_version memory_id none = none
target_version memory_id (some (negsuc n)) = none
target_version memory_id (some (pos n)) =
    if is_empty memory_id || ltb n 1 then none else some (memory_id, n)

abbrev pub target_parts : Parsers → Option (String × String) → Option (String × ℕ)
target_parts ps none = none
target_parts ps (some (memory_id, raw_version)) = target_version memory_id (ps.int_of raw_version)

-- the memory and the version that a payload reference names
unfoldable pub target : Parsers → String → Option (String × ℕ)
target ps payload_ref = target_parts ps (cut_last payload_ref)

-- f"cloud:{tenant_id}:{principal_id}"
abbrev pub job_owner : Signer → WorkerEnvelope → String
job_owner k e =
    append "cloud:" (append (k.uuid_text e.tenant_id) (append ":" (k.uuid_text e.principal_id)))

abbrev pub stored_state : Bool → JobState
stored_state true = ready
stored_state false = stale

abbrev pub stored_answer : Answer Bool → Answer JobState
stored_answer (err e, s) = (err e, s)
stored_answer (ok b, s) = (ok (stored_state b), s)

module _ {J : Type 0} (p : Platform J) (meanwhile : CloudStore → CloudStore) where
  -- `meanwhile` is what other calls do to the store while the embedding is awaited.
  abbrev pub store_vector : String → String → ℕ → Result (List ℤ) → CloudStore → Answer JobState
  store_vector owner_id memory_id version (err e) s = (err e, meanwhile s)
  store_vector owner_id memory_id version (ok values) s =
      stored_answer (store_embedding p owner_id memory_id version values (meanwhile s))

  unfoldable pub embed_found :
      (String → Result (List ℤ))
      → String
      → String
      → ℕ
      → Result (Option (View J))
      → CloudStore
      → Answer JobState
  embed_found embed owner_id memory_id version (err e) s = (err e, s)
  embed_found embed owner_id memory_id version (ok none) s = (ok stale, s)
  embed_found embed owner_id memory_id version (ok (some view)) s =
      if not (view.version == version)
      then (ok stale, s)
      else store_vector owner_id memory_id version (embed view.content) s

  abbrev pub embed_target :
      (String → Result (List ℤ)) → String → Option (String × ℕ) → CloudStore → Answer JobState
  embed_target embed owner_id none s = (ok stale, s)
  embed_target embed owner_id (some (memory_id, version)) s =
      embed_found embed owner_id memory_id version (get p owner_id memory_id s) s

  unfoldable pub reembed_memory :
      Signer → Parsers → (String → Result (List ℤ)) → LocalJob → CloudStore → Answer JobState
  reembed_memory k ps embed job s =
      embed_target embed (job_owner k job.envelope) (target ps job.payload_ref) s
