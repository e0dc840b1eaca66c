-- ===== src/Cloud/Reembedding/Outcome.antt =====
-- What a re-embedding job leaves in the store, and what its state says of it.
use umcp.Prelude.{
  ℕ, String, nat_eq, string_eq, ◌==◌, ◌≡◌, refl, Bool, true, false, Option, none, some, List, inl,
  inr, ◌⊎◌, Bool-cases,
}
use umcp.Score.{ℤ}
use umcp.Dict.{lookup}
use umcp.Dict.Laws.{lookup-insert_self}
use umcp.Domain.Errors.{Result, ok, err}
use umcp.Domain.Values.{Uuid}
use umcp.Cloud.Envelope.{Signer}
use umcp.Cloud.Worker.{JobState, ready, stale, pending, failed, dead_letter, LocalJob}
use umcp.Cloud.Worker.Snapshot.{Parsers}
use umcp.Cloud.EncryptedMemory.{Platform, CloudStore, View, Answer, tenant_of}
use umcp.Cloud.EncryptedMemory.Reading.{get}
use umcp.Cloud.EncryptedMemory.Vectors.{store_embedding, put_embedding, embed_bound, is_current}
use umcp.Cloud.Reembedding.{
  target, job_owner, stored_answer, store_vector, embed_found, embed_target, reembed_memory,
}

module _ {J : Type 0} (p : Platform J) (meanwhile : CloudStore → CloudStore) (k : Signer)
    (ps : Parsers) (embed : String → Result (List ℤ)) where
  -- The vector of the text that stood at the version which the job names, for a record that still
  -- stands at it.
  pub record Embedded (job : LocalJob) (s after : CloudStore) : Type 0 where
    pub memory_id : String
    pub version : ℕ
    pub view : View J
    pub values : List ℤ
    pub named : target ps job.payload_ref ≡ some (memory_id, version)
    pub was : get p (job_owner k job.envelope) memory_id s ≡ ok (some view)
    pub at : view.version ≡ version
    pub embedded : embed view.content ≡ ok values
    pub vector :
        lookup memory_id after.embeddings
        ≡ some (record {
          owner_id = job_owner k job.envelope;
          source_version = version;
          values = values;
        })
    pub current :
        is_current (job_owner k job.envelope) version (lookup memory_id after.records) ≡ true
    pub records : after.records ≡ (meanwhile s).records

  -- What is left of a store that was not given a vector.
  abbrev pub Untouched : CloudStore → CloudStore → Type 0
  Untouched s after = (after ≡ s) ⊎ (after ≡ meanwhile s)

  abbrev pub Outcome : LocalJob → CloudStore → Answer JobState → Type 0
  Outcome job s (ok ready, after) = Embedded job s after
  Outcome job s (ok stale, after) = Untouched s after
  Outcome job s (ok pending, after) = ⊥
  Outcome job s (ok failed, after) = ⊥
  Outcome job s (ok dead_letter, after) = ⊥
  Outcome job s (err e, after) = Untouched s after

  module _ (job : LocalJob) (s : CloudStore) (memory_id : String) (version : ℕ) (view : View J)
      (named : target ps job.payload_ref ≡ some (memory_id, version))
      (was : get p (job_owner k job.envelope) memory_id s ≡ ok (some view))
      (at : view.version ≡ version) where
    put-Outcome :
        (values : List ℤ) (b : Bool)
        → embed view.content ≡ ok values
        → is_current (job_owner k job.envelope) version (lookup memory_id (meanwhile s).records) ≡ b
        → Outcome job s (
            stored_answer (
              put_embedding memory_id
                (record {
                  owner_id = job_owner k job.envelope;
                  source_version = version;
                  values = values;
                })
                b
                (meanwhile s)))
    put-Outcome values false made c = inr refl
    put-Outcome values true made c = record {
      memory_id = memory_id;
      version = version;
      view = view;
      values = values;
      named = named;
      was = was;
      at = at;
      embedded = made;
      vector = lookup-insert_self memory_id _ (meanwhile s).embeddings;
      current = c;
      records = refl;
    }

    bound-Outcome :
        (r : Result Uuid) (a : Answer Bool)
        → Outcome job s (stored_answer a)
        → Outcome job s (stored_answer (embed_bound r a (meanwhile s)))
    bound-Outcome (err e) a h = inr refl
    bound-Outcome (ok t) a h = h

    store_vector-Outcome :
        (r : Result (List ℤ))
        → embed view.content ≡ r
        → Outcome job s (store_vector p meanwhile (job_owner k job.envelope) memory_id version r s)
    unfolding store_embedding
    store_vector-Outcome (err e) made = inr refl
    store_vector-Outcome (ok values) made =
        bound-Outcome (tenant_of p (job_owner k job.envelope)) _ (put-Outcome values _ made refl)

  found-Outcome :
      (job : LocalJob) (s : CloudStore) (memory_id : String) (version : ℕ)
      → target ps job.payload_ref ≡ some (memory_id, version)
      → (r : Result (Option (View J))) → get p (job_owner k job.envelope) memory_id s ≡ r
      → Outcome job s
          (embed_found p meanwhile embed (job_owner k job.envelope) memory_id version r s)
  unfolding embed_found
  found-Outcome job s memory_id version named (err e) was = inl refl
  found-Outcome job s memory_id version named (ok none) was = inl refl
  found-Outcome job s memory_id version named (ok (some view)) was =
      elim (Bool-cases (view.version == version)) [
        | inr other ↦ rw other (inl refl)
        | inl same ↦ rw same (
            store_vector-Outcome job s memory_id version view named was
              ((nat_eq.beq_iff view.version version).0 same) (embed view.content) refl)
      ]

  target-Outcome :
      (job : LocalJob) (s : CloudStore) (o : Option (String × ℕ))
      → target ps job.payload_ref ≡ o
      → Outcome job s (embed_target p meanwhile embed (job_owner k job.envelope) o s)
  target-Outcome job s none named = inl refl
  target-Outcome job s (some (memory_id, version)) named =
      found-Outcome job s memory_id version named (get p (job_owner k job.envelope) memory_id s)
        refl

  -- Whatever other calls do while a memory is embedded: the job is ready only if the store then holds the
  -- vector of the text that stood at the version which the job names, for a record of the job's owner that
  -- is active and still at that version; if the job is stale or an error is raised, the job changes
  -- nothing; and no other state comes out.
  pub reembed_memory-Outcome :
      (job : LocalJob) (s : CloudStore)
      → Outcome job s (reembed_memory p meanwhile k ps embed job s)
  unfolding reembed_memory
  reembed_memory-Outcome job s = target-Outcome job s (target ps job.payload_ref) refl

  -- the handler that the worker is given
  abbrev pub outcome_of : Result JobState → Option JobState
  outcome_of (err e) = none
  outcome_of (ok state) = some state

  abbrev pub handler : CloudStore → LocalJob → Option JobState
  handler s job = outcome_of (reembed_memory p meanwhile k ps embed job s).0
