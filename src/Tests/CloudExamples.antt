-- ===== src/Tests/CloudExamples.antt =====
-- A job, a memory of the hosted service, and what calls make of them.
use mathlib.Core.Path.{subst}
use umcp.Prelude.{
  ℕ, String, nat_eq, string_eq, pair_eq, ◌==◌, ◌≡◌, refl, Option, none, some, List, [], ◌∷◌, ◌++◌,
  inl, inr, Bool-cases,
}
use umcp.Text.{len, all_chars}
use umcp.Score.{ℤ, pos}
use umcp.Dict.{lookup, insert, erase}
use umcp.Domain.Errors.{Result, ok, err, permission_error, ◌>>=◌}
use umcp.Domain.Values.{aware, utc}
use umcp.Cloud.Envelope.{WorkerEnvelope, verify, rejects}
use umcp.Cloud.Worker.{
  ready, LocalJob, new_job, LocalTenantWorker, make_worker, enqueue, enqueue_checked, safe_ref,
  run_one, run_found, attempt, handled,
}
use umcp.Cloud.Worker.Retries.{Reach, start, queue}
use umcp.Cloud.Cipher.{
  EnvelopeCiphertext, encrypt, decrypt, local_wrap, local_unwrap, dek_aad, aad, aad_text, no_slash,
}
use umcp.Cloud.EncryptedMemory.{CloudStore, make_store, View, tenant_of, record_uuid, read, cut}
use umcp.Cloud.EncryptedMemory.Writing.{WritePayload, Draws, write, write_keyed, new_record}
use umcp.Cloud.EncryptedMemory.Reading.{get, get_owned}
use umcp.Cloud.EncryptedMemory.Deleting.{forget, tombstones}
use umcp.Cloud.EncryptedMemory.Restoring.{
  backup, restore, note_ledger, checked_records, checked_record, replay,
}
use umcp.Cloud.EncryptedMemory.Contents.Rewrapped.{AllReadable}
use umcp.Cloud.EncryptedMemory.Vectors.{store_embedding, is_current}
use umcp.Cloud.Reembedding.{reembed_memory, target, cut_last, embed_found}
use umcp.Cloud.Reembedding.Outcome.{handler}
use umcp.Cloud.Recovery.{RecoveryInventory}
use umcp.Prelude.{true}
use umcp.Sorting.{sort}
use umcp.Tests.Cloud.{signer, parsers, platform, entropy, crypto, encryptor, twelve, thirty_two}

abbrev pub envelope : WorkerEnvelope
envelope = record {
  job_id = 5;
  tenant_id = 1;
  principal_id = 2;
  expires_at = aware 100 (pos 0);
  nonce = "n";
  signature = "signed";
}

abbrev pub job : LocalJob
job = new_job envelope "k" "mem_aaaaa:a"

-- one job, with a budget of two attempts
abbrev pub queued : LocalTenantWorker
queued = record {
  max_attempts = 2;
  jobs = (5, job) ∷ [];
  dedupe = ((1, "k"), 5) ∷ [];
  nonces = ((1, "n"), 5) ∷ [];
}

pub queued-Reach : Reach signer queued
unfolding make_worker enqueue enqueue_checked safe_ref verify rejects lookup insert len all_chars
    ◌>>=◌
queued-Reach = queue (start 2 refl) 0 envelope "k" "mem_aaaaa:a"

pub envelope-valid : verify signer 0 envelope ≡ ok tt
unfolding verify rejects len
envelope-valid = refl

pub envelope-late : verify signer 200 envelope ≡ err permission_error
unfolding verify rejects len
envelope-late = refl

abbrev IsValid : Option LocalJob → Type 0
IsValid none = ⊥
IsValid (some j) = verify signer 0 j.envelope ≡ ok tt

pub queued-valid :
    (id : ℕ) (j : LocalJob) → lookup id queued.jobs ≡ some j → verify signer 0 j.envelope ≡ ok tt
unfolding lookup verify rejects len
queued-valid id j h = elim (Bool-cases (5 == id)) [
  | inl here ↦ (let m = rw here at h in subst (λ (o : Option LocalJob). IsValid o) m refl)
  | inr other ↦ let m = rw other at h in cc
]

abbrev pub draws : Draws
draws = record { memory = 5; now = "2026"; content = entropy; provenance = entropy }

abbrev pub tea : WritePayload String
tea = record {
  owner_id = "cloud:a:aa";
  idempotency_key = "k1";
  kind = "fact";
  space = none;
  importance = none;
  confidence = none;
  content = "tea";
  provenance = "{}";
}

abbrev pub with_tea : CloudStore
with_tea = (write platform draws tea (make_store 1)).1

abbrev pub without_tea : CloudStore
without_tea = (forget "2027" "cloud:a:aa" "mem_aaaaa" with_tea).1

pub tea-bound : tenant_of platform "cloud:a:aa" ≡ ok 1
unfolding tenant_of cut len ◌>>=◌
tea-bound = refl

pub tea-forgotten : forget "2027" "cloud:a:aa" "mem_aaaaa" with_tea ≡ ("forgotten", without_tea)
unfolding forget write write_keyed new_record tenant_of record_uuid cut len encrypt no_slash
    all_chars local_wrap lookup insert erase ◌>>=◌
tea-forgotten = refl

pub tea-keyed : lookup ("cloud:a:aa", "k1") with_tea.write_keys ≡ some "mem_aaaaa"
unfolding write write_keyed new_record tenant_of record_uuid cut len encrypt no_slash all_chars
    local_wrap lookup insert ◌>>=◌
tea-keyed = refl

abbrev pub tea_envelope : EnvelopeCiphertext
tea_envelope = record {
  key_version = 1;
  wrapped_dek = twelve ++ crypto.seal thirty_two twelve thirty_two (dek_aad crypto 1 1);
  nonce = twelve;
  ciphertext = crypto.seal thirty_two twelve (crypto.utf8 "tea") (aad crypto 1 2 "content" 1);
}

pub tea-encrypted : encrypt encryptor entropy 1 2 "content" "tea" 1 ≡ ok tea_envelope
unfolding encrypt local_wrap no_slash all_chars ◌>>=◌
tea-encrypted = refl

abbrev pub tea_view : View String
tea_view = record {
  id = "mem_aaaaa";
  owner_id = "cloud:a:aa";
  kind = "fact";
  space = none;
  importance = pos 500000;
  confidence = pos 500000;
  state = "active";
  version = 1;
  created_at = "2026";
  updated_at = "2026";
  occurred_at = none;
  content = "tea";
  provenance = "{}";
}

pub tea-readable : AllReadable platform with_tea.records
unfolding read write write_keyed new_record tenant_of record_uuid cut len encrypt decrypt no_slash
    all_chars local_wrap local_unwrap dek_aad aad_text lookup insert ◌>>=◌
tea-readable = ((tea_view, refl), tt)

abbrev pub unasked : CloudStore
unasked = (forget "2026" "cloud:a:aa" "mem_aaaaa" (make_store 1)).1

pub tea-unasked :
    forget "2026" "cloud:a:aa" "mem_aaaaa" (make_store 1) ≡ ("already_absent", unasked)
unfolding forget lookup
tea-unasked = refl

pub tea-back :
    get platform "cloud:a:aa" "mem_aaaaa" (restore platform (backup with_tea) [] unasked).1
    ≡ ok (some tea_view)
unfolding get get_owned restore backup note_ledger checked_records checked_record replay tombstones
    sort forget read write write_keyed new_record tenant_of record_uuid cut len encrypt decrypt
    no_slash all_chars local_wrap local_unwrap dek_aad aad_text lookup insert ◌>>=◌
tea-back = refl

-- the vector of every text
abbrev pub embed : String → Result (List ℤ)
embed t = ok (pos 1 ∷ [])

abbrev pub ready_job : LocalJob
ready_job = record job { state = ready; attempts = 1 }

pub tea-embedded :
    (run_one signer 0 (handler platform (λ s. s) signer parsers embed with_tea) 5 queued).0
    ≡ ok ready_job
unfolding run_one run_found attempt handled verify rejects reembed_memory target cut_last
    embed_found store_embedding is_current get get_owned read write write_keyed new_record tenant_of
    record_uuid cut len encrypt decrypt no_slash all_chars local_wrap local_unwrap dek_aad aad_text
    lookup insert ◌>>=◌
tea-embedded = refl

abbrev pub tea_inventory : RecoveryInventory
tea_inventory = record {
  backup_id = "b1";
  captured_at = utc 100;
  migration_head = "0007";
  encrypted_payloads = true;
  tombstones_included = true;
  source = "local-fixture";
}
