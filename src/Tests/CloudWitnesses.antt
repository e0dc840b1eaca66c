-- ===== src/Tests/CloudWitnesses.antt =====
-- Theorems on the hosted service, each at one input.
use umcp.Prelude.{◌≡◌, refl, none, some, [], arith, inl}
use umcp.Text.{len, all_chars}
use umcp.Dict.{lookup, insert}
use umcp.Domain.Errors.{ok, err, key_error, kms_unavailable}
use umcp.Cloud.Worker.{ready, failed}
use umcp.Cloud.Worker.Consistency.{Consistent}
use umcp.Cloud.Worker.Retries.{
  Reach-Consistent, run_times, Settles, run_times-Settles, run_times-unbounded,
}
use umcp.Cloud.Worker.Snapshot.{Item}
use umcp.Cloud.Worker.Snapshot.Restoring.{Restarted, restore-snapshot}
use umcp.Cloud.Cipher.{no_slash, encrypt, decrypt}
use umcp.Cloud.Cipher.RoundTrip.{Encrypted, decrypt-encrypt}
use umcp.Cloud.Cipher.Binding.{decrypt-misplaced}
use umcp.Cloud.EncryptedMemory.{make_store}
use umcp.Cloud.EncryptedMemory.Writing.{write}
use umcp.Cloud.EncryptedMemory.Reading.{get}
use umcp.Cloud.EncryptedMemory.Deleting.{forget}
use umcp.Cloud.EncryptedMemory.Steps.{done, then_, writes}
use umcp.Cloud.EncryptedMemory.Forgetting.Lasting.{forget-Steps-get}
use umcp.Cloud.EncryptedMemory.Current.{Current}
use umcp.Cloud.EncryptedMemory.Current.Bound.{Steps-Current}
use umcp.Cloud.EncryptedMemory.Contents.Kept.{Kept, write-Kept}
use umcp.Cloud.EncryptedMemory.Contents.Rewrapped.{Rotated, rewrap-Rotated}
use umcp.Cloud.EncryptedMemory.Absence.{forget-write, forget-restore-forget}
use umcp.Prelude.{nat_eq, string_eq, pair_eq, List}
use umcp.Domain.Errors.{◌>>=◌}
use umcp.Cloud.Envelope.{verify}
use umcp.Cloud.Cipher.{local_wrap}
use umcp.Cloud.EncryptedMemory.{tenant_of, record_uuid, cut}
use umcp.Cloud.EncryptedMemory.Writing.{write_keyed, new_record}
use umcp.Cloud.EncryptedMemory.Restoring.{backup, restore}
use umcp.Cloud.Reembedding.{reembed_memory}
use umcp.Cloud.Reembedding.Outcome.{Outcome, Embedded, reembed_memory-Outcome}
use umcp.Cloud.Reembedding.Composed.{run_one-Embedded}
use umcp.Cloud.Recovery.{take_backup, make_inventory}
use umcp.Cloud.Recovery.Isolated.{Isolated, take_backup-Isolated}
use umcp.Tests.CloudExamples.{tea_inventory}
use umcp.Tests.Cloud.{
  signer, parsers, parsers-Inverse, platform, platform-Lawful, entropy, entropy-IsDrawn, crypto,
  crypto-Opens, crypto-Prints, crypto-Authenticates, encryptor, encryptor-Unwraps, thirty_two,
}
use umcp.Tests.CloudExamples.{
  envelope, job, queued, queued-Reach, envelope-valid, envelope-late, queued-valid, draws, tea,
  with_tea, without_tea, tea-bound, tea-forgotten, tea-keyed, tea_envelope, tea-encrypted,
  tea-readable, unasked, tea-unasked, tea-back, tea_view, embed, ready_job, tea-embedded,
}

Reach-Consistent_example : Consistent queued
Reach-Consistent_example = Reach-Consistent signer queued queued-Reach

run_times-Settles_example : Settles 5 (run_times signer (λ i. 0) (λ i j. none) 5 2 queued)
unfolding lookup
run_times-Settles_example =
    run_times-Settles signer 5 (λ i. 0) (λ i j. none) 2 queued job queued-Reach refl
      (λ i. envelope-valid) (omega arith)

run_times-unbounded_example :
    lookup 5 (run_times signer (λ i. 200) (λ i j. some ready) 5 10 queued).jobs
    ≡ some (record job { state = failed; error = some "worker execution failed" })
unfolding lookup
run_times-unbounded_example =
    run_times-unbounded signer 5 (λ i. 200) (λ i j. some ready) 9 queued job refl refl (omega arith)
      (λ i. envelope-late)

restore-snapshot_example : (items : List Item) × Restarted signer parsers 0 queued queued items
restore-snapshot_example =
    restore-snapshot signer parsers 0 queued queued parsers-Inverse queued-Reach queued-valid

decrypt-encrypt_example :
    Encrypted encryptor crypto-Opens encryptor-Unwraps entropy 1 2 "content" "tea" 1
unfolding no_slash all_chars
decrypt-encrypt_example =
    decrypt-encrypt encryptor crypto-Opens encryptor-Unwraps entropy 1 2 "content" "tea" 1
      entropy-IsDrawn (omega arith) refl refl

write-Kept_example : Kept platform draws tea (make_store 1)
unfolding lookup
write-Kept_example =
    write-Kept platform draws tea (make_store 1) 1 platform-Lawful entropy-IsDrawn entropy-IsDrawn
      (omega arith) tea-bound refl

forget-Steps-get_example : get platform "cloud:a:aa" "mem_aaaaa" without_tea ≡ ok none
forget-Steps-get_example =
    forget-Steps-get "cloud:a:aa" "mem_aaaaa" platform "2027" with_tea without_tea without_tea 1
      tea-bound tea-forgotten done

forget-write_example : write platform draws tea without_tea ≡ (err key_error, without_tea)
forget-write_example =
    forget-write platform "2027" draws tea with_tea without_tea 1 "mem_aaaaa" tea-bound tea-keyed
      refl tea-forgotten

decrypt-misplaced_example : decrypt encryptor 3 2 "content" tea_envelope ≡ err kms_unavailable
unfolding no_slash all_chars
decrypt-misplaced_example =
    decrypt-misplaced crypto crypto-Opens crypto-Prints crypto-Authenticates thirty_two entropy 1 2
      "content" "tea" 1 entropy-IsDrawn tea_envelope 3 2 "content" tea-encrypted refl
      (inl (λ h. absurd (omega (arith, h))))

Steps-Current_example : Current with_tea
unfolding lookup
Steps-Current_example =
    Steps-Current platform 1 with_tea
      (then_ done (writes draws tea (record { records = refl; tombstones = refl })))

rewrap-Rotated_example :
    Rotated platform platform-Lawful
      (λ id name. entropy)
      (λ id name. entropy-IsDrawn)
      2
      (omega arith)
      with_tea
unfolding write write_keyed new_record tenant_of record_uuid cut len encrypt no_slash all_chars
    local_wrap lookup ◌>>=◌
rewrap-Rotated_example =
    rewrap-Rotated platform platform-Lawful (λ id name. entropy) (λ id name. entropy-IsDrawn) 2
      (omega arith) with_tea (omega arith) tea-readable

forget-restore-forget_example :
    (forget "2028" "cloud:a:aa" "mem_aaaaa" (restore platform (backup with_tea) [] unasked).1
      ≡ ("already_absent", (restore platform (backup with_tea) [] unasked).1))
    × (get platform "cloud:a:aa" "mem_aaaaa"
          (forget "2028" "cloud:a:aa" "mem_aaaaa"
            (restore platform (backup with_tea) [] unasked).1).1
        ≡ ok (some tea_view))
forget-restore-forget_example =
    forget-restore-forget platform "2026" "2028" "cloud:a:aa" "mem_aaaaa" "already_absent"
      (backup with_tea) [] (make_store 1) unasked tea_view tea-unasked tea-back

reembed_memory-Outcome_example :
    Outcome platform
      (λ s. s)
      signer
      parsers
      embed
      job
      with_tea
      (reembed_memory platform (λ s. s) signer parsers embed job with_tea)
reembed_memory-Outcome_example =
    reembed_memory-Outcome platform (λ s. s) signer parsers embed job with_tea

run_one-Embedded_example :
    (verify signer 0 envelope ≡ ok tt)
    × Embedded platform
        (λ s. s)
        signer
        parsers
        embed
        (record job { attempts = 1 })
        with_tea
        (reembed_memory platform
          (λ s. s)
          signer
          parsers
          embed
          (record job { attempts = 1 })
          with_tea).1
unfolding lookup
run_one-Embedded_example =
    run_one-Embedded platform (λ s. s) signer parsers embed 0 5 queued job ready_job with_tea refl
      refl tea-embedded refl

take_backup-Isolated_example : Isolated platform with_tea (backup with_tea) tea_inventory 300 5
unfolding take_backup make_inventory write write_keyed new_record tenant_of record_uuid cut len
    encrypt no_slash all_chars local_wrap lookup insert ◌>>=◌
take_backup-Isolated_example =
    take_backup-Isolated platform with_tea "0007" "b1" 100 300 5 (backup with_tea) tea_inventory
      ((refl, (1, refl)), tt) tt refl
