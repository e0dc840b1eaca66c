-- ===== src/Cloud/Reembedding/Composed.antt =====
-- The worker and the store together: a job of the worker that turns ready.
use umcp.Prelude.{
  ℕ, ◌+◌, leb, String, nat_eq, ◌≡◌, refl, sym, ap, ◌∙◌, false, Option, none, some, List, inl, inr,
  Bool-cases,
}
use umcp.Score.{ℤ}
use umcp.Dict.{lookup}
use umcp.Domain.Errors.{Result, ok, err, ok_injective}
use umcp.Domain.Values.{Uuid}
use umcp.Cloud.Envelope.{Signer, verify}
use umcp.Cloud.Worker.{
  JobState, ready, stale, pending, failed, dead_letter, LocalJob, LocalTenantWorker, run_one,
  attempt, handled, failed_job, is_settled,
}
use umcp.Cloud.Worker.Retries.{run_one-open}
use umcp.Cloud.Worker.Snapshot.{Parsers}
use umcp.Cloud.EncryptedMemory.{Platform, CloudStore, Answer}
use umcp.Cloud.Reembedding.{reembed_memory}
use umcp.Cloud.Reembedding.Outcome.{Embedded, Outcome, handler, outcome_of, reembed_memory-Outcome}

failed_job-state : (n : ℕ) (j : LocalJob) → (failed_job n j).state ≡ ready → ⊥
failed_job-state n j h = elim (Bool-cases (leb n j.attempts)) [
  | inl out ↦ let m = rw out at h in cc
  | inr left ↦ let m = rw left at h in cc
]

handled-ready :
    (n : ℕ) (j : LocalJob) (o : Option JobState) → (handled n j o).state ≡ ready → o ≡ some ready
unfolding handled
handled-ready n j (some ready) h = refl
handled-ready n j (some stale) h = cc
handled-ready n j (some pending) h = absurd (failed_job-state n j h)
handled-ready n j (some failed) h = absurd (failed_job-state n j h)
handled-ready n j (some dead_letter) h = absurd (failed_job-state n j h)
handled-ready n j none h = absurd (failed_job-state n j h)

attempt-ready :
    (n : ℕ) (act : LocalJob → Option JobState) (r : Result (Unit {0})) (j : LocalJob)
    → (attempt n act r j).state ≡ ready
    → (r ≡ ok tt) × (act (record j { attempts = j.attempts + 1 }) ≡ some ready)
unfolding attempt
attempt-ready n act (err e) j h = absurd (failed_job-state n j h)
attempt-ready n act (ok _) j h =
    (refl, handled-ready n (record j { attempts = j.attempts + 1 }) _ h)

module _ {J : Type 0} (p : Platform J) (meanwhile : CloudStore → CloudStore) (k : Signer)
    (ps : Parsers) (embed : String → Result (List ℤ)) where
  Outcome-ready :
      (job : LocalJob) (s : CloudStore) (a : Answer JobState)
      → Outcome p meanwhile k ps embed job s a
      → outcome_of p meanwhile k ps embed a.0 ≡ some ready
      → Embedded p meanwhile k ps embed job s a.1
  Outcome-ready job s (ok ready, after) o h = o
  Outcome-ready job s (ok stale, after) o h = cc
  Outcome-ready job s (ok pending, after) o h = absurd o
  Outcome-ready job s (ok failed, after) o h = absurd o
  Outcome-ready job s (ok dead_letter, after) o h = absurd o
  Outcome-ready job s (err e, after) o h = cc

  -- When a run with the re-embedding handler turns an open job ready, its envelope was accepted at that
  -- run, and the store holds the vector of the text at the version that the job names, for a record of
  -- the tenant and the principal that signed for it, active and still at that version.
  pub run_one-Embedded :
      (now : ℕ) (id : Uuid) (w : LocalTenantWorker) (j j' : LocalJob) (s : CloudStore)
      → lookup id w.jobs ≡ some j
      → is_settled j.state ≡ false
      → (run_one k now (handler p meanwhile k ps embed s) id w).0 ≡ ok j'
      → j'.state ≡ ready
      → (verify k now j.envelope ≡ ok tt)
        × Embedded p meanwhile k ps embed
            (record j { attempts = j.attempts + 1 })
            s
            (reembed_memory p meanwhile k ps embed (record j { attempts = j.attempts + 1 }) s).1
  run_one-Embedded now id w j j' s at open_ ran is_ready =
      let run =
        ap (λ x. x.0) (run_one-open k now (handler p meanwhile k ps embed s) id w j at open_) in
      let same = ok_injective _ _ (sym run ∙ ran) in
      let (valid, done) =
        attempt-ready w.max_attempts (handler p meanwhile k ps embed s) (verify k now j.envelope) j
          (ap (λ (x : LocalJob). x.state) same ∙ is_ready) in
      (
        valid,
        Outcome-ready (record j { attempts = j.attempts + 1 }) s _
            (reembed_memory-Outcome p meanwhile k ps embed (record j { attempts = j.attempts + 1 })
              s)
            done,
      )
