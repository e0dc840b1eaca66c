-- ===== src/Cloud/Worker/Retries.antt =====
-- `run_one` over and over: the retry budget, and what is outside it.
use mathlib.Core.Path.{subst}
use umcp.Prelude.{
  ℕ, zero, suc, ◌+◌, ◌≤◌, ◌<◌, String, nat_eq, ◌≡◌, refl, sym, ap, ◌∙◌, true, false, Option, none,
  some, arith, inl, inr, Bool-cases, leb,
}
use umcp.Dict.{lookup, insert}
use umcp.Dict.Laws.{lookup-insert_self}
use umcp.Domain.Errors.{ok, err, permission_error}
use umcp.Domain.Values.{Uuid}
use umcp.Cloud.Envelope.{Signer, WorkerEnvelope, verify}
use umcp.Cloud.Worker.{
  JobState, pending, ready, stale, failed, dead_letter, LocalJob, LocalTenantWorker, enqueue,
  run_one, run_found, attempt, handled, is_settled, make_worker,
}
use umcp.Cloud.Worker.Consistency.Running.{run_one-Consistent}
use umcp.Cloud.Worker.Consistency.{Consistent, make_worker-Consistent, enqueue-Consistent}

-- The stores of jobs that calls of the worker lead to, with one secret throughout.
pub data Reach (k : Signer) : LocalTenantWorker → Type 0 where
  start : {w : LocalTenantWorker} (n : ℕ) → make_worker k n ≡ ok w → Reach k w
  queue :
      {w : LocalTenantWorker}
      → Reach k w
      → (now : ℕ) (e : WorkerEnvelope) (key ref : String) → Reach k (enqueue k now e key ref w).1
  run :
      {w : LocalTenantWorker}
      → Reach k w
      → (now : ℕ) (handler : LocalJob → Option JobState) (id : Uuid)
      → Reach k (run_one k now handler id w).1

-- Whatever is queued and run, the worker's tables agree: each job stands under its own
-- identifier, its dedupe key and its nonce lead to it, it has not been tried more often than the
-- budget allows, and while it may run again it has attempts left.
pub Reach-Consistent : (k : Signer) (w : LocalTenantWorker) → Reach k w → Consistent w
Reach-Consistent k w (start n made) = make_worker-Consistent k n w made
Reach-Consistent k _ (queue {w} before now e key ref) =
    enqueue-Consistent k now e key ref w (Reach-Consistent k w before)
Reach-Consistent k _ (run {w} before now handler id) =
    run_one-Consistent k now handler id w (Reach-Consistent k w before)

-- `n` runs of one job, at the instants `at 0`, `at 1`, …, with the handlers `act 0`, `act 1`, …
abbrev pub run_times :
    Signer
    → (ℕ → ℕ)
    → (ℕ → LocalJob → Option JobState)
    → Uuid
    → ℕ
    → LocalTenantWorker
    → LocalTenantWorker
run_times k at act id zero w = w
run_times k at act id (suc n) w =
    run_times k (λ i. at (suc i)) (λ i. act (suc i)) id n (run_one k (at zero) (act zero) id w).1

-- The job under the identifier, if there is one, is settled.
abbrev pub Settles : Uuid → LocalTenantWorker → Type 0
Settles id w = (j : LocalJob) × (lookup id w.jobs ≡ some j) × (is_settled j.state ≡ true)

-- an attempt by an accepted envelope settles the job or spends one attempt of the budget
handled-spends :
    (n : ℕ) (j : LocalJob) (outcome : Option JobState)
    → is_settled (handled n j outcome).state ≡ false
    → (handled n j outcome).attempts ≡ j.attempts
unfolding handled
handled-spends n j (some ready) h = refl
handled-spends n j (some stale) h = refl
handled-spends n j (some pending) h = refl
handled-spends n j (some failed) h = refl
handled-spends n j (some dead_letter) h = refl
handled-spends n j none h = refl

handled-envelope :
    (n : ℕ) (j : LocalJob) (outcome : Option JobState) → (handled n j outcome).envelope ≡ j.envelope
unfolding handled
handled-envelope n j (some ready) = refl
handled-envelope n j (some stale) = refl
handled-envelope n j (some pending) = refl
handled-envelope n j (some failed) = refl
handled-envelope n j (some dead_letter) = refl
handled-envelope n j none = refl

-- what one run makes of a job that is in the table
pub run_one-open :
    (k : Signer) (now : ℕ) (act : LocalJob → Option JobState) (id : Uuid) (w : LocalTenantWorker)
    (j : LocalJob)
    → lookup id w.jobs ≡ some j
    → is_settled j.state ≡ false
    → run_one k now act id w ≡ (
      ok (attempt w.max_attempts act (verify k now j.envelope) j),
      record w { jobs = insert id (attempt w.max_attempts act (verify k now j.envelope) j) w.jobs },
    )
unfolding run_one run_found
run_one-open k now act id w j at open_ = rw (at, open_) refl

run_one-settled :
    (k : Signer) (now : ℕ) (act : LocalJob → Option JobState) (id : Uuid) (w : LocalTenantWorker)
    (j : LocalJob)
    → lookup id w.jobs ≡ some j
    → is_settled j.state ≡ true
    → run_one k now act id w ≡ (ok j, w)
unfolding run_one run_found
run_one-settled k now act id w j at done = rw (at, done) refl

-- A settled job stays settled, and no later run calls its handler or changes the worker.
pub run_times-settled :
    (k : Signer) (at : ℕ → ℕ) (act : ℕ → LocalJob → Option JobState) (id : Uuid) (n : ℕ)
    (w : LocalTenantWorker)
    → Settles id w
    → run_times k at act id n w ≡ w
run_times-settled k at act id zero w s = refl
run_times-settled k at act id (suc n) w (j, found, done) =
    rw (run_one-settled k (at zero) (act zero) id w j found done)
      (run_times-settled k (λ i. at (suc i)) (λ i. act (suc i)) id n w (j, found, done))

below : (a n : ℕ) → a < n → leb n a ≡ false
below a n h = ground arith

unchanged :
    (j : LocalJob)
    → j.state ≡ failed
    → j.error ≡ some "worker execution failed"
    → j ≡ record j { state = failed; error = some "worker execution failed" }
unchanged j bad why = rw (← bad, ← why) refl

module _ (k : Signer) (id : Uuid) where
  -- one attempt by an accepted envelope
  tried :
      (now : ℕ) (act : LocalJob → Option JobState) (w : LocalTenantWorker) (j : LocalJob)
      → verify k now j.envelope ≡ ok tt
      → attempt w.max_attempts act (verify k now j.envelope) j
        ≡ handled w.max_attempts
            (record j { attempts = j.attempts + 1 })
            (act (record j { attempts = j.attempts + 1 }))
  unfolding attempt
  tried now act w j valid = rw valid refl

  rest_Settles :
      (at : ℕ → ℕ) (act : ℕ → LocalJob → Option JobState) (n : ℕ) (w : LocalTenantWorker)
      (j : LocalJob)
      → Consistent w
      → lookup id w.jobs ≡ some j
      → ((i : ℕ) → verify k (at i) j.envelope ≡ ok tt)
      → (is_settled j.state ≡ false → w.max_attempts ≤ j.attempts + n)
      → Settles id (run_times k at act id n w)
  rest_Settles at act zero w j c found valid enough = elim (Bool-cases (is_settled j.state)) [
    | inl done ↦ (j, found, done)
    | inr open_ ↦
        let left = (c.sound id j found).budget open_ in
        let most = enough open_ in absurd (omega arith)
  ]
  rest_Settles at act (suc n) w j c found valid enough = elim (Bool-cases (is_settled j.state)) [
    | inl done ↦
        subst (Settles id) (sym (run_times-settled k at act id (suc n) w (j, found, done)))
          (j, found, done)
    | inr open_ ↦
        let first = run_one-open k (at zero) (act zero) id w j found open_ in
        let t : LocalJob = record j { attempts = j.attempts + 1 } in
        let was = tried (at zero) (act zero) w j (valid zero) in
        let same =
          ap (λ (x : LocalJob). x.envelope) was ∙ handled-envelope w.max_attempts t (act zero t) in
        rw (run_times, first)
          (rest_Settles (λ i. at (suc i)) (λ i. act (suc i)) n
            (record w {
              jobs =
                  insert id (attempt w.max_attempts (act zero) (verify k (at zero) j.envelope) j)
                    w.jobs;
            })
            (attempt w.max_attempts (act zero) (verify k (at zero) j.envelope) j)
            (subst Consistent (ap (λ x. x.1) first)
              (run_one-Consistent k (at zero) (act zero) id w c))
            (lookup-insert_self id _ w.jobs)
            (λ i. subst (λ e. verify k (at (suc i)) e ≡ ok tt) (sym same) (valid (suc i)))
            (λ again.
              let spent =
                handled-spends w.max_attempts t (act zero t)
                  (ap (λ (x : LocalJob). is_settled x.state) (sym was) ∙ again) in
              let count = ap (λ (x : LocalJob). x.attempts) was in
              let most = enough open_ in omega (arith, spent, count)))
  ]

  -- A job of a worker that calls have led to, whose envelope stays valid, is settled, by success,
  -- staleness or the dead letter queue, after as many runs as its budget has attempts left,
  -- whatever its handlers do.
  pub run_times-Settles :
      (at : ℕ → ℕ) (act : ℕ → LocalJob → Option JobState) (n : ℕ) (w : LocalTenantWorker)
      (j : LocalJob)
      → Reach k w
      → lookup id w.jobs ≡ some j
      → ((i : ℕ) → verify k (at i) j.envelope ≡ ok tt)
      → w.max_attempts ≤ j.attempts + n
      → Settles id (run_times k at act id n w)
  run_times-Settles at act n w j r found valid enough =
      rest_Settles at act n w j (Reach-Consistent k w r) found valid (λ _. enough)

  -- what a run leaves of a job whose envelope is rejected
  rejected :
      (now : ℕ) (act : LocalJob → Option JobState) (w : LocalTenantWorker) (j : LocalJob)
      → verify k now j.envelope ≡ err permission_error
      → j.attempts < w.max_attempts
      → attempt w.max_attempts act (verify k now j.envelope) j
        ≡ record j { state = failed; error = some "worker execution failed" }
  unfolding attempt
  rejected now act w j invalid left = rw invalid (rw (below j.attempts w.max_attempts left) refl)

  again_failed :
      (at : ℕ → ℕ) (act : ℕ → LocalJob → Option JobState) (n : ℕ) (w : LocalTenantWorker)
      (j : LocalJob)
      → lookup id w.jobs ≡ some j
      → j.state ≡ failed
      → j.error ≡ some "worker execution failed"
      → j.attempts < w.max_attempts
      → ((i : ℕ) → verify k (at i) j.envelope ≡ err permission_error)
      → lookup id (run_times k at act id n w).jobs
        ≡ some (record j { state = failed; error = some "worker execution failed" })
  again_failed at act zero w j found bad why left invalid = found ∙ ap some (unchanged j bad why)
  again_failed at act (suc n) w j found bad why left invalid =
      rw
        (
          run_times,
          run_one-open k (at zero) (act zero) id w j found (ap is_settled bad),
          rejected (at zero) (act zero) w j (invalid zero) left,
        )
        (again_failed (λ i. at (suc i)) (λ i. act (suc i)) n
          (record w {
            jobs =
                insert id (record j { state = failed; error = some "worker execution failed" })
                  w.jobs;
          })
          (record j { state = failed; error = some "worker execution failed" })
          (lookup-insert_self id _ w.jobs) refl refl left (λ i. invalid (suc i)))

  -- An open job with attempts left whose envelope is rejected at every run, as an expired one is,
  -- is run in vain for ever: after any number of runs, one at least, it is failed and may be
  -- retried, its attempts are those of before, and it is not in the dead letter queue.
  pub run_times-unbounded :
      (at : ℕ → ℕ) (act : ℕ → LocalJob → Option JobState) (n : ℕ) (w : LocalTenantWorker)
      (j : LocalJob)
      → lookup id w.jobs ≡ some j
      → is_settled j.state ≡ false
      → j.attempts < w.max_attempts
      → ((i : ℕ) → verify k (at i) j.envelope ≡ err permission_error)
      → lookup id (run_times k at act id (suc n) w).jobs
        ≡ some (record j { state = failed; error = some "worker execution failed" })
  run_times-unbounded at act n w j found open_ left invalid =
      rw
        (
          run_times,
          run_one-open k (at zero) (act zero) id w j found open_,
          rejected (at zero) (act zero) w j (invalid zero) left,
        )
        (again_failed (λ i. at (suc i)) (λ i. act (suc i)) n
          (record w {
            jobs =
                insert id (record j { state = failed; error = some "worker execution failed" })
                  w.jobs;
          })
          (record j { state = failed; error = some "worker execution failed" })
          (lookup-insert_self id _ w.jobs) refl refl left (λ i. invalid (suc i)))
