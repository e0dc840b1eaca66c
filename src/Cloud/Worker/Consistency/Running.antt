-- ===== src/Cloud/Worker/Consistency/Running.antt =====
-- What `run_one` keeps between the tables of the worker.
use mathlib.Core.Path.{subst}
use umcp.Prelude.{
  ℕ, ◌+◌, ◌≤◌, ◌<◌, nat_eq, string_eq, pair_eq, ◌≡◌, refl, sym, ap, ◌∙◌, false, Option, none, some,
  arith, inl, inr, Bool-cases, leb,
}
use umcp.Dict.{lookup, insert}
use umcp.Dict.Laws.{lookup-insert_cases, lookup-insert_ne-none}
use umcp.Dict.Entries.{Distinct-insert}
use umcp.Domain.Errors.{Result, ok, err}
use umcp.Domain.Values.{Uuid}
use umcp.Cloud.Envelope.{Signer, WorkerEnvelope, verify}
use umcp.Cloud.Worker.{
  JobState, pending, ready, stale, failed, dead_letter, LocalJob, LocalTenantWorker, run_one,
  run_found, attempt, handled, failed_job, is_settled,
}
use umcp.Cloud.Worker.Consistency.{Sound, Consistent}

-- What an attempt keeps of the job, and that it spends at most one attempt.
pub record Attempted (n : ℕ) (j j' : LocalJob) : Type 0 where
  pub envelope : j'.envelope ≡ j.envelope
  pub dedupe_key : j'.dedupe_key ≡ j.dedupe_key
  pub payload_ref : j'.payload_ref ≡ j.payload_ref
  pub bounded : j'.attempts ≤ n
  pub budget : is_settled j'.state ≡ false → j'.attempts < n
  pub reason :
      is_settled j'.state ≡ false
      → j'.error ≡ elim j'.state [ failed ↦ some "worker execution failed" | _ ↦ none ]

failed_job-Attempted : (n : ℕ) (j : LocalJob) → j.attempts ≤ n → Attempted n j (failed_job n j)
failed_job-Attempted n j h = elim (Bool-cases (leb n j.attempts)) [
  | inl spent ↦ rw spent (record {
    envelope = refl;
    dedupe_key = refl;
    payload_ref = refl;
    bounded = h;
    budget = λ p. cc;
    reason = λ p. cc;
  })
  | inr left ↦ rw left (record {
    envelope = refl;
    dedupe_key = refl;
    payload_ref = refl;
    bounded = h;
    budget = λ p. ground arith;
    reason = λ p. refl;
  })
]

handled-Attempted :
    (n : ℕ) (j : LocalJob) (outcome : Option JobState)
    → j.attempts ≤ n
    → Attempted n j (handled n j outcome)
unfolding handled
handled-Attempted n j (some ready) h = record {
  envelope = refl;
  dedupe_key = refl;
  payload_ref = refl;
  bounded = h;
  budget = λ p. cc;
  reason = λ p. cc;
}
handled-Attempted n j (some stale) h = record {
  envelope = refl;
  dedupe_key = refl;
  payload_ref = refl;
  bounded = h;
  budget = λ p. cc;
  reason = λ p. cc;
}
handled-Attempted n j (some pending) h = failed_job-Attempted n j h
handled-Attempted n j (some failed) h = failed_job-Attempted n j h
handled-Attempted n j (some dead_letter) h = failed_job-Attempted n j h
handled-Attempted n j none h = failed_job-Attempted n j h

attempt-Attempted :
    (n : ℕ) (handler : LocalJob → Option JobState) (r : Result (Unit {0})) (j : LocalJob)
    → j.attempts < n
    → Attempted n j (attempt n handler r j)
unfolding attempt
attempt-Attempted n handler (err e) j h = failed_job-Attempted n j (omega arith)
attempt-Attempted n handler (ok _) j h =
    let a =
      handled-Attempted n (record j { attempts = j.attempts + 1 })
        (handler (record j { attempts = j.attempts + 1 })) (omega arith) in
    record {
      envelope = a.envelope;
      dedupe_key = a.dedupe_key;
      payload_ref = a.payload_ref;
      bounded = a.bounded;
      budget = a.budget;
      reason = a.reason;
    }

-- A job is replaced under its identifier by what an attempt made of it.
replace-Consistent :
    (w : LocalTenantWorker) (id : Uuid) (j j' : LocalJob)
    → Consistent w
    → lookup id w.jobs ≡ some j
    → Attempted w.max_attempts j j'
    → Consistent (record w { jobs = insert id j' w.jobs })
replace-Consistent w id j j' c at a = record {
  positive = c.positive;
  distinct = Distinct-insert id j' w.jobs c.distinct;
  sound = λ i x l. elim (lookup-insert_cases id i j' x w.jobs l) [
    | inr (_, old) ↦
        (let h = c.sound i x old in
          record {
            named = h.named;
            deduped = h.deduped;
            once = h.once;
            bounded = h.bounded;
            budget = h.budget;
            reason = h.reason;
            safe = h.safe;
            safe_payload = h.safe_payload;
          })
    | inl (here, same) ↦
        (let h = c.sound id j at in
          subst (λ y. Sound (record w { jobs = insert id j' w.jobs }) i y) (sym same)
            (subst (λ k. Sound (record w { jobs = insert id j' w.jobs }) k j') (sym here)
              (record {
                named = ap (λ (e : WorkerEnvelope). e.job_id) a.envelope ∙ h.named;
                deduped = rw (a.envelope, a.dedupe_key) h.deduped;
                once = rw a.envelope h.once;
                bounded = a.bounded;
                budget = a.budget;
                reason = a.reason;
                safe = rw a.dedupe_key h.safe;
                safe_payload = rw a.payload_ref h.safe_payload;
              })))
  ];
  found = λ key i l. lookup-insert_ne-none id i j' w.jobs (c.found key i l);
}

run_found-Consistent :
    (k : Signer) (now : ℕ) (handler : LocalJob → Option JobState) (id : Uuid) (o : Option LocalJob)
    (w : LocalTenantWorker)
    → Consistent w
    → lookup id w.jobs ≡ o
    → Consistent (run_found k now handler id o w).1
unfolding run_found
run_found-Consistent k now handler id none w c at = c
run_found-Consistent k now handler id (some j) w c at = elim (Bool-cases (is_settled j.state)) [
  | inl done ↦ rw done c
  | inr open_ ↦ rw open_ (
      replace-Consistent w id j _ c at (
        attempt-Attempted w.max_attempts handler (verify k now j.envelope) j
          ((c.sound id j at).budget open_)))
]

pub run_one-Consistent :
    (k : Signer) (now : ℕ) (handler : LocalJob → Option JobState) (id : Uuid)
    (w : LocalTenantWorker)
    → Consistent w
    → Consistent (run_one k now handler id w).1
unfolding run_one
run_one-Consistent k now handler id w c =
    run_found-Consistent k now handler id (lookup id w.jobs) w c refl
