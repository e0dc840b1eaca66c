-- ===== src/Cloud/Worker/Consistency.antt =====
-- What holds between the three tables of the worker, and how far the attempts of a job go.
pub mod Running
use mathlib.Core.Path.{subst}
use umcp.Prelude.{
  ℕ, ◌+◌, ◌≤◌, ◌<◌, String, Eq, nat_eq, string_eq, pair_eq, ◌≡◌, ◌≢◌, refl, sym, ap, ◌∙◌, false,
  Option, none, some, [], arith, inl, inr, Bool-cases, leb,
}
use umcp.Dict.{Dict, lookup, insert}
use umcp.Dict.Laws.{
  lookup-insert_self, lookup-insert_ne, lookup-insert_cases, lookup-insert_ne-none,
}
use umcp.Dict.Entries.{Distinct, Distinct-insert}
use umcp.Domain.Errors.{Result, ok, err, ◌>>=◌, >>=-eq-ok, ok_injective}
use umcp.Domain.Values.{Uuid}
use umcp.Cloud.Envelope.{Signer, WorkerEnvelope, verify}
use umcp.Cloud.Worker.{
  JobState, pending, ready, stale, failed, dead_letter, LocalJob, LocalTenantWorker, TenantKey,
  job_key, nonce_key, new_job, add_job, enqueue, enqueue_refs, enqueue_checked, checked_refs,
  run_one, run_found, attempt, handled, failed_job, is_settled, make_worker, safe_ref,
}

-- The job stands under its own identifier, and its two keys lead to it. A job that may run again has
-- attempts left, and its error says whether it failed.
pub record Sound (w : LocalTenantWorker) (id : Uuid) (j : LocalJob) : Type 0 where
  pub named : j.envelope.job_id ≡ id
  pub deduped : lookup (job_key j) w.dedupe ≡ some id
  pub once : lookup (nonce_key j.envelope) w.nonces ≡ some id
  pub bounded : j.attempts ≤ w.max_attempts
  pub budget : is_settled j.state ≡ false → j.attempts < w.max_attempts
  pub reason :
      is_settled j.state ≡ false
      → j.error ≡ elim j.state [ failed ↦ some "worker execution failed" | _ ↦ none ]
  pub safe : safe_ref j.dedupe_key ≡ ok j.dedupe_key
  pub safe_payload : safe_ref j.payload_ref ≡ ok j.payload_ref

pub record Consistent (w : LocalTenantWorker) : Type 0 where
  pub positive : 0 < w.max_attempts
  pub distinct : Distinct w.jobs
  pub sound : (id : Uuid) (j : LocalJob) → lookup id w.jobs ≡ some j → Sound w id j
  -- a dedupe key leads to a job
  pub found :
      (key : TenantKey) (id : Uuid) → lookup key w.dedupe ≡ some id → lookup id w.jobs ≢ none

-- The worker before its first job.
abbrev pub idle : ℕ → LocalTenantWorker
idle n = record { max_attempts = n; jobs = []; dedupe = []; nonces = [] }

idle-Consistent : (n : ℕ) → 0 < n → Consistent (idle n)
unfolding lookup
idle-Consistent n h = record {
  positive = h;
  distinct = tt;
  sound = λ id j l. cc;
  found = λ key id l. cc;
}

made :
    (k : Signer) (n : ℕ) (w : LocalTenantWorker) → make_worker k n ≡ ok w → (w ≡ idle n) × (0 < n)
unfolding make_worker ◌>>=◌
made k n w h = ground arith

pub make_worker-Consistent :
    (k : Signer) (n : ℕ) (w : LocalTenantWorker) → make_worker k n ≡ ok w → Consistent w
make_worker-Consistent k n w h =
    let (e, positive) = made k n w h in subst Consistent (sym e) (idle-Consistent n positive)

-- What was there stays when another key is added.
lookup-insert_used :
    {K V : Type 0} ⦃e : Eq K⦄ (k j : K) (v x : V) (d : Dict K V)
    → lookup k d ≡ none
    → lookup j d ≡ some x
    → lookup j (insert k v d) ≡ some x
lookup-insert_used k j v x d free l =
    lookup-insert_ne k j v d (λ same. cc (free, ap (λ i. lookup i d) same, l)) ∙ l

-- A new job is added only under unused keys.
add_job-Consistent :
    (j : LocalJob) (w : LocalTenantWorker)
    → Consistent w
    → lookup (job_key j) w.dedupe ≡ none
    → lookup (nonce_key j.envelope) w.nonces ≡ none
    → j.attempts ≡ 0
    → j.state ≡ pending
    → j.error ≡ none
    → safe_ref j.dedupe_key ≡ ok j.dedupe_key
    → safe_ref j.payload_ref ≡ ok j.payload_ref
    → Consistent (add_job j w)
add_job-Consistent j w c free unused zero_ new clean safe safe_payload = record {
  positive = c.positive;
  distinct = Distinct-insert j.envelope.job_id j w.jobs c.distinct;
  sound = λ id x l. elim (lookup-insert_cases j.envelope.job_id id j x w.jobs l) [
    | inl (here, same) ↦
        subst (λ y. Sound (add_job j w) id y) (sym same)
          (record {
            named = sym here;
            deduped =
                lookup-insert_self (job_key j) j.envelope.job_id w.dedupe ∙ ap some (sym here);
            once =
                lookup-insert_self (nonce_key j.envelope) j.envelope.job_id w.nonces
                ∙ ap some (sym here);
            bounded = ground (arith, c.positive);
            budget = λ _. ground (arith, c.positive);
            reason = λ _. rw new clean;
            safe = safe;
            safe_payload = safe_payload;
          })
    | inr (other, old) ↦
        (let h = c.sound id x old in
          record {
            named = h.named;
            deduped =
                lookup-insert_used (job_key j) (job_key x) j.envelope.job_id id w.dedupe free
                  h.deduped;
            once =
                lookup-insert_used (nonce_key j.envelope) (nonce_key x.envelope) j.envelope.job_id
                  id w.nonces unused h.once;
            bounded = h.bounded;
            budget = h.budget;
            reason = h.reason;
            safe = h.safe;
            safe_payload = h.safe_payload;
          })
  ];
  found = λ key id l. elim (lookup-insert_cases (job_key j) key j.envelope.job_id id w.dedupe l) [
    | inl (here, same) ↦ λ missing. cc (
      missing,
      ap (λ i. lookup i (add_job j w).jobs) same,
      lookup-insert_self j.envelope.job_id j w.jobs,
    )
    | inr (other, old) ↦ lookup-insert_ne-none j.envelope.job_id id j w.jobs (c.found key id old)
  ];
}

-- `enqueue` keeps the tables consistent, whatever it answers.
pub enqueue_checked-Consistent :
    (j : LocalJob) (w : LocalTenantWorker)
    → Consistent w
    → j.attempts ≡ 0
    → j.state ≡ pending
    → j.error ≡ none
    → safe_ref j.dedupe_key ≡ ok j.dedupe_key
    → safe_ref j.payload_ref ≡ ok j.payload_ref
    → (existing used : Option Uuid) → lookup (job_key j) w.dedupe ≡ existing
    → lookup (nonce_key j.envelope) w.nonces ≡ used
    → Consistent (enqueue_checked j existing used w).1
unfolding enqueue_checked
enqueue_checked-Consistent j w c fresh new clean safe safe_payload (some e) used d n = c
enqueue_checked-Consistent j w c fresh new clean safe safe_payload none (some u) d n = c
enqueue_checked-Consistent j w c fresh new clean safe safe_payload none none d n =
    add_job-Consistent j w c d n fresh new clean safe safe_payload

safe_ref-same : (t u : String) → safe_ref t ≡ ok u → u ≡ t
unfolding safe_ref ◌>>=◌
safe_ref-same t u h = ground arith

-- references that passed the checks are safe
checked_refs-safe :
    (k : Signer) (now : ℕ) (e : WorkerEnvelope) (dedupe_key payload_ref key ref : String)
    → checked_refs k now e dedupe_key payload_ref ≡ ok (key, ref)
    → (safe_ref key ≡ ok key) × (safe_ref ref ≡ ok ref)
checked_refs-safe k now e dedupe_key payload_ref key ref h =
    let (_, _, h1) = >>=-eq-ok (verify k now e) _ h in
    let (x, sx, h2) = >>=-eq-ok (safe_ref dedupe_key) _ h1 in
    let (y, sy, h3) = >>=-eq-ok (safe_ref payload_ref) _ h2 in
    let same = ok_injective (x, y) (key, ref) h3 in
    let ex = sym (ap (λ z. z.0) same) in
    let ey = sym (ap (λ z. z.1) same) in
    (
      subst (λ t. safe_ref t ≡ ok key) (sym (safe_ref-same dedupe_key x sx) ∙ sym ex)
          (sx ∙ ap ok (sym ex)),
      subst (λ t. safe_ref t ≡ ok ref) (sym (safe_ref-same payload_ref y sy) ∙ sym ey)
          (sy ∙ ap ok (sym ey)),
    )

enqueue_refs-Consistent :
    (e : WorkerEnvelope) (refs : Result (String × String)) (w : LocalTenantWorker)
    → Consistent w
    → ((key ref : String)
        → refs ≡ ok (key, ref)
        → (safe_ref key ≡ ok key) × (safe_ref ref ≡ ok ref))
    → Consistent (enqueue_refs e refs w).1
enqueue_refs-Consistent e (err x) w c checked = c
enqueue_refs-Consistent e (ok (key, ref)) w c checked =
    let (safe, safe_payload) = checked key ref refl in
    enqueue_checked-Consistent (new_job e key ref) w c refl refl refl safe safe_payload
      (lookup (e.tenant_id, key) w.dedupe) (lookup (nonce_key e) w.nonces) refl refl

pub enqueue-Consistent :
    (k : Signer) (now : ℕ) (e : WorkerEnvelope) (key ref : String) (w : LocalTenantWorker)
    → Consistent w
    → Consistent (enqueue k now e key ref w).1
unfolding enqueue
enqueue-Consistent k now e key ref w c =
    enqueue_refs-Consistent e (checked_refs k now e key ref) w c (checked_refs-safe k now e key ref)
