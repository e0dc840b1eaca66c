-- ===== src/Cloud/Worker.antt =====
-- src/omp/cloud/worker.py: LocalTenantWorker, a queue of signed jobs with bounded retries, and
-- `reembed_memory`.
pub mod Consistency
pub mod Retries
pub mod Snapshot
use Prim.Native.Char.{Char, code}
use umcp.Prelude.{
  ℕ, ◌+◌, String, Eq, nat_eq, string_eq, pair_eq, ◌==◌, ◌≡◌, ◌↔◌, refl, Bool, true, false, ◌&&◌,
  ◌||◌, not, Option, none, some, List, [], ◌∷◌, ltb, leb, arith, if◌then◌else◌,
}
use umcp.Text.{len, is_empty, all_chars}
use umcp.Score.{ℤ, pos, negsuc}
use umcp.Dict.{Dict, lookup, insert, values}
use umcp.Domain.Errors.{
  Error, Result, ok, err, key_error, value_error, permission_error, ◌>>=◌, ◌>>◌, raise_if,
}
use umcp.Domain.Values.{Uuid, Datetime}
use umcp.Cloud.Envelope.{Signer, WorkerEnvelope, verify}

pub data JobState : Type 0 where
  pending ready stale failed dead_letter : JobState

unfoldable pub job_state_value : JobState → String
job_state_value pending = "pending"
job_state_value ready = "ready"
job_state_value stale = "stale"
job_state_value failed = "failed"
job_state_value dead_letter = "dead_letter"

pub record LocalJob : Type 0 where
  pub envelope : WorkerEnvelope
  pub dedupe_key : String
  pub payload_ref : String
  pub state : JobState
  pub attempts : ℕ
  pub error : Option String

-- (tenant, dedupe key) or (tenant, nonce)
abbrev pub TenantKey : Type 0
TenantKey = Uuid × String

-- The secret is the signer's.
pub record LocalTenantWorker : Type 0 where
  pub max_attempts : ℕ
  pub jobs : Dict Uuid LocalJob
  pub dedupe : Dict TenantKey Uuid
  pub nonces : Dict TenantKey Uuid

unfoldable pub make_worker : Signer → ℕ → Result LocalTenantWorker
make_worker k max_attempts = do
  raise_if (is_empty k.secret || ltb max_attempts 1) value_error
  ok (record { max_attempts = max_attempts; jobs = []; dedupe = []; nonces = [] })

-- `[A-Za-z0-9_.:/-]`
abbrev pub is_ref_char : Char → Bool
is_ref_char ch =
    let c = code ch in
    (leb 65 c && leb c 90) || (leb 97 c && leb c 122) || (leb 45 c && leb c 58) || c == 95

unfoldable pub safe_ref : String → Result String
safe_ref value = do
  raise_if (is_empty value || ltb 256 (len value) || not (all_chars is_ref_char value))
      permission_error
  ok value

abbrev pub job_key : LocalJob → TenantKey
job_key j = (j.envelope.tenant_id, j.dedupe_key)

abbrev pub nonce_key : WorkerEnvelope → TenantKey
nonce_key e = (e.tenant_id, e.nonce)

-- `self._jobs[job_id]`
abbrev pub job_or_error : Option LocalJob → Result LocalJob
job_or_error none = err key_error
job_or_error (some j) = ok j

abbrev pub new_job : WorkerEnvelope → String → String → LocalJob
new_job e dedupe_key payload_ref = record {
  envelope = e;
  dedupe_key = dedupe_key;
  payload_ref = payload_ref;
  state = pending;
  attempts = 0;
  error = none;
}

abbrev pub add_job : LocalJob → LocalTenantWorker → LocalTenantWorker
add_job j w = record w {
  jobs = insert j.envelope.job_id j w.jobs;
  dedupe = insert (job_key j) j.envelope.job_id w.dedupe;
  nonces = insert (nonce_key j.envelope) j.envelope.job_id w.nonces;
}

-- the part of `enqueue` after its checks, by what the two tables hold
unfoldable pub enqueue_checked :
    LocalJob → Option Uuid → Option Uuid → LocalTenantWorker → Result LocalJob × LocalTenantWorker
enqueue_checked j (some existing) used w = (job_or_error (lookup existing w.jobs), w)
enqueue_checked j none (some used) w = (err permission_error, w)
enqueue_checked j none none w = (ok j, add_job j w)

abbrev pub checked_refs : Signer → ℕ → WorkerEnvelope → String → String → Result (String × String)
checked_refs k now e dedupe_key payload_ref = do
  verify k now e
  key ← safe_ref dedupe_key
  ref ← safe_ref payload_ref
  ok (key, ref)

abbrev pub enqueue_refs :
    WorkerEnvelope
    → Result (String × String)
    → LocalTenantWorker
    → Result LocalJob × LocalTenantWorker
enqueue_refs e (err x) w = (err x, w)
enqueue_refs e (ok (key, ref)) w =
    enqueue_checked (new_job e key ref) (lookup (e.tenant_id, key) w.dedupe)
      (lookup (nonce_key e) w.nonces) w

unfoldable pub enqueue :
    Signer
    → ℕ
    → WorkerEnvelope
    → String
    → String
    → LocalTenantWorker
    → Result LocalJob × LocalTenantWorker
enqueue k now e dedupe_key payload_ref w =
    enqueue_refs e (checked_refs k now e dedupe_key payload_ref) w

abbrev pub is_settled : JobState → Bool
is_settled ready = true
is_settled stale = true
is_settled dead_letter = true
is_settled pending = false
is_settled failed = false

abbrev pub failed_job : ℕ → LocalJob → LocalJob
failed_job max_attempts j = record j {
  state = if leb max_attempts j.attempts then dead_letter else failed;
  error = some "worker execution failed";
}

-- the job after the handler: `none` is an exception of it
unfoldable pub handled : ℕ → LocalJob → Option JobState → LocalJob
handled max_attempts j (some ready) = record j { state = ready; error = none }
handled max_attempts j (some stale) = record j { state = stale; error = none }
handled max_attempts j (some pending) = failed_job max_attempts j
handled max_attempts j (some failed) = failed_job max_attempts j
handled max_attempts j (some dead_letter) = failed_job max_attempts j
handled max_attempts j none = failed_job max_attempts j

-- the `try` of `run_one`: a rejected envelope does not count as an attempt
unfoldable pub attempt : ℕ → (LocalJob → Option JobState) → Result (Unit {0}) → LocalJob → LocalJob
attempt max_attempts handler (err e) j = failed_job max_attempts j
attempt max_attempts handler (ok _) j =
    let tried = record j { attempts = j.attempts + 1 } in handled max_attempts tried (handler tried)

unfoldable pub run_found :
    Signer
    → ℕ
    → (LocalJob → Option JobState)
    → Uuid
    → Option LocalJob
    → LocalTenantWorker
    → Result LocalJob × LocalTenantWorker
run_found k now handler id none w = (err key_error, w)
run_found k now handler id (some j) w = if is_settled j.state then (ok j, w) else (
  ok (attempt w.max_attempts handler (verify k now j.envelope) j),
  record w { jobs = insert id (attempt w.max_attempts handler (verify k now j.envelope) j) w.jobs },
)

-- The handler leaves the job itself alone.
unfoldable pub run_one :
    Signer
    → ℕ
    → (LocalJob → Option JobState)
    → Uuid
    → LocalTenantWorker
    → Result LocalJob × LocalTenantWorker
run_one k now handler id w = run_found k now handler id (lookup id w.jobs) w

abbrev pub is_failed : JobState → Bool
is_failed failed = true
is_failed _ = false

unfoldable pub retryable_of : List LocalJob → List LocalJob
retryable_of [] = []
retryable_of (j ∷ js) = let rest = retryable_of js in if is_failed j.state then j ∷ rest else rest

unfoldable pub retryable : LocalTenantWorker → List LocalJob
retryable w = retryable_of (values w.jobs)
