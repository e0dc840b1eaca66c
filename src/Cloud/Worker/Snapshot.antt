-- ===== src/Cloud/Worker/Snapshot.antt =====
-- `snapshot` and `restore` of LocalTenantWorker: signed metadata of the jobs, across a restart.
pub mod Entries
pub mod Restoring
use umcp.Prelude.{
  ℕ, String, Eq, nat_eq, string_eq, pair_eq, ◌==◌, Bool, true, false, ◌&&◌, ◌||◌, not, Option, none,
  some, List, [], ◌∷◌, ◌++◌, length, if◌then◌else◌,
}
use umcp.Score.{ℤ, pos, negsuc}
use umcp.Dict.{Dict, lookup, insert, values}
use umcp.Domain.Errors.{
  Error, Result, ok, err, key_error, value_error, permission_error, ◌>>=◌, ◌>>◌, raise_if,
}
use umcp.Domain.Values.{Uuid, Datetime}
use umcp.Cloud.Envelope.{Signer, WorkerEnvelope, verify}
use umcp.Cloud.Worker.{
  JobState, pending, ready, stale, failed, dead_letter, job_state_value, LocalJob,
  LocalTenantWorker, TenantKey, safe_ref, job_key, nonce_key, is_failed,
}

-- A value of a snapshot's dict.
pub data Scalar : Type 0 where
  text : String → Scalar
  number : ℤ → Scalar

abbrev pub Item : Type 0
Item = Dict String Scalar

-- What Python's library gives here: `json.dumps` of a dict with sorted keys, `str(int)`, and the
-- parsers `UUID(…)`, `datetime.fromisoformat(…)` and `int(…)`, where `none` is their `ValueError`.
pub record Parsers : Type 0 where
  pub dumps : Item → String
  pub digits : ℤ → String
  pub uuid_of : String → Option Uuid
  pub time_of : String → Option Datetime
  pub int_of : String → Option ℤ

abbrev pub signed_fields : List String
signed_fields =
    "job_id" ∷ "tenant_id" ∷ "principal_id" ∷ "expires_at" ∷ "nonce" ∷ "signature" ∷ "dedupe_key"
    ∷ "payload_ref" ∷ "state" ∷ "attempts" ∷ []

-- `item[key]`
abbrev pub field_or_error : Option Scalar → Result Scalar
field_or_error none = err key_error
field_or_error (some v) = ok v

unfoldable pub field : String → Item → Result Scalar
field name item = field_or_error (lookup name item)

-- `{key: item[key] for key in names}`
unfoldable pub pick : List String → Item → Result Item
pick [] item = ok []
pick (name ∷ names) item = do v ← field name item; rest ← pick names item; ok ((name, v) ∷ rest)

-- the signature that `_snapshot_input` and the secret give
unfoldable pub snapshot_signature : Signer → Parsers → Item → Result String
snapshot_signature k p item = do
  picked ← pick signed_fields item
  ok (k.hmac k.secret (p.dumps picked))

abbrev pub metadata : Signer → LocalJob → Item
metadata k j =
    ("job_id", text (k.uuid_text j.envelope.job_id))
    ∷ ("tenant_id", text (k.uuid_text j.envelope.tenant_id))
    ∷ ("principal_id", text (k.uuid_text j.envelope.principal_id))
    ∷ ("expires_at", text (k.isoformat j.envelope.expires_at))
    ∷ ("nonce", text j.envelope.nonce)
    ∷ ("signature", text j.envelope.signature)
    ∷ ("dedupe_key", text j.dedupe_key)
    ∷ ("payload_ref", text j.payload_ref)
    ∷ ("state", text (job_state_value j.state))
    ∷ ("attempts", number (pos j.attempts))
    ∷ []

-- `item["snapshot_signature"] = …`, after the keys of the metadata
unfoldable pub snapshot_item : Signer → Parsers → LocalJob → Result Item
snapshot_item k p j = do
  signature ← snapshot_signature k p (metadata k j)
  ok (metadata k j ++ (("snapshot_signature", text signature) ∷ []))

unfoldable pub snapshot_each : Signer → Parsers → List LocalJob → Result (List Item)
snapshot_each k p [] = ok []
snapshot_each k p (j ∷ js) = do
  item ← snapshot_item k p j
  items ← snapshot_each k p js
  ok (item ∷ items)

unfoldable pub snapshot : Signer → Parsers → LocalTenantWorker → Result (List Item)
snapshot k p w = snapshot_each k p (values w.jobs)

-- `str(value)`
abbrev pub str : Parsers → Scalar → String
str p (text t) = t
str p (number n) = p.digits n

abbrev pub parsed {ℓ} : {A : Type ℓ} → Option A → Result A
parsed none = err value_error
parsed (some a) = ok a

-- `str(item[name])`
unfoldable pub text_field : Parsers → String → Item → Result String
text_field p name item = do v ← field name item; ok (str p v)

-- `JobState(t)`
unfoldable pub job_state_of : String → Option JobState
job_state_of t =
    if t == "pending"
    then some pending
    else if t == "ready"
    then some ready
    else if t == "stale"
    then some stale
    else if t == "failed"
    then some failed
    else if t == "dead_letter"
    then some dead_letter
    else none

unfoldable pub envelope_of : Parsers → Item → Result WorkerEnvelope
envelope_of p item = do
  job ← text_field p "job_id" item
  job_id ← parsed (p.uuid_of job)
  tenant ← text_field p "tenant_id" item
  tenant_id ← parsed (p.uuid_of tenant)
  principal ← text_field p "principal_id" item
  principal_id ← parsed (p.uuid_of principal)
  expiry ← text_field p "expires_at" item
  expires_at ← parsed (p.time_of expiry)
  nonce ← text_field p "nonce" item
  signature ← text_field p "signature" item
  ok (record {
    job_id = job_id;
    tenant_id = tenant_id;
    principal_id = principal_id;
    expires_at = expires_at;
    nonce = nonce;
    signature = signature;
  })

-- One entry of a snapshot, checked: the job, and its attempts as the snapshot has them.
abbrev pub restored_error : JobState → Option String
restored_error s = if is_failed s then some "worker execution failed" else none

unfoldable pub checked_entry : Signer → Parsers → ℕ → Item → Result (ℤ × (ℕ → LocalJob))
checked_entry k p now item = do
  given ← text_field p "snapshot_signature" item
  expected ← snapshot_signature k p item
  raise_if (not (given == expected)) permission_error
  envelope ← envelope_of p item
  verify k now envelope
  state_text ← text_field p "state" item
  state ← parsed (job_state_of state_text)
  attempts_text ← text_field p "attempts" item
  attempts ← parsed (p.int_of attempts_text)
  key_text ← text_field p "dedupe_key" item
  dedupe_key ← safe_ref key_text
  ref_text ← text_field p "payload_ref" item
  payload_ref ← safe_ref ref_text
  ok (
    attempts,
    λ n. record {
      envelope = envelope;
      dedupe_key = dedupe_key;
      payload_ref = payload_ref;
      state = state;
      attempts = n;
      error = restored_error state;
    },
  )

-- `restored`, `dedupe` and `nonces`
pub record Tables : Type 0 where
  pub jobs : Dict Uuid LocalJob
  pub dedupe : Dict TenantKey Uuid
  pub nonces : Dict TenantKey Uuid

abbrev pub no_tables : Tables
no_tables = record { jobs = []; dedupe = []; nonces = [] }

abbrev pub is_present {ℓ} : {A : Type ℓ} → Option A → Bool
is_present none = false
is_present (some a) = true

abbrev pub is_restorable : JobState → Bool
is_restorable pending = true
is_restorable failed = true
is_restorable ready = false
is_restorable stale = false
is_restorable dead_letter = false

abbrev pub duplicate : LocalJob → Tables → Bool
duplicate j t =
    is_present (lookup j.envelope.job_id t.jobs)
    || is_present (lookup (job_key j) t.dedupe)
    || is_present (lookup (nonce_key j.envelope) t.nonces)

abbrev pub enter : LocalJob → Tables → Tables
enter j t = record {
  jobs = insert j.envelope.job_id j t.jobs;
  dedupe = insert (job_key j) j.envelope.job_id t.dedupe;
  nonces = insert (nonce_key j.envelope) j.envelope.job_id t.nonces;
}

-- `if attempts < 0 or state not in …: continue`, and the entry otherwise
unfoldable pub enter_live : ℤ × (ℕ → LocalJob) → Tables → Result Tables
enter_live (negsuc n, job) t = ok t
enter_live (pos n, job) t =
    if not (is_restorable (job n).state)
    then ok t
    else if duplicate (job n) t
    then err value_error
    else ok (enter (job n) t)

unfoldable pub restore_each : Signer → Parsers → ℕ → List Item → Tables → Result Tables
restore_each k p now [] t = ok t
restore_each k p now (item ∷ items) t = do
  entry ← checked_entry k p now item
  t' ← enter_live entry t
  restore_each k p now items t'

-- Every error of the loop is caught and raised again as a `PermissionError`; the tables are replaced
-- only after the whole snapshot was read.
abbrev pub replace_tables : Result Tables → LocalTenantWorker → Result ℕ × LocalTenantWorker
replace_tables (err e) w = (err permission_error, w)
replace_tables (ok t) w =
    (ok (length t.jobs), record w { jobs = t.jobs; dedupe = t.dedupe; nonces = t.nonces })

unfoldable pub restore :
    Signer → Parsers → ℕ → List Item → LocalTenantWorker → Result ℕ × LocalTenantWorker
restore k p now items w = replace_tables (restore_each k p now items no_tables) w
