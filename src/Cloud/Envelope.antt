-- ===== src/Cloud/Envelope.antt =====
-- WorkerEnvelope of src/omp/cloud/security.py: a signed, expiring order to work for one tenant.
use umcp.Prelude.{ℕ, String, string_eq, ◌==◌, Bool, true, false, ◌||◌, not, List, [], ◌∷◌, ltb, leb}
use umcp.Text.{len, is_empty, append}
use umcp.Domain.Errors.{Result, permission_error, raise_if}
use umcp.Domain.Values.{Uuid, Datetime, naive, aware, instant}

-- What Python's library gives: `hmac.new(secret, message, sha256).hexdigest()`, `str(uuid)` and
-- `datetime.isoformat()`.
pub record Signer : Type 0 where
  pub secret : String
  pub hmac : String → String → String
  pub uuid_text : Uuid → String
  pub isoformat : Datetime → String

pub record WorkerEnvelope : Type 0 where
  pub job_id : Uuid
  pub tenant_id : Uuid
  pub principal_id : Uuid
  pub expires_at : Datetime
  pub nonce : String
  pub signature : String

-- `"|".join(fields)`
unfoldable pub join_bars : List String → String
join_bars [] = ""
join_bars (f ∷ []) = f
join_bars (f ∷ (g ∷ fs)) = append f (append "|" (join_bars (g ∷ fs)))

unfoldable pub signing_input : Signer → WorkerEnvelope → String
signing_input k e = join_bars (
    "umcp.job.v1"
    ∷ k.uuid_text e.job_id
    ∷ k.uuid_text e.tenant_id
    ∷ k.uuid_text e.principal_id
    ∷ k.isoformat e.expires_at
    ∷ e.nonce
    ∷ [])

unfoldable pub sign : Signer → WorkerEnvelope → WorkerEnvelope
sign k e =
    let unsigned = record e { signature = "" } in
    record unsigned { signature = k.hmac k.secret (signing_input k unsigned) }

abbrev pub is_naive : Datetime → Bool
is_naive (naive t) = true
is_naive (aware t offset) = false

-- `now` is the instant of the call.
unfoldable pub rejects : Signer → ℕ → WorkerEnvelope → Bool
rejects k now e =
    is_naive e.expires_at
    || is_empty e.nonce
    || ltb 256 (len e.nonce)
    || leb (instant e.expires_at) now
    || not (k.hmac k.secret (signing_input k e) == e.signature)

unfoldable pub verify : Signer → ℕ → WorkerEnvelope → Result (Unit {0})
verify k now e = raise_if (rejects k now e) permission_error
