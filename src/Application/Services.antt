-- ===== src/Application/Services.antt =====
-- src/omp/application/services.py, MemoryApplicationService: what the service is built from, and the
-- steps that its methods share.
pub mod Writing
pub mod Inbox
pub mod Updating
pub mod Finding
pub mod Request
pub mod Repeating
pub mod Conflicting
pub mod Steps
pub mod Keeping
use umcp.Prelude.{
  ℕ, String, Eq, nat_eq, string_eq, ◌==◌, ◌≡◌, Bool, true, false, ◌&&◌, ◌||◌, not, Option, none,
  some, List, [], ◌∷◌, elem, length, if◌then◌else◌,
}
use umcp.Text.{is_blank}
use umcp.Score.{ℤ}
use umcp.Domain.Errors.{
  Error, Result, ok, err, validation_error, scope_denied, connection_revoked, not_found,
  provider_error,
}
use umcp.Domain.Values.{
  Uuid, Datetime, EmbeddingDescriptor, make_descriptor, validate_owner_id, ensure_aware,
}
use umcp.Domain.Memory.{Memory}
use umcp.Application.Models.{Vector, Scopes, OperationType, IdempotencyClaim}
use umcp.Application.Canonical.{Json}
use umcp.Application.Store.{InMemoryStore}
use umcp.Application.Exec.{Exec, pure, raise, lift, gets, reads, ◌>>=◌, ◌>>◌, refuse_if, some_or}
use umcp.Application.Idempotency.{claim}
use umcp.Application.Repository.{get, get_version}

-- What one call of the service takes from outside: the embedding provider (`none` is an exception
-- of the provider), the readings of the clock in the order of the calls, the next `uuid4()`, the
-- digest of `_digest` (SHA-256 of the JSON text with sorted keys), and the similarity of two vectors,
-- `(cosine_similarity(a, b) + 1) / 2`.
pub record Env : Type 0 where
  pub profile : EmbeddingDescriptor
  pub profile_valid : make_descriptor profile ≡ ok profile
  pub embed : String → Bool → Option Vector
  pub clock : ℕ → Datetime
  pub new_id : Uuid
  pub digest : Json → String
  pub similarity : Vector → Vector → ℤ

-- `self._embedding_provider.embed(text, query=…)` and `_validate_vector`; components are numbers by
-- their type.
unfoldable pub embed_checked : Env → String → Bool → Exec Vector
embed_checked env content query = do
  vector ← some_or (env.embed content query) provider_error
  refuse_if (not (length vector == env.profile.dimension)) validation_error
  pure vector

-- `ensure_aware(self._clock(), "now")`, the n-th reading
unfoldable pub now : Env → ℕ → Exec Datetime
now env n = lift (ensure_aware (env.clock n))

unfoldable pub validate_scope : Scopes → String → Exec (Unit {0})
validate_scope scopes required = refuse_if (not (elem required scopes)) scope_denied

unfoldable pub validate_scope_value : String → Exec (Unit {0})
validate_scope_value value = refuse_if (is_blank value) validation_error

unfoldable pub validate_mutation_scope : String → String → Bool → Exec (Unit {0})
validate_mutation_scope tenant owner revoked = do
  validate_scope_value tenant
  lift (validate_owner_id owner)
  refuse_if revoked connection_revoked

abbrev pub or_else {ℓ} : {A : Type ℓ} → Option A → A → A
or_else none d = d
or_else (some a) d = a

-- `claim.result_version or command.expected_version`: a zero is false
abbrev pub version_or : Option ℕ → ℕ → ℕ
version_or none d = d
version_or (some n) d = if n == 0 then d else n

-- the answer to a replayed claim
unfoldable pub replay_version : String → Option String → Uuid → ℕ → IdempotencyClaim → Exec Memory
replay_version owner tenant id expected c = do
  found ←
      gets
        (get_version owner tenant (or_else c.memory_id id) (version_or c.result_version expected))
  some_or found not_found
