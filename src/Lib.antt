-- ===== src/Lib.antt =====
-- The memory core of the Open Memory Protocol server, modelled from its sources and verified.
--
-- The program stores a user's memories for AI clients. An adapter (MCP, HTTP, command line) turns a
-- call into a command; the application service checks scopes, validates, embeds the text with an
-- external provider, and reads and writes memories through a unit of work over a repository and a
-- table of idempotent operations. Memories have a version, a lifecycle and a history of snapshots.
--
-- Which file models what:
--   * Prelude, Dict, Text, Score, Sorting: what the sources use of Python: equality, `dict` in
--     insertion order, `str.strip` and `str.split`, floats, `sorted`.
--   * Domain.Errors: src/omp/domain/errors.py. Domain.Enums and Domain.Values:
--     src/omp/domain/types.py. Domain.Memory: src/omp/domain/memory.py (`Memory.__post_init__` is
--     `make_memory`, `_assert_transition` is `assert_transition`). Domain.Failures: which errors these
--     raise.
--   * Application.Models: src/omp/application/models.py and the value types of
--     src/omp/application/ports.py.
--   * Application.Store, Repository and Idempotency: src/omp/application/fakes.py, the in-memory
--     adapter that is the reference of the ports. Its three classes are a record of seven tables and
--     functions on it. Exec is a coroutine on that store that may raise; `transaction` is the unit of
--     work, which puts its snapshot back when its block raises.
--   * Application.Canonical: the values that src/omp/application/services.py digests.
--   * Application.Services (Writing, Inbox, Updating, Finding): `MemoryApplicationService` of that
--     file, one function for each method, split where the source branches on a key or on a claim.
--   * Application.Services.Request: the methods as one handler, and the stores that requests reach.
--   * Application.Transfer: the export of records, and the validation of records that are imported, of
--     src/omp/application/services.py and src/omp/application/fakes.py.
--   * Application.WellFormed and Idempotency.Settling: the invariant of the store.
--   * Application.Services.Keeping: every method keeps the invariant; one rule for each step in Steps.
--   * Cloud.Envelope and Cloud.Cipher: src/omp/cloud/security.py: the signed envelopes of jobs, the key
--     services and the encryption of a field under a key of its own (`TenantEnvelopeEncryptor`).
--   * Cloud.Worker: `LocalTenantWorker` of src/omp/cloud/worker.py, three tables and the functions
--     `enqueue`, `run_one` and `retryable`; Cloud.Worker.Snapshot: its `snapshot` and `restore`.
--   * Cloud.EncryptedMemory (Writing, Reading, Vectors, Deleting, Restoring, Rewrapping):
--     src/omp/cloud/encrypted_memory.py, a record of its six attributes and one function for each method.
--     Cloud.EncryptedMemory.Steps: its calls as a step relation.
--   * Cloud.Reembedding: `reembed_memory` of src/omp/cloud/worker.py, the handler that a worker runs on the
--     store of Cloud.EncryptedMemory.
--   * Cloud.Recovery: src/omp/cloud/recovery.py, the backup of such a store and its restore into a fresh one.
--   * Cloud.Access: `Scope` and `Principal` of src/omp/cloud/security.py. Cloud.Admin: `LocalMailboxAuth`
--     of src/omp/cloud/admin.py, one function for each method; its calls as a step relation in Steps; the
--     routes of agents' credentials and their verifier in Credentials.
--   * Application.Reembedding: src/omp/application/reembedding.py, over a record of the operations of the
--     repository that it calls. Its child Postgres: the four methods of `PostgresMemoryRepository` in
--     src/omp/adapters/postgres/repository.py that fill the record, for a session without a tenant, as
--     functions on the rows of two tables.
--   * Tests: concrete runs, and each theorem applied to concrete values.
--
-- Conventions. Strings are native strings. A UUID is a number, whose order is that of its text. A
-- float is an integer in millionths, and sums of them are exact, rounded half to even where the
-- source rounds; a similarity has at most six places, so that `round(similarity, 6)` is the identity.
-- A datetime is naive, or an instant with an offset; `ensure_aware` leaves out the OverflowError that
-- `astimezone` raises at the ends of the range. A frozenset is a list that only membership tests
-- read. Integers that the source checks from below are natural numbers. Messages of errors and
-- `reason_retrieved` are left out, and `isinstance` checks hold by typing. `deepcopy` is the identity,
-- as values are immutable. The locks of the adapter make transactions run one after the other, so
-- requests are a sequence. The loop of the re-embedding job runs on fuel: one batch more than there are
-- memories left after its cursor is enough. All other recursion is on lists and strings.
--
-- What is a parameter: the embedding provider, the clock, `uuid4`, the SHA-256 digest and the cosine
-- similarity are fields of `Env`. Of them only this is assumed: the profile of the provider is a
-- valid descriptor, and where a theorem says so, the next identifier is fresh.
--
-- In the hosted service these are parameters: AES-GCM, HMAC, UTF-8, JSON, base64, UUID and time parsers,
-- and what `os.urandom`, `uuid4` and the clock give. A theorem names what it needs of them: that the
-- parsers read back what was printed, that AES-GCM opens what it sealed and nothing that was sealed with
-- other authenticated bytes, that drawn bytes have the length asked for, and that drawn identifiers are
-- unused. `hmac.compare_digest` is equality of texts. A JSON value of a wrong shape in a backup is the
-- error that its check raises, before the tenant and the identifier of its record are checked. Runs of one job do not overlap, and a handler leaves the job itself alone;
-- what other calls do to the store while a text is embedded is an arbitrary function.
--
-- What is not modelled: the import of records past its validation, the
-- development tokens, connections and tenant context of the hosted service, the MCP adapter, the rest of the PostgreSQL adapter, the server, the SDK, the command line, the evaluation harness and the web
-- application.
pub mod Prelude
pub mod Dict
pub mod Text
pub mod Score
pub mod Sorting
pub mod Domain
pub mod Application
pub mod Cloud
pub mod Tests
