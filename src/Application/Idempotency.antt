-- ===== src/Application/Idempotency.antt =====
-- src/omp/application/fakes.py, InMemoryIdempotencyRepository.
pub mod Settling
use umcp.Prelude.{
  ℕ, String, Eq, nat_eq, string_eq, pair_eq, ◌==◌, Bool, true, false, not, Option, none, some,
  if◌then◌else◌,
}
use umcp.Dict.{lookup, insert}
use umcp.Domain.Errors.{Error, Result, ok, err, idempotency_conflict, idempotency_in_progress}
use umcp.Domain.Values.{Uuid}
use umcp.Application.Models.{OperationType, operation_index, IdempotencyClaim}
use umcp.Application.Store.{
  InMemoryStore, StoredOperation, OperationStatus, in_progress, completed, OperationKey,
}
use umcp.Application.Exec.{Exec}

abbrev pub is_completed : OperationStatus → Bool
is_completed in_progress = false
is_completed completed = true

abbrev pub operation_key : String → OperationType → String → OperationKey
operation_key owner op key = (owner, (operation_index op, key))

abbrev pub new_claim : String → OperationType → String → String → IdempotencyClaim
new_claim owner op key fingerprint = record {
  owner_id = owner;
  operation_type = op;
  idempotency_key = key;
  fingerprint = fingerprint;
  replay = false;
  memory_id = none;
  result_version = none;
  result_status = none;
}

abbrev pub new_operation : String → StoredOperation
new_operation fingerprint = record {
  fingerprint = fingerprint;
  status = in_progress;
  memory_id = none;
  result_version = none;
  result_status = none;
}

-- the claim of a key that an operation already holds
unfoldable pub claim_prior :
    String → OperationType → String → String → Option StoredOperation → Exec IdempotencyClaim
claim_prior owner op key fingerprint none s = (
  ok (new_claim owner op key fingerprint),
  record s {
    idempotency_operations =
        insert (operation_key owner op key) (new_operation fingerprint) s.idempotency_operations;
  },
)
claim_prior owner op key fingerprint (some prior) s =
    if not (prior.fingerprint == fingerprint)
    then (err idempotency_conflict, s)
    else if not (is_completed prior.status)
    then (err idempotency_in_progress, s)
    else (
      ok (record (new_claim owner op key fingerprint) {
        replay = true;
        memory_id = prior.memory_id;
        result_version = prior.result_version;
        result_status = prior.result_status;
      }),
      s,
    )

unfoldable pub claim : String → OperationType → String → String → Exec IdempotencyClaim
unfolding claim_prior
claim owner op key fingerprint s =
    claim_prior owner op key fingerprint
      (lookup (operation_key owner op key) s.idempotency_operations) s

unfoldable pub complete_prior :
    IdempotencyClaim → Option Uuid → Option ℕ → String → Option StoredOperation → Exec (Unit {0})
complete_prior c memory_id version status none s = (err idempotency_conflict, s)
complete_prior c memory_id version status (some operation) s =
    if not (operation.fingerprint == c.fingerprint)
    then (err idempotency_conflict, s)
    else if is_completed operation.status
    then (ok tt, s)
    else (
      ok tt,
      record s {
        idempotency_operations =
            insert (operation_key c.owner_id c.operation_type c.idempotency_key)
              (record operation {
                status = completed;
                memory_id = memory_id;
                result_version = version;
                result_status = some status;
              })
              s.idempotency_operations;
      },
    )

unfoldable pub complete : IdempotencyClaim → Option Uuid → Option ℕ → String → Exec (Unit {0})
unfolding complete_prior
complete c memory_id version status s =
    complete_prior c memory_id version status
      (lookup (operation_key c.owner_id c.operation_type c.idempotency_key)
        s.idempotency_operations)
      s
