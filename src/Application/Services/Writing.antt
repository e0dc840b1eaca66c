-- ===== src/Application/Services/Writing.antt =====
-- `write`, `capture`, `forget` and `relate` of src/omp/application/services.py.
use umcp.Prelude.{
  String, string_eq, nat_eq, ◌==◌, Bool, false, ◌&&◌, not, Option, none, some, [], ◌∷◌, elem,
  if◌then◌else◌,
}
use umcp.Text.{truthy}
use umcp.Domain.Errors.{
  validation_error, not_found, idempotency_conflict, connection_revoked, capture_disabled,
  consent_required,
}
use umcp.Domain.Enums.{
  RelationType, supports, contradicts, derived_from, related_to, supersedes, applies_to, automatic,
  consent_mode_eq, consent_reason_value, active, candidate,
}
use umcp.Domain.Values.{Datetime, Relation, make_relation, make_descriptor, validate_owner_id}
use umcp.Domain.Memory.{Memory}
use umcp.Domain.Memory
use umcp.Application.Models.{
  WriteMemoryCommand, WriteMemoryResult, CaptureMemoryCommand, ForgetMemoryCommand,
  ForgetMemoryResult, RelateMemoriesCommand, OperationType, IdempotencyLookup,
}
use umcp.Application.Canonical.{
  canonical_write_command, canonical_capture_command, canonical_forget_command,
}
use umcp.Application.Exec.{
  Exec, pure, lift, gets, reads, ◌>>=◌, ◌>>◌, refuse_if, some_or, transaction,
}
use umcp.Application.Idempotency.{claim, complete}
use umcp.Application.Repository
use umcp.Application.Repository.{get, find_by_idempotency_key, add_relation}
use umcp.Application.Services.{Env, embed_checked, now, validate_scope, validate_scope_value}

-- the answer when the key was used before
abbrev pub replay_write : String → IdempotencyLookup → Exec WriteMemoryResult
replay_write fingerprint prior = do
  refuse_if (not (prior.fingerprint == fingerprint)) idempotency_conflict
  pure (record { memory = prior.memory; created = false })

-- embedding, construction and insertion of a new memory
unfoldable pub store_new : Env → String → Memory.Draft → Exec Datetime → Exec WriteMemoryResult
store_new env fingerprint draft stamp = do
  vector ← embed_checked env draft.content false
  descriptor ← lift (make_descriptor env.profile)
  timestamp ← stamp
  memory ← lift (Memory.create (record draft { embedding = some descriptor }) env.new_id timestamp)
  Repository.create memory fingerprint vector

abbrev pub write_draft : WriteMemoryCommand → Memory.Draft
write_draft c = record {
  owner_id = c.owner_id;
  content = c.content;
  memory_type = c.memory_type;
  importance = c.importance;
  confidence = c.confidence;
  provenance = c.provenance;
  capture_consent = none;
  tenant_id = c.tenant_id;
  space = c.space;
  occurred_at = c.occurred_at;
  embedding = none;
  idempotency_key = c.idempotency_key;
  initial_state = active;
}

abbrev pub prior_or :
    Exec WriteMemoryResult → String → Option IdempotencyLookup → Exec WriteMemoryResult
prior_or fresh fingerprint none = fresh
prior_or fresh fingerprint (some prior) = replay_write fingerprint prior

-- `if command.idempotency_key:`
abbrev pub write_keyed :
    String → String → Exec WriteMemoryResult → Option String → Exec WriteMemoryResult
write_keyed owner fingerprint fresh none = fresh
write_keyed owner fingerprint fresh (some key) =
    if truthy (some key)
    then (do prior ← reads (find_by_idempotency_key owner key); prior_or fresh fingerprint prior)
    else fresh

unfoldable pub write : Env → WriteMemoryCommand → Exec WriteMemoryResult
write env c = do
  lift (validate_owner_id c.owner_id)
  timestamp ← now env 0
  let fingerprint = env.digest (canonical_write_command c)
  let fresh = store_new env fingerprint (write_draft c) (pure timestamp)
  transaction (write_keyed c.owner_id fingerprint fresh c.idempotency_key)

abbrev pub capture_draft : CaptureMemoryCommand → Memory.Draft
capture_draft c = record {
  owner_id = c.owner_id;
  content = c.content;
  memory_type = c.memory_type;
  importance = c.importance;
  confidence = c.confidence;
  provenance = c.provenance;
  capture_consent = some c.consent;
  tenant_id = some c.tenant_id;
  space = c.space;
  occurred_at = none;
  embedding = none;
  idempotency_key = some c.idempotency_key;
  initial_state = candidate;
}

-- the guards of `capture`, in their order
unfoldable pub capture_guards : CaptureMemoryCommand → Exec (Unit {0})
capture_guards c = do
  validate_scope c.scopes "memory:write"
  validate_scope_value c.tenant_id
  validate_scope_value c.connection_id
  lift (validate_owner_id c.owner_id)
  refuse_if c.connection_revoked connection_revoked
  refuse_if (c.capture_policy == "disabled") capture_disabled
  refuse_if (not (elem c.capture_policy ("manual" ∷ "assisted" ∷ "automatic" ∷ [])))
      validation_error
  refuse_if
      (c.capture_policy == "manual"
        && not (
            elem (consent_reason_value c.consent.reason_code)
              ("user_requested_memory" ∷ "user_confirmed_inbox" ∷ [])))
      consent_required
  refuse_if (c.capture_policy == "automatic" && not (c.consent.mode == automatic)) consent_required
  refuse_if (not (truthy c.provenance.source_client)) validation_error

unfoldable pub capture : Env → CaptureMemoryCommand → Exec WriteMemoryResult
capture env c = do
  capture_guards c
  let fingerprint = env.digest (canonical_capture_command c)
  transaction (do
    prior ← reads (find_by_idempotency_key c.owner_id c.idempotency_key)
    prior_or (store_new env fingerprint (capture_draft c) (now env 0)) fingerprint prior)

abbrev pub forgotten_status : Bool → String
forgotten_status b = if b then "forgotten" else "already_absent"

unfoldable pub forget_keyed : Env → ForgetMemoryCommand → String → Exec ForgetMemoryResult
forget_keyed env c key = do
  held ← claim c.owner_id OperationType.forget key (env.digest (canonical_forget_command c))
  if held.replay then pure (record { memory_id = c.memory_id; forgotten = false }) else do
    forgotten ← Repository.forget c.owner_id c.tenant_id c.memory_id
    complete held (some c.memory_id) none (forgotten_status forgotten)
    pure (record { memory_id = c.memory_id; forgotten = forgotten })

unfoldable pub forget_plain : ForgetMemoryCommand → Exec ForgetMemoryResult
forget_plain c = do
  forgotten ← Repository.forget c.owner_id c.tenant_id c.memory_id
  pure (record { memory_id = c.memory_id; forgotten = forgotten })

abbrev pub forget_by_key : Env → ForgetMemoryCommand → Option String → Exec ForgetMemoryResult
forget_by_key env c none = forget_plain c
forget_by_key env c (some key) =
    if truthy (some key) then forget_keyed env c key else forget_plain c

unfoldable pub forget : Env → ForgetMemoryCommand → Exec ForgetMemoryResult
forget env c = do
  lift (validate_owner_id c.owner_id)
  transaction (forget_by_key env c c.idempotency_key)

-- `RelationType(text)`
unfoldable pub relation_type_of_text : String → Option RelationType
relation_type_of_text t =
    if t == "supports"
    then some supports
    else if t == "contradicts"
    then some contradicts
    else if t == "derived_from"
    then some derived_from
    else if t == "related_to"
    then some related_to
    else if t == "supersedes"
    then some supersedes
    else if t == "applies_to"
    then some applies_to
    else none

unfoldable pub relate : Env → RelateMemoriesCommand → Exec Relation
relate env c = do
  lift (validate_owner_id c.owner_id)
  relation_type ← some_or (relation_type_of_text c.relation_type) validation_error
  refuse_if (c.source_memory_id == c.target_memory_id) validation_error
  transaction (do
    source? ← gets (get c.owner_id none c.source_memory_id)
    target? ← gets (get c.owner_id none c.target_memory_id)
    source ← some_or source? not_found
    target ← some_or target? not_found
    created ← now env 0
    relation ← lift (
        make_relation (record {
          source_id = source.id;
          target_id = target.id;
          relation_type = relation_type;
          owner_id = c.owner_id;
          created_at = created;
        }))
    add_relation relation)
