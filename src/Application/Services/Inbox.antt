-- ===== src/Application/Services/Inbox.antt =====
-- `list_inbox`, `confirm_candidate`, `pin` and `discard_candidate` of
-- src/omp/application/services.py.
use umcp.Prelude.{
  ℕ, ◌+◌, String, string_eq, nat_eq, ◌==◌, Bool, false, ◌||◌, not, Option, none, some, List, [],
  ◌∷◌, elem, length, take, ltb, if◌then◌else◌,
}
use umcp.Domain.Errors.{
  validation_error, not_found, version_conflict, connection_revoked, invalid_state_transition,
}
use umcp.Domain.Enums.{MemoryState, candidate, stale, confirmed, pinned, state_eq, state_value}
use umcp.Domain.Values.{make_descriptor, validate_owner_id}
use umcp.Domain.Memory.{Memory, Changes, no_changes, evolve, snapshot}
use umcp.Application.Models.{
  ListInboxCommand, InboxResult, ConfirmCandidateCommand, PinMemoryCommand, DiscardCandidateCommand,
  ForgetMemoryResult, OperationType, IdempotencyClaim,
}
use umcp.Application.Canonical.{
  canonical_confirm_command, canonical_pin_command, canonical_discard_command,
}
use umcp.Application.Exec.{Exec, pure, lift, gets, ◌>>=◌, ◌>>◌, refuse_if, some_or, transaction}
use umcp.Application.Idempotency.{claim, complete}
use umcp.Application.Repository
use umcp.Application.Repository.{get, list_candidates}
use umcp.Application.Services.{
  Env, embed_checked, now, validate_scope, validate_scope_value, validate_mutation_scope,
  replay_version,
}
use umcp.Application.Services.Writing.{forgotten_status}

abbrev pub inbox_page : ℕ → List Memory → InboxResult
inbox_page limit found = record {
  candidates = take limit found;
  next_cursor = if ltb limit (length found) then some limit else none;
}

unfoldable pub list_inbox : Env → ListInboxCommand → Exec InboxResult
list_inbox env c = do
  validate_scope c.scopes "memory:read"
  validate_scope_value c.tenant_id
  lift (validate_owner_id c.owner_id)
  refuse_if c.connection_revoked connection_revoked
  refuse_if (ltb c.limit 1 || ltb 100 c.limit) validation_error
  transaction (do
    found ← gets (list_candidates c.owner_id (some c.tenant_id) c.space (c.limit + 1))
    pure (inbox_page c.limit found))

-- the memory that a mutation starts from, at the version that the caller saw
unfoldable pub current_at : String → Option String → ℕ → ℕ → Exec Memory
current_at owner tenant id expected = do
  found ← gets (get owner tenant id)
  current ← some_or found not_found
  refuse_if (not (current.version == expected)) version_conflict
  pure current

-- embedding, snapshot and write of an evolved memory, which completes the claim
unfoldable pub persist : Env → Memory → ℕ → String → Exec Memory
persist env updated expected reason = do
  vector ← embed_checked env updated.content false
  Repository.update updated expected (snapshot updated reason) vector

unfoldable pub confirm_changes : Env → ConfirmCandidateCommand → Exec Changes
confirm_changes env c = do
  descriptor ← lift (make_descriptor env.profile)
  pure (record no_changes {
    state = some confirmed;
    change_reason = c.actor_reason;
    embedding = some (some descriptor);
    content = c.content;
    memory_type = c.memory_type;
    space = elim c.space [ none ↦ none | some s ↦ some (some s) ];
  })

unfoldable pub confirm_fresh : Env → ConfirmCandidateCommand → IdempotencyClaim → Exec Memory
confirm_fresh env c held = do
  current ← current_at c.owner_id (some c.tenant_id) c.memory_id c.expected_version
  refuse_if (not (elem current.state (candidate ∷ stale ∷ []))) invalid_state_transition
  timestamp ← now env 0
  changes ← confirm_changes env c
  updated ← lift (evolve current timestamp changes)
  persisted ← persist env updated c.expected_version c.actor_reason
  complete held (some persisted.id) (some persisted.version) "confirmed"
  pure persisted

unfoldable pub confirm_candidate : Env → ConfirmCandidateCommand → Exec Memory
confirm_candidate env c = do
  validate_scope c.scopes "memory:write"
  validate_mutation_scope c.tenant_id c.owner_id c.connection_revoked
  let fingerprint = env.digest (canonical_confirm_command c)
  transaction (do
    held ← claim c.owner_id OperationType.confirm c.idempotency_key fingerprint
    if held.replay
        then replay_version c.owner_id (some c.tenant_id) c.memory_id c.expected_version held
        else confirm_fresh env c held)

abbrev pub pin_target : Bool → MemoryState
pin_target p = if p then pinned else confirmed

unfoldable pub pin_changed : Env → PinMemoryCommand → IdempotencyClaim → Memory → Exec Memory
pin_changed env c held current = do
  timestamp ← now env 0
  updated ← lift (
      evolve current timestamp (record no_changes {
        state = some (pin_target c.pinned);
        change_reason = if c.pinned then "pinned" else "unpinned";
      }))
  persisted ← persist env updated current.version (state_value updated.state)
  complete held (some persisted.id) (some persisted.version) (state_value (pin_target c.pinned))
  pure persisted

unfoldable pub pin_fresh : Env → PinMemoryCommand → IdempotencyClaim → Exec Memory
pin_fresh env c held = do
  current ← current_at c.owner_id (some c.tenant_id) c.memory_id c.expected_version
  refuse_if (not (elem current.state (confirmed ∷ pinned ∷ []))) invalid_state_transition
  if current.state == pin_target c.pinned
      then (do
        complete held (some current.id) (some current.version) (state_value (pin_target c.pinned))
        pure current)
      else pin_changed env c held current

unfoldable pub pin : Env → PinMemoryCommand → Exec Memory
pin env c = do
  validate_scope c.scopes "memory:write"
  validate_mutation_scope c.tenant_id c.owner_id c.connection_revoked
  let fingerprint = env.digest (canonical_pin_command c)
  transaction (do
    held ← claim c.owner_id OperationType.pin c.idempotency_key fingerprint
    if held.replay
        then replay_version c.owner_id (some c.tenant_id) c.memory_id c.expected_version held
        else pin_fresh env c held)

-- `claim.result_status == "forgotten"`
abbrev pub was_forgotten : Option String → Bool
was_forgotten none = false
was_forgotten (some t) = t == "forgotten"

unfoldable pub discard_fresh : DiscardCandidateCommand → IdempotencyClaim → Exec ForgetMemoryResult
discard_fresh c held = do
  current ← current_at c.owner_id (some c.tenant_id) c.memory_id c.expected_version
  refuse_if (not (current.state == candidate)) invalid_state_transition
  forgotten ← Repository.forget c.owner_id (some c.tenant_id) c.memory_id
  complete held (some c.memory_id) none (forgotten_status forgotten)
  pure (record { memory_id = c.memory_id; forgotten = forgotten })

unfoldable pub discard_candidate : Env → DiscardCandidateCommand → Exec ForgetMemoryResult
discard_candidate env c = do
  validate_scope c.scopes "memory:delete"
  validate_mutation_scope c.tenant_id c.owner_id c.connection_revoked
  let fingerprint = env.digest (canonical_discard_command c)
  transaction (do
    held ← claim c.owner_id OperationType.discard c.idempotency_key fingerprint
    if held.replay
        then pure (record { memory_id = c.memory_id; forgotten = was_forgotten held.result_status })
        else discard_fresh c held)
