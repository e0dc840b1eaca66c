-- ===== src/Application/Services/Updating.antt =====
-- `update` of src/omp/application/services.py.
use umcp.Prelude.{String, string_eq, nat_eq, ◌==◌, Option, none, some, if◌then◌else◌}
use umcp.Text.{truthy}
use umcp.Domain.Errors.{Result, ok, err, validation_error, not_found}
use umcp.Domain.Enums.{MemoryState, superseded, contradicted, RelationType, supersedes, contradicts}
use umcp.Domain.Values.{Uuid, make_relation, make_descriptor, validate_owner_id}
use umcp.Domain.Memory.{Memory, Changes, evolve}
use umcp.Application.Models.{UpdateMemoryCommand, OperationType}
use umcp.Application.Canonical.{canonical_update_command}
use umcp.Application.Exec.{Exec, pure, lift, gets, ◌>>=◌, ◌>>◌, refuse_if, some_or, transaction}
use umcp.Application.Idempotency.{claim, complete}
use umcp.Application.Repository.{get, add_relation}
use umcp.Application.Services.{Env, now, replay_version}
use umcp.Application.Services.Inbox.{current_at, persist}

-- How the update relates the memory to another: at most one of the two identifiers is given.
pub data Link : Type 0 where
  unlinked : Link
  superseding contradicting : Uuid → Link

unfoldable pub link_of : Option Uuid → Option Uuid → Result Link
link_of (some a) (some b) = err validation_error
link_of (some a) none = ok (superseding a)
link_of none (some b) = ok (contradicting b)
link_of none none = ok unlinked

abbrev pub linked_id : Link → Option Uuid
linked_id unlinked = none
linked_id (superseding a) = some a
linked_id (contradicting b) = some b

-- the state that the link imposes, over the one that the command asks for
abbrev pub linked_state : Link → Option MemoryState → Option MemoryState
linked_state unlinked asked = asked
linked_state (superseding a) asked = some superseded
linked_state (contradicting b) asked = some contradicted

unfoldable pub check_related : String → Memory → Option Uuid → Exec (Unit {0})
check_related owner current none = pure tt
check_related owner current (some id) = do
  refuse_if (id == current.id) validation_error
  found ← gets (get owner none id)
  some_or found not_found
  pure tt

-- `if value is not None: kwargs[name] = value`, for a field that may be empty
abbrev pub given {ℓ} : {A : Type ℓ} → Option A → Option (Option A)
given none = none
given (some a) = some (some a)

unfoldable pub update_changes : Env → UpdateMemoryCommand → Link → Exec Changes
update_changes env c link = do
  descriptor ← lift (make_descriptor env.profile)
  pure (record {
    content = c.content;
    memory_type = c.memory_type;
    importance = c.importance;
    confidence = c.confidence;
    state = linked_state link c.state;
    occurred_at = given c.occurred_at;
    space = given c.space;
    provenance = c.provenance;
    embedding = some (some descriptor);
    change_reason = c.change_reason;
    related_memory_id = linked_id link;
  })

-- the relation that records a link
unfoldable pub relate_link : Env → String → Uuid → RelationType → Uuid → Exec (Unit {0})
relate_link env owner id relation_type target = do
  created ← now env 1
  relation ← lift (
      make_relation (record {
        source_id = id;
        target_id = target;
        relation_type = relation_type;
        owner_id = owner;
        created_at = created;
      }))
  add_relation relation
  pure tt

unfoldable pub record_link : Env → String → Uuid → Link → Exec (Unit {0})
record_link env owner id unlinked = pure tt
record_link env owner id (superseding target) = relate_link env owner id supersedes target
record_link env owner id (contradicting target) = relate_link env owner id contradicts target

unfoldable pub update_fresh : Env → UpdateMemoryCommand → Exec Memory
update_fresh env c = do
  current ← current_at c.owner_id none c.memory_id c.expected_version
  timestamp ← now env 0
  link ← lift (link_of c.supersedes_memory_id c.contradicts_memory_id)
  check_related c.owner_id current (linked_id link)
  changes ← update_changes env c link
  updated ← lift (evolve current timestamp changes)
  persisted ← persist env updated c.expected_version c.change_reason
  record_link env c.owner_id persisted.id link
  pure persisted

unfoldable pub update_keyed : Env → UpdateMemoryCommand → String → Exec Memory
update_keyed env c key = do
  held ← claim c.owner_id OperationType.update key (env.digest (canonical_update_command c))
  if held.replay then replay_version c.owner_id none c.memory_id c.expected_version held else (do
    persisted ← update_fresh env c
    complete held (some persisted.id) (some persisted.version) "updated"
    pure persisted)

abbrev pub update_by_key : Env → UpdateMemoryCommand → Option String → Exec Memory
update_by_key env c none = update_fresh env c
update_by_key env c (some key) =
    if truthy (some key) then update_keyed env c key else update_fresh env c

unfoldable pub update : Env → UpdateMemoryCommand → Exec Memory
update env c = do
  lift (validate_owner_id c.owner_id)
  transaction (update_by_key env c c.idempotency_key)
