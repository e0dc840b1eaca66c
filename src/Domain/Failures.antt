-- ===== src/Domain/Failures.antt =====
-- The constructors and the lifecycle of the domain raise deliberate errors only.
use umcp.Prelude.{Option, none, some, String}
use umcp.Score.{ℤ}
use umcp.Domain.Enums.{MemoryState}
use umcp.Domain.Errors.{validation_error, IsExpected, FailsBy, FailsBy-ok, FailsBy-err, fails_rules}
use umcp.Domain.Values.{
  Uuid, Datetime, naive, aware, ensure_aware, validate_owner_id, validate_space,
  validate_idempotency_key, validate_unit_interval, Relation, make_relation, EmbeddingDescriptor,
  make_descriptor,
}
use umcp.Domain.Memory.{Memory, Draft, Changes, make_memory, create, evolve, assert_transition}

pub ensure_aware-FailsBy : (d : Datetime) → FailsBy IsExpected (ensure_aware d)
unfolding ensure_aware
ensure_aware-FailsBy (naive t) = FailsBy-err validation_error tt
ensure_aware-FailsBy (aware t o) = FailsBy-ok _

pub validate_owner_id-FailsBy : (s : String) → FailsBy IsExpected (validate_owner_id s)
unfolding validate_owner_id
validate_owner_id-FailsBy s = search (fails_rules, tt)

validate_space-FailsBy : (s : Option String) → FailsBy IsExpected (validate_space s)
unfolding validate_space
validate_space-FailsBy none = FailsBy-ok none
validate_space-FailsBy (some s) = search (fails_rules, tt)

validate_key-FailsBy : (s : Option String) → FailsBy IsExpected (validate_idempotency_key s)
unfolding validate_idempotency_key
validate_key-FailsBy none = FailsBy-ok none
validate_key-FailsBy (some s) = search (fails_rules, tt)

validate_unit-FailsBy : (x : ℤ) → FailsBy IsExpected (validate_unit_interval x)
unfolding validate_unit_interval
validate_unit-FailsBy x = search (fails_rules, tt)

ruleset value_rules = (
  fails_rules, ensure_aware-FailsBy, validate_owner_id-FailsBy, validate_space-FailsBy,
  validate_key-FailsBy, validate_unit-FailsBy,
)

pub make_memory-FailsBy : (m : Memory) → FailsBy IsExpected (make_memory m)
unfolding make_memory
make_memory-FailsBy m = search value_rules depth 20

assert_transition-FailsBy :
    (s t : MemoryState) (id : Option Uuid) → FailsBy IsExpected (assert_transition s t id)
unfolding assert_transition
assert_transition-FailsBy s t id = search (fails_rules, tt)

pub create-FailsBy : (d : Draft) (id : Uuid) (now : Datetime) → FailsBy IsExpected (create d id now)
unfolding create
create-FailsBy d id now = search (value_rules, make_memory-FailsBy)

pub evolve-FailsBy :
    (m : Memory) (now : Datetime) (c : Changes) → FailsBy IsExpected (evolve m now c)
unfolding evolve
evolve-FailsBy m now c = search (value_rules, make_memory-FailsBy, assert_transition-FailsBy)

pub make_relation-FailsBy : (r : Relation) → FailsBy IsExpected (make_relation r)
unfolding make_relation
make_relation-FailsBy r = search (value_rules, tt)

pub make_descriptor-FailsBy : (d : EmbeddingDescriptor) → FailsBy IsExpected (make_descriptor d)
unfolding make_descriptor
make_descriptor-FailsBy d = search (value_rules, tt)
