-- ===== src/Domain/Memory.antt =====
-- src/omp/domain/memory.py: the memory aggregate, its construction and its lifecycle.
pub mod Lifecycle
pub mod Construction
use umcp.Prelude.{
  ℕ, ◌+◌, String, Eq, nat_eq, ◌==◌, Bool, true, false, ◌&&◌, ◌||◌, not, Option, none, some, List,
  [], ◌∷◌, elem, ltb, if◌then◌else◌,
}
use umcp.Text.{len, is_blank, normalize}
use umcp.Score.{ℤ}
use umcp.Domain.Errors.{
  Error, validation_error, invalid_state_transition, Result, ok, err, ◌>>=◌, ◌>>◌, raise_if, each,
}
use umcp.Domain.Enums.{
  MemoryType, MemoryState, state_eq, candidate, confirmed, pinned, stale, active, superseded,
  contradicted, archived,
}
use umcp.Domain.Values.{
  Uuid, Datetime, before, ensure_aware, validate_owner_id, validate_space, validate_idempotency_key,
  validate_unit_interval, Provenance, CaptureConsent, EmbeddingDescriptor,
}

pub record MemoryVersion : Type 0 where
  pub memory_id : Uuid
  pub version : ℕ
  pub content : String
  pub memory_type : MemoryType
  pub state : MemoryState
  pub importance : ℤ
  pub confidence : ℤ
  pub space : Option String
  pub occurred_at : Option Datetime
  pub provenance : Provenance
  pub changed_at : Datetime
  pub change_reason : String
  pub capture_consent : Option CaptureConsent

pub record Memory : Type 0 where
  pub id : Uuid
  pub owner_id : String
  pub content : String
  pub memory_type : MemoryType
  pub importance : ℤ
  pub confidence : ℤ
  pub state : MemoryState
  pub version : ℕ
  pub created_at : Datetime
  pub updated_at : Datetime
  pub occurred_at : Option Datetime
  pub space : Option String
  pub provenance : Provenance
  pub embedding : Option EmbeddingDescriptor
  pub idempotency_key : Option String
  pub tenant_id : Option String
  pub capture_consent : Option CaptureConsent

abbrev pub max_content_length : ℕ
max_content_length = 100000

-- The constructor with `__post_init__`: only the content is replaced.
unfoldable pub make_memory : Memory → Result Memory
make_memory m = do
  validate_owner_id m.owner_id
  each m.tenant_id validate_owner_id
  raise_if (is_blank m.content) validation_error
  let content = normalize m.content
  raise_if (ltb max_content_length (len content)) validation_error
  validate_unit_interval m.importance
  validate_unit_interval m.confidence
  raise_if (ltb m.version 1) validation_error
  created ← ensure_aware m.created_at
  updated ← ensure_aware m.updated_at
  raise_if (before updated created) validation_error
  each m.occurred_at ensure_aware
  validate_space m.space
  validate_idempotency_key m.idempotency_key
  ok (record m { content = content })

-- The arguments of `Memory.create`.
pub record Draft : Type 0 where
  pub owner_id : String
  pub content : String
  pub memory_type : MemoryType
  pub importance : ℤ
  pub confidence : ℤ
  pub provenance : Provenance
  pub capture_consent : Option CaptureConsent
  pub tenant_id : Option String
  pub space : Option String
  pub occurred_at : Option Datetime
  pub embedding : Option EmbeddingDescriptor
  pub idempotency_key : Option String
  pub initial_state : MemoryState

-- The arguments of the constructor. The identifier stands for `memory_id or uuid4()`, the time for
-- `now` or the clock.
abbrev pub drafted : Draft → Uuid → Datetime → Memory
drafted d id timestamp = record {
  id = id;
  owner_id = d.owner_id;
  content = d.content;
  memory_type = d.memory_type;
  importance = d.importance;
  confidence = d.confidence;
  state = d.initial_state;
  version = 1;
  created_at = timestamp;
  updated_at = timestamp;
  occurred_at = d.occurred_at;
  space = d.space;
  provenance = d.provenance;
  embedding = d.embedding;
  idempotency_key = d.idempotency_key;
  tenant_id = d.tenant_id;
  capture_consent = d.capture_consent;
}

unfoldable pub create : Draft → Uuid → Datetime → Result Memory
create d id now = do timestamp ← ensure_aware now; make_memory (drafted d id timestamp)

unfoldable pub snapshot : Memory → String → MemoryVersion
snapshot m reason = record {
  memory_id = m.id;
  version = m.version;
  content = m.content;
  memory_type = m.memory_type;
  state = m.state;
  importance = m.importance;
  confidence = m.confidence;
  space = m.space;
  occurred_at = m.occurred_at;
  provenance = m.provenance;
  changed_at = m.updated_at;
  change_reason = reason;
  capture_consent = m.capture_consent;
}

-- The table `allowed`.
unfoldable pub allowed : MemoryState → List MemoryState
allowed candidate = confirmed ∷ pinned ∷ []
allowed confirmed = confirmed ∷ pinned ∷ active ∷ stale ∷ superseded ∷ contradicted ∷ archived ∷ []
allowed pinned = pinned ∷ confirmed ∷ active ∷ stale ∷ superseded ∷ contradicted ∷ archived ∷ []
allowed stale = confirmed ∷ pinned ∷ []
allowed active = active ∷ superseded ∷ contradicted ∷ archived ∷ []
allowed contradicted = active ∷ confirmed ∷ []
allowed archived = active ∷ confirmed ∷ []
allowed superseded = []

abbrev is_none {ℓ} : {A : Type ℓ} → Option A → Bool
is_none none = true
is_none (some a) = false

unfoldable pub assert_transition : MemoryState → MemoryState → Option Uuid → Result (Unit {0})
unfolding allowed
assert_transition state target related = if target == state then ok tt else do
  raise_if (not (elem target (allowed state))) invalid_state_transition
  raise_if (elem target (superseded ∷ contradicted ∷ []) && is_none related)
      invalid_state_transition

-- The keyword arguments of `evolve`; `none` is `_UNSET`.
pub record Changes : Type 0 where
  pub content : Option String
  pub memory_type : Option MemoryType
  pub importance : Option ℤ
  pub confidence : Option ℤ
  pub state : Option MemoryState
  pub occurred_at : Option (Option Datetime)
  pub space : Option (Option String)
  pub provenance : Option Provenance
  pub embedding : Option (Option EmbeddingDescriptor)
  pub change_reason : String
  pub related_memory_id : Option Uuid

abbrev pub no_changes : Changes
no_changes = record {
  content = none;
  memory_type = none;
  importance = none;
  confidence = none;
  state = none;
  occurred_at = none;
  space = none;
  provenance = none;
  embedding = none;
  change_reason = "updated";
  related_memory_id = none;
}

-- `old if new is _UNSET else new`
abbrev pub or_old {ℓ} : {A : Type ℓ} → Option A → A → A
or_old none old = old
or_old (some new) old = new

-- the arguments of `replace`
abbrev pub evolved : Memory → Datetime → Changes → Memory
evolved m updated c = record m {
  content = or_old c.content m.content;
  memory_type = or_old c.memory_type m.memory_type;
  importance = or_old c.importance m.importance;
  confidence = or_old c.confidence m.confidence;
  state = or_old c.state m.state;
  occurred_at = or_old c.occurred_at m.occurred_at;
  space = or_old c.space m.space;
  provenance = or_old c.provenance m.provenance;
  embedding = or_old c.embedding m.embedding;
  version = m.version + 1;
  updated_at = updated;
}

unfoldable pub evolve : Memory → Datetime → Changes → Result Memory
evolve m now c = do
  assert_transition m.state (or_old c.state m.state) c.related_memory_id
  raise_if (is_blank c.change_reason) validation_error
  updated ← ensure_aware now
  make_memory (evolved m updated c)
