-- ===== src/Application/Models.antt =====
-- src/omp/application/models.py and the value types of src/omp/application/ports.py.
use umcp.Prelude.{
  ℕ, String, nat_eq, string_eq, option_eq, ◌==◌, Bool, true, false, ◌&&◌, Option, none, some, List,
  elem, if◌then◌else◌,
}
use umcp.Score.{ℤ}
use umcp.Domain.Enums.{MemoryType, MemoryState}
use umcp.Domain.Values.{
  Uuid, Datetime, Provenance, CaptureConsent, EmbeddingDescriptor, descriptor_eq,
}
use umcp.Domain.Memory.{Memory}

-- A frozenset is a list that only membership tests read.
abbrev pub Scopes : Type 0
Scopes = List String

abbrev pub Vector : Type 0
Vector = List ℤ

pub record WriteMemoryCommand : Type 0 where
  pub owner_id : String
  pub content : String
  pub memory_type : MemoryType
  pub provenance : Provenance
  pub importance : ℤ
  pub confidence : ℤ
  pub space : Option String
  pub occurred_at : Option Datetime
  pub idempotency_key : Option String
  pub tenant_id : Option String

-- `WriteMemoryResult`, `CaptureMemoryResult` and `CreateMemoryResult`
pub record WriteMemoryResult : Type 0 where
  pub memory : Memory
  pub created : Bool

pub record UpdateMemoryCommand : Type 0 where
  pub owner_id : String
  pub memory_id : Uuid
  pub expected_version : ℕ
  pub content : Option String
  pub memory_type : Option MemoryType
  pub importance : Option ℤ
  pub confidence : Option ℤ
  pub state : Option MemoryState
  pub occurred_at : Option Datetime
  pub space : Option String
  pub provenance : Option Provenance
  pub supersedes_memory_id : Option Uuid
  pub contradicts_memory_id : Option Uuid
  pub change_reason : String
  pub idempotency_key : Option String

pub record ForgetMemoryCommand : Type 0 where
  pub owner_id : String
  pub memory_id : Uuid
  pub idempotency_key : Option String
  pub reason_code : String
  pub tenant_id : Option String

-- `ForgetMemoryResult` and `DiscardResult`
pub record ForgetMemoryResult : Type 0 where
  pub memory_id : Uuid
  pub forgotten : Bool

pub record SpacePolicy : Type 0 where
  pub default_recall : String
  pub allowed_spaces : List String
  pub allow_global : Bool
  pub allow_mental_notes_cross_space : Bool

-- `space in self.allowed_spaces`, for a space that may be absent
abbrev listed : Option String → List String → Bool
listed none spaces = false
listed (some s) spaces = elem s spaces

abbrev absent : Option String → Bool
absent none = true
absent (some s) = false

unfoldable pub allows : SpacePolicy → Option String → Option String → Bool
allows p space context_space =
    if space == context_space
    then true
    else if absent space && p.allow_global
    then true
    else p.default_recall == "explicit_allowlist" && listed space p.allowed_spaces

pub record CaptureMemoryCommand : Type 0 where
  pub tenant_id : String
  pub owner_id : String
  pub connection_id : String
  pub content : String
  pub memory_type : MemoryType
  pub space : Option String
  pub provenance : Provenance
  pub consent : CaptureConsent
  pub idempotency_key : String
  pub importance : ℤ
  pub confidence : ℤ
  pub capture_policy : String
  pub connection_revoked : Bool
  pub scopes : Scopes

pub record ListInboxCommand : Type 0 where
  pub tenant_id : String
  pub owner_id : String
  pub connection_id : String
  pub space : Option String
  pub limit : ℕ
  pub cursor : Option String
  pub connection_revoked : Bool
  pub scopes : Scopes

-- The cursor is the text of a number in the source.
pub record InboxResult : Type 0 where
  pub candidates : List Memory
  pub next_cursor : Option ℕ

pub record ConfirmCandidateCommand : Type 0 where
  pub tenant_id : String
  pub owner_id : String
  pub connection_id : String
  pub memory_id : Uuid
  pub expected_version : ℕ
  pub idempotency_key : String
  pub content : Option String
  pub memory_type : Option MemoryType
  pub space : Option String
  pub actor_reason : String
  pub connection_revoked : Bool
  pub scopes : Scopes

pub record PinMemoryCommand : Type 0 where
  pub tenant_id : String
  pub owner_id : String
  pub connection_id : String
  pub memory_id : Uuid
  pub expected_version : ℕ
  pub pinned : Bool
  pub idempotency_key : String
  pub connection_revoked : Bool
  pub scopes : Scopes

pub record DiscardCandidateCommand : Type 0 where
  pub tenant_id : String
  pub owner_id : String
  pub connection_id : String
  pub memory_id : Uuid
  pub expected_version : ℕ
  pub idempotency_key : String
  pub reason_code : String
  pub connection_revoked : Bool
  pub scopes : Scopes

pub record RecallMemoryCommand : Type 0 where
  pub tenant_id : String
  pub owner_id : String
  pub connection_id : String
  pub query : String
  pub context_space : Option String
  pub include_spaces : List (Option String)
  pub memory_types : Option (List MemoryType)
  pub states : List MemoryState
  pub allow_mental_notes : Bool
  pub limit : ℕ
  pub candidate_limit : ℕ
  pub threshold : ℤ
  pub space_policy : SpacePolicy
  pub connection_revoked : Bool
  pub scopes : Scopes

pub record SearchFilters : Type 0 where
  pub states : List MemoryState
  pub memory_types : Option (List MemoryType)
  pub space : Option String
  pub min_importance : Option ℤ
  pub min_confidence : Option ℤ

pub record SearchMemoryCommand : Type 0 where
  pub owner_id : String
  pub query : String
  pub filters : SearchFilters
  pub limit : ℕ
  pub candidate_limit : ℕ
  pub threshold : ℤ

-- `reason_retrieved` is a text for people and is left out.
pub record SearchMemoryItem : Type 0 where
  pub memory : Memory
  pub score : ℤ
  pub similarity : ℤ
  pub profile_id : String
  pub profile_version : String

-- `SearchMemoryResult`, and `RecallResult` less its count, which is the length of the items
pub record SearchMemoryResult : Type 0 where
  pub items : List SearchMemoryItem
  pub profile_id : String
  pub profile_version : String

pub record RelateMemoriesCommand : Type 0 where
  pub owner_id : String
  pub source_memory_id : Uuid
  pub target_memory_id : Uuid
  pub relation_type : String

-- ports.py
pub record MemorySearchCandidate : Type 0 where
  pub memory : Memory
  pub similarity : ℤ
  pub profile : EmbeddingDescriptor

pub record IdempotencyLookup : Type 0 where
  pub memory : Memory
  pub fingerprint : String

pub data OperationType : Type 0 where
  update forget confirm pin discard : OperationType

abbrev pub operation_index : OperationType → ℕ
operation_index update = 0
operation_index forget = 1
operation_index confirm = 2
operation_index pin = 3
operation_index discard = 4

pub record IdempotencyClaim : Type 0 where
  pub owner_id : String
  pub operation_type : OperationType
  pub idempotency_key : String
  pub fingerprint : String
  pub replay : Bool
  pub memory_id : Option Uuid
  pub result_version : Option ℕ
  pub result_status : Option String
