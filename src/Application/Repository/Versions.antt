-- ===== src/Application/Repository/Versions.antt =====
-- Every version of a memory can be read back.
use mathlib.Core.List.{Mem}
use umcp.Prelude.{ℕ, nat_eq, string_eq, option_eq, ◌≡◌, some, List}
use umcp.Dict.{lookup}
use umcp.Domain.Values.{Uuid}
use umcp.Domain.Memory.{Memory, MemoryVersion}
use umcp.Application.Store.{InMemoryStore}
use umcp.Application.WellFormed.{WellFormed}

-- `v` reads as the snapshot `u` says, and is otherwise the memory `m`.
pub record ReadsAs (m v : Memory) (u : MemoryVersion) : Type 0 where
  pub version : v.version ≡ u.version
  pub content : v.content ≡ u.content
  pub memory_type : v.memory_type ≡ u.memory_type
  pub state : v.state ≡ u.state
  pub importance : v.importance ≡ u.importance
  pub confidence : v.confidence ≡ u.confidence
  pub space : v.space ≡ u.space
  pub occurred_at : v.occurred_at ≡ u.occurred_at
  pub provenance : v.provenance ≡ u.provenance
  pub updated_at : v.updated_at ≡ u.changed_at
  pub id : v.id ≡ m.id
  pub owner_id : v.owner_id ≡ m.owner_id
  pub tenant_id : v.tenant_id ≡ m.tenant_id
  pub created_at : v.created_at ≡ m.created_at
  pub embedding : v.embedding ≡ m.embedding
  pub idempotency_key : v.idempotency_key ≡ m.idempotency_key
  pub capture_consent : v.capture_consent ≡ m.capture_consent

-- `v` reads as the snapshot of `m` that the store keeps of the version `n`.
abbrev pub Recorded : InMemoryStore → Uuid → ℕ → Memory → Memory → Type 0
Recorded s id n m v =
    (h : List MemoryVersion) × (lookup id s.history_by_memory ≡ some h)
    × ((u : MemoryVersion) × Mem u h × (u.version ≡ n) × (u.memory_id ≡ id) × ReadsAs m v u)
