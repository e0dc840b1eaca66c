-- ===== src/Application/WellFormed.antt =====
-- The invariant of the in-memory store: what holds between its seven tables.
pub mod Replacing
pub mod Adding
pub mod Removing
pub mod Reading
use umcp.Prelude.{
  ℕ, ◌+◌, String, nat_eq, string_eq, option_eq, pair_eq, ◌≡◌, refl, ◌≢◌, false, Option, some, none,
  List, [], ◌∷◌, ◌++◌, elem, arith,
}
use umcp.Dict.{Dict, lookup}
use umcp.Dict.Entries.{Every, Distinct}
use umcp.Domain.Errors.{ok}
use umcp.Domain.Values.{Uuid, Relation}
use umcp.Domain.Memory.{Memory, MemoryVersion, make_memory}
use umcp.Application.Store.{
  InMemoryStore, RelationKey, OperationKey, StoredOperation, relation_key, empty_store,
}

-- The snapshots `h` are those of the memory `id`, numbered from `k` to `n` without a gap.
abbrev pub Chain : Uuid → ℕ → ℕ → List MemoryVersion → Type 0
Chain id k n [] = k ≡ n + 1
Chain id k n (v ∷ vs) = (v.version ≡ k) × (v.memory_id ≡ id) × Chain id (k + 1) n vs

-- The dict holds `m` under `id`, and `m` belongs to `owner` and carries `key`.
abbrev pub Holder : Dict Uuid Memory → Uuid → String → String → Type 0
Holder memories id owner key =
    (m : Memory) × (lookup id memories ≡ some m)
    × (m.owner_id ≡ owner)
    × (m.idempotency_key ≡ some key)

-- A memory of `owner` stands under `id`.
abbrev pub Owned : Dict Uuid Memory → Uuid → String → Type 0
Owned memories id owner = (m : Memory) × (lookup id memories ≡ some m) × (m.owner_id ≡ owner)

-- A stored relation stands under its key, and both its ends are memories of its owner.
abbrev pub Linked : Dict Uuid Memory → RelationKey → Relation → Type 0
Linked memories k r =
    (k ≡ relation_key r)
    × Owned memories r.source_id r.owner_id
    × Owned memories r.target_id r.owner_id

pub record WellFormed (s : InMemoryStore) : Type 0 where
  pub distinct : Distinct s.memories
  pub keyed : (id : Uuid) (m : Memory) → lookup id s.memories ≡ some m → m.id ≡ id
  pub valid : (id : Uuid) (m : Memory) → lookup id s.memories ≡ some m → make_memory m ≡ ok m
  pub vectored :
      (id : Uuid) (m : Memory) → lookup id s.memories ≡ some m → lookup id s.vectors ≢ none
  pub recorded :
      (id : Uuid) (m : Memory)
      → lookup id s.memories ≡ some m
      → (h : List MemoryVersion) × (lookup id s.history_by_memory ≡ some h) × Chain id 1 m.version h
  pub claimed :
      (id : Uuid) (m : Memory) (key : String)
      → lookup id s.memories ≡ some m
      → m.idempotency_key ≡ some key
      → lookup (m.owner_id, key) s.fingerprints ≢ none
  pub held :
      (owner key fp : String)
      → lookup (owner, key) s.fingerprints ≡ some fp
      → (id : Uuid) × Holder s.memories id owner key
  pub unique :
      (i j : Uuid) (owner key : String)
      → Holder s.memories i owner key
      → Holder s.memories j owner key
      → i ≡ j
  pub related : Every (Linked s.memories) s.relations
  pub buried :
      (id : Uuid) (m : Memory)
      → lookup id s.memories ≡ some m
      → elem (m.owner_id, (m.tenant_id, id)) s.tombstones ≡ false

pub empty-WellFormed : WellFormed empty_store
unfolding lookup
empty-WellFormed = record {
  distinct = tt;
  keyed = λ id m h. cc;
  valid = λ id m h. cc;
  vectored = λ id m h. cc;
  recorded = λ id m h. cc;
  claimed = λ id m key h. cc;
  held = λ owner key fp h. cc;
  unique = λ i j owner key h. cc;
  related = tt;
  buried = λ id m h. cc;
}

pub Chain-append :
    (id : Uuid) (k n : ℕ) (h : List MemoryVersion) (v : MemoryVersion)
    → Chain id k n h
    → v.version ≡ n + 1
    → v.memory_id ≡ id
    → Chain id k (n + 1) (h ++ v ∷ [])
Chain-append id k n [] v c e i = ground arith
Chain-append id k n (u ∷ h) v c e i = (c.0, c.1, Chain-append id (k + 1) n h v c.2 e i)

-- The tables of relations and of operations, replaced.
pub with_relations-WellFormed :
    (s : InMemoryStore) (relations : Dict RelationKey Relation)
    (operations : Dict OperationKey StoredOperation)
    → WellFormed s
    → Every (Linked s.memories) relations
    → WellFormed (record s { relations = relations; idempotency_operations = operations })
with_relations-WellFormed s relations operations w linked = record {
  distinct = w.distinct;
  keyed = w.keyed;
  valid = w.valid;
  vectored = w.vectored;
  recorded = w.recorded;
  claimed = w.claimed;
  held = w.held;
  unique = w.unique;
  related = linked;
  buried = w.buried;
}

pub with_operations-WellFormed :
    (s : InMemoryStore) (operations : Dict OperationKey StoredOperation)
    → WellFormed s
    → WellFormed (record s { idempotency_operations = operations })
with_operations-WellFormed s operations w =
    with_relations-WellFormed s s.relations operations w w.related
