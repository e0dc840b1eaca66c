-- ===== src/Application/Store.antt =====
-- src/omp/application/fakes.py: the state of the in-memory adapter. Values are immutable in the
-- model, so `deepcopy` is the identity. The two locks make transactions and repository calls run one
-- after the other, and so have no state here.
use umcp.Prelude.{ℕ, String, nat_eq, string_eq, pair_eq, Option, List, []}
use umcp.Dict.{Dict}
use umcp.Domain.Values.{Uuid, Relation}
use umcp.Domain.Enums.{relation_type_index}
use umcp.Domain.Memory.{Memory, MemoryVersion}
use umcp.Application.Models.{Vector}

pub data OperationStatus : Type 0 where
  in_progress completed : OperationStatus

pub record StoredOperation : Type 0 where
  pub fingerprint : String
  pub status : OperationStatus
  pub memory_id : Option Uuid
  pub result_version : Option ℕ
  pub result_status : Option String

-- (owner, idempotency key)
abbrev pub WriteKey : Type 0
WriteKey = String × String

-- (owner, (operation, idempotency key)); operations are keyed by their position
abbrev pub OperationKey : Type 0
OperationKey = String × (ℕ × String)

-- (owner, (source, (target, relation type)))
abbrev pub RelationKey : Type 0
RelationKey = String × (Uuid × (Uuid × ℕ))

-- (owner, (tenant, memory))
abbrev pub Tombstone : Type 0
Tombstone = String × (Option String × Uuid)

pub record InMemoryStore : Type 0 where
  pub memories : Dict Uuid Memory
  pub vectors : Dict Uuid Vector
  pub fingerprints : Dict WriteKey String
  pub history_by_memory : Dict Uuid (List MemoryVersion)
  pub relations : Dict RelationKey Relation
  pub idempotency_operations : Dict OperationKey StoredOperation
  pub tombstones : List Tombstone

abbrev pub empty_store : InMemoryStore
empty_store = record {
  memories = [];
  vectors = [];
  fingerprints = [];
  history_by_memory = [];
  relations = [];
  idempotency_operations = [];
  tombstones = [];
}

abbrev pub relation_key : Relation → RelationKey
relation_key r = (r.owner_id, (r.source_id, (r.target_id, relation_type_index r.relation_type)))
