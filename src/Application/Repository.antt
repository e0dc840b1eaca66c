-- ===== src/Application/Repository.antt =====
-- src/omp/application/fakes.py, InMemoryMemoryRepository.
pub mod Forgetting
pub mod Versions
pub mod Candidates
pub mod Concurrency
use umcp.Prelude.{
  ℕ, String, Eq, nat_eq, string_eq, option_eq, pair_eq, ◌==◌, Bool, true, false, ◌&&◌, ◌||◌, not,
  Option, none, some, List, [], ◌∷◌, ◌++◌, elem, take, if◌then◌else◌, ltb, leb,
}
use umcp.Text.{truthy}
use umcp.Score.{ℤ, leb_ℤ, ltb_ℤ, int_eq}
use umcp.Dict.{Dict, lookup, insert, erase, find, select, values}
use umcp.Sorting.{sort}
use umcp.Domain.Errors.{
  Error, Result, ok, err, not_found, version_conflict, idempotency_conflict, relation_conflict,
  key_error, stop_iteration,
}
use umcp.Domain.Enums.{MemoryType, MemoryState, state_eq, type_eq, candidate}
use umcp.Domain.Values.{Uuid, EmbeddingDescriptor, descriptor_eq, Relation, instant}
use umcp.Domain.Memory.{Memory, MemoryVersion, snapshot}
use umcp.Application.Models.{
  Vector, WriteMemoryResult, IdempotencyLookup, SearchFilters, MemorySearchCandidate,
}
use umcp.Application.Store.{InMemoryStore, WriteKey, relation_key}
use umcp.Application.Exec.{Exec}

-- `tenant_id is None or memory.tenant_id == tenant_id`
abbrev pub tenant_matches : Option String → Memory → Bool
tenant_matches none m = true
tenant_matches (some t) m = m.tenant_id == some t

abbrev pub visible : String → Option String → Memory → Bool
visible owner tenant m = m.owner_id == owner && tenant_matches tenant m

unfoldable pub get : String → Option String → Uuid → InMemoryStore → Option Memory
get owner tenant id s = elim (lookup id s.memories) [
  | none ↦ none
  | some m ↦ if visible owner tenant m then some m else none
]

-- `self._store.history_by_memory.get(memory_id, [])`
abbrev pub history_of : Uuid → InMemoryStore → List MemoryVersion
history_of id s = elim (lookup id s.history_by_memory) [ none ↦ [] | some h ↦ h ]

-- `replace(current, content=snapshot.content, …)`
abbrev pub restored : Memory → MemoryVersion → Memory
restored m v = record m {
  content = v.content;
  memory_type = v.memory_type;
  importance = v.importance;
  confidence = v.confidence;
  state = v.state;
  version = v.version;
  updated_at = v.changed_at;
  occurred_at = v.occurred_at;
  space = v.space;
  provenance = v.provenance;
}

unfoldable pub find_version : ℕ → List MemoryVersion → Option MemoryVersion
find_version n [] = none
find_version n (v ∷ vs) = if v.version == n then some v else find_version n vs

abbrev pub restored? : Memory → Option MemoryVersion → Option Memory
restored? m none = none
restored? m (some v) = some (restored m v)

abbrev pub version_of : Uuid → ℕ → InMemoryStore → Option Memory → Option Memory
version_of id n s none = none
version_of id n s (some m) =
    if m.version == n then some m else restored? m (find_version n (history_of id s))

unfoldable pub get_version : String → Option String → Uuid → ℕ → InMemoryStore → Option Memory
get_version owner tenant id n s = version_of id n s (get owner tenant id s)

-- the memory that holds an owner's idempotency key
abbrev pub holds_key : String → String → Memory → Bool
holds_key owner key m = m.owner_id == owner && m.idempotency_key == some key

-- `next(…)` without a default raises when no memory holds the key.
unfoldable pub find_by_idempotency_key :
    String → String → InMemoryStore → Result (Option IdempotencyLookup)
find_by_idempotency_key owner key s = elim (lookup (owner, key) s.fingerprints) [
  | none ↦ ok none
  | some fp ↦ elim (find (holds_key owner key) s.memories) [
    | none ↦ err stop_iteration
    | some m ↦ ok (some (record { memory = m; fingerprint = fp }))
  ]
]

abbrev pub store_memory : Memory → Vector → List MemoryVersion → InMemoryStore → InMemoryStore
store_memory m v h s = record s {
  memories = insert m.id m s.memories;
  vectors = insert m.id v s.vectors;
  history_by_memory = insert m.id h s.history_by_memory;
}

unfoldable pub add_memory : Memory → Vector → Exec WriteMemoryResult
add_memory m v s =
    (ok (record { memory = m; created = true }), store_memory m v (snapshot m "created" ∷ []) s)

unfoldable pub create_keyed :
    Memory → String → Vector → String → Option String → Exec WriteMemoryResult
unfolding add_memory
create_keyed m fp v key none s =
    add_memory m v (record s { fingerprints = insert (m.owner_id, key) fp s.fingerprints })
create_keyed m fp v key (some prior) s =
    if not (prior == fp)
    then (err idempotency_conflict, s)
    else elim (find (holds_key m.owner_id key) s.memories) [
      | none ↦ (err stop_iteration, s)
      | some found ↦ (ok (record { memory = found; created = false }), s)
    ]

unfoldable pub create_with_key : Memory → String → Vector → Option String → Exec WriteMemoryResult
unfolding create_keyed add_memory
create_with_key m fp v none s = add_memory m v s
create_with_key m fp v (some key) s =
    if truthy (some key)
    then create_keyed m fp v key (lookup (m.owner_id, key) s.fingerprints) s
    else add_memory m v s

unfoldable pub create : Memory → String → Vector → Exec WriteMemoryResult
unfolding create_with_key
create m fp v = create_with_key m fp v m.idempotency_key

unfoldable pub update_known : Memory → ℕ → MemoryVersion → Vector → Option Memory → Exec Memory
update_known m expected v vector none s = (err not_found, s)
update_known m expected v vector (some current) s =
    if not (current.owner_id == m.owner_id)
    then (err not_found, s)
    else if not (current.version == expected)
    then (err version_conflict, s)
    else elim (lookup m.id s.history_by_memory) [
      | none ↦ (err key_error, s)
      | some h ↦ (ok m, store_memory m vector (h ++ v ∷ []) s)
    ]

unfoldable pub update : Memory → ℕ → MemoryVersion → Vector → Exec Memory
unfolding update_known
update m expected v vector s = update_known m expected v vector (lookup m.id s.memories) s

-- the tests of `search_candidates` on one memory, each a `continue` when it fails
abbrev at_least : Option ℤ → ℤ → Bool
at_least none x = true
at_least (some bound) x = leb_ℤ bound x

abbrev type_allowed : Option (List MemoryType) → MemoryType → Bool
type_allowed none t = true
type_allowed (some []) t = true
type_allowed (some (u ∷ us)) t = elem t (u ∷ us)

abbrev space_allowed : Option String → Memory → Bool
space_allowed none m = true
space_allowed (some sp) m = m.space == some sp

unfoldable pub matches :
    String → Option String → EmbeddingDescriptor → SearchFilters → Memory → Bool
matches owner tenant profile filters m =
    visible owner tenant m
    && elem m.state filters.states
    && type_allowed filters.memory_types m.memory_type
    && space_allowed filters.space m
    && at_least filters.min_importance m.importance
    && at_least filters.min_confidence m.confidence
    && m.embedding == some profile

-- `self._store.vectors[memory_id]` raises when the vector is missing.
unfoldable pub collect :
    (Vector → ℤ)
    → (Memory → Bool)
    → EmbeddingDescriptor
    → Dict Uuid Memory
    → Dict Uuid Vector
    → Result (List MemorySearchCandidate)
collect similarity test profile [] vectors = ok []
collect similarity test profile ((id, m) ∷ rest) vectors =
    let others = collect similarity test profile rest vectors in
    if test m
    then elim (lookup id vectors) [
      | none ↦ err key_error
      | some v ↦ elim others [
        | err e ↦ err e
        | ok cs ↦ ok (record { memory = m; similarity = similarity v; profile = profile } ∷ cs)
      ]
    ]
    else others

-- `(-candidate.similarity, str(candidate.memory.id))`
abbrev pub candidate_le : MemorySearchCandidate → MemorySearchCandidate → Bool
candidate_le a b =
    ltb_ℤ b.similarity a.similarity || (a.similarity == b.similarity && leb a.memory.id b.memory.id)

abbrev first_candidates :
    ℕ → Result (List MemorySearchCandidate) → Result (List MemorySearchCandidate)
first_candidates limit (err e) = err e
first_candidates limit (ok cs) = ok (take limit (sort candidate_le cs))

-- `similarity` stands for `(cosine_similarity(query_embedding, ·) + 1) / 2`.
unfoldable pub search_candidates :
    String
    → Option String
    → (Vector → ℤ)
    → EmbeddingDescriptor
    → SearchFilters
    → ℕ
    → InMemoryStore
    → Result (List MemorySearchCandidate)
unfolding matches collect
search_candidates owner tenant similarity profile filters limit s =
    first_candidates limit
      (collect similarity (matches owner tenant profile filters) profile s.memories s.vectors)

-- the key of a forgotten memory is free again: `if memory.idempotency_key: … .pop(…)`
abbrev pub released : String → Option String → Dict WriteKey String → Dict WriteKey String
released owner none fps = fps
released owner (some key) fps = if truthy (some key) then erase (owner, key) fps else fps

abbrev pub apart_from : Uuid → Relation → Bool
apart_from id r = not (r.source_id == id) && not (r.target_id == id)

abbrev pub without_memory : Memory → Uuid → InMemoryStore → InMemoryStore
without_memory m id s = record s {
  memories = erase id s.memories;
  vectors = erase id s.vectors;
  history_by_memory = erase id s.history_by_memory;
  fingerprints = released m.owner_id m.idempotency_key s.fingerprints;
  relations = select (apart_from id) s.relations;
  tombstones = (m.owner_id, (m.tenant_id, id)) ∷ s.tombstones;
}

unfoldable pub forget_known : String → Option String → Uuid → Option Memory → Exec Bool
forget_known owner tenant id none s = (ok false, s)
forget_known owner tenant id (some m) s =
    if visible owner tenant m then (ok true, without_memory m id s) else (ok false, s)

unfoldable pub forget : String → Option String → Uuid → Exec Bool
unfolding forget_known
forget owner tenant id s = forget_known owner tenant id (lookup id s.memories) s

-- `(item.created_at, str(item.id))`
abbrev pub older : Memory → Memory → Bool
older a b =
    ltb (instant a.created_at) (instant b.created_at)
    || (instant a.created_at == instant b.created_at && leb a.id b.id)

unfoldable pub filter : (Memory → Bool) → List Memory → List Memory
filter p [] = []
filter p (m ∷ ms) = let rest = filter p ms in if p m then m ∷ rest else rest

abbrev pub in_inbox : String → Option String → Option String → Memory → Bool
in_inbox owner tenant space m =
    visible owner tenant m && m.state == candidate && space_allowed space m

unfoldable pub list_candidates :
    String → Option String → Option String → ℕ → InMemoryStore → List Memory
unfolding filter
list_candidates owner tenant space limit s =
    take limit (sort older (filter (in_inbox owner tenant space) (values s.memories)))

unfoldable pub relate_known :
    Relation → Option Memory → Option Memory → Option Relation → Exec Relation
relate_known r none target known s = (err not_found, s)
relate_known r (some source) none known s = (err not_found, s)
relate_known r (some source) (some target) (some known) s = (err relation_conflict, s)
relate_known r (some source) (some target) none s =
    (ok r, record s { relations = insert (relation_key r) r s.relations })

unfoldable pub add_relation : Relation → Exec Relation
unfolding relate_known get
add_relation r s =
    relate_known r (get r.owner_id none r.source_id s) (get r.owner_id none r.target_id s)
      (lookup (relation_key r) s.relations) s

abbrev pub touches : String → Uuid → Relation → Bool
touches owner id r = r.owner_id == owner && (r.source_id == id || r.target_id == id)

unfoldable pub list_relations : String → Uuid → InMemoryStore → List Relation
list_relations owner id s = values (select (touches owner id) s.relations)

unfoldable pub history : String → Uuid → InMemoryStore → Result (List MemoryVersion)
unfolding get
history owner id s = elim (get owner none id s) [
  | none ↦ err not_found
  | some m ↦ ok (history_of id s)
]
