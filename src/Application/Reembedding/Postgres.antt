-- ===== src/Application/Reembedding/Postgres.antt =====
-- The four methods of PostgresMemoryRepository that the re-embedding job calls, of
-- src/omp/adapters/postgres/repository.py, in a session without a tenant, where `_assert_owner_tenant`
-- gives None and adds no condition. A row of `memories` is the memory that it was written from, which
-- `_memory_from_row` gives back.
pub mod Advancing
use umcp.Prelude.{
  ℕ, String, Eq, nat_eq, string_eq, ◌==◌, ◌+◌, Bool, true, false, ◌&&◌, not, Option, none, some,
  List, [], ◌∷◌, length, take, leb, ltb, if◌then◌else◌,
}
use umcp.Score.{ℤ}
use umcp.Sorting.{sort}
use umcp.Domain.Errors.{Result, ok, err, value_error, runtime_error}
use umcp.Domain.Values.{Uuid, EmbeddingDescriptor}
use umcp.Domain.Memory.{Memory}
use umcp.Application.Reembedding.{Repository}
use umcp.Application.Repository.{filter}

-- a row of `memory_embeddings_semantic`
pub record EmbeddingRow : Type 0 where
  pub memory_id : Uuid
  pub profile_id : String
  pub profile_version : String
  pub source_version : ℕ
  pub dimension : ℕ
  pub metric : String
  pub vector : List ℤ

pub record Database : Type 0 where
  pub memories : List Memory
  pub embeddings : List EmbeddingRow

abbrev dimension_is : ℕ → Option EmbeddingDescriptor → Bool
dimension_is n none = false
dimension_is n (some d) = d.dimension == n

-- `owner_id == owner AND embedding_dimension = 64`
abbrev pub is_eligible : String → Memory → Bool
is_eligible owner m = m.owner_id == owner && dimension_is 64 m.embedding

-- `id > after`, when there is a cursor
abbrev pub is_after : Option Uuid → Memory → Bool
is_after none m = true
is_after (some after) m = ltb after m.id

abbrev pub id_le : Memory → Memory → Bool
id_le a b = leb a.id b.id

abbrev pub selected : String → Option Uuid → Memory → Bool
selected owner after m = is_eligible owner m && is_after after m

unfoldable pub list_for_reembedding : String → Option Uuid → ℕ → Database → Result (List Memory)
list_for_reembedding owner after limit d =
    ok (take limit (sort id_le (filter (selected owner after) d.memories)))

abbrev same_key : EmbeddingRow → EmbeddingRow → Bool
same_key a b =
    a.memory_id == b.memory_id
    && a.profile_id == b.profile_id
    && a.profile_version == b.profile_version

-- `INSERT … ON CONFLICT (memory_id, profile_id, profile_version) DO UPDATE`
unfoldable pub upsert_row : EmbeddingRow → List EmbeddingRow → List EmbeddingRow
upsert_row r [] = r ∷ []
upsert_row r (x ∷ xs) = if same_key x r then r ∷ xs else x ∷ upsert_row r xs

-- whether a row has the identifier and the version
unfoldable pub any_current : Uuid → ℕ → List Memory → Bool
any_current id version [] = false
any_current id version (m ∷ ms) =
    if m.id == id && m.version == version then true else any_current id version ms

unfoldable pub upsert_embedding_profile :
    EmbeddingDescriptor → Uuid → ℕ → List ℤ → Database → Result Bool × Database
upsert_embedding_profile profile id version vector d =
    if not (profile.dimension == 384)
    then (err value_error, d)
    else if not (any_current id version d.memories)
    then (ok false, d)
    else (
      ok true,
      record d {
        embeddings =
            upsert_row
              (record {
                memory_id = id;
                profile_id = profile.profile_id;
                profile_version = profile.profile_version;
                source_version = version;
                dimension = profile.dimension;
                metric = profile.metric;
                vector = vector;
              })
              d.embeddings;
      },
    )

-- the rows of the join for one memory
abbrev covers : EmbeddingDescriptor → Memory → EmbeddingRow → Bool
covers profile m r =
    r.memory_id == m.id
    && r.profile_id == profile.profile_id
    && r.profile_version == profile.profile_version
    && r.source_version == m.version

unfoldable pub count_rows : (EmbeddingRow → Bool) → List EmbeddingRow → ℕ
count_rows p [] = 0
count_rows p (r ∷ rs) = let rest = count_rows p rs in if p r then rest + 1 else rest

unfoldable pub count_covered : EmbeddingDescriptor → List Memory → List EmbeddingRow → ℕ
count_covered profile [] rs = 0
count_covered profile (m ∷ ms) rs = count_rows (covers profile m) rs + count_covered profile ms rs

unfoldable pub semantic_coverage : String → EmbeddingDescriptor → Database → Result (ℕ × ℕ)
semantic_coverage owner profile d =
    let eligible = filter (is_eligible owner) d.memories in
    ok (length eligible, count_covered profile eligible d.embeddings)

-- `UPDATE memories SET embedding_… WHERE …`
unfoldable pub switch_rows : String → EmbeddingDescriptor → List Memory → List Memory
switch_rows owner profile [] = []
switch_rows owner profile (m ∷ ms) =
    let rest = switch_rows owner profile ms in
    if is_eligible owner m then record m { embedding = some profile } ∷ rest else m ∷ rest

unfoldable pub cutover_embedding_profile :
    String → EmbeddingDescriptor → Database → Result ℕ × Database
cutover_embedding_profile owner profile d =
    let eligible = filter (is_eligible owner) d.memories in
    if not (length eligible == count_covered profile eligible d.embeddings)
    then (err runtime_error, d)
    else (ok (length eligible), record d { memories = switch_rows owner profile d.memories })

-- the repository of an owner and a provider
abbrev pub postgres :
    String → EmbeddingDescriptor → (String → Result (List ℤ)) → Repository Database
postgres owner profile embed = record {
  list_for_reembedding = list_for_reembedding owner;
  upsert_embedding_profile = upsert_embedding_profile profile;
  cutover_embedding_profile = cutover_embedding_profile owner profile;
  semantic_coverage = semantic_coverage owner profile;
  embed = embed;
  profile = profile;
}
