-- ===== src/Application/Services/Finding.antt =====
-- `search` and `recall` of src/omp/application/services.py.
pub mod Order
pub mod Ranking
pub mod Policy
pub mod Spaceless
use umcp.Prelude.{
  ℕ, ◌+◌, String, Eq, string_eq, nat_eq, option_eq, ◌==◌, Bool, true, false, ◌&&◌, ◌||◌, not,
  Option, none, some, List, [], ◌∷◌, ◌++◌, elem, length, take, ltb, leb, if◌then◌else◌,
}
use umcp.Text.{is_blank}
use umcp.Score.{ℤ, pos, one, clamp, round6, weigh, leb_ℤ, ltb_ℤ, int_eq}
use umcp.Sorting.{sort}
use umcp.Domain.Errors.{
  Error, Result, ok, err, validation_error, connection_revoked, space_forbidden,
  embedding_profile_mismatch,
}
use umcp.Domain.Enums.{
  MemoryState, MemoryType, mental_note, active, confirmed, pinned, state_eq, type_eq,
}
use umcp.Domain.Values.{Uuid, EmbeddingDescriptor, descriptor_eq, validate_owner_id}
use umcp.Domain.Memory.{Memory}
use umcp.Application.Models.{
  Vector, SearchMemoryCommand, SearchFilters, SearchMemoryItem, SearchMemoryResult,
  MemorySearchCandidate, RecallMemoryCommand, SpacePolicy, allows,
}
use umcp.Application.Exec.{
  Exec, pure, raise, lift, gets, reads, ◌>>=◌, ◌>>◌, refuse_if, some_or, transaction,
}
use umcp.Application.Repository.{search_candidates}
use umcp.Application.Services.{Env, embed_checked, validate_scope, validate_scope_value}

-- A similarity has at most six places, so that `round(similarity, 6)` is the identity.
unfoldable pub item_of : Env → MemorySearchCandidate → SearchMemoryItem
item_of env c =
    let similarity = clamp c.similarity in
    record {
      memory = c.memory;
      score = round6 (weigh similarity c.memory.importance c.memory.confidence);
      similarity = similarity;
      profile_id = env.profile.profile_id;
      profile_version = env.profile.profile_version;
    }

-- `(-item.score, -item.similarity, str(item.memory.id))`
abbrev pub item_le : SearchMemoryItem → SearchMemoryItem → Bool
item_le a b =
    ltb_ℤ b.score a.score
    || (a.score == b.score
        && (ltb_ℤ b.similarity a.similarity
            || (a.similarity == b.similarity && leb a.memory.id b.memory.id)))

abbrev pub consed :
    SearchMemoryItem → Result (List SearchMemoryItem) → Result (List SearchMemoryItem)
consed i (err e) = err e
consed i (ok is) = ok (i ∷ is)

-- the loop of `search` over the candidates
unfoldable pub rank : Env → ℤ → List MemorySearchCandidate → Result (List SearchMemoryItem)
rank env threshold [] = ok []
rank env threshold (c ∷ cs) =
    let rest = rank env threshold cs in
    if not (c.profile == env.profile)
    then err embedding_profile_mismatch
    else if ltb_ℤ (clamp c.similarity) threshold
    then rest
    else consed (item_of env c) rest

abbrev pub page : Env → ℕ → List SearchMemoryItem → SearchMemoryResult
page env limit ranked = record {
  items = take limit (sort item_le ranked);
  profile_id = env.profile.profile_id;
  profile_version = env.profile.profile_version;
}

-- v0's active alias: active stands for confirmed and pinned too
abbrev pub widen_states : List MemoryState → List MemoryState
widen_states states = if elem active states then confirmed ∷ pinned ∷ states else states

unfoldable pub search : Env → SearchMemoryCommand → Exec SearchMemoryResult
search env c = do
  lift (validate_owner_id c.owner_id)
  refuse_if (is_blank c.query) validation_error
  refuse_if (ltb c.limit 1 || ltb 100 c.limit) validation_error
  refuse_if (ltb c.candidate_limit 1 || ltb 500 c.candidate_limit) validation_error
  refuse_if (not (leb_ℤ (pos 0) c.threshold && leb_ℤ c.threshold one)) validation_error
  query_vector ← embed_checked env c.query true
  let filters = record c.filters { states = widen_states c.filters.states }
  candidates ← transaction (
      reads (
        search_candidates c.owner_id none (env.similarity query_vector) env.profile filters
          c.candidate_limit))
  ranked ← lift (rank env c.threshold candidates)
  pure (page env c.limit ranked)

abbrev pub drop_absent : List (Option String) → List (Option String)
drop_absent [] = []
drop_absent (none ∷ spaces) = drop_absent spaces
drop_absent (some s ∷ spaces) = some s ∷ drop_absent spaces

abbrev pub or_default {ℓ} : {A : Type ℓ} → List A → A → List A
or_default [] d = d ∷ []
or_default (x ∷ xs) d = x ∷ xs

-- the spaces that `recall` searches: those asked for or the context's, without `None` unless nothing
-- else is left
unfoldable pub requested_spaces : List (Option String) → Option String → List (Option String)
requested_spaces include context =
    let asked = or_default include context in
    if elem none asked then or_default (drop_absent asked) none else asked

unfoldable pub all_allowed : SpacePolicy → Option String → List (Option String) → Bool
all_allowed policy context [] = true
all_allowed policy context (space ∷ spaces) =
    let rest = all_allowed policy context spaces in
    if space == context || allows policy space context then rest else false

abbrev pub recall_filters : RecallMemoryCommand → Option String → SearchFilters
recall_filters c space = record {
  states = c.states;
  memory_types = c.memory_types;
  space = space;
  min_importance = none;
  min_confidence = none;
}

-- the loop over the requested spaces
unfoldable pub recall_candidates :
    Env → RecallMemoryCommand → Vector → List (Option String) → Exec (List MemorySearchCandidate)
recall_candidates env c query [] = pure []
recall_candidates env c query (space ∷ spaces) = do
  found ← reads (
      search_candidates c.owner_id (some c.tenant_id) (env.similarity query) env.profile
        (recall_filters c space) c.candidate_limit)
  more ← recall_candidates env c query spaces
  pure (found ++ more)

abbrev pub hidden_note : RecallMemoryCommand → Memory → Bool
hidden_note c m = m.memory_type == mental_note && not c.allow_mental_notes

-- the loop over the candidates, with the identifiers seen so far
unfoldable pub rank_unseen :
    Env → RecallMemoryCommand → List Uuid → List MemorySearchCandidate → List SearchMemoryItem
rank_unseen env c seen [] = []
rank_unseen env c seen (x ∷ xs) =
    let skipped = rank_unseen env c seen xs in
    let rest = rank_unseen env c (x.memory.id ∷ seen) xs in
    if elem x.memory.id seen || hidden_note c x.memory
    then skipped
    else if ltb_ℤ (clamp x.similarity) c.threshold
    then rest
    else item_of env x ∷ rest

unfoldable pub recall : Env → RecallMemoryCommand → Exec SearchMemoryResult
recall env c = do
  validate_scope c.scopes "memory:read"
  validate_scope_value c.tenant_id
  lift (validate_owner_id c.owner_id)
  refuse_if c.connection_revoked connection_revoked
  refuse_if (is_blank c.query) validation_error
  refuse_if
      (ltb c.limit 1 || ltb 100 c.limit || (ltb c.candidate_limit 1 || ltb 500 c.candidate_limit))
      validation_error
  refuse_if (not (leb_ℤ (pos 0) c.threshold && leb_ℤ c.threshold one)) validation_error
  let spaces = requested_spaces c.include_spaces c.context_space
  refuse_if (not (all_allowed c.space_policy c.context_space spaces)) space_forbidden
  query_vector ← embed_checked env c.query true
  candidates ← transaction (recall_candidates env c query_vector spaces)
  pure (page env c.limit (rank_unseen env c [] candidates))
