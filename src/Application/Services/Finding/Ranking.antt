-- ===== src/Application/Services/Finding/Ranking.antt =====
-- What `search` and `recall` answer, from the collection of the candidates to the page.
use umcp.Prelude.{
  ℕ, String, nat_eq, string_eq, option_eq, ◌==◌, ==_refl, ◌≡◌, refl, ap, ◌∙◌, ◌≢◌, ◌≤◌, Bool, true,
  false, ◌||◌, Option, none, some, List, [], ◌∷◌, elem, length, take, arith, inl, inr, Bool-cases,
  Option-cases,
}
use umcp.Score.{ℤ, clamp, round6, weigh, ltb_ℤ}
use umcp.Sorting.{sort}
use umcp.Sorting.Laws.{All, All-take, All-sort, Sorted, Sorted-take, Sorted-sort, length-take}
use umcp.Dict.{Dict, lookup}
use umcp.Dict.Entries.{Every, Every-map, Every-lookup}
use umcp.Domain.Errors.{ok}
use umcp.Domain.Values.{Uuid, EmbeddingDescriptor, descriptor_eq}
use umcp.Domain.Memory.{Memory}
use umcp.Application.Models.{
  Vector, SearchFilters, SearchMemoryItem, MemorySearchCandidate, RecallMemoryCommand,
}
use umcp.Application.Store.{InMemoryStore}
use umcp.Application.Repository.{collect, matches, search_candidates, candidate_le}
use umcp.Application.Services.{Env}
use umcp.Application.Services.Finding.{item_of, item_le, rank, rank_unseen, page, hidden_note}
use umcp.Application.Services.Finding.Order.{item_le-total, item_le_trans}
use umcp.Application.WellFormed.{WellFormed}

-- The candidate is a memory of the store that passes `T`, with the similarity of its own vector.
pub record Found (s : InMemoryStore) (similarity : Vector → ℤ) (profile : EmbeddingDescriptor)
    (T : Memory → Type 0) (c : MemorySearchCandidate) : Type 0 where
  pub id : Uuid
  pub stored : lookup id s.memories ≡ some c.memory
  pub vector : Vector
  pub embedded : lookup id s.vectors ≡ some vector
  pub similar : c.similarity ≡ similarity vector
  pub profiled : c.profile ≡ profile
  pub passed : T c.memory

pub Found-map :
    {s : InMemoryStore} {similarity : Vector → ℤ} {profile : EmbeddingDescriptor}
    {T U : Memory → Type 0} {c : MemorySearchCandidate}
    → Found s similarity profile T c
    → U c.memory
    → Found s similarity profile U c
Found-map f u = record {
  id = f.id;
  stored = f.stored;
  vector = f.vector;
  embedded = f.embedded;
  similar = f.similar;
  profiled = f.profiled;
  passed = u;
}

-- The item is a memory of the store that passes `T`, scored by its own vector, and near enough.
pub record Answers (env : Env) (s : InMemoryStore) (query : Vector) (threshold : ℤ)
    (T : Memory → Type 0) (i : SearchMemoryItem) : Type 0 where
  pub id : Uuid
  pub stored : lookup id s.memories ≡ some i.memory
  pub vector : Vector
  pub embedded : lookup id s.vectors ≡ some vector
  pub similar : i.similarity ≡ clamp (env.similarity query vector)
  pub scored : i.score ≡ round6 (weigh i.similarity i.memory.importance i.memory.confidence)
  pub near : ltb_ℤ i.similarity threshold ≡ false
  pub passed : T i.memory

module _ (s : InMemoryStore) (similarity : Vector → ℤ) (profile : EmbeddingDescriptor)
    (test : Memory → Bool) where
  abbrev Passes : Memory → Type 0
  Passes m = test m ≡ true

  collect-Found :
      (d : Dict Uuid Memory)
      → Every (λ id m. (lookup id s.memories ≡ some m) × (lookup id s.vectors ≢ none)) d
      → (cs : List MemorySearchCandidate) × (collect similarity test profile d s.vectors ≡ ok cs)
        × All (Found s similarity profile Passes) cs
  unfolding collect
  collect-Found [] h = ([], refl, tt)
  collect-Found ((id, m) ∷ d) h =
      let (cs, done, all) = collect-Found d h.1 in
      elim (Bool-cases (test m)) [
        | inr failed ↦ (cs, rw failed done, all)
        | inl passed ↦ elim (Option-cases (lookup id s.vectors)) [
          | inl missing ↦ absurd (h.0.1 missing)
          | inr (v, present) ↦ (
            record { memory = m; similarity = similarity v; profile = profile } ∷ cs,
            rw (passed, present, done) refl,
            (
              record {
                id = id;
                stored = h.0.0;
                vector = v;
                embedded = present;
                similar = refl;
                profiled = refl;
                passed = passed;
              },
              all,
            ),
          )
        ]
      ]

-- In a well-formed store the search of the repository succeeds, and finds only what it may.
pub search_candidates-Found :
    (s : InMemoryStore)
    → WellFormed s
    → (owner : String) (tenant : Option String) (similarity : Vector → ℤ)
      (profile : EmbeddingDescriptor) (filters : SearchFilters) (limit : ℕ)
    → (cs : List MemorySearchCandidate) × (search_candidates owner tenant similarity profile filters
          limit s
        ≡ ok cs)
      × All (Found s similarity profile (λ m. matches owner tenant profile filters m ≡ true)) cs
unfolding search_candidates
search_candidates-Found s w owner tenant similarity profile filters limit =
    let (cs, done, all) =
      collect-Found s similarity profile (matches owner tenant profile filters) s.memories (
        Every-map s.memories (λ id m l. (l, w.vectored id m l))
          (Every-lookup s.memories w.distinct)) in
    (
      take limit (sort candidate_le cs),
      rw done refl,
      All-take _ limit (sort candidate_le cs) (All-sort _ candidate_le cs all),
    )

module _ (env : Env) (s : InMemoryStore) (query : Vector) (threshold : ℤ)
    (T : Memory → Type 0) where
  item_of-Answers :
      (c : MemorySearchCandidate)
      → Found s (env.similarity query) env.profile T c
      → ltb_ℤ (clamp c.similarity) threshold ≡ false
      → Answers env s query threshold T (item_of env c)
  unfolding item_of
  item_of-Answers c f near = record {
    id = f.id;
    stored = f.stored;
    vector = f.vector;
    embedded = f.embedded;
    similar = ap clamp f.similar;
    scored = refl;
    near = near;
    passed = f.passed;
  }

  pub rank-Answers :
      (cs : List MemorySearchCandidate)
      → All (Found s (env.similarity query) env.profile T) cs
      → (is : List SearchMemoryItem) × (rank env threshold cs ≡ ok is)
        × All (Answers env s query threshold T) is
  unfolding rank
  rank-Answers [] h = ([], refl, tt)
  rank-Answers (c ∷ cs) h =
      let (is, done, all) = rank-Answers cs h.1 in
      let same = ap (λ p. p == env.profile) h.0.profiled ∙ ==_refl env.profile in
      elim (Bool-cases (ltb_ℤ (clamp c.similarity) threshold)) [
        | inl far ↦ (is, rw (same, far) done, all)
        | inr near ↦
            (item_of env c ∷ is, rw (same, near, done) refl, (item_of-Answers c h.0 near, all))
      ]

  -- what the page holds
  pub page-Answers :
      (limit : ℕ) (is : List SearchMemoryItem)
      → All (Answers env s query threshold T) is
      → (length (page env limit is).items ≤ limit)
        × Sorted item_le (page env limit is).items
        × All (Answers env s query threshold T) (page env limit is).items
  page-Answers limit is all = (
    length-take limit (sort item_le is),
    Sorted-take item_le limit (sort item_le is)
        (Sorted-sort item_le item_le-total item_le_trans is),
    All-take _ limit (sort item_le is) (All-sort _ item_le is all),
  )

-- A memory that `recall` may show.
abbrev pub Shown : RecallMemoryCommand → (Memory → Type 0) → Memory → Type 0
Shown c T m = T m × (hidden_note c m ≡ false)

module _ (env : Env) (c : RecallMemoryCommand) (s : InMemoryStore) (query : Vector)
    (T : Memory → Type 0) where
  pub rank_unseen-Answers :
      (seen : List Uuid) (cs : List MemorySearchCandidate)
      → All (Found s (env.similarity query) env.profile T) cs
      → All (Answers env s query c.threshold (Shown c T)) (rank_unseen env c seen cs)
  unfolding rank_unseen
  rank_unseen-Answers seen [] h = tt
  rank_unseen-Answers seen (x ∷ xs) h =
      elim (Bool-cases (elem x.memory.id seen || hidden_note c x.memory)) [
        | inl skipped ↦ rw skipped (rank_unseen-Answers seen xs h.1)
        | inr shown ↦ elim (Bool-cases (ltb_ℤ (clamp x.similarity) c.threshold)) [
          | inl far ↦ rw (shown, far) (rank_unseen-Answers (x.memory.id ∷ seen) xs h.1)
          | inr near ↦
              rw (shown, near)
                (
                  item_of-Answers env s query c.threshold (Shown c T) x
                      (Found-map h.0 (h.0.passed, ground arith)) near,
                  rank_unseen-Answers (x.memory.id ∷ seen) xs h.1,
                )
        ]
      ]
