-- ===== src/Application/Services/Keeping/Reading.antt =====
-- `search` and `recall` change nothing, and what they answer.
use mathlib.Core.Path.{subst}
use umcp.Prelude.{
  false, ap, ℕ, String, nat_eq, string_eq, option_eq, ==_refl, ◌≡◌, refl, sym, ◌∙◌, ◌≤◌, ◌≢◌, true,
  Option, none, some, List, [], ◌∷◌, ◌++◌, elem, length, arith,
}
use umcp.Score.{ℤ}
use umcp.Sorting.Laws.{All, All-append, All-map, Sorted}
use umcp.Domain.Errors.{Error, Result, ok, err, IsExpected, ok_injective}
use umcp.Domain.Memory.{Memory}
use umcp.Application.Models.{
  Vector, SearchMemoryCommand, SearchFilters, SearchMemoryResult, RecallMemoryCommand,
}
use umcp.Application.Store.{InMemoryStore}
use umcp.Application.Exec.{Exec, reads, lift, ◌>>=◌, transaction}
use umcp.Application.Exec.Triple.{
  Holds, Holds-ok, Holds-pure, Holds-reads, Holds-refuse, Holds-transaction, RolledBack,
}
use umcp.Application.Repository.{matches}
use umcp.Application.Services.{Env}
use umcp.Application.Services.Finding.{
  item_le, rank, rank_unseen, widen_states, search, recall, recall_candidates, recall_filters,
  requested_spaces, all_allowed,
}
use umcp.Application.Services.Finding.Ranking.{
  Found, Found-map, Answers, Shown, search_candidates-Found, rank-Answers, page-Answers,
  rank_unseen-Answers,
}
use umcp.Application.Services.Finding.Policy.{Permitted, recalled-Permitted}
use umcp.Application.Services.Steps.{
  Holds-step, embed_checked-step, owner-step, validate_scope-step, validate_scope_value-step,
}
use umcp.Application.WellFormed.{WellFormed}
use umcp.Application.WellFormed.Reading.{Expects}

-- the filters of `search`, with the states widened
abbrev pub widened : SearchFilters → SearchFilters
widened f = record f { states = widen_states f.states }

-- A page has at most `limit` items, best first, each an answer to the query vector of the text.
abbrev pub Page :
    Env → InMemoryStore → String → ℕ → ℤ → (Memory → Type 0) → SearchMemoryResult → Type 0
Page env s text limit threshold T r =
    (length r.items ≤ limit)
    × Sorted item_le r.items
    × ((query : Vector) × (env.embed text true ≡ some query)
        × (length query ≡ env.profile.dimension)
        × All (Answers env s query threshold T) r.items)

-- what `search` may answer with
abbrev pub Searched : Env → SearchMemoryCommand → Memory → Type 0
Searched env c m = matches c.owner_id none env.profile (widened c.filters) m ≡ true

-- what `recall` may answer with
abbrev pub Recalled : Env → RecallMemoryCommand → Memory → Type 0
Recalled env c m =
    (space : Option String) × (elem space (requested_spaces c.include_spaces c.context_space)
      ≡ true)
    × (matches c.owner_id (some c.tenant_id) env.profile (recall_filters c space) m ≡ true)

-- A transaction that reads, when the read succeeds.
reads-done :
    {A : Type 0} (g : InMemoryStore → Result A) (s : InMemoryStore) (P : A → Type 0) (a : A)
    → g s ≡ ok a
    → P a
    → Holds (λ x t. P x × (t ≡ s)) (RolledBack IsExpected s) (transaction (reads g) s)
unfolding transaction reads
reads-done g s P a e p = rw e (Holds-ok a s (p, refl))

ok≢err : {A : Type 0} {r : Result A} {a : A} {e : Error} → r ≡ ok a → r ≢ err e
ok≢err h k = cc

same-All :
    {A : Type 0} (P : List A → Type 0) {r : Result (List A)} {xs ys : List A}
    → r ≡ ok xs
    → r ≡ ok ys
    → P xs
    → P ys
same-All P h k p = subst P (ok_injective _ _ (sym h ∙ k)) p

lift-done :
    {A B : Type 0} {Q : B → InMemoryStore → Type 0} {R : Error → InMemoryStore → Type 0}
    (r : Result A) (a : A) (f : A → Exec B) (s : InMemoryStore)
    → r ≡ ok a
    → Holds Q R (f a s)
    → Holds Q R ((lift r >>= f) s)
unfolding ◌>>=◌ lift
lift-done r a f s e h = rw e h

module _ (env : Env) (s : InMemoryStore) (w : WellFormed s) where
  -- In a well-formed store, `search` changes nothing. What it returns is a page of at most `limit`
  -- items, best first; each is a stored memory that the owner and the filters admit, scored by the
  -- similarity of its own vector to the vector of the command's query, and not below the
  -- threshold. What it raises is expected.
  pub search-Holds :
      (c : SearchMemoryCommand)
      → Holds
          (λ r t. Page env s c.query c.limit c.threshold (Searched env c) r × (t ≡ s))
          (RolledBack IsExpected s)
          (search env c s)
  unfolding search
  search-Holds c =
      owner-step s (λ e p. (p, refl)) c.owner_id _
        λ _.
          Holds-refuse _ _ _ s (tt, refl)
            λ _.
              Holds-refuse _ _ _ s (tt, refl)
                λ _.
                  Holds-refuse _ _ _ s (tt, refl)
                    λ _.
                      Holds-refuse _ _ _ s (tt, refl)
                        λ _.
                          embed_checked-step s (λ e p. (p, refl)) env c.query true _
                            λ query said fits.
                              let (found, done, all) =
                                search_candidates-Found s w c.owner_id none (env.similarity query)
                                  env.profile (widened c.filters) c.candidate_limit in
                              Holds-step
                                (All (Found s (env.similarity query) env.profile (Searched env c)))
                                _ _ s (reads-done _ s _ found done all)
                                λ cs each.
                                  let (ranked, ordered, answers) =
                                    rank-Answers env s query c.threshold (Searched env c) cs each in
                                  let (short, sorted, held) =
                                    page-Answers env s query c.threshold (Searched env c) c.limit
                                      ranked answers in
                                  lift-done (rank env c.threshold cs) ranked _ s ordered (
                                    Holds-pure _ s
                                      ((short, sorted, (query, said, fits, held)), refl))

  -- the candidates of every space
  recall_candidates-Holds :
      (c : RecallMemoryCommand) (query : Vector) (T : Memory → Type 0)
      (spaces : List (Option String))
      → ((space : Option String) (m : Memory)
          → elem space spaces ≡ true
          → matches c.owner_id (some c.tenant_id) env.profile (recall_filters c space) m ≡ true
          → T m)
      → Holds
          (λ cs t. All (Found s (env.similarity query) env.profile T) cs × (t ≡ s))
          Expects
          (recall_candidates env c query spaces s)
  unfolding recall_candidates
  recall_candidates-Holds c query T [] f = Holds-pure _ s (tt, refl)
  recall_candidates-Holds c query T (space ∷ spaces) f =
      let (found, done, all) =
        search_candidates-Found s w c.owner_id (some c.tenant_id) (env.similarity query) env.profile
          (recall_filters c space) c.candidate_limit in
      Holds-reads _ _ s (λ e h. absurd (ok≢err done h))
        λ cs e.
          Holds-step _ (recall_candidates env c query spaces) _ s
            (recall_candidates-Holds c query T spaces (λ sp m l. f sp m (ground arith)))
            λ more rest. Holds-pure (cs ++ more) s (
              All-append _ cs more
                  (All-map _ _ cs
                    (λ x h. Found-map h (f space x.memory (ground (arith, ==_refl space)) h.passed))
                    (same-All (All _) done e all))
                  rest,
              refl,
            )

  -- In a well-formed store, `recall` changes nothing. What it returns is a page of at most `limit`
  -- items, best first; each is a stored memory of the owner and tenant that the filter of one of the
  -- requested spaces admits, not a mental note unless the command allows those, scored by the
  -- similarity of its own vector to the vector of the command's query, and not below the threshold;
  -- and the space policy allows all the requested spaces. What it raises is expected.
  pub recall-Holds :
      (c : RecallMemoryCommand)
      → Holds
          (λ r t.
            Page env s c.query c.limit c.threshold (Shown c (Recalled env c)) r
            × (all_allowed c.space_policy c.context_space
                  (requested_spaces c.include_spaces c.context_space)
                ≡ true)
            × (t ≡ s))
          (RolledBack IsExpected s)
          (recall env c s)
  unfolding recall
  recall-Holds c =
      validate_scope-step s (λ e p. (p, refl)) c.scopes _ _
        λ _.
          validate_scope_value-step s (λ e p. (p, refl)) c.tenant_id _
            (owner-step s (λ e p. (p, refl)) c.owner_id _
              λ _.
                Holds-refuse _ _ _ s (tt, refl)
                  λ _.
                    Holds-refuse _ _ _ s (tt, refl)
                      λ _.
                        Holds-refuse _ _ _ s (tt, refl)
                          λ _.
                            Holds-refuse _ _ _ s (tt, refl)
                              λ _.
                                Holds-refuse _ _ _ s (tt, refl)
                                  λ permitted.
                                    embed_checked-step s (λ e p. (p, refl)) env c.query true _
                                      λ query said fits.
                                        Holds-step
                                          (All (
                                            Found s (env.similarity query) env.profile
                                              (Recalled env c)))
                                          _ _ s
                                          (Holds-transaction _ s (
                                            recall_candidates-Holds c query (Recalled env c)
                                              (requested_spaces c.include_spaces c.context_space)
                                              (λ sp m l h. (sp, l, h))))
                                          λ cs each.
                                            let (short, sorted, held) =
                                              page-Answers env s query c.threshold
                                                (Shown c (Recalled env c)) c.limit
                                                (rank_unseen env c [] cs)
                                                (rank_unseen-Answers env c s query (Recalled env c)
                                                  [] cs each) in
                                            Holds-pure _ s (
                                              (short, sorted, (query, said, fits, held)),
                                              ground arith,
                                              refl,
                                            ))

-- In a well-formed store, what `recall` returns when it was asked for named spaces, or has a context
-- with a space, are memories of the caller's spaces: each stands in the context's space or in one
-- that the policy allows from there.
pub recall-Permitted :
    (env : Env) (c : RecallMemoryCommand) (s t : InMemoryStore) (r : SearchMemoryResult)
    → WellFormed s
    → elem none (requested_spaces c.include_spaces c.context_space) ≡ false
    → recall env c s ≡ (ok r, t)
    → All (λ i. Permitted c i.memory) r.items
recall-Permitted env c s t r w named found =
    let ((_, _, (_, _, _, answers)), policy, _) =
      (recall-Holds env s w c).returned r (ap (λ x. x.0) found) in
    All-map _ _ r.items
      (λ i a.
        let ((space, asked, passed), _) = a.passed in
        recalled-Permitted env.profile c i.memory space named policy asked passed)
      answers
