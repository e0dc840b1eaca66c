-- ===== src/Application/Services/Finding/Spaceless.antt =====
-- `recall` without a space, in src/omp/application/services.py, against `recall` from a space.
use mathlib.Core.Path.{subst}
use umcp.Prelude.{
  String, nat_eq, string_eq, option_eq, ==_refl, ◌≡◌, refl, sym, ap, Bool, true, false,
  if◌then◌else◌, none, some, List, [], ◌∷◌, arith,
}
use umcp.Score.{ℤ}
use umcp.Dict.{Dict, lookup}
use umcp.Dict.Entries.{Every, Every-map}
use umcp.Domain.Errors.{Error, Result, ok, err, key_error}
use umcp.Domain.Values.{Uuid, EmbeddingDescriptor}
use umcp.Domain.Memory.{Memory}
use umcp.Application.Models.{Vector, RecallMemoryCommand, MemorySearchCandidate, SpacePolicy}
use umcp.Application.Store.{InMemoryStore}
use umcp.Application.Exec.{
  Exec, pure, reads, lift, ◌>>=◌, resume, settle, refuse_if, some_or, transaction,
}
use umcp.Application.Repository.{matches, collect, search_candidates}
use umcp.Application.Services.{Env, embed_checked, validate_scope, validate_scope_value}
use umcp.Application.Services.Finding.{
  page, rank_unseen, recall, recall_candidates, recall_filters, requested_spaces, all_allowed,
}

-- the command from the one space, and the command without any, under another policy
abbrev pub from_space : String → RecallMemoryCommand → RecallMemoryCommand
from_space sp c = record c { context_space = some sp; include_spaces = [] }

abbrev pub from_nowhere : SpacePolicy → RecallMemoryCommand → RecallMemoryCommand
from_nowhere policy c = record c {
  context_space = none;
  include_spaces = [];
  space_policy = policy;
}

-- steps that leave the store alone, then the same afterwards
seq-cong :
    {A B : Type 0} (m : Exec A) (f g : A → Exec B) (s : InMemoryStore)
    → (m s).1 ≡ s
    → ((a : A) → f a s ≡ g a s)
    → (m >>= f) s ≡ (m >>= g) s
unfolding ◌>>=◌
seq-cong {A} {B} m f g s stay k =
    subst (λ t. resume (m s).0 f t ≡ resume (m s).0 g t) (sym stay) (resume-cong (m s).0)
  where
    resume-cong : (r : Result A) → resume r f s ≡ resume r g s
    resume-cong (ok a) = k a
    resume-cong (err e) = refl

-- the same step from the store, then the same afterwards
bind-cong :
    {A B : Type 0} (m n : Exec A) (f g : A → Exec B) (s : InMemoryStore)
    → m s ≡ n s
    → ((a : A) (t : InMemoryStore) → f a t ≡ g a t)
    → (m >>= f) s ≡ (n >>= g) s
unfolding ◌>>=◌
bind-cong {A} {B} m n f g s e k = rw e (resume-cong (n s).0)
  where
    resume-cong : (r : Result A) → resume r f (n s).1 ≡ resume r g (n s).1
    resume-cong (ok a) = k a (n s).1
    resume-cong (err e) = refl

refuse_if-stays : (b : Bool) (e : Error) (s : InMemoryStore) → (refuse_if b e s).1 ≡ s
unfolding refuse_if
refuse_if-stays true e s = refl
refuse_if-stays false e s = refl

embed_checked-stays :
    (env : Env) (text : String) (query : Bool) (s : InMemoryStore)
    → (embed_checked env text query s).1 ≡ s
unfolding embed_checked ◌>>=◌ some_or refuse_if pure
embed_checked-stays env text query s = ground arith

module _ (similarity : Vector → ℤ) (p q : Memory → Bool) (profile : EmbeddingDescriptor)
    (vectors : Dict Uuid Vector) where
  collect-cong :
      (d : Dict Uuid Memory)
      → Every (λ id m. p m ≡ q m) d
      → collect similarity p profile d vectors ≡ collect similarity q profile d vectors
  unfolding collect
  collect-cong [] h = refl
  collect-cong ((id, m) ∷ d) h = rw h.0 (
      ap
        (λ (others : Result (List MemorySearchCandidate)).
          if q m
          then elim (lookup id vectors) as (λ x. Result (List MemorySearchCandidate)) [
            | none ↦ err key_error
            | some v ↦ elim others as (λ x. Result (List MemorySearchCandidate)) [
              | err e ↦ err e
              | ok cs ↦
                  ok (record { memory = m; similarity = similarity v; profile = profile } ∷ cs)
            ]
          ]
          else others)
        (collect-cong d h.1))

matches-space_of :
    (owner tenant : String) (profile : EmbeddingDescriptor) (c : RecallMemoryCommand)
    (policy : SpacePolicy) (sp : String) (m : Memory)
    → m.space ≡ some sp
    → matches owner (some tenant) profile (recall_filters (from_space sp c) (some sp)) m
      ≡ matches owner (some tenant) profile (recall_filters (from_nowhere policy c) none) m
unfolding matches
matches-space_of owner tenant profile c policy sp m e =
    rw (((option_eq {A = String} ⦃e = string_eq⦄).beq_iff m.space (some sp)).1 e) refl

module _ (env : Env) (c : RecallMemoryCommand) (policy : SpacePolicy) (sp : String)
    (s : InMemoryStore) (all : Every (λ id m. m.space ≡ some sp) s.memories) where
  search_candidates-cong :
      (query : Vector)
      → search_candidates c.owner_id
          (some c.tenant_id)
          (env.similarity query)
          env.profile
          (recall_filters (from_space sp c) (some sp))
          c.candidate_limit
          s
        ≡ search_candidates c.owner_id
            (some c.tenant_id)
            (env.similarity query)
            env.profile
            (recall_filters (from_nowhere policy c) none)
            c.candidate_limit
            s
  unfolding search_candidates
  search_candidates-cong query =
      rw
        (collect-cong (env.similarity query)
          (matches c.owner_id (some c.tenant_id) env.profile
            (recall_filters (from_space sp c) (some sp)))
          (matches c.owner_id (some c.tenant_id) env.profile
            (recall_filters (from_nowhere policy c) none))
          env.profile s.vectors s.memories
          (Every-map s.memories
            (λ id m. matches-space_of c.owner_id c.tenant_id env.profile c policy sp m) all))
        refl

  recall_candidates-cong :
      (query : Vector)
      → recall_candidates env (from_space sp c) query (some sp ∷ []) s
        ≡ recall_candidates env (from_nowhere policy c) query (none ∷ []) s
  unfolding recall_candidates ◌>>=◌ reads pure
  recall_candidates-cong query = rw (search_candidates-cong query) refl

  rank_unseen-cong :
      (seen : List Uuid) (cs : List MemorySearchCandidate)
      → rank_unseen env (from_space sp c) seen cs ≡ rank_unseen env (from_nowhere policy c) seen cs
  unfolding rank_unseen
  rank_unseen-cong seen [] = refl
  rank_unseen-cong seen (x ∷ xs) =
      rw (rank_unseen-cong seen xs, rank_unseen-cong (x.memory.id ∷ seen) xs) refl

  -- what follows the embedding of the query
  recalled-cong :
      (query : Vector)
      → (transaction (recall_candidates env (from_nowhere policy c) query (none ∷ [])) >>= λ cs.
            pure (page env c.limit (rank_unseen env (from_nowhere policy c) [] cs)))
          s
        ≡ (transaction (recall_candidates env (from_space sp c) query (some sp ∷ [])) >>= λ cs.
              pure (page env c.limit (rank_unseen env (from_space sp c) [] cs)))
            s
  recalled-cong query =
      bind-cong _ _ _ _ s (unfold transaction in ap (settle s) (sym (recall_candidates-cong query)))
        λ cs t. ap (λ is. pure (page env c.limit is) t) (sym (rank_unseen-cong [] cs))

  -- When all stored memories stand in one space, `recall` without a context space and without
  -- requested spaces answers, under any space policy, exactly as `recall` from that space does.
  pub recall-spaceless : recall env (from_nowhere policy c) s ≡ recall env (from_space sp c) s
  unfolding recall validate_scope validate_scope_value lift requested_spaces all_allowed
  recall-spaceless = seq-cong _ _ _ s (refuse_if-stays _ _ s) λ _.
      seq-cong _ _ _ s (refuse_if-stays _ _ s) λ _. seq-cong _ _ _ s refl λ _.
        seq-cong _ _ _ s (refuse_if-stays _ _ s) λ _. seq-cong _ _ _ s (refuse_if-stays _ _ s) λ _.
          seq-cong _ _ _ s (refuse_if-stays _ _ s) λ _.
            seq-cong _ _ _ s (refuse_if-stays _ _ s) λ _. rw (==_refl sp) (
              seq-cong _ _ _ s (refuse_if-stays _ _ s)
                λ _. seq-cong _ _ _ s (embed_checked-stays env c.query true s) recalled-cong)
