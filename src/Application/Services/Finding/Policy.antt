-- ===== src/Application/Services/Finding/Policy.antt =====
-- Which spaces `recall` shows, and the range of the scores.
use mathlib.Core.Path.{subst}
use mathlib.Core.Bool.{true≢false}
use umcp.Prelude.{
  String, string_eq, nat_eq, option_eq, ◌==◌, ◌≡◌, sym, ◌∙◌, true, false, ◌||◌, Option, none, some,
  List, [], ◌∷◌, elem, arith, inl, inr, Bool-cases,
}
use umcp.Score.{ℤ, pos, one, clamp, round6, round_hundredths, weigh, ◌≤ℤ◌}
use umcp.Domain.Errors.{ok, ◌>>=◌}
use umcp.Domain.Values.{EmbeddingDescriptor, validate_unit_interval}
use umcp.Domain.Memory.{Memory, make_memory}
use umcp.Application.Models.{RecallMemoryCommand, MemorySearchCandidate, SpacePolicy, allows}
use umcp.Application.Services.{Env}
use umcp.Application.Repository.{matches}
use umcp.Application.Services.Finding.{item_of, all_allowed, requested_spaces, recall_filters}

-- The memory stands in the context's space, or in one that the policy opens to it.
abbrev pub Permitted : RecallMemoryCommand → Memory → Type 0
Permitted c m = (m.space == c.context_space || allows c.space_policy m.space c.context_space) ≡ true

all_allowed-elem :
    (policy : SpacePolicy) (context space : Option String) (spaces : List (Option String))
    → all_allowed policy context spaces ≡ true
    → elem space spaces ≡ true
    → (space == context || allows policy space context) ≡ true
unfolding all_allowed
all_allowed-elem policy context space [] h l = cc
all_allowed-elem policy context space (x ∷ xs) h l = elim (Bool-cases (space == x)) [
  | inl here ↦
      subst (λ y. (y == context || allows policy y context) ≡ true)
        (sym (((option_eq {A = String} ⦃e = string_eq⦄).beq_iff space x).0 here)) (ground arith)
  | inr later ↦ all_allowed-elem policy context space xs (ground arith) (rw later at l)
]

matches-space :
    (owner tenant t : String) (profile : EmbeddingDescriptor) (c : RecallMemoryCommand) (m : Memory)
    → matches owner (some tenant) profile (recall_filters c (some t)) m ≡ true
    → (m.space == some t) ≡ true
unfolding matches
matches-space owner tenant t profile c m h = ground arith

-- A memory that passes the filter of one of the requested spaces is permitted, unless no space at all
-- was asked for.
pub recalled-Permitted :
    (profile : EmbeddingDescriptor) (c : RecallMemoryCommand) (m : Memory) (space : Option String)
    → elem none (requested_spaces c.include_spaces c.context_space) ≡ false
    → all_allowed c.space_policy c.context_space (requested_spaces c.include_spaces c.context_space)
      ≡ true
    → elem space (requested_spaces c.include_spaces c.context_space) ≡ true
    → matches c.owner_id (some c.tenant_id) profile (recall_filters c space) m ≡ true
    → Permitted c m
recalled-Permitted profile c m none named policy asked passed =
    absurd (true≢false (sym asked ∙ named))
recalled-Permitted profile c m (some t) named policy asked passed =
    subst (λ y. (y == c.context_space || allows c.space_policy y c.context_space) ≡ true)
      (sym (
        ((option_eq {A = String} ⦃e = string_eq⦄).beq_iff m.space (some t)).0
          (matches-space c.owner_id c.tenant_id t profile c m passed)))
      (all_allowed-elem c.space_policy c.context_space (some t)
        (requested_spaces c.include_spaces c.context_space) policy asked)

-- Between 0 and 1.
abbrev pub InUnit : ℤ → Type 0
InUnit x = (pos 0 ≤ℤ x) × (x ≤ℤ one)

weighed-InUnit :
    (similarity importance confidence : ℤ)
    → InUnit importance
    → InUnit confidence
    → InUnit (round6 (weigh (clamp similarity) importance confidence))
unfolding round6 weigh clamp round_hundredths
weighed-InUnit s i c (h1, h2) (h3, h4) = ground arith

clamp-InUnit : (x : ℤ) → InUnit (clamp x)
unfolding clamp
clamp-InUnit x = ground arith

valid-InUnit : (m m' : Memory) → make_memory m ≡ ok m' → InUnit m.importance × InUnit m.confidence
unfolding make_memory ◌>>=◌ validate_unit_interval
valid-InUnit m m' h = ground arith

-- The item that `search` and `recall` make of a memory that passes its own validation has a score
-- and a similarity between 0 and 1, whatever similarity the candidate was found with.
pub score-bounds :
    (env : Env) (c : MemorySearchCandidate)
    → make_memory c.memory ≡ ok c.memory
    → InUnit (item_of env c).score × InUnit (item_of env c).similarity
unfolding item_of
score-bounds env c h =
    let (important, sure) = valid-InUnit c.memory c.memory h in
    (
      weighed-InUnit c.similarity c.memory.importance c.memory.confidence important sure,
      clamp-InUnit c.similarity,
    )
