-- ===== src/Application/Services/Keeping/Mutating.antt =====
-- `confirm_candidate`, `pin`, `discard_candidate` and `forget` keep the invariant.
use mathlib.Core.Path.{subst}
use umcp.Prelude.{
  ℕ, String, nat_eq, string_eq, ◌==◌, ◌≡◌, refl, sym, ◌∙◌, Option, some, none, inl, inr,
  if◌then◌else◌,
}
use mathlib.Core.Bool.{true≢false}
use umcp.Text.{truthy}
use umcp.Domain.Errors.{IsExpected}
use umcp.Domain.Failures.{make_descriptor-FailsBy, evolve-FailsBy}
use umcp.Domain.Enums.{state_eq, state_value}
use umcp.Domain.Memory.{Memory}
use umcp.Domain.Memory.Construction.{evolve-Evolves}
use umcp.Application.Models.{
  ConfirmCandidateCommand, PinMemoryCommand, DiscardCandidateCommand, ForgetMemoryCommand,
  IdempotencyClaim, OperationType,
}
use umcp.Application.Store.{InMemoryStore}
use umcp.Application.Exec.{Exec, pure, ◌>>=◌, ◌>>◌}
use umcp.Application.Exec.Triple.{
  Holds, Holds-pure, Holds-if, Holds-bind, Holds-lift, Holds-refuse, Holds-transaction, Holds-map,
  RolledBack,
}
use umcp.Application.Idempotency.{claim, complete}
use umcp.Application.Repository
use umcp.Application.Services.{Env}
use umcp.Application.Services.Inbox.{
  confirm_changes, confirm_fresh, confirm_candidate, persist, pin_changed, pin_fresh, pin,
  discard_fresh, discard_candidate, pin_target,
}
use umcp.Application.Services.Writing.{forget_keyed, forget_plain, forget, forget_by_key}
use umcp.Application.Services.Steps.{
  now-step, owner-step, validate_scope-step, validate_mutation_scope-step, current_at-step,
  replay_version-Holds, Holds-step, Evolves-Succeeds, persist-Holds,
}
use umcp.Application.Services.Keeping.Creating.{Follows-Inv}
use umcp.Application.Idempotency.Settling.{Inv, Pending, Claims, claim-Holds, complete-Holds}
use umcp.Application.WellFormed.{WellFormed}
use umcp.Application.WellFormed.Reading.{Follows, Follows-refl, Expects, forget-Holds}

-- An action that starts from a pending claim, and completes it.
abbrev pub Completes : {A : Type 0} → (IdempotencyClaim → Exec A) → Type 0
Completes fresh =
    (held : IdempotencyClaim) (t : InMemoryStore)
    → WellFormed t
    → Pending held t.idempotency_operations
    → Holds (λ _ u. Inv u) Expects (fresh held t)

-- A claim, then the replay or the action.
pub claimed-Holds :
    {A : Type 0} (s : InMemoryStore)
    → Inv s
    → (owner : String) (op : OperationType) (key fp : String)
      (replay fresh : IdempotencyClaim → Exec A)
    → ((held : IdempotencyClaim) → Holds (λ _ t. t ≡ s) Expects (replay held s))
    → Completes fresh
    → Holds
        (λ _ t. Inv t)
        Expects
        ((claim owner op key fp >>= λ held. if held.replay then replay held else fresh held) s)
claimed-Holds s i owner op key fp replay fresh replayed done =
    Holds-bind (Claims s) (claim owner op key fp) _ s (claim-Holds owner op key fp s i) λ held t c.
      Holds-if held.replay (replay held) (fresh held) t
        (λ yes_. elim c [
          | inl (_, same) ↦
              subst (λ u. Holds (λ _ v. Inv v) Expects (replay held u)) (sym same)
                (Holds-map _ (λ _ v e. subst Inv (sym e) i) (replayed held))
          | inr (fresh_, _, _) ↦ absurd (true≢false (sym yes_ ∙ fresh_))
        ])
        (λ no_. elim c [
          | inl (replay_, _) ↦ absurd (true≢false (sym replay_ ∙ no_))
          | inr (_, pending, w) ↦ done held t w pending
        ])

-- Completing after a step of the repository.
pub completed-Holds :
    {A : Type 0} (held : IdempotencyClaim) (s t : InMemoryStore)
    → Pending held s.idempotency_operations
    → Follows s t
    → (id : Option ℕ) (version : Option ℕ) (status : String) (a : A)
    → Holds (λ _ u. Inv u) Expects ((complete held id version status >>= λ _. pure a) t)
completed-Holds held s t pending f id version status a =
    Holds-bind (λ _ u. Inv u) (complete held id version status) _ t
      (complete-Holds held id version status t f.well
        (subst (Pending held) (sym f.operations) pending))
      λ _ u i. Holds-pure a u i

module _ (env : Env) where
  confirm_changes-Holds :
      (c : ConfirmCandidateCommand) (s : InMemoryStore)
      → Holds (λ _ t. Unit {0} × (t ≡ s)) Expects (confirm_changes env c s)
  unfolding confirm_changes
  confirm_changes-Holds c s =
      Holds-lift _ _ s (λ e p. p) (make_descriptor-FailsBy env.profile)
        λ d _. Holds-pure _ s (tt, refl)

  confirm_fresh-Completes : (c : ConfirmCandidateCommand) → Completes (confirm_fresh env c)
  unfolding confirm_fresh
  confirm_fresh-Completes c held s w pending =
      current_at-step s (λ e p. p) c.owner_id (some c.tenant_id) c.memory_id c.expected_version _
        λ m found _. Holds-refuse _ _ _ s tt λ _.
          now-step s (λ e p. p) env 0 _
            λ time.
              Holds-step (λ _. Unit {0}) (confirm_changes env c) _ s (confirm_changes-Holds c s)
                λ changes _.
                  Holds-lift _ _ s (λ e p. p) (evolve-FailsBy m time changes)
                    λ u e.
                      let (at, next) =
                        Evolves-Succeeds s w c.owner_id (some c.tenant_id) c.memory_id m u changes
                          found (evolve-Evolves m u time changes e) in
                      Holds-bind _ (persist env u c.expected_version c.actor_reason) _ s
                        (persist-Holds env s w m u at next c.expected_version c.actor_reason)
                        λ a t f.
                          completed-Holds held s t pending f.0 (some a.id) (some a.version)
                            "confirmed" a

  pub confirm_candidate-Holds :
      (c : ConfirmCandidateCommand) (s : InMemoryStore)
      → Inv s
      → Holds (λ _ t. Inv t) (RolledBack IsExpected s) (confirm_candidate env c s)
  unfolding confirm_candidate
  confirm_candidate-Holds c s i =
      validate_scope-step s (λ e p. (p, refl)) c.scopes _ _
        λ _.
          validate_mutation_scope-step s (λ e p. (p, refl)) c.tenant_id c.owner_id
            c.connection_revoked _
            λ _. Holds-transaction _ s (
              claimed-Holds s i c.owner_id OperationType.confirm c.idempotency_key _ _
                (confirm_fresh env c)
                (λ held.
                  Holds-map _ (λ _ t p. p.1)
                    (replay_version-Holds c.owner_id (some c.tenant_id) c.memory_id
                      c.expected_version held s))
                (confirm_fresh-Completes c))

  pin_changed-Holds :
      (c : PinMemoryCommand) (m : Memory) (held : IdempotencyClaim) (s : InMemoryStore)
      → WellFormed s
      → Pending held s.idempotency_operations
      → Repository.get c.owner_id (some c.tenant_id) c.memory_id s ≡ some m
      → Holds (λ _ u. Inv u) Expects (pin_changed env c held m s)
  unfolding pin_changed
  pin_changed-Holds c m held s w pending found =
      now-step s (λ e p. p) env 0 _
        λ time.
          Holds-lift _ _ s (λ e p. p) (evolve-FailsBy m time _)
            λ u e.
              let (at, next) =
                Evolves-Succeeds s w c.owner_id (some c.tenant_id) c.memory_id m u _ found
                  (evolve-Evolves m u time _ e) in
              Holds-bind _ (persist env u m.version (state_value u.state)) _ s
                (persist-Holds env s w m u at next m.version (state_value u.state))
                λ a t f. completed-Holds held s t pending f.0 (some a.id) (some a.version) _ a

  pin_fresh-Completes : (c : PinMemoryCommand) → Completes (pin_fresh env c)
  unfolding pin_fresh
  pin_fresh-Completes c held s w pending =
      current_at-step s (λ e p. p) c.owner_id (some c.tenant_id) c.memory_id c.expected_version _
        λ m found _. Holds-refuse _ _ _ s tt λ _.
          Holds-if (m.state == pin_target c.pinned)
            (do
              complete held (some m.id) (some m.version) (state_value (pin_target c.pinned))
              pure m)
            (pin_changed env c held m) s
            (λ _.
              completed-Holds held s s pending (Follows-refl s w) (some m.id) (some m.version)
                (state_value (pin_target c.pinned)) m)
            (λ _. pin_changed-Holds c m held s w pending found)

  pub pin-Holds :
      (c : PinMemoryCommand) (s : InMemoryStore)
      → Inv s
      → Holds (λ _ t. Inv t) (RolledBack IsExpected s) (pin env c s)
  unfolding pin
  pin-Holds c s i =
      validate_scope-step s (λ e p. (p, refl)) c.scopes _ _
        λ _.
          validate_mutation_scope-step s (λ e p. (p, refl)) c.tenant_id c.owner_id
            c.connection_revoked _
            λ _. Holds-transaction _ s (
              claimed-Holds s i c.owner_id OperationType.pin c.idempotency_key _ _ (pin_fresh env c)
                (λ held.
                  Holds-map _ (λ _ t p. p.1)
                    (replay_version-Holds c.owner_id (some c.tenant_id) c.memory_id
                      c.expected_version held s))
                (pin_fresh-Completes c))

  discard_fresh-Completes : (c : DiscardCandidateCommand) → Completes (discard_fresh c)
  unfolding discard_fresh
  discard_fresh-Completes c held s w pending =
      current_at-step s (λ e p. p) c.owner_id (some c.tenant_id) c.memory_id c.expected_version _
        λ m found _. Holds-refuse _ _ _ s tt λ _.
          Holds-bind _ (Repository.forget c.owner_id (some c.tenant_id) c.memory_id) _ s
            (forget-Holds s w c.owner_id (some c.tenant_id) c.memory_id)
            λ gone t f. completed-Holds held s t pending f (some c.memory_id) none _ _

  pub discard_candidate-Holds :
      (c : DiscardCandidateCommand) (s : InMemoryStore)
      → Inv s
      → Holds (λ _ t. Inv t) (RolledBack IsExpected s) (discard_candidate env c s)
  unfolding discard_candidate
  discard_candidate-Holds c s i =
      validate_scope-step s (λ e p. (p, refl)) c.scopes _ _
        λ _.
          validate_mutation_scope-step s (λ e p. (p, refl)) c.tenant_id c.owner_id
            c.connection_revoked _
            λ _. Holds-transaction _ s (
              claimed-Holds s i c.owner_id OperationType.discard c.idempotency_key _ _
                (discard_fresh c) (λ held. Holds-pure _ s refl) (discard_fresh-Completes c))

  forget_plain-Holds :
      (c : ForgetMemoryCommand) (s : InMemoryStore)
      → Inv s
      → Holds (λ _ t. Inv t) Expects (forget_plain c s)
  unfolding forget_plain
  forget_plain-Holds c s i =
      Holds-bind _ (Repository.forget c.owner_id c.tenant_id c.memory_id) _ s
        (forget-Holds s i.well c.owner_id c.tenant_id c.memory_id)
        λ gone t f. Holds-pure _ t (Follows-Inv s t i f)

  forget_keyed-Holds :
      (c : ForgetMemoryCommand) (key : String) (s : InMemoryStore)
      → Inv s
      → Holds (λ _ t. Inv t) Expects (forget_keyed env c key s)
  unfolding forget_keyed
  forget_keyed-Holds c key s i =
      claimed-Holds s i c.owner_id OperationType.forget key _ _ _ (λ held. Holds-pure _ s refl)
        λ held t w pending.
          Holds-bind _ (Repository.forget c.owner_id c.tenant_id c.memory_id) _ t
            (forget-Holds t w c.owner_id c.tenant_id c.memory_id)
            λ gone u f. completed-Holds held t u pending f (some c.memory_id) none _ _

  forget_by_key-Holds :
      (c : ForgetMemoryCommand) (key : Option String) (s : InMemoryStore)
      → Inv s
      → Holds (λ _ t. Inv t) Expects (forget_by_key env c key s)
  forget_by_key-Holds c none s i = forget_plain-Holds c s i
  forget_by_key-Holds c (some key) s i =
      Holds-if (truthy (some key)) _ _ s (λ _. forget_keyed-Holds c key s i)
        (λ _. forget_plain-Holds c s i)

  pub forget_service-Holds :
      (c : ForgetMemoryCommand) (s : InMemoryStore)
      → Inv s
      → Holds (λ _ t. Inv t) (RolledBack IsExpected s) (forget env c s)
  unfolding forget
  forget_service-Holds c s i =
      owner-step s (λ e p. (p, refl)) c.owner_id _
        λ _. Holds-transaction _ s (forget_by_key-Holds c c.idempotency_key s i)
