-- ===== src/Application/Services/Keeping/Linking.antt =====
-- `update` and `relate` keep the invariant.
use umcp.Prelude.{String, nat_eq, string_eq, ◌≡◌, refl, ◌∙◌, Option, some, none}
use umcp.Text.{truthy}
use umcp.Domain.Errors.{IsExpected, FailsBy, FailsBy-ok, FailsBy-err, validation_error, not_found}
use umcp.Domain.Failures.{make_descriptor-FailsBy, evolve-FailsBy, make_relation-FailsBy}
use umcp.Domain.Enums.{RelationType, supersedes, contradicts}
use umcp.Domain.Values.{Uuid}
use umcp.Domain.Memory.{Memory}
use umcp.Domain.Memory.Construction.{evolve-Evolves}
use umcp.Application.Models.{UpdateMemoryCommand, RelateMemoriesCommand, OperationType}
use umcp.Application.Store.{InMemoryStore}
use umcp.Application.Exec.Triple.{
  Holds, Holds-pure, Holds-if, Holds-bind, Holds-lift, Holds-gets, Holds-some_or, Holds-refuse,
  Holds-transaction, Holds-map, RolledBack,
}
use umcp.Application.Repository.{add_relation, get}
use umcp.Application.Services.{Env}
use umcp.Application.Services.Inbox.{persist}
use umcp.Application.Services.Updating.{
  Link, unlinked, superseding, contradicting, link_of, linked_id, check_related, update_changes,
  relate_link, record_link, update_fresh, update_keyed, update_by_key, update,
}
use umcp.Application.Services.Writing.{relation_type_of_text, relate}
use umcp.Application.Services.Steps.{
  now-step, owner-step, current_at-step, replay_version-Holds, Holds-step, Evolves-Succeeds,
  persist-Holds,
}
use umcp.Application.Services.Keeping.Creating.{Follows-Inv}
use umcp.Application.Services.Keeping.Mutating.{claimed-Holds, completed-Holds}
use umcp.Application.Idempotency.Settling.{Inv}
use umcp.Application.WellFormed.{WellFormed}
use umcp.Application.WellFormed.Reading.{Follows, Follows-refl, Expects, add_relation-Holds}

link_of-FailsBy : (a b : Option Uuid) → FailsBy IsExpected (link_of a b)
unfolding link_of
link_of-FailsBy (some a) (some b) = FailsBy-err validation_error tt
link_of-FailsBy (some a) none = FailsBy-ok _
link_of-FailsBy none (some b) = FailsBy-ok _
link_of-FailsBy none none = FailsBy-ok _

check_related-Holds :
    (owner : String) (m : Memory) (id : Option Uuid) (s : InMemoryStore)
    → Holds (λ (_ : Unit {0}) t. Unit {0} × (t ≡ s)) Expects (check_related owner m id s)
unfolding check_related
check_related-Holds owner m none s = Holds-pure tt s (tt, refl)
check_related-Holds owner m (some id) s =
    Holds-refuse _ _ _ s tt
      λ _. Holds-gets _ _ s (Holds-some_or _ not_found _ s tt λ _ _. Holds-pure tt s (tt, refl))

pub Follows-trans : {s t u : InMemoryStore} → Follows s t → Follows t u → Follows s u
Follows-trans f g = record { well = g.well; operations = g.operations ∙ f.operations }

module _ (env : Env) where
  relate_link-Holds :
      (owner : String) (id : Uuid) (kind : RelationType) (target : Uuid) (s : InMemoryStore)
      → WellFormed s
      → Holds (λ _ t. Follows s t) Expects (relate_link env owner id kind target s)
  unfolding relate_link
  relate_link-Holds owner id kind target s w =
      now-step s (λ e p. p) env 1 _
        λ time.
          Holds-lift _ _ s (λ e p. p) (make_relation-FailsBy _)
            λ r _.
              Holds-bind _ (add_relation r) _ s (add_relation-Holds s w r)
                λ _ t f. Holds-pure tt t f

  record_link-Holds :
      (owner : String) (id : Uuid) (link : Link) (s : InMemoryStore)
      → WellFormed s
      → Holds (λ _ t. Follows s t) Expects (record_link env owner id link s)
  unfolding record_link
  record_link-Holds owner id unlinked s w = Holds-pure tt s (Follows-refl s w)
  record_link-Holds owner id (superseding a) s w = relate_link-Holds owner id supersedes a s w
  record_link-Holds owner id (contradicting a) s w = relate_link-Holds owner id contradicts a s w

  update_changes-Holds :
      (c : UpdateMemoryCommand) (link : Link) (s : InMemoryStore)
      → Holds (λ _ t. Unit {0} × (t ≡ s)) Expects (update_changes env c link s)
  unfolding update_changes
  update_changes-Holds c link s =
      Holds-lift _ _ s (λ e p. p) (make_descriptor-FailsBy env.profile)
        λ d _. Holds-pure _ s (tt, refl)

  update_fresh-Holds :
      (c : UpdateMemoryCommand) (s : InMemoryStore)
      → WellFormed s
      → Holds (λ _ t. Follows s t) Expects (update_fresh env c s)
  unfolding update_fresh
  update_fresh-Holds c s w =
      current_at-step s (λ e p. p) c.owner_id none c.memory_id c.expected_version _
        λ m found _.
          now-step s (λ e p. p) env 0 _
            λ time.
              Holds-lift _ _ s (λ e p. p) (link_of-FailsBy _ _)
                λ link _.
                  Holds-step (λ _. Unit {0}) (check_related c.owner_id m (linked_id link)) _ s
                    (check_related-Holds c.owner_id m (linked_id link) s)
                    λ _ _.
                      Holds-step (λ _. Unit {0}) (update_changes env c link) _ s
                        (update_changes-Holds c link s)
                        λ changes _.
                          Holds-lift _ _ s (λ e p. p) (evolve-FailsBy m time changes)
                            λ u e.
                              let (at, next) =
                                Evolves-Succeeds s w c.owner_id none c.memory_id m u changes found
                                  (evolve-Evolves m u time changes e) in
                              Holds-bind _ (persist env u c.expected_version c.change_reason) _ s
                                (persist-Holds env s w m u at next c.expected_version
                                  c.change_reason)
                                λ a t f.
                                  Holds-bind _ (record_link env c.owner_id a.id link) _ t
                                    (record_link-Holds c.owner_id a.id link t f.0.well)
                                    λ _ v g. Holds-pure a v (Follows-trans f.0 g)

  update_keyed-Holds :
      (c : UpdateMemoryCommand) (key : String) (s : InMemoryStore)
      → Inv s
      → Holds (λ _ t. Inv t) Expects (update_keyed env c key s)
  unfolding update_keyed
  update_keyed-Holds c key s i =
      claimed-Holds s i c.owner_id OperationType.update key _ _ _
        (λ held.
          Holds-map _ (λ _ t p. p.1)
            (replay_version-Holds c.owner_id none c.memory_id c.expected_version held s))
        λ held t w pending.
          Holds-bind _ (update_fresh env c) _ t (update_fresh-Holds c t w)
            λ a u f. completed-Holds held t u pending f (some a.id) (some a.version) "updated" a

  plain-Holds :
      (c : UpdateMemoryCommand) (s : InMemoryStore)
      → Inv s
      → Holds (λ _ t. Inv t) Expects (update_fresh env c s)
  plain-Holds c s i = Holds-map _ (λ _ t f. Follows-Inv s t i f) (update_fresh-Holds c s i.well)

  update_by_key-Holds :
      (c : UpdateMemoryCommand) (key : Option String) (s : InMemoryStore)
      → Inv s
      → Holds (λ _ t. Inv t) Expects (update_by_key env c key s)
  update_by_key-Holds c none s i = plain-Holds c s i
  update_by_key-Holds c (some key) s i =
      Holds-if (truthy (some key)) _ _ s (λ _. update_keyed-Holds c key s i)
        (λ _. plain-Holds c s i)

  pub update_service-Holds :
      (c : UpdateMemoryCommand) (s : InMemoryStore)
      → Inv s
      → Holds (λ _ t. Inv t) (RolledBack IsExpected s) (update env c s)
  unfolding update
  update_service-Holds c s i =
      owner-step s (λ e p. (p, refl)) c.owner_id _
        λ _. Holds-transaction _ s (update_by_key-Holds c c.idempotency_key s i)

  pub relate-Holds :
      (c : RelateMemoriesCommand) (s : InMemoryStore)
      → Inv s
      → Holds (λ _ t. Inv t) (RolledBack IsExpected s) (relate env c s)
  unfolding relate
  relate-Holds c s i =
      owner-step s (λ e p. (p, refl)) c.owner_id _
        λ _.
          Holds-some_or (relation_type_of_text c.relation_type) validation_error _ s (tt, refl)
            λ kind _.
              Holds-refuse _ _ _ s (tt, refl)
                λ _. Holds-transaction _ s (
                  Holds-gets _ _ s (
                    Holds-gets _ _ s (
                      Holds-some_or (get c.owner_id none c.source_memory_id s) not_found _ s tt
                        λ a _.
                          Holds-some_or (get c.owner_id none c.target_memory_id s) not_found _ s tt
                            λ b _.
                              now-step s (λ e p. p) env 0 _
                                λ time.
                                  Holds-lift _ _ s (λ e p. p) (make_relation-FailsBy _)
                                    λ r _.
                                      Holds-map _ (λ _ t. Follows-Inv s t i)
                                        (add_relation-Holds s i.well r))))
