-- ===== src/Application/Services/Keeping/Creating.antt =====
-- `write` and `capture` keep the invariant.
use mathlib.Core.Path.{subst}
use umcp.Prelude.{
  ℕ, String, nat_eq, string_eq, pair_eq, ◌≡◌, refl, sym, ap, ◌∙◌, false, Option, some, none,
}
use umcp.Text.{truthy}
use umcp.Dict.{lookup}
use umcp.Domain.Errors.{IsExpected}
use umcp.Domain.Failures.{ensure_aware-FailsBy, make_descriptor-FailsBy, create-FailsBy}
use umcp.Domain.Values.{Datetime, ensure_aware}
use umcp.Domain.Memory
use umcp.Domain.Memory.Construction.{create-Creates}
use umcp.Application.Models.{WriteMemoryCommand, CaptureMemoryCommand, IdempotencyLookup}
use umcp.Application.Store.{InMemoryStore}
use umcp.Application.Exec.{Exec, pure}
use umcp.Application.Exec.Triple.{
  Holds, Holds-pure, Holds-if, Holds-lift, Holds-reads, Holds-refuse, Holds-transaction, Holds-map,
  RolledBack,
}
use umcp.Application.Services.{Env, now}
use umcp.Application.Services.Writing.{
  store_new, write_draft, prior_or, write_keyed, write, capture_draft, capture_guards, capture,
}
use umcp.Application.Services.Steps.{
  lift-last, embed_checked-step, now-step, owner-step, validate_scope-step,
  validate_scope_value-step, refuse-last, Holds-step,
}
use umcp.Application.Idempotency.Settling.{Inv}
use umcp.Application.WellFormed.Adding.{IsFresh}
use umcp.Application.WellFormed.Reading.{
  Follows, Expects, create-Holds, find_by_idempotency_key-FailsBy,
}

pub Follows-Inv : (s t : InMemoryStore) → Inv s → Follows s t → Inv t
Follows-Inv s t i f = record {
  well = f.well;
  settled = λ k o l. i.settled k o (ap (λ d. lookup k d) (sym f.operations) ∙ l);
}

module _ (env : Env) (s : InMemoryStore) (i : Inv s) (fresh : IsFresh env.new_id s) where
  store_new-Holds :
      (fp : String) (d : Memory.Draft) (stamp : Exec Datetime)
      → Holds (λ (_ : Datetime) t. Unit {0} × (t ≡ s)) Expects (stamp s)
      → Holds (λ _ t. Inv t) Expects (store_new env fp d stamp s)
  unfolding store_new
  store_new-Holds fp d stamp still =
      embed_checked-step s (λ e p. p) env d.content false _
        λ v _ _.
          Holds-lift _ _ s (λ e p. p) (make_descriptor-FailsBy env.profile)
            λ descriptor _.
              Holds-step (λ _. Unit {0}) stamp _ s still
                λ time _.
                  Holds-lift _ _ s (λ e p. p) (create-FailsBy _ env.new_id time)
                    λ m e.
                      let made = create-Creates _ env.new_id time m e in
                      Holds-map _ (λ a t. Follows-Inv s t i)
                        (create-Holds s i.well m fp v (subst (λ x. IsFresh x s) (sym made.id) fresh)
                          made.valid made.version)

  prior_or-Holds :
      (fp : String) (d : Memory.Draft) (stamp : Exec Datetime) (prior : Option IdempotencyLookup)
      → Holds (λ (_ : Datetime) t. Unit {0} × (t ≡ s)) Expects (stamp s)
      → Holds (λ _ t. Inv t) Expects (prior_or (store_new env fp d stamp) fp prior s)
  prior_or-Holds fp d stamp none still = store_new-Holds fp d stamp still
  prior_or-Holds fp d stamp (some p) still = Holds-refuse _ _ _ s tt λ _. Holds-pure _ s i

  write_keyed-Holds :
      (owner fp : String) (d : Memory.Draft) (time : Datetime) (key : Option String)
      → Holds (λ _ t. Inv t) Expects (write_keyed owner fp (store_new env fp d (pure time)) key s)
  write_keyed-Holds owner fp d time none =
      store_new-Holds fp d (pure time) (Holds-pure time s (tt, refl))
  write_keyed-Holds owner fp d time (some key) =
      Holds-if (truthy (some key)) _ _ s
        (λ _.
          Holds-reads _ _ s (λ e. (find_by_idempotency_key-FailsBy owner key s i.well).at e)
            λ prior _. prior_or-Holds fp d (pure time) prior (Holds-pure time s (tt, refl)))
        (λ _. store_new-Holds fp d (pure time) (Holds-pure time s (tt, refl)))

  pub write-Holds :
      (c : WriteMemoryCommand) → Holds (λ _ t. Inv t) (RolledBack IsExpected s) (write env c s)
  unfolding write
  write-Holds c =
      owner-step s (λ e p. (p, refl)) c.owner_id _
        λ _.
          now-step s (λ e p. (p, refl)) env 0 _
            λ time.
              Holds-transaction _ s
                (write_keyed-Holds c.owner_id _ (write_draft c) time c.idempotency_key)

  now-Holds : (n : ℕ) → Holds (λ (_ : Datetime) t. Unit {0} × (t ≡ s)) Expects (now env n s)
  unfolding now
  now-Holds n =
      lift-last s (ensure_aware (env.clock n)) (λ e p. p) (ensure_aware-FailsBy (env.clock n))

  guards-Holds :
      (c : CaptureMemoryCommand)
      → Holds (λ _ t. Unit {0} × (t ≡ s)) (RolledBack IsExpected s) (capture_guards c s)
  unfolding capture_guards
  guards-Holds c =
      validate_scope-step s (λ e p. (p, refl)) c.scopes _ _
        λ _.
          validate_scope_value-step s (λ e p. (p, refl)) c.tenant_id _
            (validate_scope_value-step s (λ e p. (p, refl)) c.connection_id _
              (owner-step s (λ e p. (p, refl)) c.owner_id _
                λ _.
                  Holds-refuse _ _ _ s (tt, refl)
                    λ _.
                      Holds-refuse _ _ _ s (tt, refl)
                        λ _.
                          Holds-refuse _ _ _ s (tt, refl)
                            λ _.
                              Holds-refuse _ _ _ s (tt, refl)
                                λ _.
                                  Holds-refuse _ _ _ s (tt, refl)
                                    λ _.
                                      Holds-map _ (λ _ t p. (tt, p.1))
                                        (refuse-last s _ _ (tt, refl))))

  pub capture-Holds :
      (c : CaptureMemoryCommand) → Holds (λ _ t. Inv t) (RolledBack IsExpected s) (capture env c s)
  unfolding capture
  capture-Holds c =
      Holds-step (λ _. Unit {0}) (capture_guards c) _ s (guards-Holds c)
        λ _ _. Holds-transaction _ s (
          Holds-reads _ _ s
            (λ e. (find_by_idempotency_key-FailsBy c.owner_id c.idempotency_key s i.well).at e)
            λ prior _. prior_or-Holds _ (capture_draft c) (now env 0) prior (now-Holds 0))
