-- ===== src/Application/Services/Steps.antt =====
-- One rule for each step that the methods of the service share.
use mathlib.Core.Path.{subst}
use umcp.Prelude.{
  ℕ, String, nat_eq, string_eq, ◌≡◌, refl, sym, ap, ◌∙◌, false, true, Bool, Option, some, none,
  elem, length, arith,
}
use umcp.Dict.{lookup}
use umcp.Domain.Errors.{Error, Result, ok, err, IsExpected, FailsBy, connection_revoked, not_found}
use umcp.Domain.Failures.{ensure_aware-FailsBy, validate_owner_id-FailsBy}
use umcp.Domain.Values.{Uuid, Datetime, validate_owner_id}
use umcp.Domain.Memory.{Memory, Changes, snapshot}
use umcp.Domain.Memory.Construction.{Evolves}
use umcp.Application.Models.{Vector, Scopes, IdempotencyClaim}
use umcp.Application.Store.{InMemoryStore}
use umcp.Application.Exec.{Exec, lift, ◌>>=◌, refuse_if, some_or}
use umcp.Application.Exec.Triple.{
  Holds, Holds-ok, Holds-err, Holds-pure, Holds-bind, Holds-lift, Holds-gets, Holds-some_or,
  Holds-refuse,
}
use umcp.Application.Repository.{get, get_version}
use umcp.Application.Services.{
  Env, embed_checked, now, validate_scope, validate_scope_value, validate_mutation_scope,
  replay_version, or_else, version_or,
}
use umcp.Application.Services.Inbox.{current_at, persist}
use umcp.Application.WellFormed.{WellFormed}
use umcp.Application.WellFormed.Replacing.{Succeeds}
use umcp.Application.WellFormed.Reading.{Follows, Expects, get-some, update-Holds}

-- A step that leaves the store alone, and what is known of its result.
pub Holds-step :
    {A B : Type 0} {Q : B → InMemoryStore → Type 0} {R : Error → InMemoryStore → Type 0}
    (P : A → Type 0) (m : Exec A) (f : A → Exec B) (s : InMemoryStore)
    → Holds (λ a t. P a × (t ≡ s)) R (m s)
    → ((a : A) → P a → Holds Q R (f a s))
    → Holds Q R ((m >>= f) s)
Holds-step {Q} {R} P m f s h k =
    Holds-bind (λ a t. P a × (t ≡ s)) m f s h
      (λ a t p. subst (λ u. Holds Q R (f a u)) (sym p.1) (k a p.0))

-- The errors that a step may raise at `s` are expected.
module _ {B : Type 0} {Q : B → InMemoryStore → Type 0} {R : Error → InMemoryStore → Type 0}
    (s : InMemoryStore) (allow : (e : Error) → IsExpected e → R e s) where
  pub embed_checked-step :
      (env : Env) (text : String) (query : Bool) (f : Vector → Exec B)
      → ((v : Vector)
          → env.embed text query ≡ some v
          → length v ≡ env.profile.dimension
          → Holds Q R (f v s))
      → Holds Q R ((embed_checked env text query >>= f) s)
  embed_checked-step env text query f k =
      Holds-step (λ v. (env.embed text query ≡ some v) × (length v ≡ env.profile.dimension))
        (embed_checked env text query) f s
        (unfold embed_checked in
          Holds-some_or (env.embed text query) _ _ s (allow _ tt) λ v said.
            Holds-refuse _ _ _ s (allow _ tt) λ fits.
              Holds-pure v s
                ((said, ground (arith, nat_eq.beq_iff (length v) env.profile.dimension)), refl))
        (λ v p. k v p.0 p.1)

  pub now-step :
      (env : Env) (n : ℕ) (f : Datetime → Exec B)
      → ((t : Datetime) → Holds Q R (f t s))
      → Holds Q R ((now env n >>= f) s)
  unfolding now
  now-step env n f k = Holds-lift _ f s allow (ensure_aware-FailsBy (env.clock n)) λ t _. k t

  pub validate_scope-step :
      (scopes : Scopes) (required : String) (f : Unit {0} → Exec B)
      → (elem required scopes ≡ true → Holds Q R (f tt s))
      → Holds Q R ((validate_scope scopes required >>= f) s)
  unfolding validate_scope
  validate_scope-step scopes required f k = Holds-refuse _ _ f s (allow _ tt) λ e. k (ground arith)

  pub validate_scope_value-step :
      (value : String) (f : Unit {0} → Exec B)
      → Holds Q R (f tt s)
      → Holds Q R ((validate_scope_value value >>= f) s)
  unfolding validate_scope_value
  validate_scope_value-step value f k = Holds-refuse _ _ f s (allow _ tt) λ _. k

  pub owner-step :
      (owner : String) (f : String → Exec B)
      → ((o : String) → Holds Q R (f o s))
      → Holds Q R ((lift (validate_owner_id owner) >>= f) s)
  owner-step owner f k = Holds-lift _ f s allow (validate_owner_id-FailsBy owner) λ o _. k o

pub refuse-last :
    {R : Error → InMemoryStore → Type 0} (s : InMemoryStore) (b : Bool) (e : Error)
    → R e s
    → Holds (λ (_ : Unit {0}) t. (b ≡ false) × (t ≡ s)) R (refuse_if b e s)
unfolding refuse_if
refuse-last s true e r = Holds-err _ _ r
refuse-last s false e r = Holds-ok _ _ (refl, refl)

module _ {B : Type 0} {Q : B → InMemoryStore → Type 0} {R : Error → InMemoryStore → Type 0}
    (s : InMemoryStore) (allow : (e : Error) → IsExpected e → R e s) where
  pub validate_mutation_scope-step :
      (tenant owner : String) (revoked : Bool) (f : Unit {0} → Exec B)
      → (revoked ≡ false → Holds Q R (f tt s))
      → Holds Q R ((validate_mutation_scope tenant owner revoked >>= f) s)
  validate_mutation_scope-step tenant owner revoked f k =
      Holds-step (λ _. revoked ≡ false) (validate_mutation_scope tenant owner revoked) f s
        (unfold validate_mutation_scope in
          validate_scope_value-step s allow tenant _
            (owner-step s allow owner _ λ _. refuse-last s revoked connection_revoked (allow _ tt)))
        (λ _. k)

  -- the memory that a mutation starts from is in the store, at the version asked for
  pub current_at-step :
      (owner : String) (tenant : Option String) (id expected : ℕ) (f : Memory → Exec B)
      → ((m : Memory) → get owner tenant id s ≡ some m → m.version ≡ expected → Holds Q R (f m s))
      → Holds Q R ((current_at owner tenant id expected >>= f) s)
  current_at-step owner tenant id expected f k =
      Holds-step (λ m. (get owner tenant id s ≡ some m) × (m.version ≡ expected))
        (current_at owner tenant id expected) f s
        (unfold current_at in
          Holds-gets (get owner tenant id) _ s (
            Holds-some_or (get owner tenant id s) not_found _ s (allow _ tt) λ m found.
              Holds-refuse _ _ _ s (allow _ tt) λ fits.
                Holds-pure m s ((found, ground (arith, nat_eq.beq_iff m.version expected)), refl)))
        (λ m p. k m p.0 p.1)

pub some_or-last :
    {A : Type 0} (P : A → InMemoryStore → Type 0) {R : Error → InMemoryStore → Type 0}
    (o : Option A) (e : Error) (s : InMemoryStore)
    → R e s
    → ((a : A) → o ≡ some a → P a s)
    → Holds P R (some_or o e s)
unfolding some_or
some_or-last P none e s r k = Holds-err e s r
some_or-last P (some a) e s r k = Holds-ok a s (k a refl)

-- A replay answers with a version that the history has, and changes nothing.
pub replay_version-Holds :
    (owner : String) (tenant : Option String) (id expected : ℕ) (c : IdempotencyClaim)
    (s : InMemoryStore)
    → Holds
        (λ m t.
          (get_version owner tenant
              (or_else c.memory_id id)
              (version_or c.result_version expected)
              s
            ≡ some m)
          × (t ≡ s))
        Expects
        (replay_version owner tenant id expected c s)
unfolding replay_version
replay_version-Holds owner tenant id expected c s =
    Holds-gets _ _ s (some_or-last _ _ not_found s tt λ m e. (e, refl))

-- An evolved memory that was read from a well-formed store is written in its place.
pub Evolves-Succeeds :
    (s : InMemoryStore) (w : WellFormed s) (owner : String) (tenant : Option String) (id : Uuid)
    (c m : Memory) {time : Datetime} (changes : Changes)
    → get owner tenant id s ≡ some c
    → Evolves c m time changes
    → (lookup m.id s.memories ≡ some c) × Succeeds c m
Evolves-Succeeds s w owner tenant id c m changes g e =
    let (at, _) = get-some s owner tenant id c g in
    (
      ap (λ i. lookup i s.memories) (e.id ∙ w.keyed id c at) ∙ at,
      record {
        id = e.id;
        owner_id = e.owner_id;
        tenant_id = e.tenant_id;
        idempotency_key = e.idempotency_key;
        version = e.version;
        valid = e.valid;
      },
    )

pub persist-Holds :
    (env : Env) (s : InMemoryStore) (w : WellFormed s) (c m : Memory)
    → lookup m.id s.memories ≡ some c
    → Succeeds c m
    → (expected : ℕ) (reason : String)
    → Holds (λ a t. Follows s t × (a ≡ m)) Expects (persist env m expected reason s)
unfolding persist
persist-Holds env s w c m at next expected reason =
    embed_checked-step s (λ e p. p) env m.content false _
      λ v _ _.
        unfold snapshot in update-Holds s w c m at next (snapshot m reason) v refl refl expected

pub lift-last :
    {A : Type 0} {R : Error → InMemoryStore → Type 0} (s : InMemoryStore) (r : Result A)
    → ((e : Error) → IsExpected e → R e s)
    → FailsBy IsExpected r
    → Holds (λ _ t. Unit {0} × (t ≡ s)) R (lift r s)
unfolding lift
lift-last s (ok a) allow fails = Holds-ok a s (tt, refl)
lift-last s (err e) allow fails = Holds-err e s (allow e (fails.at e refl))
