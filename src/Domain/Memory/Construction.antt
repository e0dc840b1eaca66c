-- ===== src/Domain/Memory/Construction.antt =====
-- What the construction of a memory guarantees.
use mathlib.Core.Path.{subst}
use umcp.Prelude.{
  ◌+◌, String, ◌≡◌, refl, sym, ap, ◌∙◌, Bool, true, false, Option, none, some, arith,
}
use umcp.Text.{normalize, is_blank, truthy, strip, lstrip, rstrip}
use umcp.Text.Normal.{normalize_idem, is_blank-normalize}
use umcp.Domain.Errors.{Result, ok, err, validation_error, ◌>>=◌, ◌>>◌, raise_if, >>=-eq-ok}
use umcp.Domain.Values.{Uuid, Datetime, ensure_aware, validate_idempotency_key}
use umcp.Domain.Memory.{
  Memory, Draft, Changes, or_old, make_memory, create, evolve, assert_transition, drafted, evolved,
}

-- A construction that succeeds gives the fields back with the content normalised.
pub make_memory-fields :
    (m m' : Memory) → make_memory m ≡ ok m' → m' ≡ record m { content = normalize m.content }
unfolding make_memory ◌>>=◌
make_memory-fields m m' h = ground arith

-- Built once, a memory passes its own validation unchanged.
pub make_memory_idem : (m m' : Memory) → make_memory m ≡ ok m' → make_memory m' ≡ ok m'
unfolding make_memory ◌>>=◌
make_memory_idem m m' h =
    rw (make_memory-fields m m' h)
      (ground (arith, normalize_idem m.content, is_blank-normalize m.content))

-- a guarded construction that succeeds has passed its guards
guarded-eq-ok :
    (a : Result (Unit {0})) (b : Bool) (t : Result Datetime) (f : Datetime → Result Memory)
    (m : Memory)
    → (a >> (raise_if b validation_error >> (t >>= f))) ≡ ok m
    → (x : Datetime) × (f x ≡ ok m) × (a ≡ ok tt) × (t ≡ ok x)
unfolding ◌>>=◌
guarded-eq-ok (err e) b t f m h = cc
guarded-eq-ok (ok _) true t f m h = cc
guarded-eq-ok (ok _) false (err e) f m h = cc
guarded-eq-ok (ok _) false (ok x) f m h = (x, h, refl, refl)

-- A successful evolution is an allowed transition, and builds the changed memory.
pub evolve-make_memory :
    (m m' : Memory) (now : Datetime) (c : Changes)
    → evolve m now c ≡ ok m'
    → (t : Datetime) × (make_memory (evolved m t c) ≡ ok m')
      × (assert_transition m.state (or_old c.state m.state) c.related_memory_id ≡ ok tt)
      × (ensure_aware now ≡ ok t)
unfolding evolve
evolve-make_memory m m' now c h =
    guarded-eq-ok (assert_transition m.state (or_old c.state m.state) c.related_memory_id)
      (is_blank c.change_reason) (ensure_aware now) (λ t. make_memory (evolved m t c)) m' h

pub create-make_memory :
    (d : Draft) (id : Uuid) (now : Datetime) (m : Memory)
    → create d id now ≡ ok m
    → (t : Datetime) × (make_memory (drafted d id t) ≡ ok m)
unfolding create
create-make_memory d id now m h =
    let (t, _, built) = >>=-eq-ok (ensure_aware now) (λ t. make_memory (drafted d id t)) h in
    (t, built)

-- The new value is the one given, or the old one when none was.
abbrev pub Takes {ℓ} : {A : Type ℓ} → Option A → A → A → Type ℓ
Takes none old new = new ≡ old
Takes (some given) old new = new ≡ given

-- a field that was set to `or_old given old` took what was given
Takes-or_old {ℓ} :
    {A : Type ℓ} (given : Option A) (old new : A) → new ≡ or_old given old → Takes given old new
Takes-or_old none old new e = e
Takes-or_old (some x) old new e = e

-- What an evolution at the time `now` keeps, and what it sets.
pub record Evolves (m m' : Memory) (now : Datetime) (c : Changes) : Type 0 where
  pub id : m'.id ≡ m.id
  pub owner_id : m'.owner_id ≡ m.owner_id
  pub tenant_id : m'.tenant_id ≡ m.tenant_id
  pub idempotency_key : m'.idempotency_key ≡ m.idempotency_key
  pub created_at : m'.created_at ≡ m.created_at
  pub capture_consent : m'.capture_consent ≡ m.capture_consent
  pub version : m'.version ≡ m.version + 1
  pub updated_at : ensure_aware now ≡ ok m'.updated_at
  pub content : (said : String) × Takes c.content m.content said × (m'.content ≡ normalize said)
  pub memory_type : Takes c.memory_type m.memory_type m'.memory_type
  pub importance : Takes c.importance m.importance m'.importance
  pub confidence : Takes c.confidence m.confidence m'.confidence
  pub state : Takes c.state m.state m'.state
  pub occurred_at : Takes c.occurred_at m.occurred_at m'.occurred_at
  pub space : Takes c.space m.space m'.space
  pub provenance : Takes c.provenance m.provenance m'.provenance
  pub embedding : Takes c.embedding m.embedding m'.embedding
  pub valid : make_memory m' ≡ ok m'

-- A successful evolution keeps the identity, owner, tenant, key, time of creation and consent, adds
-- one to the version, dates the change with the given time in UTC, and gives a memory that passes
-- its own validation unchanged. Content, type, importance, confidence, state, time of occurrence,
-- space, provenance and embedding are each the one given, or the old one when none was given; the
-- content is normalised.
pub evolve-Evolves :
    (m m' : Memory) (now : Datetime) (c : Changes) → evolve m now c ≡ ok m' → Evolves m m' now c
evolve-Evolves m m' now c h =
    let (t, built, moved, dated) = evolve-make_memory m m' now c h in
    let e = make_memory-fields (evolved m t c) m' built in
    record {
      id = ap (λ (x : Memory). x.id) e;
      owner_id = ap (λ (x : Memory). x.owner_id) e;
      tenant_id = ap (λ (x : Memory). x.tenant_id) e;
      idempotency_key = ap (λ (x : Memory). x.idempotency_key) e;
      created_at = ap (λ (x : Memory). x.created_at) e;
      capture_consent = ap (λ (x : Memory). x.capture_consent) e;
      version = ap (λ (x : Memory). x.version) e;
      updated_at = dated ∙ ap (λ (x : Memory). ok x.updated_at) (sym e);
      content = (
        or_old c.content m.content,
        Takes-or_old c.content m.content _ refl,
        ap (λ (x : Memory). x.content) e,
      );
      memory_type = Takes-or_old c.memory_type _ _ (ap (λ (x : Memory). x.memory_type) e);
      importance = Takes-or_old c.importance _ _ (ap (λ (x : Memory). x.importance) e);
      confidence = Takes-or_old c.confidence _ _ (ap (λ (x : Memory). x.confidence) e);
      state = Takes-or_old c.state _ _ (ap (λ (x : Memory). x.state) e);
      occurred_at = Takes-or_old c.occurred_at _ _ (ap (λ (x : Memory). x.occurred_at) e);
      space = Takes-or_old c.space _ _ (ap (λ (x : Memory). x.space) e);
      provenance = Takes-or_old c.provenance _ _ (ap (λ (x : Memory). x.provenance) e);
      embedding = Takes-or_old c.embedding _ _ (ap (λ (x : Memory). x.embedding) e);
      valid = make_memory_idem (evolved m t c) m' built;
    }

-- What a creation sets.
pub record Creates (d : Draft) (new_id : Uuid) (m : Memory) : Type 0 where
  pub id : m.id ≡ new_id
  pub owner_id : m.owner_id ≡ d.owner_id
  pub tenant_id : m.tenant_id ≡ d.tenant_id
  pub idempotency_key : m.idempotency_key ≡ d.idempotency_key
  pub version : m.version ≡ 1
  pub state : m.state ≡ d.initial_state
  pub embedding : m.embedding ≡ d.embedding
  pub content : m.content ≡ normalize d.content
  pub valid : make_memory m ≡ ok m

pub create-Creates :
    (d : Draft) (id : Uuid) (now : Datetime) (m : Memory) → create d id now ≡ ok m → Creates d id m
create-Creates d id now m h =
    let (t, built) = create-make_memory d id now m h in
    let e = make_memory-fields (drafted d id t) m built in
    record {
      id = ap (λ (x : Memory). x.id) e;
      owner_id = ap (λ (x : Memory). x.owner_id) e;
      tenant_id = ap (λ (x : Memory). x.tenant_id) e;
      idempotency_key = ap (λ (x : Memory). x.idempotency_key) e;
      version = ap (λ (x : Memory). x.version) e;
      state = ap (λ (x : Memory). x.state) e;
      embedding = ap (λ (x : Memory). x.embedding) e;
      content = ap (λ (x : Memory). x.content) e;
      valid = make_memory_idem (drafted d id t) m built;
    }

validated_key :
    (m m' : Memory)
    → make_memory m ≡ ok m'
    → (k : Option String) × (validate_idempotency_key m.idempotency_key ≡ ok k)
unfolding make_memory ◌>>=◌
validated_key m m' h = ground arith

used_key :
    (key : String) (k : Option String)
    → validate_idempotency_key (some key) ≡ ok k
    → truthy (some key) ≡ true
unfolding validate_idempotency_key strip lstrip rstrip ◌>>=◌
used_key String.[] k h = cc
used_key (String.◌∷◌ c key) k h = refl

-- A memory that passes validation has no empty idempotency key.
pub key-truthy :
    (m m' : Memory) (key : String)
    → make_memory m ≡ ok m'
    → m.idempotency_key ≡ some key
    → truthy (some key) ≡ true
key-truthy m m' key h e =
    let (k, checked) = validated_key m m' h in
    used_key key k (subst (λ o. validate_idempotency_key o ≡ ok k) e checked)
