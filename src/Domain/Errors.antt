-- ===== src/Domain/Errors.antt =====
-- src/omp/domain/errors.py: the stable errors, and the outcome of code that may raise. Messages
-- are left out: clients dispatch on the class and its code.
use mathlib.Core.Path.{subst}
use umcp.Prelude.{Bool, true, false, String, Option, none, some, ◌≡◌, refl, if◌then◌else◌}

-- One constructor for each subclass of `OMPError`; the last nine stand for what Python or the
-- embedding provider raises by itself, for `PermissionError` and for two of its subclasses.
pub data Error : Type 0 where
  omp_error validation_error not_found owner_access_denied invalid_state_transition : Error
  version_conflict idempotency_conflict idempotency_in_progress import_conflict : Error
  embedding_profile_mismatch relation_conflict storage_error consent_required : Error
  capture_disabled connection_revoked scope_denied space_forbidden : Error
  restore_blocked_by_tombstone : Error
  key_error stop_iteration type_error value_error provider_error : Error
  permission_error kms_unavailable recovery_unavailable runtime_error : Error

-- The attribute `code`; the errors of Python have none.
unfoldable pub error_code : Error → Option String
error_code omp_error = some "omp_error"
error_code validation_error = some "validation_error"
error_code not_found = some "not_found"
error_code owner_access_denied = some "owner_access_denied"
error_code invalid_state_transition = some "invalid_state_transition"
error_code version_conflict = some "version_conflict"
error_code idempotency_conflict = some "idempotency_conflict"
error_code idempotency_in_progress = some "idempotency_in_progress"
error_code import_conflict = some "import_conflict"
error_code embedding_profile_mismatch = some "embedding_profile_mismatch"
error_code relation_conflict = some "relation_conflict"
error_code storage_error = some "storage_error"
error_code consent_required = some "consent_required"
error_code capture_disabled = some "capture_disabled"
error_code connection_revoked = some "connection_revoked"
error_code scope_denied = some "scope_denied"
error_code space_forbidden = some "space_forbidden"
error_code restore_blocked_by_tombstone = some "restore_blocked_by_tombstone"
error_code _ = none

pub data Result {ℓ} (A : Type ℓ) : Type ℓ where
  err : Error → Result A
  ok : A → Result A

infixl 10 ◌>>=◌ ◌>>◌
unfoldable pub ◌>>=◌ {ℓ κ} : {A : Type ℓ} {B : Type κ} → Result A → (A → Result B) → Result B
err raised >>= k = err raised
ok value >>= k = k value

abbrev pub ◌>>◌ {ℓ κ} : {A : Type ℓ} {B : Type κ} → Result A → Result B → Result B
m >> k = m >>= λ _. k

-- `if bad: raise e`
abbrev pub raise_if : Bool → Error → Result (Unit {0})
raise_if true e = err e
raise_if false e = ok tt

-- a check whose result the caller discards, on an optional value
abbrev pub each {ℓ κ} : {A : Type ℓ} {B : Type κ} → Option A → (A → Result B) → Result (Unit {0})
each none f = ok tt
each (some a) f = f a >> ok tt

pub ok_injective {ℓ} : {A : Type ℓ} (a b : A) → ok a ≡ ok b → a ≡ b
ok_injective a b h = cc

-- A sequence that succeeds has a first part that succeeds.
module _ {ℓ κ} {X : Type ℓ} {Y : Type κ} where
  pub >>=-eq-ok :
      (r : Result X) (k : X → Result Y) {y : Y}
      → (r >>= k) ≡ ok y
      → (x : X) × (r ≡ ok x) × (k x ≡ ok y)
  unfolding ◌>>=◌
  >>=-eq-ok (err raised) k succeeded = cc
  >>=-eq-ok (ok x) k succeeded = (x, refl, succeeded)

err_injective {ℓ} : {A : Type ℓ} (d e : Error) → ◌≡◌ {A = Result A} (err d) (err e) → d ≡ e
err_injective d e h = cc

-- Every error that `r` raises satisfies `P`.
pub record FailsBy {ℓ} {A : Type ℓ} (P : Error → Type 0) (r : Result A) : Type ℓ where
  pub at : (e : Error) → r ≡ err e → P e

module _ {ℓ} {P : Error → Type 0} {A : Type ℓ} where
  pub FailsBy-ok : (a : A) → FailsBy P (ok a)
  FailsBy-ok a = record { at = λ e h. cc }

  pub FailsBy-err : (d : Error) → P d → FailsBy {A = A} P (err d)
  FailsBy-err d p = record { at = λ e h. subst P (err_injective d e h) p }

module _ {ℓ κ} {P : Error → Type 0} {A : Type ℓ} {B : Type κ} where
  pub FailsBy-bind :
      (m : Result A) (f : A → Result B)
      → FailsBy P m
      → ((a : A) → FailsBy P (f a))
      → FailsBy P (m >>= f)
  unfolding ◌>>=◌
  FailsBy-bind (ok a) f p q = q a
  FailsBy-bind (err e) f p q = FailsBy-err e (p.at e refl)

module _ {ℓ κ} {P : Error → Type 0} {A : Type ℓ} {B : Type κ} where
  pub FailsBy-each :
      (o : Option A) (f : A → Result B) → ((a : A) → FailsBy P (f a)) → FailsBy P (each o f)
  FailsBy-each none f q = FailsBy-ok tt
  FailsBy-each (some a) f q = FailsBy-bind (f a) (λ _. ok tt) (q a) (λ _. FailsBy-ok tt)

module _ {P : Error → Type 0} where
  pub FailsBy-raise_if : (b : Bool) (e : Error) → P e → FailsBy P (raise_if b e)
  FailsBy-raise_if true e p = FailsBy-err e p
  FailsBy-raise_if false e p = FailsBy-ok tt

module _ {ℓ} {P : Error → Type 0} {A : Type ℓ} where
  pub FailsBy-if :
      (b : Bool) (r q : Result A) → FailsBy P r → FailsBy P q → FailsBy P (if b then r else q)
  FailsBy-if true r q x y = x
  FailsBy-if false r q x y = y

pub ruleset fails_rules =
    (FailsBy-ok, FailsBy-err, FailsBy-bind, FailsBy-each, FailsBy-raise_if, FailsBy-if)

-- The errors that a caller can meet when requests run one after the other: those that the program
-- raises on purpose, but for an operation in progress, and those of the embedding provider.
abbrev pub IsExpected : Error → Type 0
IsExpected idempotency_in_progress = ⊥
IsExpected key_error = ⊥
IsExpected stop_iteration = ⊥
IsExpected type_error = ⊥
IsExpected value_error = ⊥
IsExpected permission_error = ⊥
IsExpected kms_unavailable = ⊥
IsExpected recovery_unavailable = ⊥
IsExpected runtime_error = ⊥
IsExpected _ = Unit
