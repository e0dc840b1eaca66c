-- ===== src/Application/Exec.antt =====
-- Coroutines on the store that may raise: what was written before a raise stays written, until a
-- unit of work undoes it.
pub mod Triple
use umcp.Prelude.{Bool, true, false, Option, none, some}
use umcp.Domain.Errors.{Error, Result, ok, err}
use umcp.Application.Store.{InMemoryStore}

abbrev pub Exec {ℓ} : Type ℓ → Type ℓ
Exec A = InMemoryStore → Result A × InMemoryStore

module _ {ℓ} {A : Type ℓ} where
  unfoldable pub pure : A → Exec A
  pure a s = (ok a, s)

  unfoldable pub raise : Error → Exec A
  raise e s = (err e, s)

  unfoldable pub lift : Result A → Exec A
  lift r s = (r, s)

  unfoldable pub gets : (InMemoryStore → A) → Exec A
  gets f s = (ok (f s), s)

  -- an expression that reads the store and may raise
  unfoldable pub reads : (InMemoryStore → Result A) → Exec A
  reads f s = (f s, s)

unfoldable pub modify : (InMemoryStore → InMemoryStore) → Exec (Unit {0})
modify f s = (ok tt, f s)

abbrev pub resume {ℓ κ} : {A : Type ℓ} {B : Type κ} → Result A → (A → Exec B) → Exec B
resume (ok a) f s = f a s
resume (err e) f s = (err e, s)

infixl 10 ◌>>=◌ ◌>>◌
-- Opening this opens the actions above too.
unfoldable pub ◌>>=◌ {ℓ κ} : {A : Type ℓ} {B : Type κ} → Exec A → (A → Exec B) → Exec B
unfolding pure raise lift gets reads modify
◌>>=◌ m f s = resume (m s).0 f (m s).1

abbrev pub ◌>>◌ {ℓ κ} : {A : Type ℓ} {B : Type κ} → Exec A → Exec B → Exec B
m >> n = m >>= λ _. n

-- `if bad: raise e`
unfoldable pub refuse_if : Bool → Error → Exec (Unit {0})
refuse_if true e s = (err e, s)
refuse_if false e s = (ok tt, s)

-- `if value is None: raise e`
unfoldable pub some_or {ℓ} : {A : Type ℓ} → Option A → Error → Exec A
some_or none e s = (err e, s)
some_or (some a) e s = (ok a, s)

abbrev pub settle {ℓ} :
    {A : Type ℓ} → InMemoryStore → Result A × InMemoryStore → Result A × InMemoryStore
settle s (ok a, s') = (ok a, s')
settle s (err e, s') = (err e, s)

-- `async with self._uow_factory() as uow`: `__aexit__` puts the snapshot of `__aenter__` back when
-- the block raises.
unfoldable pub transaction {ℓ} : {A : Type ℓ} → Exec A → Exec A
transaction m s = settle s (m s)
