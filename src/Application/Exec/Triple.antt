-- ===== src/Application/Exec/Triple.antt =====
-- What a call leaves behind, by how it ended; one rule for each way to build an action.
use mathlib.Core.Path.{subst}
use umcp.Prelude.{Bool, true, false, Option, none, some, ◌≡◌, refl, if◌then◌else◌}
use umcp.Domain.Errors.{Error, Result, ok, err, IsExpected, FailsBy}
use umcp.Application.Store.{InMemoryStore}
use umcp.Application.Exec.{
  Exec, pure, lift, gets, reads, ◌>>=◌, refuse_if, some_or, transaction, resume, settle,
}

-- `Q` holds of what the call returned and the store then, `R` of what it raised and the store then.
pub record Holds {A : Type 0} (Q : A → InMemoryStore → Type 0) (R : Error → InMemoryStore → Type 0)
    (x : Result A × InMemoryStore) : Type 0 where
  pub returned : (a : A) → x.0 ≡ ok a → Q a x.1
  pub raised : (e : Error) → x.0 ≡ err e → R e x.1

ok_injective : {A : Type 0} (a b : A) → ok a ≡ ok b → a ≡ b
ok_injective a b h = cc

err_injective : {A : Type 0} (d e : Error) → ◌≡◌ {A = Result A} (err d) (err e) → d ≡ e
err_injective d e h = cc

module _ {A : Type 0} {Q : A → InMemoryStore → Type 0} {R : Error → InMemoryStore → Type 0} where
  pub Holds-ok : (a : A) (s : InMemoryStore) → Q a s → Holds Q R (ok a, s)
  Holds-ok a s q = record {
    returned = λ b h. subst (λ x. Q x s) (ok_injective a b h) q;
    raised = λ e h. cc;
  }

  pub Holds-err : (e : Error) (s : InMemoryStore) → R e s → Holds Q R (err e, s)
  Holds-err e s r = record {
    returned = λ b h. cc;
    raised = λ d h. subst (λ x. R x s) (err_injective e d h) r;
  }

  pub Holds-pure : (a : A) (s : InMemoryStore) → Q a s → Holds Q R (pure a s)
  unfolding pure
  Holds-pure a s q = Holds-ok a s q

  pub Holds-if :
      (b : Bool) (m n : Exec A) (s : InMemoryStore)
      → (b ≡ true → Holds Q R (m s))
      → (b ≡ false → Holds Q R (n s))
      → Holds Q R ((if b then m else n) s)
  Holds-if true m n s hm hn = hm refl
  Holds-if false m n s hm hn = hn refl

module _ {A B : Type 0} {R : Error → InMemoryStore → Type 0} where
  resume-Holds :
      (P : A → InMemoryStore → Type 0) (Q : B → InMemoryStore → Type 0) (f : A → Exec B)
      (x : Result A) (t : InMemoryStore)
      → Holds P R (x, t)
      → ((a : A) → P a t → Holds Q R (f a t))
      → Holds Q R (resume x f t)
  resume-Holds P Q f (ok a) t h k = k a (h.returned a refl)
  resume-Holds P Q f (err e) t h k = Holds-err e t (h.raised e refl)

  -- the first part by a lemma of its own
  pub Holds-bind :
      (P : A → InMemoryStore → Type 0) {Q : B → InMemoryStore → Type 0} (m : Exec A)
      (f : A → Exec B) (s : InMemoryStore)
      → Holds P R (m s)
      → ((a : A) (t : InMemoryStore) → P a t → Holds Q R (f a t))
      → Holds Q R ((m >>= f) s)
  unfolding ◌>>=◌
  Holds-bind P {Q} m f s h k = resume-Holds P Q f (m s).0 (m s).1 h (λ a p. k a (m s).1 p)

module _ {A B : Type 0} {Q : B → InMemoryStore → Type 0} {R : Error → InMemoryStore → Type 0} where
  resumes :
      (r : Result A) (f : A → Exec B) (s : InMemoryStore)
      → ((e : Error) → r ≡ err e → R e s)
      → ((a : A) → r ≡ ok a → Holds Q R (f a s))
      → Holds Q R (resume r f s)
  resumes (ok a) f s fails k = k a refl
  resumes (err e) f s fails k = Holds-err e s (fails e refl)

  pub Holds-reads :
      (g : InMemoryStore → Result A) (f : A → Exec B) (s : InMemoryStore)
      → ((e : Error) → g s ≡ err e → R e s)
      → ((a : A) → g s ≡ ok a → Holds Q R (f a s))
      → Holds Q R ((reads g >>= f) s)
  unfolding ◌>>=◌
  Holds-reads g f s = resumes (g s) f s

  pub Holds-lift :
      (r : Result A) (f : A → Exec B) (s : InMemoryStore)
      → ((e : Error) → IsExpected e → R e s)
      → FailsBy IsExpected r
      → ((a : A) → r ≡ ok a → Holds Q R (f a s))
      → Holds Q R ((lift r >>= f) s)
  unfolding ◌>>=◌
  Holds-lift r f s allow fails = resumes r f s (λ e h. allow e (fails.at e h))

  pub Holds-gets :
      (g : InMemoryStore → A) (f : A → Exec B) (s : InMemoryStore)
      → Holds Q R (f (g s) s)
      → Holds Q R ((gets g >>= f) s)
  unfolding ◌>>=◌
  Holds-gets g f s h = h

  pub Holds-some_or :
      (o : Option A) (e : Error) (f : A → Exec B) (s : InMemoryStore)
      → R e s
      → ((a : A) → o ≡ some a → Holds Q R (f a s))
      → Holds Q R ((some_or o e >>= f) s)
  unfolding ◌>>=◌ some_or
  Holds-some_or none e f s r k = Holds-err e s r
  Holds-some_or (some a) e f s r k = k a refl

module _ {B : Type 0} {Q : B → InMemoryStore → Type 0} {R : Error → InMemoryStore → Type 0} where
  pub Holds-refuse :
      (b : Bool) (e : Error) (f : Unit {0} → Exec B) (s : InMemoryStore)
      → R e s
      → (b ≡ false → Holds Q R (f tt s))
      → Holds Q R ((refuse_if b e >>= f) s)
  unfolding ◌>>=◌ refuse_if
  Holds-refuse true e f s r k = Holds-err e s r
  Holds-refuse false e f s r k = k refl

-- What a transaction raises has changed nothing.
abbrev pub RolledBack : (Error → Type 0) → InMemoryStore → Error → InMemoryStore → Type 0
RolledBack E s e t = E e × (t ≡ s)

module _ {A : Type 0} {Q : A → InMemoryStore → Type 0} {E : Error → Type 0} where
  settle-Holds :
      (s : InMemoryStore) (r : Result A) (t : InMemoryStore)
      → Holds Q (λ e _. E e) (r, t)
      → Holds Q (RolledBack E s) (settle s (r, t))
  settle-Holds s (ok a) t h = Holds-ok a t (h.returned a refl)
  settle-Holds s (err e) t h = Holds-err e s (h.raised e refl, refl)

  pub Holds-transaction :
      (m : Exec A) (s : InMemoryStore)
      → Holds Q (λ e _. E e) (m s)
      → Holds Q (RolledBack E s) (transaction m s)
  unfolding transaction
  Holds-transaction m s h = settle-Holds s (m s).0 (m s).1 h

pub Holds-map :
    {A : Type 0} {Q P : A → InMemoryStore → Type 0} {R : Error → InMemoryStore → Type 0}
    (x : Result A × InMemoryStore)
    → ((a : A) (t : InMemoryStore) → P a t → Q a t)
    → Holds P R x
    → Holds Q R x
Holds-map x f h = record { returned = λ a e. f a x.1 (h.returned a e); raised = h.raised }
