-- ===== src/Application/Services/Repeating.antt =====
-- `write` with an idempotency key, sent twice.
use mathlib.Core.Path.{subst}
use mathlib.Core.Bool.{true≢false}
use umcp.Prelude.{
  String, Eq, nat_eq, string_eq, option_eq, pair_eq, ==_refl, ◌≡◌, refl, sym, ap, ◌∙◌, Bool, true,
  false, Option, none, some, [], ◌∷◌, arith, inl, inr, Option-cases,
}
use umcp.Text.{truthy}
use umcp.Dict.{Dict, lookup, insert, find}
use umcp.Dict.Laws.{lookup-insert_self}
use umcp.Dict.Entries.{lookup-of_find, find-passes}
use umcp.Domain.Errors.{ok, IsExpected}
use umcp.Domain.Failures.{make_descriptor-FailsBy, create-FailsBy, validate_owner_id-FailsBy}
use umcp.Domain.Values.{Datetime, ensure_aware, validate_owner_id}
use umcp.Domain.Memory.{Memory}
use umcp.Domain.Memory.Construction.{create-Creates}
use umcp.Application.Models.{WriteMemoryCommand, WriteMemoryResult, IdempotencyLookup, Vector}
use umcp.Application.Canonical.{canonical_write_command}
use umcp.Application.Store.{InMemoryStore}
use umcp.Application.Exec.{pure, lift, reads, ◌>>=◌, refuse_if, transaction}
use umcp.Application.Exec.Triple.{
  Holds, Holds-ok, Holds-pure, Holds-if, Holds-lift, Holds-reads, Holds-refuse, Holds-transaction,
  Holds-map, RolledBack,
}
use umcp.Application.Repository
use umcp.Application.Repository.{
  find_by_idempotency_key, holds_key, create_with_key, create_keyed, add_memory,
}
use umcp.Application.Services.{Env, now}
use umcp.Application.Services.Writing.{write, write_keyed, prior_or, store_new, write_draft}
use umcp.Application.Services.Steps.{now-step, embed_checked-step, Holds-step}
use umcp.Application.Idempotency.Settling.{Inv}
use umcp.Application.WellFormed.{WellFormed}
use umcp.Application.WellFormed.Adding.{IsFresh}
use umcp.Application.WellFormed.Reading.{Expects, find_by_idempotency_key-FailsBy}

find-insert :
    {K V : Type 0} ⦃e : Eq K⦄ (p : V → Bool) (k : K) (v : V) (d : Dict K V)
    → lookup k d ≡ none
    → find p d ≡ none
    → p v ≡ true
    → find p (insert k v d) ≡ some v
unfolding find insert lookup
find-insert p k v [] a b q = rw q refl
find-insert p k v ((j, w) ∷ d) a b q = ground (arith, find-insert p k v d)

-- a key without a fingerprint is the key of no memory
unclaimed :
    (s : InMemoryStore)
    → WellFormed s
    → (owner key : String) → lookup (owner, key) s.fingerprints ≡ none
    → find (holds_key owner key) s.memories ≡ none
unclaimed s w owner key free = elim (Option-cases (find (holds_key owner key) s.memories)) [
  | inl nobody ↦ nobody
  | inr (x, found) ↦
      let (i, at) = lookup-of_find (holds_key owner key) x s.memories w.distinct found in
      let passed = find-passes (holds_key owner key) x s.memories found in
      absurd (
        w.claimed i x key at
          (ground
            (arith, (option_eq {A = String} ⦃e = string_eq⦄).beq_iff x.idempotency_key (some key)))
          (ap (λ o. lookup (o, key) s.fingerprints)
              (ground (arith, string_eq.beq_iff x.owner_id owner))
            ∙ free))
]

unused_key :
    (owner key : String) (s : InMemoryStore)
    → find_by_idempotency_key owner key s ≡ ok none
    → lookup (owner, key) s.fingerprints ≡ none
unfolding find_by_idempotency_key
unused_key owner key s h = ground arith

-- The key finds the memory of the result, under the fingerprint.
abbrev pub Finds : String → String → String → WriteMemoryResult → InMemoryStore → Type 0
Finds owner key fp r t =
    find_by_idempotency_key owner key t ≡ ok (some (record { memory = r.memory; fingerprint = fp }))

module _ (s : InMemoryStore) (w : WellFormed s) (m : Memory) (key fp : String) (v : Vector)
    (keyed : m.idempotency_key ≡ some key) (fresh : lookup m.id s.memories ≡ none)
    (free : lookup (m.owner_id, key) s.fingerprints ≡ none) where
  holds : holds_key m.owner_id key m ≡ true
  holds = rw (==_refl m.owner_id, keyed, ==_refl key) refl

  added-Finds :
      find_by_idempotency_key m.owner_id key (record s {
        memories = insert m.id m s.memories;
        fingerprints = insert (m.owner_id, key) fp s.fingerprints;
      })
      ≡ ok (some (record { memory = m; fingerprint = fp }))
  unfolding find_by_idempotency_key
  added-Finds =
      rw
        (
          find_by_idempotency_key,
          lookup-insert_self (m.owner_id, key) fp s.fingerprints,
          find-insert (holds_key m.owner_id key) m.id m s.memories fresh
              (unclaimed s w m.owner_id key free) holds,
        )
        refl

  with_key-Finds :
      truthy (some key) ≡ true
      → Holds (Finds m.owner_id key fp) Expects (create_with_key m fp v (some key) s)
  unfolding create_with_key create_keyed add_memory find_by_idempotency_key
  with_key-Finds used = rw (used, free) (Holds-ok _ _ added-Finds)

  create-Finds :
      truthy (some key) ≡ true
      → Holds (Finds m.owner_id key fp) Expects (Repository.create m fp v s)
  unfolding Repository.create
  create-Finds used =
      subst (λ k. Holds (Finds m.owner_id key fp) Expects (create_with_key m fp v k s)) (sym keyed)
        (with_key-Finds used)

-- What the first of two writes leaves for the second.
abbrev pub Recorded :
    WriteMemoryCommand → String → String → WriteMemoryResult → InMemoryStore → Type 0
Recorded c key fp r t =
    Finds c.owner_id key fp r t × ((o : String) × (validate_owner_id c.owner_id ≡ ok o))

module _ (env : Env) (s : InMemoryStore) (i : Inv s) (fresh : IsFresh env.new_id s)
    (c : WriteMemoryCommand) (key : String) (keyed : c.idempotency_key ≡ some key)
    (used : truthy (some key) ≡ true) where
  store_new-Finds :
      (fp : String) (time : Datetime)
      → lookup (c.owner_id, key) s.fingerprints ≡ none
      → Holds (Finds c.owner_id key fp) Expects (store_new env fp (write_draft c) (pure time) s)
  unfolding store_new
  store_new-Finds fp time free =
      embed_checked-step s (λ e p. p) env c.content false _
        λ v _ _.
          Holds-lift _ _ s (λ e p. p) (make_descriptor-FailsBy env.profile)
            λ descriptor _.
              Holds-step (λ _. Unit {0}) (pure time) _ s (Holds-pure time s (tt, refl))
                λ stamp _.
                  Holds-lift _ _ s (λ e p. p) (create-FailsBy _ env.new_id stamp)
                    λ m e.
                      let made = create-Creates _ env.new_id stamp m e in
                      subst (λ o. Holds (Finds o key fp) Expects (Repository.create m fp v s))
                        made.owner_id
                        (create-Finds s i.well m key fp v (made.idempotency_key ∙ keyed)
                          (ap (λ x. lookup x s.memories) made.id ∙ fresh.unused)
                          (ap (λ o. lookup (o, key) s.fingerprints) made.owner_id ∙ free) used)

  prior_or-Finds :
      (fp : String) (time : Datetime) (prior : Option IdempotencyLookup)
      → find_by_idempotency_key c.owner_id key s ≡ ok prior
      → Holds
          (Finds c.owner_id key fp)
          Expects
          (prior_or (store_new env fp (write_draft c) (pure time)) fp prior s)
  prior_or-Finds fp time none e = store_new-Finds fp time (unused_key c.owner_id key s e)
  prior_or-Finds fp time (some p) e = Holds-refuse _ _ _ s tt λ same. Holds-pure _ s (
      e
      ∙ ap (λ f. ok (some (record { memory = p.memory; fingerprint = f })))
          (ground (arith, string_eq.beq_iff p.fingerprint fp)))

  keyed-Finds :
      (fp : String) (time : Datetime)
      → Holds
          (Finds c.owner_id key fp)
          Expects
          (write_keyed c.owner_id fp (store_new env fp (write_draft c) (pure time)) (some key) s)
  keyed-Finds fp time =
      Holds-if (truthy (some key)) _ _ s
        (λ _.
          Holds-reads _ _ s (λ e. (find_by_idempotency_key-FailsBy c.owner_id key s i.well).at e)
            λ prior found. prior_or-Finds fp time prior found)
        (λ empty. absurd (true≢false (sym used ∙ empty)))

  pub write-Recorded :
      Holds
        (Recorded c key (env.digest (canonical_write_command c)))
        (RolledBack IsExpected s)
        (write env c s)
  unfolding write
  write-Recorded =
      Holds-lift _ _ s (λ e p. (p, refl)) (validate_owner_id-FailsBy c.owner_id)
        λ o valid.
          now-step s (λ e p. (p, refl)) env 0 _
            λ time. Holds-transaction _ s (
              subst
                (λ k. Holds (Recorded c key (env.digest (canonical_write_command c))) Expects (
                  write_keyed c.owner_id (env.digest (canonical_write_command c))
                    (store_new env (env.digest (canonical_write_command c)) (write_draft c)
                      (pure time))
                    k s))
                (sym keyed) (Holds-map _ (λ r t f. (f, (o, valid))) (keyed-Finds _ time)))

-- A write whose key the store knows, under the same fingerprint.
write-found :
    (env : Env) (c : WriteMemoryCommand) (key : String) (t : InMemoryStore) (m : Memory)
    (o : String) (d : Datetime)
    → c.idempotency_key ≡ some key
    → truthy (some key) ≡ true
    → validate_owner_id c.owner_id ≡ ok o
    → ensure_aware (env.clock 0) ≡ ok d
    → find_by_idempotency_key c.owner_id key t
      ≡ ok (some (record { memory = m; fingerprint = env.digest (canonical_write_command c) }))
    → write env c t ≡ (ok (record { memory = m; created = false }), t)
unfolding write ◌>>=◌ lift now reads transaction refuse_if pure canonical_write_command
write-found env c key t m o d keyed used valid aware found =
    rw (valid, aware, keyed, used, found, ==_refl (env.digest (canonical_write_command c))) refl

-- A write that succeeded under a key, sent again by a service with the same digest whose clock gives
-- an aware time, returns the memory of the first answer as not created, and changes nothing. The
-- first service's new identifier is fresh and the store is one between transactions.
pub write-repeats :
    (env again : Env) (s t : InMemoryStore) (c : WriteMemoryCommand) (key : String)
    (r : WriteMemoryResult) (d : Datetime)
    → Inv s
    → IsFresh env.new_id s
    → c.idempotency_key ≡ some key
    → truthy (some key) ≡ true
    → again.digest ≡ env.digest
    → ensure_aware (again.clock 0) ≡ ok d
    → write env c s ≡ (ok r, t)
    → write again c t ≡ (ok (record { memory = r.memory; created = false }), t)
write-repeats env again s t c key r d i fresh keyed used same aware wrote =
    let h = (write-Recorded env s i fresh c key keyed used).returned r (ap (λ x. x.0) wrote) in
    let (found, (o, valid)) =
      subst (Recorded c key (env.digest (canonical_write_command c)) r) (ap (λ x. x.1) wrote) h in
    write-found again c key t r.memory o d keyed used valid aware (
      found
      ∙ ap
          (λ g.
            ok (some (record { memory = r.memory; fingerprint = g (canonical_write_command c) })))
          (sym same))
