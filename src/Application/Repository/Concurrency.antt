-- ===== src/Application/Repository/Concurrency.antt =====
-- `update` of the in-memory repository: optimistic concurrency by the version of the memory.
use umcp.Prelude.{
  ℕ, ◌+◌, nat_eq, string_eq, ◌==◌, ==_refl, ◌≡◌, ◌≢◌, refl, sym, ap, ◌∙◌, ◌⊎◌, false, Option, none,
  some, List, [], ◌∷◌, ◌++◌, arith, inl, inr, Bool-cases,
}
use mathlib.Core.Bool.{true≢false}
use umcp.Dict.{lookup}
use umcp.Dict.Laws.{lookup-insert_self}
use umcp.Domain.Errors.{Error, Result, ok, err, not_found, version_conflict}
use umcp.Domain.Memory.{Memory, MemoryVersion}
use umcp.Application.Models.{Vector}
use umcp.Application.Store.{InMemoryStore}
use umcp.Application.Repository.{update, update_known}
use umcp.Application.WellFormed.{WellFormed}

-- The memory, its vector and its snapshot are stored over the version that the caller read.
pub record Replaced (m : Memory) (expected : ℕ) (v : MemoryVersion) (vector : Vector)
    (s : InMemoryStore) (x : Result Memory × InMemoryStore) : Type 0 where
  pub old : Memory
  pub read : lookup m.id s.memories ≡ some old
  pub owned : old.owner_id ≡ m.owner_id
  pub unchanged : old.version ≡ expected
  pub answer : x.0 ≡ ok m
  pub memory : lookup m.id x.1.memories ≡ some m
  pub embedded : lookup m.id x.1.vectors ≡ some vector
  pub history :
      (h : List MemoryVersion) × (lookup m.id s.history_by_memory ≡ some h)
      × (lookup m.id x.1.history_by_memory ≡ some (h ++ v ∷ []))

-- The owner has no such memory.
abbrev Unknown : Memory → InMemoryStore → Type 0
Unknown m s = (c : Memory) → lookup m.id s.memories ≡ some c → c.owner_id ≢ m.owner_id

-- Another version is stored.
abbrev Overtaken : Memory → ℕ → InMemoryStore → Type 0
Overtaken m expected s =
    (c : Memory) × (lookup m.id s.memories ≡ some c)
    × (c.owner_id ≡ m.owner_id)
    × (c.version ≢ expected)

abbrev pub Outcome :
    Memory → ℕ → MemoryVersion → Vector → InMemoryStore → Result Memory × InMemoryStore → Type 0
Outcome m expected v vector s x =
    Replaced m expected v vector s x
    ⊎ ((Unknown m s × (x ≡ (err not_found, s)))
        ⊎ (Overtaken m expected s × (x ≡ (err version_conflict, s))))

same_value : {A : Type 0} {a b : A} {o : Option A} → o ≡ some a → o ≡ some b → a ≡ b
same_value h k = cc

module _ (s : InMemoryStore) (w : WellFormed s) (m : Memory) (expected : ℕ) (v : MemoryVersion)
    (vector : Vector) where
  update_known-Outcome :
      (found : Option Memory)
      → lookup m.id s.memories ≡ found
      → Outcome m expected v vector s (update_known m expected v vector found s)
  unfolding update_known
  update_known-Outcome none e = inr (inl (λ c l. cc, refl))
  update_known-Outcome (some c) e = elim (Bool-cases (c.owner_id == m.owner_id)) [
    | inr other ↦ inr (
        inl (
          λ d l same. absurd (
              true≢false (
                sym (
                  (string_eq.beq_iff c.owner_id m.owner_id).1
                    (ap (λ (y : Memory). y.owner_id) (same_value e l) ∙ same))
                ∙ other)),
          rw other refl,
        ))
    | inl same ↦ elim (Bool-cases (c.version == expected)) [
      | inr stale ↦ inr (
          inr (
            (c, e, ground (arith, string_eq.beq_iff c.owner_id m.owner_id), ground arith),
            rw (same, stale) refl,
          ))
      | inl current ↦
          let (h, recorded, _) = w.recorded m.id c e in
          inl (
            rw (same, current, recorded)
              (record {
                old = c;
                read = e;
                owned = ground (arith, string_eq.beq_iff c.owner_id m.owner_id);
                unchanged = ground arith;
                answer = refl;
                memory = lookup-insert_self m.id m s.memories;
                embedded = lookup-insert_self m.id vector s.vectors;
                history = (h, recorded, lookup-insert_self m.id (h ++ v ∷ []) s.history_by_memory);
              }))
    ]
  ]

  -- An update is stored just when the caller's owner has the memory at the expected version; an
  -- unknown memory and an overtaken version are refused with their own errors and leave the store
  -- alone. The store is well formed.
  pub update-Outcome : Outcome m expected v vector s (update m expected v vector s)
  unfolding update
  update-Outcome = update_known-Outcome (lookup m.id s.memories) refl

ok≢err : {A : Type 0} {a : A} {e : Error} → ok a ≢ err e
ok≢err h = cc

later : (m : Memory) (expected : ℕ) → m.version ≡ expected + 1 → (m.version == expected) ≡ false
later m expected h = ground arith

-- Of two updates of one memory that start from the same version, the second is refused: no update
-- is lost. The store is well formed and the first update counts the version up.
pub update-refuses_second :
    (s t : InMemoryStore) (m n : Memory) (expected : ℕ) (v u : MemoryVersion) (a b : Vector)
    → WellFormed s
    → m.version ≡ expected + 1
    → n.id ≡ m.id
    → n.owner_id ≡ m.owner_id
    → update m expected v a s ≡ (ok m, t)
    → update n expected u b t ≡ (err version_conflict, t)
unfolding update update_known
update-refuses_second s t m n expected v u a b w next same owner done =
    elim (update-Outcome s w m expected v a) [
      | inl r ↦
          let stored =
            ap (λ (x : Result Memory × InMemoryStore). lookup m.id x.1.memories) (sym done)
            ∙ r.memory in
          rw (same, stored, owner, ==_refl m.owner_id, later m expected next) refl
      | inr (inl (_, refused)) ↦ absurd (
          ok≢err (
            sym (ap (λ (x : Result Memory × InMemoryStore). x.0) done)
            ∙ ap (λ (x : Result Memory × InMemoryStore). x.0) refused))
      | inr (inr (_, refused)) ↦ absurd (
          ok≢err (
            sym (ap (λ (x : Result Memory × InMemoryStore). x.0) done)
            ∙ ap (λ (x : Result Memory × InMemoryStore). x.0) refused))
    ]
