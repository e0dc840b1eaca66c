-- ===== src/Application/WellFormed/Replacing.antt =====
-- A new version in the place of a memory keeps the invariant.
use umcp.Prelude.{
  ◌+◌, String, nat_eq, string_eq, option_eq, pair_eq, ◌==◌, ◌≡◌, sym, ap, ◌∙◌, some, List, [], ◌∷◌,
  ◌++◌, arith, inl, inr, Bool-cases,
}
use umcp.Dict.{lookup, insert}
use umcp.Dict.Laws.{
  lookup-insert, lookup-insert_self, lookup-insert_ne, lookup-insert_cases, lookup-insert_ne-none,
}
use umcp.Dict.Entries.{Every-map, Distinct-insert}
use umcp.Domain.Errors.{ok}
use umcp.Domain.Values.{Uuid}
use umcp.Domain.Memory.{Memory, MemoryVersion, make_memory}
use umcp.Application.Models.{Vector}
use umcp.Application.Store.{InMemoryStore}
use umcp.Application.Repository.{store_memory}
use umcp.Application.WellFormed.{WellFormed, Chain, Chain-append, Holder, Owned}

-- `m` is a next version of `c`: the same memory for every table but those of contents.
pub record Succeeds (c m : Memory) : Type 0 where
  pub id : m.id ≡ c.id
  pub owner_id : m.owner_id ≡ c.owner_id
  pub tenant_id : m.tenant_id ≡ c.tenant_id
  pub idempotency_key : m.idempotency_key ≡ c.idempotency_key
  pub version : m.version ≡ c.version + 1
  pub valid : make_memory m ≡ ok m

module _ (s : InMemoryStore) (w : WellFormed s) (c m : Memory)
    (at : lookup m.id s.memories ≡ some c) (next : Succeeds c m) where
  -- who holds what is as before
  Holder-before :
      (i : Uuid) (owner key : String)
      → Holder (insert m.id m s.memories) i owner key
      → Holder s.memories i owner key
  Holder-before i owner key (x, l, o, k) = elim (lookup-insert_cases m.id i m x s.memories l) [
    | inl (here, new) ↦ (
      c,
      cc,
      cc (next.owner_id, ap (λ (y : Memory). y.owner_id) new),
      cc (next.idempotency_key, ap (λ (y : Memory). y.idempotency_key) new),
    )
    | inr (_, old) ↦ (x, old, o, k)
  ]

  Holder-after :
      (i : Uuid) (owner key : String)
      → Holder s.memories i owner key
      → Holder (insert m.id m s.memories) i owner key
  Holder-after i owner key (x, l, o, k) = elim (Bool-cases (m.id == i)) [
    | inl here ↦
        let same : m.id ≡ i = (nat_eq.beq_iff m.id i).0 here in
        let e : c ≡ x = cc in
        (
          m,
          rw (← same) (lookup-insert_self m.id m s.memories),
          cc (next.owner_id, ap (λ (y : Memory). y.owner_id) e),
          cc (next.idempotency_key, ap (λ (y : Memory). y.idempotency_key) e),
        )
    | inr other ↦ (x, ground (arith, lookup-insert m.id i m s.memories), o, k)
  ]

  Owned-after :
      (i : Uuid) (owner : String)
      → Owned s.memories i owner
      → Owned (insert m.id m s.memories) i owner
  Owned-after i owner (x, l, o) = elim (Bool-cases (m.id == i)) [
    | inl here ↦
        let same : m.id ≡ i = (nat_eq.beq_iff m.id i).0 here in
        let e : c ≡ x = cc in
        (
          m,
          rw (← same) (lookup-insert_self m.id m s.memories),
          cc (next.owner_id, ap (λ (y : Memory). y.owner_id) e),
        )
    | inr other ↦ (x, ground (arith, lookup-insert m.id i m s.memories), o)
  ]

  module _ (vector : Vector) (v : MemoryVersion) (h : List MemoryVersion)
      (history : lookup m.id s.history_by_memory ≡ some h) (chain : Chain m.id 1 c.version h)
      (numbered : v.version ≡ m.version) (named : v.memory_id ≡ m.id) where
    recorded_after :
        (i : Uuid) (x : Memory)
        → lookup i (insert m.id m s.memories) ≡ some x
        → (g : List MemoryVersion) × (lookup i (insert m.id (h ++ v ∷ []) s.history_by_memory)
            ≡ some g)
          × Chain i 1 x.version g
    recorded_after i x l = elim (lookup-insert_cases m.id i m x s.memories l) [
      | inl (here, new) ↦ (
        h ++ v ∷ [],
        rw here (lookup-insert_self m.id (h ++ v ∷ []) s.history_by_memory),
        rw (here, new, next.version)
            (Chain-append m.id 1 c.version h v chain (numbered ∙ next.version) named),
      )
      | inr (other, old) ↦
          let (g, found, numbers) = w.recorded i x old in
          (g, lookup-insert_ne m.id i (h ++ v ∷ []) s.history_by_memory other ∙ found, numbers)
    ]

    pub store_memory-WellFormed : WellFormed (store_memory m vector (h ++ v ∷ []) s)
    store_memory-WellFormed = record {
      distinct = Distinct-insert m.id m s.memories w.distinct;
      keyed = λ i x l. elim (lookup-insert_cases m.id i m x s.memories l) [
        | inl (here, new) ↦ cc (ap (λ (y : Memory). y.id) new)
        | inr (_, old) ↦ w.keyed i x old
      ];
      valid = λ i x l. elim (lookup-insert_cases m.id i m x s.memories l) [
        | inl (here, new) ↦ rw new next.valid
        | inr (_, old) ↦ w.valid i x old
      ];
      vectored = λ i x l. elim (lookup-insert_cases m.id i m x s.memories l) [
        | inl (here, new) ↦ λ e. cc (here, lookup-insert_self m.id vector s.vectors)
        | inr (_, old) ↦ lookup-insert_ne-none m.id i vector s.vectors (w.vectored i x old)
      ];
      recorded = recorded_after;
      claimed = λ i x key l k. elim (lookup-insert_cases m.id i m x s.memories l) [
        | inl (here, new) ↦
            rw (new, next.owner_id)
              (w.claimed m.id c key at (sym next.idempotency_key ∙ (rw new at k)))
        | inr (_, old) ↦ w.claimed i x key old k
      ];
      held =
          λ owner key fp l. let (i, x) = w.held owner key fp l in (i, Holder-after i owner key x);
      unique = λ i j owner key x y.
          w.unique i j owner key (Holder-before i owner key x) (Holder-before j owner key y);
      related =
          Every-map s.relations
            (λ k r (e, a, b).
              (e, Owned-after r.source_id r.owner_id a, Owned-after r.target_id r.owner_id b))
            w.related;
      buried = λ i x l. elim (lookup-insert_cases m.id i m x s.memories l) [
        | inl (here, new) ↦ rw (here, new, next.owner_id, next.tenant_id) (w.buried m.id c at)
        | inr (_, old) ↦ w.buried i x old
      ];
    }
