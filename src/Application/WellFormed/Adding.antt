-- ===== src/Application/WellFormed/Adding.antt =====
-- A new memory under an identifier that was never used keeps the invariant.
use umcp.Prelude.{
  String, nat_eq, string_eq, option_eq, pair_eq, ◌≡◌, sym, ap, ◌∙◌, ◌≢◌, false, Option, some, none,
  List, [], ◌∷◌, elem, arith, inl, inr, ◌⊎◌,
}
use umcp.Dict.{Dict, lookup, insert}
use umcp.Dict.Laws.{
  lookup-insert_self, lookup-insert_ne, lookup-insert_cases, lookup-insert_ne-none,
}
use umcp.Dict.Entries.{Every-map, Distinct-insert}
use umcp.Domain.Errors.{ok}
use umcp.Domain.Values.{Uuid}
use umcp.Domain.Memory.{Memory, MemoryVersion, make_memory, snapshot}
use umcp.Application.Models.{Vector}
use umcp.Application.Store.{InMemoryStore, WriteKey}
use umcp.Application.Repository.{store_memory}
use umcp.Application.WellFormed.{WellFormed, Chain, Holder, Owned}

-- No memory stands under the identifier, and none that stood there was forgotten.
pub record IsFresh (id : Uuid) (s : InMemoryStore) : Type 0 where
  pub unused : lookup id s.memories ≡ none
  pub unburied :
      (owner : String) (tenant : Option String) → elem (owner, (tenant, id)) s.tombstones ≡ false

-- the store with the memory and another table of fingerprints
abbrev pub with_memory : Memory → Vector → Dict WriteKey String → InMemoryStore → InMemoryStore
with_memory m v fps s =
    store_memory m v (snapshot m "created" ∷ []) (record s { fingerprints = fps })

module _ (s : InMemoryStore) (w : WellFormed s) (m : Memory) (fresh : IsFresh m.id s)
    (valid : make_memory m ≡ ok m) (first : m.version ≡ 1) where
  other_than : (i : Uuid) (x : Memory) → lookup i s.memories ≡ some x → m.id ≢ i
  other_than i x l e = cc (fresh.unused, ap (λ j. lookup j s.memories) e)

  still :
      (i : Uuid) (x : Memory)
      → lookup i s.memories ≡ some x
      → lookup i (insert m.id m s.memories) ≡ some x
  still i x l = lookup-insert_ne m.id i m s.memories (other_than i x l) ∙ l

  Owned-still :
      (i : Uuid) (owner : String)
      → Owned s.memories i owner
      → Owned (insert m.id m s.memories) i owner
  Owned-still i owner (x, l, o) = (x, still i x l, o)

  module _ (vector : Vector) (fps : Dict WriteKey String)
      (kept : (owner key : String)
        → lookup (owner, key) s.fingerprints ≢ none
        → lookup (owner, key) fps ≢ none)
      (mine : (key : String) → m.idempotency_key ≡ some key → lookup (m.owner_id, key) fps ≢ none)
      (only : (owner key fp : String)
        → lookup (owner, key) fps ≡ some fp
        → (lookup (owner, key) s.fingerprints ≡ some fp)
          ⊎ ((m.owner_id ≡ owner) × (m.idempotency_key ≡ some key)))
      (unclaimed : (key : String)
        → m.idempotency_key ≡ some key
        → lookup (m.owner_id, key) s.fingerprints ≡ none) where
    -- no older memory carries the key of the new one
    clash :
        (owner key : String) (i j : Uuid)
        → Holder s.memories i owner key
        → m.owner_id ≡ owner
        → m.idempotency_key ≡ some key
        → ⊥
    clash owner key i j (x, l, o, k) mo mk = w.claimed i x key l k (rw (o, ← mo) (unclaimed key mk))

    unique_still :
        (i j : Uuid) (owner key : String)
        → Holder (insert m.id m s.memories) i owner key
        → Holder (insert m.id m s.memories) j owner key
        → i ≡ j
    unique_still i j owner key (x, lx, ox, kx) (y, ly, oy, ky) =
        elim (lookup-insert_cases m.id i m x s.memories lx) [
          | inl (hx, nx) ↦ elim (lookup-insert_cases m.id j m y s.memories ly) [
            | inl (hy, ny) ↦ hx ∙ sym hy
            | inr (_, ey) ↦ absurd (clash owner key j i (y, ey, oy, ky) (rw nx at ox) (rw nx at kx))
          ]
          | inr (_, ex) ↦ elim (lookup-insert_cases m.id j m y s.memories ly) [
            | inl (hy, ny) ↦
                absurd (clash owner key i j (x, ex, ox, kx) (rw ny at oy) (rw ny at ky))
            | inr (_, ey) ↦ w.unique i j owner key (x, ex, ox, kx) (y, ey, oy, ky)
          ]
        ]

    recorded_still :
        (i : Uuid) (x : Memory)
        → lookup i (insert m.id m s.memories) ≡ some x
        → (g : List MemoryVersion) × (lookup i
              (insert m.id (snapshot m "created" ∷ []) s.history_by_memory)
            ≡ some g)
          × Chain i 1 x.version g
    unfolding snapshot
    recorded_still i x l = elim (lookup-insert_cases m.id i m x s.memories l) [
      | inl (here, new) ↦ (
        snapshot m "created" ∷ [],
        rw here (lookup-insert_self m.id (snapshot m "created" ∷ []) s.history_by_memory),
        (first, sym here, rw (new, first) (omega arith)),
      )
      | inr (other, old) ↦
          let (g, found, numbers) = w.recorded i x old in
          (g, lookup-insert_ne m.id i _ s.history_by_memory other ∙ found, numbers)
    ]

    pub with_memory-WellFormed : WellFormed (with_memory m vector fps s)
    with_memory-WellFormed = record {
      distinct = Distinct-insert m.id m s.memories w.distinct;
      keyed = λ i x l. elim (lookup-insert_cases m.id i m x s.memories l) [
        | inl (here, new) ↦ cc (ap (λ (y : Memory). y.id) new)
        | inr (_, old) ↦ w.keyed i x old
      ];
      valid = λ i x l. elim (lookup-insert_cases m.id i m x s.memories l) [
        | inl (here, new) ↦ rw new valid
        | inr (_, old) ↦ w.valid i x old
      ];
      vectored = λ i x l. elim (lookup-insert_cases m.id i m x s.memories l) [
        | inl (here, new) ↦ λ e. cc (here, lookup-insert_self m.id vector s.vectors)
        | inr (_, old) ↦ lookup-insert_ne-none m.id i vector s.vectors (w.vectored i x old)
      ];
      recorded = recorded_still;
      claimed = λ i x key l k. elim (lookup-insert_cases m.id i m x s.memories l) [
        | inl (here, new) ↦ rw new (mine key (rw new at k))
        | inr (_, old) ↦ kept x.owner_id key (w.claimed i x key old k)
      ];
      held = λ owner key fp l. elim (only owner key fp l) [
        | inl old ↦
            let (i, holder) = w.held owner key fp old in
            let (x, lx, ox, kx) = holder in (i, (x, still i x lx, ox, kx))
        | inr (mo, mk) ↦ (m.id, (m, lookup-insert_self m.id m s.memories, mo, mk))
      ];
      unique = unique_still;
      related =
          Every-map s.relations
            (λ k r (e, a, b).
              (e, Owned-still r.source_id r.owner_id a, Owned-still r.target_id r.owner_id b))
            w.related;
      buried = λ i x l. elim (lookup-insert_cases m.id i m x s.memories l) [
        | inl (here, new) ↦ rw here (fresh.unburied x.owner_id x.tenant_id)
        | inr (_, old) ↦ w.buried i x old
      ];
    }

  -- without an idempotency key
  pub unkeyed-WellFormed :
      (vector : Vector)
      → m.idempotency_key ≡ none
      → WellFormed (with_memory m vector s.fingerprints s)
  unkeyed-WellFormed vector e =
      with_memory-WellFormed vector s.fingerprints (λ owner key h. h) (λ key k. cc)
        (λ owner key fp l. inl l) (λ key k. cc)

  -- with a key that no fingerprint was stored for
  pub keyed-WellFormed :
      (vector : Vector) (key fp : String)
      → m.idempotency_key ≡ some key
      → lookup (m.owner_id, key) s.fingerprints ≡ none
      → WellFormed (with_memory m vector (insert (m.owner_id, key) fp s.fingerprints) s)
  keyed-WellFormed vector key fp e free =
      with_memory-WellFormed vector (insert (m.owner_id, key) fp s.fingerprints)
        (λ owner j h. lookup-insert_ne-none (m.owner_id, key) (owner, j) fp s.fingerprints h)
        (λ j k h.
          let same : key ≡ j = cc in
          cc (h, same, lookup-insert_self (m.owner_id, key) fp s.fingerprints))
        (λ owner j f l.
          elim (lookup-insert_cases (m.owner_id, key) (owner, j) fp f s.fingerprints l) [
            | inl (here, _) ↦
                let same : j ≡ key = ap (λ (p : WriteKey). p.1) here in
                inr (sym (ap (λ (p : WriteKey). p.0) here), e ∙ ap some (sym same))
            | inr (_, old) ↦ inl old
          ])
        (λ j k. let same : key ≡ j = cc in rw same at free)
