-- ===== src/Application/WellFormed/Removing.antt =====
-- Forgetting a memory keeps the invariant.
use umcp.Prelude.{
  String, nat_eq, string_eq, option_eq, pair_eq, ◌≡◌, refl, sym, ap, ◌∙◌, ◌≢◌, true, Option, some,
  none, arith, inl, inr, Bool-cases,
}
use umcp.Text.{truthy}
use umcp.Dict.{Dict, lookup, erase}
use umcp.Dict.Laws.{lookup-erase_ne, lookup-erase-some}
use umcp.Dict.Entries.{Every-select, Distinct-erase}
use umcp.Domain.Values.{Uuid, Relation}
use umcp.Domain.Memory.{Memory}
use umcp.Domain.Memory.Construction.{key-truthy}
use umcp.Application.Store.{InMemoryStore, RelationKey, WriteKey}
use umcp.Application.Repository.{released, apart_from, without_memory}
use umcp.Application.WellFormed.{WellFormed, Holder, Owned, Linked}

-- what is released is the key, and nothing else
released-kept :
    (owner : String) (k : Option String) (fps : Dict WriteKey String) (o key : String)
    → ¬ ((owner ≡ o) × (k ≡ some key))
    → lookup (o, key) fps ≢ none
    → lookup (o, key) (released owner k fps) ≢ none
released-kept owner none fps o key other h = h
released-kept owner (some j) fps o key other h = elim (Bool-cases (truthy (some j))) [
  | inl used ↦ rw used (
      rw
        (lookup-erase_ne (owner, j) (o, key) fps
          (λ e. other (ap (λ (p : WriteKey). p.0) e, ap (λ (p : WriteKey). some p.1) e)))
        h)
  | inr empty ↦ rw empty h
]

released-only :
    (owner : String) (k : Option String) (fps : Dict WriteKey String) (o key fp : String)
    → ((j : String) → k ≡ some j → truthy (some j) ≡ true)
    → lookup (o, key) (released owner k fps) ≡ some fp
    → (lookup (o, key) fps ≡ some fp) × ¬ ((owner ≡ o) × (k ≡ some key))
released-only owner none fps o key fp used h = (h, λ p. cc (p.1))
released-only owner (some j) fps o key fp used h =
    let (other, old) = lookup-erase-some (owner, j) (o, key) fp fps (rw (used j refl) at h) in
    (old, λ p. let e : j ≡ key = cc (p.1) in other (λ i. (p.0 i, e i)))

module _ (s : InMemoryStore) (w : WellFormed s) (id : Uuid) (m : Memory)
    (at : lookup id s.memories ≡ some m) where
  truthy_key : (j : String) → m.idempotency_key ≡ some j → truthy (some j) ≡ true
  truthy_key j e = key-truthy m m j (w.valid id m at) e

  Owned-still :
      (i : Uuid) (owner : String)
      → id ≢ i
      → Owned s.memories i owner
      → Owned (erase id s.memories) i owner
  Owned-still i owner other (x, l, o) = (x, lookup-erase_ne id i s.memories other ∙ l, o)

  Holder-before :
      (i : Uuid) (owner key : String)
      → Holder (erase id s.memories) i owner key
      → (id ≢ i) × Holder s.memories i owner key
  Holder-before i owner key (x, l, o, k) =
      let (other, old) = lookup-erase-some id i x s.memories l in (other, (x, old, o, k))

  Linked-still :
      (k : RelationKey) (r : Relation)
      → apart_from id r ≡ true
      → Linked s.memories k r
      → Linked (erase id s.memories) k r
  Linked-still k r apart (e, a, b) = (
    e,
    Owned-still r.source_id r.owner_id (ground (arith)) a,
    Owned-still r.target_id r.owner_id (ground (arith)) b,
  )

  -- the forgotten memory is not the one that holds another's key
  pub without_memory-WellFormed : WellFormed (without_memory m id s)
  without_memory-WellFormed = record {
    distinct = Distinct-erase id s.memories w.distinct;
    keyed = λ i x l. w.keyed i x (lookup-erase-some id i x s.memories l).1;
    valid = λ i x l. w.valid i x (lookup-erase-some id i x s.memories l).1;
    vectored = λ i x l.
        let (other, old) = lookup-erase-some id i x s.memories l in
        rw (lookup-erase_ne id i s.vectors other) (w.vectored i x old);
    recorded = λ i x l.
        let (other, old) = lookup-erase-some id i x s.memories l in
        let (g, found, numbers) = w.recorded i x old in
        (g, lookup-erase_ne id i s.history_by_memory other ∙ found, numbers);
    claimed = λ i x key l k.
        let (other, old) = lookup-erase-some id i x s.memories l in
        released-kept m.owner_id m.idempotency_key s.fingerprints x.owner_id key
          (λ p. other (w.unique id i x.owner_id key (m, at, p.0, p.1) (x, old, refl, k)))
          (w.claimed i x key old k);
    held = λ owner key fp l.
        let (old, other) =
          released-only m.owner_id m.idempotency_key s.fingerprints owner key fp truthy_key l in
        let (i, holder) = w.held owner key fp old in
        let (x, lx, ox, kx) = holder in
        let apart : id ≢ i = λ e.
          let same : x ≡ m = cc (ap (λ j. lookup j s.memories) e) in
          other (
            ap (λ (y : Memory). y.owner_id) (sym same) ∙ ox,
            ap (λ (y : Memory). y.idempotency_key) (sym same) ∙ kx,
          ) in
        (i, (x, lookup-erase_ne id i s.memories apart ∙ lx, ox, kx));
    unique = λ i j owner key x y.
        w.unique i j owner key (Holder-before i owner key x).1 (Holder-before j owner key y).1;
    related = Every-select (apart_from id) s.relations Linked-still w.related;
    buried = λ i x l.
        let (other, old) = lookup-erase-some id i x s.memories l in
        ground (arith, w.buried i x old, nat_eq.beq_iff i id);
  }
