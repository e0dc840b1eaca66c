-- ===== src/Application/WellFormed/Reading.antt =====
-- In a well-formed store the calls of the repository raise deliberate errors only, and keep the
-- store well formed. None of them touches the table of operations.
use umcp.Prelude.{
  ℕ, String, nat_eq, string_eq, option_eq, pair_eq, ◌==◌, ==_refl, ◌≡◌, refl, Option, some, none,
  arith, inl, inr, Bool-cases, Option-cases,
}
use umcp.Dict.{Dict, lookup, insert, find}
use umcp.Dict.Entries.{Every-insert, find-of_lookup}
use umcp.Domain.Errors.{Error, ok, IsExpected, FailsBy, FailsBy-ok}
use umcp.Domain.Values.{Uuid, Relation}
use umcp.Domain.Memory.{Memory, MemoryVersion, make_memory}
use umcp.Domain.Memory.Construction.{key-truthy}
use umcp.Application.Models.{Vector}
use umcp.Application.Store.{InMemoryStore, relation_key}
use umcp.Application.Exec.Triple.{Holds, Holds-ok, Holds-err}
use umcp.Application.Repository.{
  get, visible, holds_key, find_by_idempotency_key, create, create_with_key, create_keyed, update,
  update_known, forget, forget_known, add_relation, relate_known,
}
use umcp.Application.WellFormed.{WellFormed, Holder, Linked, with_relations-WellFormed}
use umcp.Application.WellFormed.Replacing.{Succeeds, store_memory-WellFormed}
use umcp.Application.WellFormed.Adding.{IsFresh, unkeyed-WellFormed, keyed-WellFormed}
use umcp.Application.WellFormed.Removing.{without_memory-WellFormed}

-- The store `t` is well formed, and its operations are those of `s`.
pub record Follows (s t : InMemoryStore) : Type 0 where
  pub well : WellFormed t
  pub operations : t.idempotency_operations ≡ s.idempotency_operations

abbrev pub Expects : Error → InMemoryStore → Type 0
Expects e t = IsExpected e

pub Follows-refl : (s : InMemoryStore) → WellFormed s → Follows s s
Follows-refl s w = record { well = w; operations = refl }

Holder-found :
    (memories : Dict Uuid Memory) (i : Uuid) (owner key : String)
    → Holder memories i owner key
    → (x : Memory) × (find (holds_key owner key) memories ≡ some x)
Holder-found memories i owner key (m, l, o, k) =
    find-of_lookup (holds_key owner key) i memories l (rw (o, k, ==_refl owner, ==_refl key))

-- What `get` returns stands in the store and belongs to the owner.
pub get-some :
    (s : InMemoryStore) (owner : String) (tenant : Option String) (id : Uuid) (m : Memory)
    → get owner tenant id s ≡ some m
    → (lookup id s.memories ≡ some m) × (m.owner_id ≡ owner)
unfolding get
get-some s owner tenant id m h = elim (Option-cases (lookup id s.memories)) [
  | inl absent ↦ ground arith
  | inr (x, found) ↦ ground (arith, string_eq.beq_iff x.owner_id owner)
]

-- `next(…)` finds the memory that a fingerprint was stored for.
pub find_by_idempotency_key-FailsBy :
    (owner key : String) (s : InMemoryStore)
    → WellFormed s
    → FailsBy IsExpected (find_by_idempotency_key owner key s)
unfolding find_by_idempotency_key
find_by_idempotency_key-FailsBy owner key s w =
    elim (Option-cases (lookup (owner, key) s.fingerprints)) [
      | inl unused ↦ rw (unused, find_by_idempotency_key) (FailsBy-ok none)
      | inr (fp, used) ↦
          let (i, holder) = w.held owner key fp used in
          let (x, found) = Holder-found s.memories i owner key holder in
          rw (used, found, find_by_idempotency_key) (FailsBy-ok _)
    ]

module _ (s : InMemoryStore) (w : WellFormed s) (m : Memory) (fp : String) (v : Vector)
    (fresh : IsFresh m.id s) (valid : make_memory m ≡ ok m) (first : m.version ≡ 1) where
  keyed-Holds :
      (key : String) (prior : Option String)
      → m.idempotency_key ≡ some key
      → lookup (m.owner_id, key) s.fingerprints ≡ prior
      → Holds (λ _ t. Follows s t) Expects (create_keyed m fp v key prior s)
  unfolding create_keyed
  keyed-Holds key none e l =
      Holds-ok _ _
        (record { well = keyed-WellFormed s w m fresh valid first v key fp e l; operations = refl })
  keyed-Holds key (some p) e l = elim (Bool-cases (p == fp)) [
    | inl same ↦
        let (i, holder) = w.held m.owner_id key p l in
        let (x, found) = Holder-found s.memories i m.owner_id key holder in
        rw (same, found) (Holds-ok _ _ (Follows-refl s w))
    | inr other ↦ rw other (Holds-err _ _ tt)
  ]

  with_key-Holds :
      (k : Option String)
      → m.idempotency_key ≡ k
      → Holds (λ _ t. Follows s t) Expects (create_with_key m fp v k s)
  unfolding create_with_key
  with_key-Holds none e =
      Holds-ok _ _
        (record { well = unkeyed-WellFormed s w m fresh valid first v e; operations = refl })
  with_key-Holds (some key) e =
      rw (key-truthy m m key valid e)
        (keyed-Holds key (lookup (m.owner_id, key) s.fingerprints) e refl)

  pub create-Holds : Holds (λ _ t. Follows s t) Expects (create m fp v s)
  unfolding create
  create-Holds = with_key-Holds m.idempotency_key refl

module _ (s : InMemoryStore) (w : WellFormed s) (c m : Memory)
    (at : lookup m.id s.memories ≡ some c) (next : Succeeds c m) (v : MemoryVersion)
    (vector : Vector) (numbered : v.version ≡ m.version) (named : v.memory_id ≡ m.id) where
  known-Holds :
      (expected : ℕ)
      → Holds (λ a t. Follows s t × (a ≡ m)) Expects (update_known m expected v vector (some c) s)
  unfolding update_known
  known-Holds expected = elim (Bool-cases (c.owner_id == m.owner_id)) [
    | inr other ↦ rw other (Holds-err _ _ tt)
    | inl same ↦ elim (Bool-cases (c.version == expected)) [
      | inr stale ↦ rw (same, stale) (Holds-err _ _ tt)
      | inl current ↦
          let (h, found, chain) = w.recorded m.id c at in
          rw (same, current, found)
            (Holds-ok _ _ (
              record {
                well =
                    store_memory-WellFormed s w c m at next vector v h found chain numbered named;
                operations = refl;
              },
              refl,
            ))
    ]
  ]

  pub update-Holds :
      (expected : ℕ) → Holds (λ a t. Follows s t × (a ≡ m)) Expects (update m expected v vector s)
  unfolding update
  update-Holds expected = rw at (known-Holds expected)

module _ (s : InMemoryStore) (w : WellFormed s) where
  forget_known-Holds :
      (owner : String) (tenant : Option String) (id : Uuid) (found : Option Memory)
      → lookup id s.memories ≡ found
      → Holds (λ _ t. Follows s t) Expects (forget_known owner tenant id found s)
  unfolding forget_known
  forget_known-Holds owner tenant id none e = Holds-ok _ _ (Follows-refl s w)
  forget_known-Holds owner tenant id (some m) e = elim (Bool-cases (visible owner tenant m)) [
    | inl seen ↦
        rw seen
          (Holds-ok _ _ (record { well = without_memory-WellFormed s w id m e; operations = refl }))
    | inr hidden ↦ rw hidden (Holds-ok _ _ (Follows-refl s w))
  ]

  pub forget-Holds :
      (owner : String) (tenant : Option String) (id : Uuid)
      → Holds (λ _ t. Follows s t) Expects (forget owner tenant id s)
  unfolding forget
  forget-Holds owner tenant id = forget_known-Holds owner tenant id (lookup id s.memories) refl

  relate_known-Holds :
      (r : Relation) (source target : Option Memory) (known : Option Relation)
      → get r.owner_id none r.source_id s ≡ source
      → get r.owner_id none r.target_id s ≡ target
      → Holds (λ _ t. Follows s t) Expects (relate_known r source target known s)
  unfolding relate_known
  relate_known-Holds r none target known ea eb = Holds-err _ _ tt
  relate_known-Holds r (some a) none known ea eb = Holds-err _ _ tt
  relate_known-Holds r (some a) (some b) (some old) ea eb = Holds-err _ _ tt
  relate_known-Holds r (some a) (some b) none ea eb =
      let (la, oa) = get-some s r.owner_id none r.source_id a ea in
      let (lb, ob) = get-some s r.owner_id none r.target_id b eb in
      Holds-ok _ _ (record {
        well =
            with_relations-WellFormed s (insert (relation_key r) r s.relations)
              s.idempotency_operations w
              (Every-insert (Linked s.memories) (relation_key r) r s.relations
                (refl, (a, la, oa), (b, lb, ob)) w.related);
        operations = refl;
      })

  pub add_relation-Holds : (r : Relation) → Holds (λ _ t. Follows s t) Expects (add_relation r s)
  unfolding add_relation
  add_relation-Holds r =
      relate_known-Holds r (get r.owner_id none r.source_id s) (get r.owner_id none r.target_id s)
        (lookup (relation_key r) s.relations) refl refl
