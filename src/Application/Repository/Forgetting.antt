-- ===== src/Application/Repository/Forgetting.antt =====
-- What `forget` of the in-memory repository leaves.
use umcp.Prelude.{
  String, nat_eq, string_eq, option_eq, pair_eq, ◌==◌, ==_refl, ◌≡◌, refl, ◌∙◌, Bool, true, false,
  Option, none, some, [], ◌∷◌, elem, ◌⊎◌, inl, inr, Bool-cases,
}
use umcp.Dict.{Dict, lookup}
use umcp.Dict.Laws.{lookup-erase_self, lookup-erase}
use umcp.Dict.Entries.{Every, Every-select}
use umcp.Domain.Errors.{Result, ok}
use umcp.Domain.Values.{Uuid}
use umcp.Domain.Memory.{Memory}
use umcp.Application.Store.{InMemoryStore, Tombstone}
use umcp.Application.Repository.{forget, forget_known, visible, get, without_memory, apart_from}

-- Nothing of the memory is left but its tombstone, and other memories stay.
pub record Erased (m : Memory) (id : Uuid) (s t : InMemoryStore) : Type 0 where
  pub memory : lookup id t.memories ≡ none
  pub vector : lookup id t.vectors ≡ none
  pub history : lookup id t.history_by_memory ≡ none
  pub relations : Every (λ _ r. apart_from id r ≡ true) t.relations
  pub tombstone : elem (m.owner_id, (m.tenant_id, id)) t.tombstones ≡ true
  pub others : (j : Uuid) → (id == j) ≡ false → lookup j t.memories ≡ lookup j s.memories

Every-trivial : {K V : Type 0} (d : Dict K V) → Every (λ _ _. Unit {0}) d
Every-trivial [] = tt
Every-trivial ((k, v) ∷ d) = (tt, Every-trivial d)

without_memory-Erased :
    (m : Memory) (id : Uuid) (s : InMemoryStore) → Erased m id s (without_memory m id s)
without_memory-Erased m id s = record {
  memory = lookup-erase_self id s.memories;
  vector = lookup-erase_self id s.vectors;
  history = lookup-erase_self id s.history_by_memory;
  relations =
      Every-select (apart_from id) s.relations (λ k r apart _. apart) (Every-trivial s.relations);
  tombstone = rw (==_refl {A = Tombstone} (m.owner_id, (m.tenant_id, id))) refl;
  others = λ j other. lookup-erase id j s.memories ∙ rw other refl;
}

-- How `forget` may end.
abbrev pub Outcome :
    String → Option String → Uuid → InMemoryStore → Result Bool × InMemoryStore → Type 0
Outcome owner tenant id s x =
    ((m : Memory) × (get owner tenant id s ≡ some m) × (x.0 ≡ ok true) × Erased m id s x.1)
    ⊎ ((get owner tenant id s ≡ none) × (x ≡ (ok false, s)))

-- what became of the memory that was found under the identifier
forget_known-Outcome :
    (owner : String) (tenant : Option String) (id : Uuid) (found : Option Memory)
    (s : InMemoryStore)
    → lookup id s.memories ≡ found
    → Outcome owner tenant id s (forget_known owner tenant id found s)
unfolding forget_known get
forget_known-Outcome owner tenant id none s e = inr (rw (get, e) refl, refl)
forget_known-Outcome owner tenant id (some m) s e = elim (Bool-cases (visible owner tenant m)) [
  | inl seen ↦ inl (m, rw (get, e, seen) refl, rw seen refl, rw seen (without_memory-Erased m id s))
  | inr hidden ↦ inr (rw (get, e, hidden) refl, rw hidden refl)
]

-- A memory that the caller can see is erased, and the answer is true; what the caller cannot see,
-- whether it exists or not, gives false and leaves the store alone.
pub forget-Outcome :
    (owner : String) (tenant : Option String) (id : Uuid) (s : InMemoryStore)
    → Outcome owner tenant id s (forget owner tenant id s)
unfolding forget
forget-Outcome owner tenant id s =
    forget_known-Outcome owner tenant id (lookup id s.memories) s refl
