-- ===== src/Application/Repository/Candidates.antt =====
-- What `list_candidates` of src/omp/application/fakes.py lists.
use mathlib.Core.List.{Mem, Perm, mem-cons_self, mem-cons_of_mem}
use mathlib.Core.List.Perm
use mathlib.Core.Path.{subst}
use umcp.Prelude.{
  ℕ, zero, suc, ◌+◌, ◌≤◌, String, nat_eq, string_eq, option_eq, ◌==◌, ◌≡◌, refl, sym, ap, ◌∙◌, Bool,
  true, false, Option, none, some, List, [], ◌∷◌, length, take, ltb, arith, inl, inr, Bool-cases,
}
use umcp.Dict.{Dict, lookup, values}
use umcp.Dict.Entries.{Every, Every-map, Every-lookup}
use umcp.Sorting.{insert_sorted, sort}
use umcp.Sorting.Laws.{All, All-take, All-sort, Sorted, Sorted-take, Sorted-sort, length-take}
use umcp.Domain.Enums.{candidate, state_eq}
use umcp.Domain.Values.{Uuid, instant}
use umcp.Domain.Memory.{Memory}
use umcp.Application.Store.{InMemoryStore}
use umcp.Application.Repository.{filter, older, in_inbox, list_candidates}
use umcp.Application.WellFormed.{WellFormed}

abbrev pub InSpace : Option String → Memory → Type 0
InSpace none m = Unit
InSpace (some space) m = m.space ≡ some space

-- The memory waits for the decision of its owner, in the space that was asked for, if one was.
abbrev pub Waits : String → String → Option String → Memory → Type 0
Waits owner tenant space m =
    (m.owner_id ≡ owner) × (m.tenant_id ≡ some tenant) × (m.state ≡ candidate) × InSpace space m

in_inbox-Waits :
    (owner tenant : String) (space : Option String) (m : Memory)
    → in_inbox owner (some tenant) space m ≡ true
    → Waits owner tenant space m
in_inbox-Waits owner tenant none m h = ground (
  arith,
  string_eq.beq_iff m.owner_id owner,
  (option_eq {A = String} ⦃e = string_eq⦄).beq_iff m.tenant_id (some tenant),
  state_eq.beq_iff m.state candidate,
)
in_inbox-Waits owner tenant (some space) m h = ground (
  arith,
  string_eq.beq_iff m.owner_id owner,
  (option_eq {A = String} ⦃e = string_eq⦄).beq_iff m.tenant_id (some tenant),
  (option_eq {A = String} ⦃e = string_eq⦄).beq_iff m.space (some space),
  state_eq.beq_iff m.state candidate,
)

Waits-in_inbox :
    (owner tenant : String) (space : Option String) (m : Memory)
    → Waits owner tenant space m
    → in_inbox owner (some tenant) space m ≡ true
Waits-in_inbox owner tenant none m h = ground (
  arith,
  string_eq.beq_iff m.owner_id owner,
  (option_eq {A = String} ⦃e = string_eq⦄).beq_iff m.tenant_id (some tenant),
  state_eq.beq_iff m.state candidate,
)
Waits-in_inbox owner tenant (some space) m h = ground (
  arith,
  string_eq.beq_iff m.owner_id owner,
  (option_eq {A = String} ⦃e = string_eq⦄).beq_iff m.tenant_id (some tenant),
  (option_eq {A = String} ⦃e = string_eq⦄).beq_iff m.space (some space),
  state_eq.beq_iff m.state candidate,
)

older-total : (a b : Memory) → older a b ≡ false → older b a ≡ true
older-total a b h = ground (
  arith,
  nat_eq.beq_iff (instant a.created_at) (instant b.created_at),
  nat_eq.beq_iff (instant b.created_at) (instant a.created_at),
)

older_trans : (a b c : Memory) → older a b ≡ true → older b c ≡ true → older a c ≡ true
older_trans a b c h k = ground (
  arith,
  nat_eq.beq_iff (instant a.created_at) (instant b.created_at),
  nat_eq.beq_iff (instant b.created_at) (instant c.created_at),
  nat_eq.beq_iff (instant a.created_at) (instant c.created_at),
)

module _ {A : Type 0} (le : A → A → Bool) where
  insert_sorted-Perm : (x : A) (xs : List A) → Perm (insert_sorted le x xs) (x ∷ xs)
  unfolding insert_sorted
  insert_sorted-Perm x [] = Perm.refl (x ∷ [])
  insert_sorted-Perm x (y ∷ ys) = elim (Bool-cases (le x y)) [
    | inl before ↦ rw before (Perm.refl (x ∷ y ∷ ys))
    | inr after ↦ rw after (Perm.trans (Perm.cons y (insert_sorted-Perm x ys)) (Perm.swap x y ys))
  ]

  sort-Perm : (xs : List A) → Perm (sort le xs) xs
  unfolding sort
  sort-Perm [] = Perm.refl []
  sort-Perm (x ∷ xs) = Perm.trans (insert_sorted-Perm x (sort le xs)) (Perm.cons x (sort-Perm xs))

some_injective : (m n : Memory) → some m ≡ some n → m ≡ n
some_injective m n h = cc

module _ (p : Memory → Bool) where
  -- what the comprehension over `values()` collects
  filter-All :
      (Q : Memory → Type 0) (d : Dict Uuid Memory)
      → Every (λ id m. p m ≡ true → Q m) d
      → All Q (filter p (values d))
  unfolding filter
  filter-All Q [] h = tt
  filter-All Q ((id, m) ∷ d) h = elim (Bool-cases (p m)) [
    | inl kept ↦ rw kept (h.0 kept, filter-All Q d h.1)
    | inr dropped ↦ rw dropped (filter-All Q d h.1)
  ]

  filter-Mem :
      (id : Uuid) (m : Memory) (d : Dict Uuid Memory)
      → lookup id d ≡ some m
      → p m ≡ true
      → Mem m (filter p (values d))
  unfolding filter lookup
  filter-Mem id m [] h k = cc
  filter-Mem id m ((j, n) ∷ d) h k = elim (Bool-cases (j == id)) [
    | inl here ↦
        let same = some_injective _ _ (rw here at h) in
        rw (ap p same ∙ k) (subst (λ x. Mem m (x ∷ filter p (values d))) (sym same) mem-cons_self)
    | inr later ↦ elim (Bool-cases (p n)) [
      | inl kept ↦ rw kept (mem-cons_of_mem n (filter-Mem id m d (rw later at h) k))
      | inr dropped ↦ rw dropped (filter-Mem id m d (rw later at h) k)
    ]
  ]

take_one_more :
    {A : Type 0} (n : ℕ) (xs : List A)
    → length (take (suc n) xs) ≤ n
    → take n (take (suc n) xs) ≡ xs
take_one_more zero [] h = refl
take_one_more zero (x ∷ xs) h = absurd (omega (arith, h))
take_one_more (suc n) [] h = refl
take_one_more (suc n) (x ∷ xs) h = ap (λ l. x ∷ l) (take_one_more n xs (omega (arith, h)))

-- A list of which at most `n` elements are among the first `n + 1` is its first `n` elements.
take_short :
    {A : Type 0} (n : ℕ) (xs : List A)
    → length (take (n + 1) xs) ≤ n
    → take n (take (n + 1) xs) ≡ xs
take_short {A} n xs h =
    let next : n + 1 ≡ suc n = omega arith in
    subst (λ k. take n (take k xs) ≡ xs) (sym next)
      (take_one_more n xs (subst (λ k. length (take k xs) ≤ n) next h))

-- What a listing holds.
pub record Lists (s : InMemoryStore) (owner tenant : String) (space : Option String) (limit : ℕ)
    (ms : List Memory) (more : Bool) : Type 0 where
  pub short : length ms ≤ limit
  pub ordered : Sorted older ms
  pub waiting :
      All (λ m. (id : Uuid) × (lookup id s.memories ≡ some m) × Waits owner tenant space m) ms
  pub complete :
      (id : Uuid) (m : Memory)
      → more ≡ false
      → lookup id s.memories ≡ some m
      → Waits owner tenant space m
      → Mem m ms

module _ (s : InMemoryStore) (w : WellFormed s) (owner tenant : String) (space : Option String)
    (limit : ℕ) where
  abbrev listed : List Memory
  listed = sort older (filter (in_inbox owner (some tenant) space) (values s.memories))

  pub list_candidates-Lists :
      Lists s owner tenant space limit
        (take limit (list_candidates owner (some tenant) space (limit + 1) s))
        (ltb limit (length (list_candidates owner (some tenant) space (limit + 1) s)))
  unfolding list_candidates
  list_candidates-Lists = record {
    short = length-take limit _;
    ordered =
        Sorted-take older limit _
          (Sorted-take older (limit + 1) listed (Sorted-sort older older-total older_trans _));
    waiting = All-take _ limit _ (
        All-take _ (limit + 1) listed (
          All-sort _ older _ (
            filter-All _ _ s.memories (
              Every-map s.memories
                (λ id m l passed. (id, l, in_inbox-Waits owner tenant space m passed))
                (Every-lookup s.memories w.distinct)))));
    complete = λ id m last here waits.
        subst (Mem m) (sym (take_short limit listed (ground arith))) (
          (Perm.mem_iff (sort-Perm older _)).1
            (filter-Mem _ id m s.memories here (Waits-in_inbox owner tenant space m waits)));
  }
