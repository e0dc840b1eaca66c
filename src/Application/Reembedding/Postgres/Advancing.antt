-- ===== src/Application/Reembedding/Postgres/Advancing.antt =====
-- The tables of the PostgreSQL adapter give the re-embedding job what it relies on: each batch leaves
-- fewer memories after its last one.
use mathlib.Core.Path.{subst}
use umcp.Prelude.{
  ℕ, zero, suc, ◌+◌, ◌≤◌, ◌⊎◌, String, nat_eq, ◌≡◌, refl, sym, ap, ◌∙◌, Bool, true, false, Option,
  none, some, List, [], ◌∷◌, length, take, arith, inl, inr, Bool-cases, if◌then◌else◌,
}
use umcp.Score.{ℤ}
use umcp.Sorting.{insert_sorted, sort}
use umcp.Sorting.Laws.{All, All-take, All-sort, All-map, Sorted, Sorted-sort}
use umcp.Domain.Errors.{Result, ok, err, runtime_error, ok_injective}
use umcp.Domain.Values.{Uuid, EmbeddingDescriptor}
use umcp.Domain.Memory.{Memory}
use umcp.Application.Repository.{filter}
use umcp.Application.Reembedding.{ReembeddingReport, Options, last_id, checked_options}
use umcp.Application.Reembedding.Termination.{Advances, IsAccounted}
use umcp.Application.Reembedding.Postgres.{
  Database, is_after, id_le, selected, list_for_reembedding, upsert_embedding_profile, postgres,
}

count : (Memory → Bool) → List Memory → ℕ
count p [] = 0
count p (m ∷ ms) = let rest = count p ms in if p m then suc rest else rest

count-insert_sorted :
    (p : Memory → Bool) (m : Memory) (ms : List Memory)
    → count p (insert_sorted id_le m ms) ≡ count p (m ∷ ms)
unfolding count insert_sorted
count-insert_sorted p m [] = refl
count-insert_sorted p m (n ∷ ms) = ground (arith, count-insert_sorted p m ms)

count-sort : (p : Memory → Bool) (ms : List Memory) → count p (sort id_le ms) ≡ count p ms
unfolding count sort
count-sort p [] = refl
count-sort p (m ∷ ms) = ground (arith, count-insert_sorted p m (sort id_le ms), count-sort p ms)

count-all : (ms : List Memory) → count (λ _. true) ms ≡ length ms
unfolding count
count-all [] = refl
count-all (m ∷ ms) = ap suc (count-all ms)

length-sort : (ms : List Memory) → length (sort id_le ms) ≡ length ms
length-sort ms = sym (count-all (sort id_le ms)) ∙ count-sort (λ _. true) ms ∙ count-all ms

count-length : (p : Memory → Bool) (ms : List Memory) → count p ms ≤ length ms
unfolding count
count-length p [] = omega arith
count-length p (m ∷ ms) = ground (arith, count-length p ms)

last-bound :
    (x m : Memory) (ms : List Memory) → All (λ y. id_le x y ≡ true) (m ∷ ms) → x.id ≤ last_id m ms
last-bound x m [] h = let l = h.0 in ground arith
last-bound x m (n ∷ ms) h = last-bound x n ms h.1

-- what comes after the last one of a batch is not in the batch
taken_left :
    (n : ℕ) (x : Memory) (xs : List Memory)
    → Sorted id_le (x ∷ xs)
    → count (is_after (some (last_id x (take n xs)))) (x ∷ xs) + suc (length (take n xs))
      ≤ suc (length xs)
unfolding count
taken_left zero x xs h = ground (arith, count-length (is_after (some x.id)) xs)
taken_left (suc n) x [] h = ground arith
taken_left (suc n) x (y ∷ ys) h =
    let rest = taken_left n y ys h.1 in
    let low = last-bound x y (take n ys) (All-take _ (suc n) (y ∷ ys) h.0) in ground arith

-- what a batch leaves of the list that it was taken from
abbrev Leaves : List Memory → List Memory → Type 0
Leaves l [] = Unit
Leaves l (m ∷ ms) = count (is_after (some (last_id m ms))) l + length (m ∷ ms) ≤ length l

take-Leaves : (n : ℕ) (l : List Memory) → Sorted id_le l → Leaves l (take n l)
take-Leaves zero l h = tt
take-Leaves (suc n) [] h = tt
take-Leaves (suc n) (x ∷ xs) h = taken_left n x xs h

filter-passes : (p : Memory → Bool) (ms : List Memory) → All (λ m. p m ≡ true) (filter p ms)
unfolding filter
filter-passes p [] = tt
filter-passes p (m ∷ ms) = elim (Bool-cases (p m)) [
  | inl kept ↦ rw kept (kept, filter-passes p ms)
  | inr dropped ↦ rw dropped (filter-passes p ms)
]

last-is_after :
    (cursor : Option Uuid) (m : Memory) (ms : List Memory)
    → All (λ k. is_after cursor k ≡ true) (m ∷ ms)
    → (k : Memory) → last_id m ms ≤ k.id
    → is_after cursor k ≡ true
last-is_after none m ms h k l = refl
last-is_after (some a) m [] h k l = let x = h.0 in ground arith
last-is_after (some a) m (n ∷ ms) h k l = last-is_after (some a) n ms h.1 k l

id_le-total : (a b : Memory) → id_le a b ≡ false → id_le b a ≡ true
id_le-total a b h = ground arith

id_le_trans : (a b c : Memory) → id_le a b ≡ true → id_le b c ≡ true → id_le a c ≡ true
id_le_trans a b c h k = ground arith

left_after :
    (owner : String) (cursor : Option Uuid) (last : Uuid) (ms : List Memory)
    → ((m : Memory) → last ≤ m.id → is_after cursor m ≡ true)
    → length (filter (selected owner (some last)) ms)
      ≤ count (is_after (some last)) (filter (selected owner cursor) ms)
unfolding count filter
left_after owner cursor last [] h = omega arith
left_after owner cursor last (m ∷ ms) h =
    let rest = left_after owner cursor last ms h in ground (arith, h m)

-- the memories of the owner that a run from the cursor may still meet
abbrev left : String → Option Uuid → Database → ℕ
left owner cursor d = length (filter (selected owner cursor) d.memories)

listed-left :
    (owner : String) (cursor : Option Uuid) (n : ℕ) (d : Database) (m : Memory) (ms : List Memory)
    → list_for_reembedding owner cursor n d ≡ ok (m ∷ ms)
    → left owner (some (last_id m ms)) d + length (m ∷ ms) ≤ left owner cursor d
unfolding list_for_reembedding
listed-left owner cursor n d m ms e =
    let found = filter (selected owner cursor) d.memories in
    let batch : take n (sort id_le found) ≡ m ∷ ms = ok_injective _ _ e in
    let passed =
      All-map _ (λ k. is_after cursor k ≡ true) found (λ k h. ground arith)
        (filter-passes (selected owner cursor) d.memories) in
    let taken =
      subst (All (λ k. is_after cursor k ≡ true)) batch
        (All-take _ n (sort id_le found) (All-sort _ id_le found passed)) in
    let leaves =
      subst (Leaves (sort id_le found)) batch
        (take-Leaves n (sort id_le found) (Sorted-sort id_le id_le-total id_le_trans found)) in
    let rest =
      left_after owner cursor (last_id m ms) d.memories (last-is_after cursor m ms taken) in
    let same = count-sort (is_after (some (last_id m ms))) found in
    let long = length-sort found in omega (arith, leaves, rest, same, long)

upsert-memories :
    (profile : EmbeddingDescriptor) (id : Uuid) (version : ℕ) (vector : List ℤ) (d : Database)
    → (upsert_embedding_profile profile id version vector d).1.memories ≡ d.memories
unfolding upsert_embedding_profile
upsert-memories profile id version vector d = ground arith

unfoldable postgres-Advances :
    (owner : String) (profile : EmbeddingDescriptor) (embed : String → Result (List ℤ))
    → Advances (postgres owner profile embed)
postgres-Advances owner profile embed = record {
  left = left owner;
  listed = listed-left owner;
  stored = λ cursor id version vector d.
      ap (λ ms. length (filter (selected owner cursor) ms))
        (upsert-memories profile id version vector d);
}

-- What the job comes to with these tables: a report that accounts for the memories, the error of a check
-- of its arguments, or that of a cutover that was asked for.
abbrev pub Comes :
    EmbeddingDescriptor
    → (String → Result (List ℤ))
    → Options
    → ℕ
    → Result ReembeddingReport × Database
    → Type 0
Comes profile embed o bound (err e, d) =
    (checked_options (postgres o.owner_id profile embed) o ≡ err e)
    ⊎ ((o.cutover ≡ true) × (o.dry_run ≡ false) × (e ≡ runtime_error))
Comes profile embed o bound (ok x, d) = IsAccounted o.dry_run bound x
