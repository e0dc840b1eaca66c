-- ===== src/Sorting/Laws.antt =====
-- What sorting and cutting a list keep: each element's property, the order, the length.
use umcp.Prelude.{
  ℕ, zero, suc, ◌≤◌, ◌≡◌, Bool, true, false, List, [], ◌∷◌, ◌++◌, length, take, arith, inl, inr,
  Bool-cases,
}
use umcp.Sorting.{insert_sorted, sort}

-- Every element of the list satisfies `P`.
abbrev pub All {ℓ κ} : {A : Type ℓ} → (A → Type κ) → List A → Type κ
All P [] = Unit
All P (x ∷ xs) = P x × All P xs

module _ {ℓ κ} {A : Type ℓ} (P : A → Type κ) where
  pub All-append : (xs ys : List A) → All P xs → All P ys → All P (xs ++ ys)
  All-append [] ys h k = k
  All-append (x ∷ xs) ys h k = (h.0, All-append xs ys h.1 k)

  pub All-take : (n : ℕ) (xs : List A) → All P xs → All P (take n xs)
  All-take zero xs h = tt
  All-take (suc n) [] h = tt
  All-take (suc n) (x ∷ xs) h = (h.0, All-take n xs h.1)

  pub All-map : (Q : A → Type κ) (xs : List A) → ((x : A) → P x → Q x) → All P xs → All Q xs
  All-map Q [] f h = tt
  All-map Q (x ∷ xs) f h = (f x h.0, All-map Q xs f h.1)

  module _ (le : A → A → Bool) where
    All-insert_sorted : (x : A) (xs : List A) → P x → All P xs → All P (insert_sorted le x xs)
    unfolding insert_sorted
    All-insert_sorted x [] p h = (p, tt)
    All-insert_sorted x (y ∷ ys) p h = elim (Bool-cases (le x y)) [
      | inl before ↦ rw before (p, h)
      | inr after ↦ rw after (h.0, All-insert_sorted x ys p h.1)
    ]

    pub All-sort : (xs : List A) → All P xs → All P (sort le xs)
    unfolding sort
    All-sort [] h = tt
    All-sort (x ∷ xs) h = All-insert_sorted x (sort le xs) h.0 (All-sort xs h.1)

module _ {ℓ} {A : Type ℓ} (le : A → A → Bool) where
  -- Each element comes before all that follow it.
  abbrev pub Sorted : List A → Type 0
  Sorted [] = Unit
  Sorted (x ∷ xs) = All (λ y. le x y ≡ true) xs × Sorted xs

  pub Sorted-take : (n : ℕ) (xs : List A) → Sorted xs → Sorted (take n xs)
  Sorted-take zero xs h = tt
  Sorted-take (suc n) [] h = tt
  Sorted-take (suc n) (x ∷ xs) h = (All-take _ n xs h.0, Sorted-take n xs h.1)

  module _ (total : (x y : A) → le x y ≡ false → le y x ≡ true)
      (trans : (x y z : A) → le x y ≡ true → le y z ≡ true → le x z ≡ true) where
    Sorted-insert_sorted : (x : A) (xs : List A) → Sorted xs → Sorted (insert_sorted le x xs)
    unfolding insert_sorted
    Sorted-insert_sorted x [] h = (tt, tt)
    Sorted-insert_sorted x (y ∷ ys) h = elim (Bool-cases (le x y)) [
      | inl before ↦ rw before ((before, All-map _ _ ys (λ z. trans x y z before) h.0), h)
      | inr after ↦
          rw after
            (All-insert_sorted _ le x ys (total x y after) h.0, Sorted-insert_sorted x ys h.1)
    ]

    pub Sorted-sort : (xs : List A) → Sorted (sort le xs)
    unfolding sort
    Sorted-sort [] = tt
    Sorted-sort (x ∷ xs) = Sorted-insert_sorted x (sort le xs) (Sorted-sort xs)

pub length-take : {A : Type 0} (n : ℕ) (xs : List A) → length (take n xs) ≤ n
length-take zero xs = omega arith
length-take (suc n) [] = omega arith
length-take (suc n) (x ∷ xs) = let rest = length-take n xs in omega arith
