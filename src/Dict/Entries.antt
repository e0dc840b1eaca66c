-- ===== src/Dict/Entries.antt =====
-- Properties of all entries of a dict, and searches among its values.
use umcp.Prelude.{Eq, ◌==◌, ◌≡◌, refl, Bool, true, none, some, [], ◌∷◌, arith, inl, inr, Bool-cases}
use umcp.Dict.{Dict, lookup, insert, erase, find, select}
use umcp.Dict.Laws.{lookup-insert, lookup-erase}

-- Every entry of the dict satisfies `P`.
abbrev pub Every {ℓ κ μ} : {K : Type ℓ} {V : Type κ} → (K → V → Type μ) → Dict K V → Type μ
Every P [] = Unit
Every P ((k, v) ∷ d) = P k v × Every P d

module _ {ℓ κ μ ν} {K : Type ℓ} {V : Type κ} {P : K → V → Type μ} {Q : K → V → Type ν} where
  pub Every-map : (d : Dict K V) → ((k : K) (v : V) → P k v → Q k v) → Every P d → Every Q d
  Every-map [] f h = tt
  Every-map ((k, v) ∷ d) f h = (f k v h.0, Every-map d f h.1)

  -- what a filtered dict keeps, it keeps with the filter's test passed
  pub Every-select :
      (p : V → Bool) (d : Dict K V)
      → ((k : K) (v : V) → p v ≡ true → P k v → Q k v)
      → Every P d
      → Every Q (select p d)
  unfolding select
  Every-select p [] f h = tt
  Every-select p ((k, v) ∷ d) f h = elim (Bool-cases (p v)) [
    | inl kept ↦ rw kept (f k v kept h.0, Every-select p d f h.1)
    | inr dropped ↦ rw dropped (Every-select p d f h.1)
  ]

module _ {ℓ κ μ} {K : Type ℓ} {V : Type κ} ⦃e : Eq K⦄ (P : K → V → Type μ) where
  pub Every-insert : (k : K) (v : V) (d : Dict K V) → P k v → Every P d → Every P (insert k v d)
  unfolding insert
  Every-insert k v [] p h = (p, tt)
  Every-insert k v ((j, w) ∷ d) p h = elim (Bool-cases (j == k)) [
    | inl same ↦ rw (same, (e.beq_iff j k).0 same) (p, h.1)
    | inr other ↦ rw other (h.0, Every-insert k v d p h.1)
  ]

module _ {ℓ κ} {K : Type ℓ} {V : Type κ} ⦃e : Eq K⦄ where
  -- No key is listed twice.
  abbrev pub Distinct : Dict K V → Type κ
  Distinct [] = Unit
  Distinct ((k, v) ∷ d) = (lookup k d ≡ none) × Distinct d

  pub Distinct-insert : (k : K) (v : V) (d : Dict K V) → Distinct d → Distinct (insert k v d)
  unfolding insert lookup
  Distinct-insert k v [] h = (refl, tt)
  Distinct-insert k v ((j, w) ∷ d) h =
      ground (arith, e.beq_iff j k, e.beq_iff k j, lookup-insert k j v d, Distinct-insert k v d h.1)

  pub Distinct-erase : (k : K) (d : Dict K V) → Distinct d → Distinct (erase k d)
  unfolding erase
  Distinct-erase k [] h = tt
  Distinct-erase k ((j, w) ∷ d) h = ground (arith, lookup-erase k j d, Distinct-erase k d h.1)

  -- In a dict with distinct keys every entry is what its key looks up.
  pub Every-lookup : (d : Dict K V) → Distinct d → Every (λ k v. lookup k d ≡ some v) d
  unfolding lookup
  Every-lookup [] h = tt
  Every-lookup ((j, w) ∷ d) h = (
    rw (e.beq_iff j j).1 refl,
    Every-map d (λ k v p. ground (arith, e.beq_iff j k)) (Every-lookup d h.1),
  )

  -- A search finds a value if some key holds one that passes.
  pub find-of_lookup :
      (p : V → Bool) (k : K) {v : V} (d : Dict K V)
      → lookup k d ≡ some v
      → p v ≡ true
      → (w : V) × (find p d ≡ some w)
  unfolding lookup find
  find-of_lookup p k [] h q = cc
  find-of_lookup p k ((j, w) ∷ d) h q = elim (Bool-cases (p w)) [
    | inl found ↦ (w, rw found refl)
    | inr passed_over ↦ rw passed_over (find-of_lookup p k d (ground arith) q)
  ]

  pub find-passes : (p : V → Bool) (v : V) (d : Dict K V) → find p d ≡ some v → p v ≡ true
  unfolding find
  find-passes p v [] h = cc
  find-passes p v ((j, w) ∷ d) h = ground (arith, find-passes p v d)

  -- What a search finds stands under a key.
  pub lookup-of_find :
      (p : V → Bool) (v : V) (d : Dict K V)
      → Distinct d
      → find p d ≡ some v
      → (k : K) × (lookup k d ≡ some v)
  unfolding lookup find
  lookup-of_find p v [] u h = cc
  lookup-of_find p v ((j, w) ∷ d) u h = elim (Bool-cases (p w)) [
    | inl found ↦ (j, ground (arith, e.beq_iff j j))
    | inr passed_over ↦
        let (k, r) = lookup-of_find p v d u.1 (ground arith) in (k, ground (arith, e.beq_iff j k))
  ]
