-- ===== src/Dict/Laws.antt =====
-- What a lookup sees after each update of a dict.
use umcp.Prelude.{
  Eq, ◌==◌, ◌≡◌, refl, ◌≢◌, none, some, [], ◌∷◌, arith, ◌⊎◌, inl, inr, Bool-cases, if◌then◌else◌,
}
use umcp.Dict.{Dict, lookup, insert, erase}

module _ {ℓ κ} {K : Type ℓ} {V : Type κ} ⦃e : Eq K⦄ where
  pub lookup-insert :
      (k j : K) (v : V) (d : Dict K V)
      → lookup j (insert k v d) ≡ (if k == j then some v else lookup j d)
  unfolding lookup insert
  lookup-insert k j v [] = refl
  lookup-insert k j v ((i, w) ∷ d) =
      ground (arith, e.beq_iff k j, e.beq_iff i k, e.beq_iff i j, lookup-insert k j v d)

  pub lookup-erase :
      (k j : K) (d : Dict K V) → lookup j (erase k d) ≡ (if k == j then none else lookup j d)
  unfolding lookup erase
  lookup-erase k j [] = ground arith
  lookup-erase k j ((i, w) ∷ d) =
      ground (arith, e.beq_iff k j, e.beq_iff i k, e.beq_iff i j, lookup-erase k j d)

  pub lookup-insert_self : (k : K) (v : V) (d : Dict K V) → lookup k (insert k v d) ≡ some v
  lookup-insert_self k v d = ground (arith, lookup-insert k k v d, e.beq_iff k k)

  pub lookup-insert_ne :
      (k j : K) (v : V) (d : Dict K V) → k ≢ j → lookup j (insert k v d) ≡ lookup j d
  lookup-insert_ne k j v d h = ground (arith, lookup-insert k j v d, e.beq_iff k j)

  pub lookup-erase_self : (k : K) (d : Dict K V) → lookup k (erase k d) ≡ none
  lookup-erase_self k d = ground (arith, lookup-erase k k d, e.beq_iff k k)

  pub lookup-erase_ne : (k j : K) (d : Dict K V) → k ≢ j → lookup j (erase k d) ≡ lookup j d
  lookup-erase_ne k j d h = ground (arith, lookup-erase k j d, e.beq_iff k j)

  -- What a lookup finds after an insertion is the new value or was there before.
  pub lookup-insert_cases :
      (k j : K) (v x : V) (d : Dict K V)
      → lookup j (insert k v d) ≡ some x
      → ((j ≡ k) × (x ≡ v)) ⊎ ((k ≢ j) × (lookup j d ≡ some x))
  lookup-insert_cases k j v x d h = elim (Bool-cases (k == j)) [
    | inl same ↦ inl (ground (arith, e.beq_iff k j, lookup-insert k j v d))
    | inr other ↦ inr (ground (arith, e.beq_iff k j, lookup-insert k j v d))
  ]

  pub lookup-erase-some :
      (k j : K) (x : V) (d : Dict K V)
      → lookup j (erase k d) ≡ some x
      → (k ≢ j) × (lookup j d ≡ some x)
  lookup-erase-some k j x d h = ground (arith, e.beq_iff k j, lookup-erase k j d)

  -- After an insertion no key that had a value lacks one.
  pub lookup-insert_ne-none :
      (k j : K) (v : V) (d : Dict K V) → lookup j d ≢ none → lookup j (insert k v d) ≢ none
  lookup-insert_ne-none k j v d h = ground (arith, lookup-insert k j v d)
