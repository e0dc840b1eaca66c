-- ===== src/Dict.antt =====
-- Python's `dict`, in insertion order: an association list whose keys an `Eq` instance compares.
pub mod Laws
pub mod Entries
use umcp.Prelude.{Eq, ◌==◌, Bool, Option, none, some, List, [], ◌∷◌, if◌then◌else◌, map, not}

abbrev pub Dict {ℓ κ} : Type ℓ → Type κ → Type (ℓ ⊔ κ)
Dict K V = List (K × V)

module _ {ℓ κ} {K : Type ℓ} {V : Type κ} where
  -- `d.values()`
  abbrev pub values : Dict K V → List V
  values [] = []
  values ((k, v) ∷ d) = v ∷ values d

  -- `next(v for v in d.values() if p(v))`
  unfoldable pub find : (V → Bool) → Dict K V → Option V
  find p [] = none
  find p ((k, v) ∷ d) = if p v then some v else find p d

  -- `{k: v for k, v in d.items() if p(v)}`
  unfoldable pub select : (V → Bool) → Dict K V → Dict K V
  select p [] = []
  select p ((k, v) ∷ d) = let rest = select p d in if p v then (k, v) ∷ rest else rest

module _ {ℓ κ} {K : Type ℓ} {V : Type κ} ⦃e : Eq K⦄ where
  -- `d.get(k)`
  unfoldable pub lookup : K → Dict K V → Option V
  lookup k [] = none
  lookup k ((j, v) ∷ d) = if j == k then some v else lookup k d

  -- `d[k] = v`
  unfoldable pub insert : K → V → Dict K V → Dict K V
  insert k v [] = (k, v) ∷ []
  insert k v ((j, w) ∷ d) = if j == k then (j, v) ∷ d else (j, w) ∷ insert k v d

  -- `del d[k]`, `d.pop(k, None)`: the keys of a dict are distinct, so at most one entry goes.
  unfoldable pub erase : K → Dict K V → Dict K V
  erase k [] = []
  erase k ((j, v) ∷ d) = let rest = erase k d in if j == k then rest else (j, v) ∷ rest
