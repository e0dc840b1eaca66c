-- ===== src/Cloud/EncryptedMemory/Current/Recovery.antt =====
-- Restoring a backup and rewrapping keep every vector with its record.
use mathlib.Core.Path.{subst}
use umcp.Prelude.{
  ℕ, String, nat_eq, string_eq, pair_eq, ◌==◌, ◌≡◌, refl, sym, ap, ◌∙◌, true, not, Option, none,
  some, List, [], ◌∷◌, ◌++◌, ◌||◌, ltb, arith, inl, inr, Bool-cases,
}
use umcp.Dict.{Dict, lookup, erase}
use umcp.Domain.Errors.{Result, ok, err, value_error, raise_if, >>=-eq-ok, ok_injective}
use umcp.Cloud.Cipher.{Entropy}
use umcp.Cloud.EncryptedMemory.{Platform, Stored, Embedding, CloudStore, OwnerKey, Answer}
use umcp.Cloud.EncryptedMemory.Deleting.{is_owned, tombstones}
use umcp.Cloud.EncryptedMemory.Restoring.{
  Backup, Tombstone, restore, restore_records, restore_noted, note_ledger, note_tombstone,
  resume_ledger, checked_tombstone, checked_record, checked_records, expose, replay, shaped_list,
  live_embeddings, matches_record,
}
use umcp.Cloud.EncryptedMemory.Rewrapping.{rewrap, rewrap_records, rewrap_record, take_rewrapped}
use umcp.Cloud.EncryptedMemory.Current.{Keyed, Fresh, Current, Keyed-erase}

Keyed-replay :
    (ledger : Dict OwnerKey String) (d : Dict String Stored) → Keyed d → Keyed (replay ledger d)
unfolding replay
Keyed-replay [] d h = h
Keyed-replay (((owner, j), t) ∷ ledger) d h = elim (Bool-cases (is_owned owner (lookup j d))) [
  | inl here ↦ rw here (Keyed-replay ledger (erase j d) (Keyed-erase j d h))
  | inr missing ↦ rw missing (Keyed-replay ledger d h)
]

some_injective : {A : Type 0} (a b : A) → some a ≡ some b → a ≡ b
some_injective a b h = cc

live_embeddings-Fresh :
    (records : Dict String Stored) (v : Dict String Embedding)
    → Fresh records (live_embeddings records v)
unfolding live_embeddings lookup
live_embeddings-Fresh records [] i e l = cc
live_embeddings-Fresh records ((j, x) ∷ v) i e l =
    elim (Bool-cases (matches_record x (lookup j records))) [
      | inr stale_ ↦ live_embeddings-Fresh records v i e (rw stale_ at l)
      | inl live ↦ elim (Bool-cases (j == i)) [
        | inr other ↦ live_embeddings-Fresh records v i e (rw (live, other) at l)
        | inl here ↦
            let m = rw (live, here) at l in
            let same = (string_eq.beq_iff j i).0 here in
            let w = some_injective x e m in
            subst (λ y. matches_record y (lookup i records) ≡ true) w
              (subst (λ k. matches_record x (lookup k records) ≡ true) same live)
      ]
    ]

id_checked : (a b : String) (c : Unit {0}) → raise_if (not (a == b)) value_error ≡ ok c → a ≡ b
id_checked a b c h = ground (arith, string_eq.beq_iff a b)

Keyed-empty : Keyed []
unfolding lookup
Keyed-empty i x h = cc

Keyed-cons :
    (j : String) (a : Stored) (d : Dict String Stored) → a.id ≡ j → Keyed d → Keyed ((j, a) ∷ d)
unfolding lookup
Keyed-cons j a d same h i x l = elim (Bool-cases (j == i)) [
  | inr other ↦ h i x (rw other at l)
  | inl here ↦
      let m = rw here at l in
      ap (λ (y : Stored). y.id) (sym (some_injective a x m)) ∙ same ∙ (string_eq.beq_iff j i).0 here
]

module _ {J : Type 0} (p : Platform J) where
  checked_record-id :
      (j : String) (r : Result Stored) (x : Stored) → checked_record p j r ≡ ok x → x.id ≡ j
  unfolding checked_record
  checked_record-id j r x h =
      let (a, _, h1) = >>=-eq-ok r _ h in
      let (b, _, h2) = >>=-eq-ok _ _ h1 in
      let (c, ids, h3) = >>=-eq-ok (raise_if (not (a.id == j)) value_error) _ h2 in
      let same = ok_injective _ _ h3 in
      ap (λ (y : Stored). y.id) (sym same) ∙ id_checked a.id j c ids

  checked_records-Keyed :
      (d : Dict String (Result Stored)) (r : Dict String Stored)
      → checked_records p d ≡ ok r
      → Keyed r
  unfolding checked_records lookup
  checked_records-Keyed [] r h = subst Keyed (ok_injective _ _ h) Keyed-empty
  checked_records-Keyed ((j, shape) ∷ d) r h =
      let (a, first, h1) = >>=-eq-ok (checked_record p j shape) _ h in
      let (b, rest, h2) = >>=-eq-ok (checked_records p d) _ h1 in
      subst Keyed (ok_injective _ _ h2)
        (Keyed-cons j a b (checked_record-id j shape a first) (checked_records-Keyed d b rest))

  note-Current :
      (e : Result Tombstone) (s : CloudStore) → Current s → Current (note_tombstone p e s).1
  note-Current (err e) s h = h
  note-Current (ok (key, t)) s h = record { keyed = h.keyed; fresh = h.fresh }

  resume_ledger-Current :
      (a : Answer (Unit {0})) (k : CloudStore → Answer (Unit {0}))
      → ((s : CloudStore) → Current s → Current (k s).1)
      → Current a.1
      → Current (resume_ledger a k).1
  resume_ledger-Current (err e, t) k f h = h
  resume_ledger-Current (ok _, t) k f h = f t h

  note_ledger-Current :
      (ledger : List (Result Tombstone)) (s : CloudStore)
      → Current s
      → Current (note_ledger p ledger s).1
  unfolding note_ledger
  note_ledger-Current [] s h = h
  note_ledger-Current (e ∷ ledger) s h =
      resume_ledger-Current (note_tombstone p (checked_tombstone p e) s) (note_ledger p ledger)
        (note_ledger-Current ledger) (note-Current (checked_tombstone p e) s h)

  expose-Current :
      (r : Result (Dict String Stored)) (s : CloudStore)
      → ((d : Dict String Stored) → r ≡ ok d → Keyed d)
      → Current s
      → Current (expose r s).1
  expose-Current (err e) s k h = h
  expose-Current (ok d) s k h = record {
    keyed = Keyed-replay s.tombstones d (k d refl);
    fresh = live_embeddings-Fresh (replay s.tombstones d) s.embeddings;
  }

  restore_noted-Current :
      (records : Dict String (Result Stored)) (a : Answer (Unit {0}))
      → Current a.1
      → Current (restore_noted p records a).1
  restore_noted-Current records (err e, s) h = h
  restore_noted-Current records (ok _, s) h =
      expose-Current (checked_records p records) s (checked_records-Keyed records) h

  restore_records-Current :
      (r : Result (Dict String (Result Stored))) (ledger : List (Result Tombstone)) (s : CloudStore)
      → Current s
      → Current (restore_records p r ledger s).1
  restore_records-Current (err e) ledger s h = h
  restore_records-Current (ok records) ledger s h =
      restore_noted-Current records _
        (note_ledger-Current (shaped_list (tombstones s) ++ ledger) s h)

  pub restore-Current :
      (b : Backup) (ledger : List (Result Tombstone)) (s : CloudStore)
      → Current s
      → Current (restore p b ledger s).1
  unfolding restore
  restore-Current b ledger s h = elim (Bool-cases (b.format == "omp.cloud.backup.v1")) [
    | inl same ↦ rw same (restore_records-Current b.records ledger s h)
    | inr other ↦ rw other h
  ]

-- records that differ in their ciphertexts only, for what the vectors depend on
abbrev Same : Option Stored → Option Stored → Type 0
Same none none = Unit
Same none (some b) = ⊥
Same (some a) none = ⊥
Same (some a) (some b) = (b.id ≡ a.id) × (b.owner_id ≡ a.owner_id) × (b.version ≡ a.version)

Same-keyed :
    (i : String) (a b : Option Stored)
    → Same a b
    → ((x : Stored) → a ≡ some x → x.id ≡ i)
    → (y : Stored) → b ≡ some y
    → y.id ≡ i
Same-keyed i none none t k y h = cc
Same-keyed i none (some b) t k y h = absurd t
Same-keyed i (some a) none t k y h = absurd t
Same-keyed i (some a) (some b) t k y h =
    ap (λ (x : Stored). x.id) (sym (some_injective b y h)) ∙ t.0 ∙ k a refl

Same-matches :
    (e : Embedding) (a b : Option Stored)
    → Same a b
    → matches_record e a ≡ true
    → matches_record e b ≡ true
Same-matches e none none t h = h
Same-matches e none (some b) t h = absurd t
Same-matches e (some a) none t h = absurd t
Same-matches e (some a) (some b) t h = rw (t.1, t.2) h

module _ {J : Type 0} (p : Platform J) (draw : String → String → Entropy) (version : ℕ) where
  rewrap_record-Same :
      (stored : Stored) (x : Stored × ℕ)
      → rewrap_record p draw version stored ≡ ok x
      → Same (some stored) (some x.0)
  unfolding rewrap_record
  rewrap_record-Same stored x h =
      let (a, _, h1) = >>=-eq-ok _ _ h in
      let (b, _, h2) = >>=-eq-ok _ _ h1 in
      let (c, _, h3) = >>=-eq-ok _ _ h2 in
      let (d, _, h4) = >>=-eq-ok _ _ h3 in
      subst (λ (y : Stored × ℕ). Same (some stored) (some y.0)) (ok_injective _ _ h4)
        (refl, refl, refl)

  rewrap_records-Same :
      (d : Dict String Stored) (x : Dict String Stored × ℕ)
      → rewrap_records p draw version d ≡ ok x
      → (i : String) → Same (lookup i d) (lookup i x.0)
  unfolding rewrap_records lookup
  rewrap_records-Same [] x h i =
      subst (λ (y : Dict String Stored × ℕ). Same none (lookup i y.0)) (ok_injective _ _ h) tt
  rewrap_records-Same ((j, stored) ∷ d) x h i =
      let (a, first, h1) = >>=-eq-ok (rewrap_record p draw version stored) _ h in
      let (b, rest, h2) = >>=-eq-ok (rewrap_records p draw version d) _ h1 in
      let later = rewrap_records-Same d b rest i in
      subst (λ (y : Dict String Stored × ℕ). Same (lookup i ((j, stored) ∷ d)) (lookup i y.0))
        (ok_injective _ _ h2)
        (elim (Bool-cases (j == i)) [
          | inl here ↦ rw here (rewrap_record-Same stored a first)
          | inr other ↦ rw other later
        ])

  take_rewrapped-Current :
      (s : CloudStore) (r : Result (Dict String Stored × ℕ))
      → rewrap_records p draw version s.records ≡ r
      → Current s
      → Current (take_rewrapped version r s).1
  take_rewrapped-Current s (err e) m h = h
  take_rewrapped-Current s (ok x) m h = record {
    keyed = λ i y l.
        Same-keyed i (lookup i s.records) (lookup i x.0) (rewrap_records-Same s.records x m i)
          (h.keyed i) y l;
    fresh = λ i e l.
        Same-matches e (lookup i s.records) (lookup i x.0) (rewrap_records-Same s.records x m i)
          (h.fresh i e l);
  }

  pub rewrap-Current : (s : CloudStore) → Current s → Current (rewrap p draw version s).1
  unfolding rewrap
  rewrap-Current s h = elim (Bool-cases (ltb version 1 || ltb version s.key_version)) [
    | inl bad ↦ rw bad h
    | inr good ↦ rw good (take_rewrapped-Current s _ refl h)
  ]
