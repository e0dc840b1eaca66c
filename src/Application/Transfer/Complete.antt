-- ===== src/Application/Transfer/Complete.antt =====
-- What a well-formed store exports passes the validation of an import.
use umcp.Prelude.{
  ℕ, zero, suc, ◌≤◌, ◌+◌, String, nat_eq, string_eq, option_eq, pair_eq, ==_refl, ◌≡◌, refl, ap,
  ◌∙◌, true, false, Option, none, some, List, [], ◌∷◌, elem, arith, inl, inr, Bool-cases,
  Option-cases,
}
use umcp.Dict.{Dict, lookup, select, values}
use umcp.Domain.Errors.{ok, ◌>>=◌}
use umcp.Domain.Values.{Uuid, Relation}
use umcp.Domain.Memory.{Memory, MemoryVersion}
use umcp.Application.Store.{InMemoryStore, RelationKey}
use umcp.Application.Repository.{get, history, history_of, list_relations, touches}
use umcp.Application.Transfer.{
  MemoryExportRecord, export_memory, fingerprint_of, version_numbers, range_from, same_numbers,
  any_foreign_version, any_foreign_relation, is_digest, unsigned, bad_digest,
  validate_import_record,
}
use umcp.Application.WellFormed.{WellFormed, Chain}
use umcp.Application.WellFormed.Reading.{get-some}

Chain-bound : (id : Uuid) (k n : ℕ) (h : List MemoryVersion) → Chain id k n h → k ≤ n + 1
Chain-bound id k n [] c = omega arith
Chain-bound id k n (v ∷ h) c = let rest = Chain-bound id (k + 1) n h c.2 in omega arith

Chain-same_numbers :
    (id : Uuid) (k n count : ℕ) (h : List MemoryVersion)
    → k + count ≡ n + 1
    → Chain id k n h
    → (same_numbers (version_numbers h) (range_from k count) ≡ true)
      × (any_foreign_version id h ≡ false)
Chain-same_numbers id k n zero [] e c = (refl, refl)
Chain-same_numbers id k n (suc count) [] e c = absurd (omega arith)
Chain-same_numbers id k n zero (v ∷ h) e c =
    let bound = Chain-bound id (k + 1) n h c.2 in absurd (omega arith)
Chain-same_numbers id k n (suc count) (v ∷ h) e c =
    let (numbered, own) = Chain-same_numbers id (k + 1) n count h (omega arith) c.2 in
    (rw (c.0, ==_refl k, numbered) refl, rw (c.1, ==_refl id, own) refl)

relations-own :
    (owner : String) (id : Uuid) (d : Dict RelationKey Relation)
    → any_foreign_relation owner (values (select (touches owner id) d)) ≡ false
unfolding select
relations-own owner id [] = refl
relations-own owner id ((k, r) ∷ d) = elim (Bool-cases (touches owner id r)) [
  | inl kept ↦ let rest = relations-own owner id d in rw kept (ground arith)
  | inr dropped ↦ rw dropped (relations-own owner id d)
]

module _ (s : InMemoryStore) (w : WellFormed s) (owner : String) (id : Uuid) (m : Memory)
    (here : get owner none id s ≡ some m) where
  -- the record of a memory of the owner, without its vector
  abbrev record_of : MemoryExportRecord
  record_of = record {
    memory = m;
    history = history_of id s;
    relations = list_relations owner id s;
    embedding = none;
    write_fingerprint = fingerprint_of owner m.idempotency_key s;
  }

  exported : export_memory owner id false s ≡ ok (some record_of)
  unfolding export_memory history ◌>>=◌
  exported = rw (here, history, here) refl

  history_complete :
      (same_numbers (version_numbers (history_of id s)) (range_from 1 m.version) ≡ true)
      × (any_foreign_version m.id (history_of id s) ≡ false)
  history_complete =
      let (at, _) = get-some s owner none id m here in
      let (h, recorded, chain) = w.recorded id m at in
      rw (history_of, recorded, w.keyed id m at)
        (Chain-same_numbers id 1 m.version m.version h (omega arith) chain)

  signed :
      ((key fp : String) → lookup (owner, key) s.fingerprints ≡ some fp → is_digest fp ≡ true)
      → (key : Option String) → m.idempotency_key ≡ key
      → (unsigned key (fingerprint_of owner key s) ≡ false)
        × (bad_digest (fingerprint_of owner key s) ≡ false)
  signed digests none e = (refl, refl)
  signed digests (some key) e =
      let (at, owned) = get-some s owner none id m here in
      elim (Option-cases (lookup (owner, key) s.fingerprints)) [
        | inl free ↦
            absurd (w.claimed id m key at e (ap (λ o. lookup (o, key) s.fingerprints) owned ∙ free))
        | inr (fp, found) ↦ (rw found refl, rw (found, digests key fp found) refl)
      ]

  -- In a well-formed store whose fingerprints are digests, the export of a memory of the owner,
  -- without its vector, succeeds, and the record passes the validation of an import by the same
  -- owner after any records of other memories.
  pub export_memory_valid :
      ((key fp : String) → lookup (owner, key) s.fingerprints ≡ some fp → is_digest fp ≡ true)
      → (seen : List Uuid) → elem m.id seen ≡ false
      → (r : MemoryExportRecord) × (export_memory owner id false s ≡ ok (some r))
        × (r.memory ≡ m)
        × (validate_import_record owner r seen ≡ ok (m.id ∷ seen))
  unfolding validate_import_record ◌>>=◌ list_relations
  export_memory_valid digests seen new =
      let (numbered, own) = history_complete in
      let (keyed, hex) = signed digests m.idempotency_key refl in
      let (_, owned) = get-some s owner none id m here in
      (
        record_of,
        exported,
        refl,
        rw
            (
              new,
              owned,
              ==_refl owner,
              numbered,
              own,
              keyed,
              hex,
              relations-own owner id s.relations,
            )
            refl,
      )
