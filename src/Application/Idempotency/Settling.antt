-- ===== src/Application/Idempotency/Settling.antt =====
-- A claim and its completion: a key that was claimed in a transaction is completed before its end,
-- so every key that a transaction meets is settled.
use umcp.Prelude.{
  ℕ, String, nat_eq, string_eq, pair_eq, ◌==◌, ==_refl, ◌≡◌, refl, sym, ap, ◌≢◌, false, true,
  Option, some, none, ◌⊎◌, inl, inr, Bool-cases,
}
use umcp.Dict.{Dict, lookup, insert}
use umcp.Dict.Laws.{lookup-insert_self, lookup-insert_cases}
use umcp.Domain.Values.{Uuid}
use umcp.Application.Models.{OperationType, IdempotencyClaim}
use umcp.Application.Store.{
  InMemoryStore, OperationKey, StoredOperation, in_progress, completed, empty_store,
}
use umcp.Application.Exec.Triple.{Holds, Holds-ok, Holds-err}
use umcp.Application.Idempotency.{
  operation_key, new_claim, new_operation, claim, claim_prior, complete, complete_prior,
}
use umcp.Application.WellFormed.{WellFormed, with_operations-WellFormed, empty-WellFormed}
use umcp.Application.WellFormed.Reading.{Expects}

-- Every operation is completed.
abbrev pub Settled : Dict OperationKey StoredOperation → Type 0
Settled operations =
    (k : OperationKey) (o : StoredOperation) → lookup k operations ≡ some o → o.status ≡ completed

abbrev pub key_of : IdempotencyClaim → OperationKey
key_of c = operation_key c.owner_id c.operation_type c.idempotency_key

-- The claim's key is in progress, under the claim's fingerprint; every other operation is completed.
pub record Pending (c : IdempotencyClaim) (operations : Dict OperationKey StoredOperation)
    : Type 0 where
  pub current :
      (o : StoredOperation) × (lookup (key_of c) operations ≡ some o)
      × (o.fingerprint ≡ c.fingerprint)
      × (o.status ≡ in_progress)
  pub others :
      (k : OperationKey) (o : StoredOperation)
      → lookup k operations ≡ some o
      → key_of c ≢ k
      → o.status ≡ completed

-- The invariant between transactions.
pub record Inv (s : InMemoryStore) : Type 0 where
  pub well : WellFormed s
  pub settled : Settled s.idempotency_operations

pub empty-Inv : Inv empty_store
unfolding lookup
empty-Inv = record { well = empty-WellFormed; settled = λ k o h. cc }

-- A claim is a replay of a settled store, or is new and pending.
abbrev pub Claims : InMemoryStore → IdempotencyClaim → InMemoryStore → Type 0
Claims s c t =
    ((c.replay ≡ true) × (t ≡ s))
    ⊎ ((c.replay ≡ false) × Pending c t.idempotency_operations × WellFormed t)

new-Pending :
    (owner : String) (op : OperationType) (key fp : String)
    (operations : Dict OperationKey StoredOperation)
    → Settled operations
    → Pending
        (new_claim owner op key fp)
        (insert (operation_key owner op key) (new_operation fp) operations)
new-Pending owner op key fp operations settled = record {
  current = (
    new_operation fp,
    lookup-insert_self (operation_key owner op key) (new_operation fp) operations,
    refl,
    refl,
  );
  others = λ k o l other.
      elim (lookup-insert_cases (operation_key owner op key) k (new_operation fp) o operations l) [
        | inl (here, _) ↦ absurd (other (sym here))
        | inr (_, old) ↦ settled k o old
      ];
}

module _ (owner : String) (op : OperationType) (key fp : String) (s : InMemoryStore)
    (i : Inv s) where
  claim_prior-Holds :
      (prior : Option StoredOperation)
      → lookup (operation_key owner op key) s.idempotency_operations ≡ prior
      → Holds (Claims s) Expects (claim_prior owner op key fp prior s)
  unfolding claim_prior
  claim_prior-Holds none e = Holds-ok _ _ (
      inr (
        refl,
        new-Pending owner op key fp s.idempotency_operations i.settled,
        with_operations-WellFormed s _ i.well,
      ))
  claim_prior-Holds (some o) e = elim (Bool-cases (o.fingerprint == fp)) [
    | inr other ↦ rw other (Holds-err _ _ tt)
    | inl same ↦ rw (same, i.settled _ o e) (Holds-ok _ _ (inl (refl, refl)))
  ]

  pub claim-Holds : Holds (Claims s) Expects (claim owner op key fp s)
  unfolding claim
  claim-Holds =
      claim_prior-Holds (lookup (operation_key owner op key) s.idempotency_operations) refl

-- Completing a pending claim settles the store.
module _ (c : IdempotencyClaim) (id : Option Uuid) (version : Option ℕ) (status : String)
    (s : InMemoryStore) (w : WellFormed s) (pending : Pending c s.idempotency_operations) where
  pub complete-Holds : Holds (λ _ t. Inv t) Expects (complete c id version status s)
  unfolding complete complete_prior
  complete-Holds =
      let (o, found, same, open_) = pending.current in
      rw (found, same, ==_refl c.fingerprint, open_)
        (Holds-ok _ _ (record {
          well = with_operations-WellFormed s _ w;
          settled = λ k x l.
              elim (lookup-insert_cases (key_of c) k _ x s.idempotency_operations l) [
                | inl (_, new) ↦ ap (λ (y : StoredOperation). y.status) new
                | inr (other, old) ↦ pending.others k x old other
              ];
        }))
