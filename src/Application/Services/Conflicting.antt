-- ===== src/Application/Services/Conflicting.antt =====
-- `write` with an idempotency key that another command used before.
use mathlib.Core.Path.{subst}
use umcp.Prelude.{
  String, string_eq, ◌==◌, ◌≡◌, ◌≢◌, refl, sym, ap, ◌∙◌, true, false, some, inl, inr, Bool-cases,
}
use umcp.Text.{truthy}
use umcp.Domain.Errors.{ok, err, idempotency_conflict}
use umcp.Domain.Values.{Datetime, ensure_aware, validate_owner_id}
use umcp.Domain.Memory.{Memory}
use umcp.Application.Models.{WriteMemoryCommand, WriteMemoryResult}
use umcp.Application.Canonical.{canonical_write_command}
use umcp.Application.Store.{InMemoryStore}
use umcp.Application.Exec.{◌>>=◌, lift, reads, transaction, refuse_if}
use umcp.Application.Repository.{find_by_idempotency_key}
use umcp.Application.Services.{Env, now}
use umcp.Application.Services.Writing.{write}
use umcp.Application.Services.Repeating.{Recorded, write-Recorded}
use umcp.Application.Idempotency.Settling.{Inv}
use umcp.Application.WellFormed.Adding.{IsFresh}

-- a write whose key the store knows under another fingerprint
write-refused :
    (env : Env) (c : WriteMemoryCommand) (key fp : String) (t : InMemoryStore) (m : Memory)
    (o : String) (d : Datetime)
    → c.idempotency_key ≡ some key
    → truthy (some key) ≡ true
    → validate_owner_id c.owner_id ≡ ok o
    → ensure_aware (env.clock 0) ≡ ok d
    → find_by_idempotency_key c.owner_id key t ≡ ok (some (record { memory = m; fingerprint = fp }))
    → (fp == env.digest (canonical_write_command c)) ≡ false
    → write env c t ≡ (err idempotency_conflict, t)
unfolding write ◌>>=◌ lift now reads transaction refuse_if canonical_write_command
write-refused env c key fp t m o d keyed used valid aware found other =
    rw (valid, aware, keyed, used, found, other) refl

other_text : (a b : String) → b ≢ a → (a == b) ≡ false
other_text a b ne = elim (Bool-cases (a == b)) [
  | inl same ↦ absurd (ne (sym ((string_eq.beq_iff a b).0 same)))
  | inr other ↦ other
]

-- A second write of the same owner under the same key, whose digest differs from that of the first,
-- is refused as an idempotency conflict and changes nothing. The first write succeeded, from a store
-- between transactions and with a fresh identifier; the second one's clock gives an aware time.
pub write-conflicts :
    (env later : Env) (s t : InMemoryStore) (c e : WriteMemoryCommand) (key : String)
    (r : WriteMemoryResult) (d : Datetime)
    → Inv s
    → IsFresh env.new_id s
    → c.idempotency_key ≡ some key
    → truthy (some key) ≡ true
    → e.idempotency_key ≡ some key
    → e.owner_id ≡ c.owner_id
    → ensure_aware (later.clock 0) ≡ ok d
    → later.digest (canonical_write_command e) ≢ env.digest (canonical_write_command c)
    → write env c s ≡ (ok r, t)
    → write later e t ≡ (err idempotency_conflict, t)
write-conflicts env later s t c e key r d i fresh keyed used again owner aware differ wrote =
    let h = (write-Recorded env s i fresh c key keyed used).returned r (ap (λ x. x.0) wrote) in
    let (found, (o, valid)) =
      subst (Recorded c key (env.digest (canonical_write_command c)) r) (ap (λ x. x.1) wrote) h in
    write-refused later e key (env.digest (canonical_write_command c)) t r.memory o d again used
      (ap validate_owner_id owner ∙ valid) aware
      (ap (λ w. find_by_idempotency_key w key t) owner ∙ found)
      (other_text (env.digest (canonical_write_command c))
        (later.digest (canonical_write_command e)) differ)
