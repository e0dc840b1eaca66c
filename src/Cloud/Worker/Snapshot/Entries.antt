-- ===== src/Cloud/Worker/Snapshot/Entries.antt =====
-- Reading back one entry of a snapshot that `snapshot` gave.
use umcp.Prelude.{ℕ, nat_eq, string_eq, pair_eq, ==_refl, ◌≡◌, refl, some, [], ◌∷◌, ◌++◌}
use umcp.Score.{ℤ, pos}
use umcp.Dict.{lookup}
use umcp.Domain.Errors.{ok, ◌>>=◌}
use umcp.Domain.Values.{Uuid, Datetime}
use umcp.Cloud.Envelope.{Signer, verify}
use umcp.Cloud.Worker.{
  JobState, pending, ready, stale, failed, dead_letter, job_state_value, LocalJob, safe_ref,
}
use umcp.Cloud.Worker.Snapshot.{
  Item, text, Parsers, field, pick, snapshot_signature, metadata, snapshot_item, text_field,
  job_state_of, envelope_of, checked_entry, restored_error,
}

-- The parsers read back what the printers wrote.
pub record Inverse (k : Signer) (p : Parsers) : Type 0 where
  pub uuid : (u : Uuid) → p.uuid_of (k.uuid_text u) ≡ some u
  pub time : (t : Datetime) → p.time_of (k.isoformat t) ≡ some t
  pub int : (n : ℤ) → p.int_of (p.digits n) ≡ some n

job_state_of-value : (s : JobState) → job_state_of (job_state_value s) ≡ some s
unfolding job_state_of job_state_value
job_state_of-value pending = refl
job_state_of-value ready = refl
job_state_of-value stale = refl
job_state_of-value failed = refl
job_state_of-value dead_letter = refl

-- the entry that the snapshot has for a job
abbrev pub entry_of : Signer → Parsers → LocalJob → Item
entry_of k p j =
    metadata k j ++ (("snapshot_signature", text (k.hmac k.secret (p.dumps (metadata k j)))) ∷ [])

pub snapshot_item-entry :
    (k : Signer) (p : Parsers) (j : LocalJob) → snapshot_item k p j ≡ ok (entry_of k p j)
unfolding snapshot_item snapshot_signature pick field lookup ◌>>=◌
snapshot_item-entry k p j = refl

module _ (k : Signer) (p : Parsers) (inverse : Inverse k p) (now : ℕ) where
  envelope_of-entry : (j : LocalJob) → envelope_of p (entry_of k p j) ≡ ok j.envelope
  unfolding envelope_of text_field field lookup ◌>>=◌
  envelope_of-entry j =
      rw
        (
          inverse.uuid j.envelope.job_id,
          inverse.uuid j.envelope.tenant_id,
          inverse.uuid j.envelope.principal_id,
          inverse.time j.envelope.expires_at,
        )
        refl

  pub checked_entry-entry :
      (j : LocalJob)
      → verify k now j.envelope ≡ ok tt
      → safe_ref j.dedupe_key ≡ ok j.dedupe_key
      → safe_ref j.payload_ref ≡ ok j.payload_ref
      → checked_entry k p now (entry_of k p j)
        ≡ ok (pos j.attempts, λ n. record j { attempts = n; error = restored_error j.state })
  unfolding checked_entry text_field field snapshot_signature pick lookup ◌>>=◌
  checked_entry-entry j valid safe safe_payload =
      rw
        (
          ==_refl (k.hmac k.secret (p.dumps (metadata k j))),
          envelope_of-entry j,
          valid,
          job_state_of-value j.state,
          inverse.int (pos j.attempts),
          safe,
          safe_payload,
        )
        refl
