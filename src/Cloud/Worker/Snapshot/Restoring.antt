-- ===== src/Cloud/Worker/Snapshot/Restoring.antt =====
-- What `restore` makes of a snapshot that `snapshot` gave.
use umcp.Prelude.{
  ℕ, String, nat_eq, string_eq, pair_eq, ==_refl, ◌≡◌, ◌≢◌, refl, sym, ap, ◌∙◌, true, false, Option,
  none, some, List, [], ◌∷◌, length, arith, inl, inr, ◌⊎◌, Bool-cases, Option-cases, if◌then◌else◌,
}
use umcp.Score.{pos}
use umcp.Dict.{Dict, lookup, insert, values}
use umcp.Dict.Laws.{lookup-insert_self, lookup-insert_ne, lookup-insert_cases}
use umcp.Dict.Entries.{Distinct, Every, Every-lookup}
use umcp.Domain.Errors.{ok, ◌>>=◌}
use umcp.Domain.Values.{Uuid}
use umcp.Cloud.Envelope.{Signer, verify}
use umcp.Cloud.Worker.{
  JobState, pending, ready, stale, failed, dead_letter, LocalJob, LocalTenantWorker, TenantKey,
  job_key, nonce_key, is_settled,
}
use umcp.Cloud.Worker.Retries.{Reach, Reach-Consistent}
use umcp.Cloud.Worker.Consistency.{Consistent, Sound}
use umcp.Cloud.Worker.Snapshot.{
  Item, Parsers, snapshot_each, snapshot, checked_entry, restored_error, Tables, no_tables,
  is_restorable, duplicate, enter, enter_live, restore_each, restore,
}
use umcp.Cloud.Worker.Snapshot.Entries.{Inverse, entry_of, snapshot_item-entry, checked_entry-entry}

-- what a restart keeps of a job
abbrev pub live : LocalJob → Option LocalJob
live j = if is_restorable j.state then some j else none

abbrev entries : Signer → Parsers → List LocalJob → List Item
entries k p [] = []
entries k p (j ∷ js) = entry_of k p j ∷ entries k p js

snapshot_each-entries :
    (k : Signer) (p : Parsers) (js : List LocalJob) → snapshot_each k p js ≡ ok (entries k p js)
unfolding snapshot_each ◌>>=◌
snapshot_each-entries k p [] = refl
snapshot_each-entries k p (j ∷ js) =
    rw (snapshot_item-entry k p j, snapshot_each-entries k p js) refl

module _ {V : Type 0} (i k : Uuid) (v : V) (d : Dict Uuid V) where
  lookup-head : lookup k ((k, v) ∷ d) ≡ some v
  unfolding lookup
  lookup-head = rw (==_refl k) refl

  lookup-tail_none : lookup i ((k, v) ∷ d) ≡ none → lookup i d ≡ none
  unfolding lookup
  lookup-tail_none h = ground arith

  lookup-tail_cases :
      (x : V) → lookup i ((k, v) ∷ d) ≡ some x → lookup k d ≡ none → (i ≢ k) → lookup i d ≡ some x
  unfolding lookup
  lookup-tail_cases x h u other = ground arith

restorable_open : (s : JobState) → is_restorable s ≡ true → is_settled s ≡ false
restorable_open s h = ground arith

-- the reason of an error is what a restore makes of the state
reason_restored :
    (s : JobState) (e : Option String)
    → is_restorable s ≡ true
    → e ≡ elim s [ failed ↦ some "worker execution failed" | _ ↦ none ]
    → restored_error s ≡ e
reason_restored pending e h r = sym r
reason_restored failed e h r = sym r
reason_restored ready e h r = cc
reason_restored stale e h r = cc
reason_restored dead_letter e h r = cc

module _ (w : LocalTenantWorker) (c : Consistent w) where
  -- The tables `t` hold jobs of `w` only, and none of those that are still to come.
  record Before (d : Dict Uuid LocalJob) (t : Tables) : Type 0 where
    distinct : Distinct d
    theirs : Every (λ id j. lookup id w.jobs ≡ some j) d
    jobs : (id : Uuid) → lookup id d ≢ none → lookup id t.jobs ≡ none
    dedupe :
        (key : TenantKey) (id : Uuid)
        → lookup key t.dedupe ≡ some id
        → (lookup key w.dedupe ≡ some id) × (lookup id d ≡ none)
    nonces :
        (key : TenantKey) (id : Uuid)
        → lookup key t.nonces ≡ some id
        → (lookup key w.nonces ≡ some id) × (lookup id d ≡ none)

  -- The tables after `d`: its live jobs are entered, and nothing else has changed.
  record After (d : Dict Uuid LocalJob) (t t' : Tables) : Type 0 where
    entered : (id : Uuid) (j : LocalJob) → lookup id d ≡ some j → lookup id t'.jobs ≡ live j
    others : (id : Uuid) → lookup id d ≡ none → lookup id t'.jobs ≡ lookup id t.jobs

  module _ (id : Uuid) (j : LocalJob) (d : Dict Uuid LocalJob) (t : Tables)
      (b : Before ((id, j) ∷ d) t) where
    sound : Sound w id j
    sound = c.sound id j b.theirs.0

    here≢none : lookup id ((id, j) ∷ d) ≢ none
    here≢none h = cc (lookup-head id id j d, h)

    gone_here :
        {o : Option Uuid} (i : Uuid)
        → o ≡ some i
        → lookup i ((id, j) ∷ d) ≡ none
        → o ≡ some id
        → lookup id ((id, j) ∷ d) ≡ none
    gone_here i theirs gone here = cc

    free_key : lookup (job_key j) t.dedupe ≡ none
    free_key = elim (Option-cases (lookup (job_key j) t.dedupe)) [
      | inl free ↦ free
      | inr (i, used) ↦
          let (theirs, gone) = b.dedupe (job_key j) i used in
          absurd (here≢none (gone_here i theirs gone sound.deduped))
    ]

    free_nonce : lookup (nonce_key j.envelope) t.nonces ≡ none
    free_nonce = elim (Option-cases (lookup (nonce_key j.envelope) t.nonces)) [
      | inl free ↦ free
      | inr (i, used) ↦
          let (theirs, gone) = b.nonces (nonce_key j.envelope) i used in
          absurd (here≢none (gone_here i theirs gone sound.once))
    ]

    no_duplicate : duplicate j t ≡ false
    no_duplicate = rw (sound.named, b.jobs id here≢none, free_key, free_nonce) refl

    skip-Before : Before d t
    skip-Before = record {
      distinct = b.distinct.1;
      theirs = b.theirs.1;
      jobs = λ i present. b.jobs i (λ h. present (lookup-tail_none i id j d h));
      dedupe = λ key i l. let (a, gone) = b.dedupe key i l in (a, lookup-tail_none i id j d gone);
      nonces = λ key i l. let (a, gone) = b.nonces key i l in (a, lookup-tail_none i id j d gone);
    }

    enter-Before : Before d (enter j t)
    enter-Before = record {
      distinct = b.distinct.1;
      theirs = b.theirs.1;
      jobs = λ i present.
          lookup-insert_ne j.envelope.job_id i j t.jobs
            (λ same. present (ap (λ x. lookup x d) (sym same ∙ sound.named) ∙ b.distinct.0))
          ∙ b.jobs i (λ h. present (lookup-tail_none i id j d h));
      dedupe = λ key i l.
          elim (lookup-insert_cases (job_key j) key j.envelope.job_id i t.dedupe l) [
            | inl (here, same) ↦ (
              ap (λ x. lookup x w.dedupe) here ∙ sound.deduped ∙ ap some (sym (same ∙ sound.named)),
              ap (λ x. lookup x d) (same ∙ sound.named) ∙ b.distinct.0,
            )
            | inr (_, old) ↦
                let (a, gone) = b.dedupe key i old in (a, lookup-tail_none i id j d gone)
          ];
      nonces = λ key i l.
          elim (lookup-insert_cases (nonce_key j.envelope) key j.envelope.job_id i t.nonces l) [
            | inl (here, same) ↦ (
              ap (λ x. lookup x w.nonces) here ∙ sound.once ∙ ap some (sym (same ∙ sound.named)),
              ap (λ x. lookup x d) (same ∙ sound.named) ∙ b.distinct.0,
            )
            | inr (_, old) ↦
                let (a, gone) = b.nonces key i old in (a, lookup-tail_none i id j d gone)
          ];
    }

    -- the entry as it comes back from the snapshot
    back : ℕ → LocalJob
    back n = record j { attempts = n; error = restored_error j.state }

    back_same : is_restorable j.state ≡ true → back j.attempts ≡ j
    unfolding back
    back_same here =
        rw (reason_restored j.state j.error here (sound.reason (restorable_open j.state here))) refl

    enter_live-settled : is_restorable j.state ≡ false → enter_live (pos j.attempts, back) t ≡ ok t
    unfolding enter_live back
    enter_live-settled done = rw done refl

    enter_live-open :
        is_restorable j.state ≡ true → enter_live (pos j.attempts, back) t ≡ ok (enter j t)
    unfolding enter_live back
    enter_live-open here = rw (here, no_duplicate) (ap (λ x. ok (enter x t)) (back_same here))

    -- the first entry of a dict and the others
    first_or_later :
        (i : Uuid) (x : LocalJob)
        → lookup i ((id, j) ∷ d) ≡ some x
        → ((i ≡ id) × (x ≡ j)) ⊎ (lookup i d ≡ some x)
    unfolding lookup
    first_or_later i x l = ground (arith, nat_eq.beq_iff id i)

    settled-After :
        (t' : Tables) → is_restorable j.state ≡ false → After d t t' → After ((id, j) ∷ d) t t'
    settled-After t' done a = record {
      entered = λ i x l. elim (first_or_later i x l) [
        | inl (here, same) ↦ rw (here, same, done) (a.others id b.distinct.0 ∙ b.jobs id here≢none)
        | inr later ↦ a.entered i x later
      ];
      others = λ i l. a.others i (lookup-tail_none i id j d l);
    }

    open-After :
        (t' : Tables)
        → is_restorable j.state ≡ true
        → After d (enter j t) t'
        → After ((id, j) ∷ d) t t'
    open-After t' here a = record {
      entered = λ i x l. elim (first_or_later i x l) [
        | inl (at, same) ↦
            rw (at, same, here)
              (a.others id b.distinct.0
                ∙ ap (λ n. lookup id (insert n j t.jobs)) sound.named
                ∙ lookup-insert_self id j t.jobs)
        | inr later ↦ a.entered i x later
      ];
      others = λ i l.
          a.others i (lookup-tail_none i id j d l)
          ∙ lookup-insert_ne j.envelope.job_id i j t.jobs
              (λ same. here≢none (ap (λ n. lookup n ((id, j) ∷ d)) (sym sound.named ∙ same) ∙ l));
    }

  module _ (k : Signer) (p : Parsers) (inverse : Inverse k p) (now : ℕ)
      (valid : (id : Uuid) (j : LocalJob)
        → lookup id w.jobs ≡ some j
        → verify k now j.envelope ≡ ok tt) where
    checked :
        (id : Uuid) (j : LocalJob) (d : Dict Uuid LocalJob) (t : Tables)
        (b : Before ((id, j) ∷ d) t)
        → checked_entry k p now (entry_of k p j) ≡ ok (pos j.attempts, back id j d t b)
    unfolding back
    checked id j d t b =
        let h = c.sound id j b.theirs.0 in
        checked_entry-entry k p inverse now j (valid id j b.theirs.0) h.safe h.safe_payload

    restore_each-After :
        (d : Dict Uuid LocalJob) (t : Tables)
        → Before d t
        → (t' : Tables) × (restore_each k p now (entries k p (values d)) t ≡ ok t') × After d t t'
    unfolding restore_each ◌>>=◌ lookup
    restore_each-After [] t b = (t, refl, record { entered = λ id j l. cc; others = λ id l. refl })
    restore_each-After ((id, j) ∷ d) t b = elim (Bool-cases (is_restorable j.state)) [
      | inr done ↦
          let (t', run, a) = restore_each-After d t (skip-Before id j d t b) in
          (
            t',
            rw (checked id j d t b, enter_live-settled id j d t b done) run,
            settled-After id j d t b t' done a,
          )
      | inl here ↦
          let (t', run, a) = restore_each-After d (enter j t) (enter-Before id j d t b) in
          (
            t',
            rw (checked id j d t b, enter_live-open id j d t b here) run,
            open-After id j d t b t' here a,
          )
    ]

    start-Before : Before w.jobs no_tables
    unfolding lookup
    start-Before = record {
      distinct = c.distinct;
      theirs = Every-lookup w.jobs c.distinct;
      jobs = λ id present. refl;
      dedupe = λ key id l. cc;
      nonces = λ key id l. cc;
    }

-- What a worker holds after a restart from the snapshot `items` of `w`.
pub record Restarted (k : Signer) (p : Parsers) (now : ℕ) (w v : LocalTenantWorker)
    (items : List Item) : Type 0 where
  pub count : ℕ
  pub after : LocalTenantWorker
  pub taken : snapshot k p w ≡ ok items
  pub restored : restore k p now items v ≡ (ok count, after)
  pub kept : (id : Uuid) (j : LocalJob) → lookup id w.jobs ≡ some j → lookup id after.jobs ≡ live j
  pub only : (id : Uuid) → lookup id w.jobs ≡ none → lookup id after.jobs ≡ none

-- The snapshot of a worker that calls have led to, read back by any worker with the same secret
-- while all its envelopes are still valid, is accepted, and gives that worker every pending or
-- failed job as it was, attempts and error included, none of the finished ones, and no other job,
-- provided the parsers of identifiers, times and numbers read back what was printed.
pub restore-snapshot :
    (k : Signer) (p : Parsers) (now : ℕ) (w v : LocalTenantWorker)
    → Inverse k p
    → Reach k w
    → ((id : Uuid) (j : LocalJob) → lookup id w.jobs ≡ some j → verify k now j.envelope ≡ ok tt)
    → (items : List Item) × Restarted k p now w v items
unfolding snapshot restore lookup
restore-snapshot k p now w v inverse r valid =
    let c = Reach-Consistent k w r in
    let (t, run, a) =
      restore_each-After w c k p inverse now valid w.jobs no_tables
        (start-Before w c k p inverse now valid) in
    (
      entries k p (values w.jobs),
      record {
        count = length t.jobs;
        after = record v { jobs = t.jobs; dedupe = t.dedupe; nonces = t.nonces };
        taken = snapshot_each-entries k p (values w.jobs);
        restored = rw run refl;
        kept = a.entered;
        only = a.others;
      },
    )
