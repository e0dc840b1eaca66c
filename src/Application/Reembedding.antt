-- ===== src/Application/Reembedding.antt =====
-- src/omp/application/reembedding.py: EmbeddingReembeddingJob, which embeds the memories of an owner
-- again, a batch at a time.
pub mod Termination
pub mod Postgres
use umcp.Prelude.{
  ℕ, zero, suc, ◌+◌, String, Eq, nat_eq, ◌==◌, Bool, true, false, ◌||◌, ◌&&◌, not, Option, none,
  some, List, [], ◌∷◌, length, ltb, if◌then◌else◌,
}
use umcp.Score.{ℤ}
use umcp.Domain.Errors.{Error, Result, ok, err, value_error, ◌>>=◌, ◌>>◌, raise_if}
use umcp.Domain.Values.{Uuid, EmbeddingDescriptor, validate_owner_id}
use umcp.Domain.Memory.{Memory}

-- The operations of the repository that the job calls, for one owner and one profile, on the state `S` of
-- the database, and the provider's `embed`. The error of a unit of work is the one that its block raises.
pub record Repository (S : Type 0) : Type 0 where
  pub list_for_reembedding : Option Uuid → ℕ → S → Result (List Memory)
  pub upsert_embedding_profile : Uuid → ℕ → List ℤ → S → Result Bool × S
  pub cutover_embedding_profile : S → Result ℕ × S
  pub semantic_coverage : S → Result (ℕ × ℕ)
  pub embed : String → Result (List ℤ)
  pub profile : EmbeddingDescriptor

pub record ReembeddingReport : Type 0 where
  pub owner_id : String
  pub profile_id : String
  pub profile_version : String
  pub dry_run : Bool
  pub cutover : Bool
  pub eligible : ℕ
  pub completed : ℕ
  pub stale : ℕ
  pub failed : ℕ
  pub last_memory_id : Option Uuid
  pub activated : ℕ

-- `eligible`, `completed`, `stale` and `failed`
pub record Counts : Type 0 where
  pub eligible : ℕ
  pub completed : ℕ
  pub stale : ℕ
  pub failed : ℕ

abbrev pub no_counts : Counts
no_counts = record { eligible = 0; completed = 0; stale = 0; failed = 0 }

pub record Options : Type 0 where
  pub owner_id : String
  pub batch_size : ℕ
  pub resume_after : Option Uuid
  pub dry_run : Bool
  pub cutover : Bool

-- where the loop stands: the counts, the cursor and the database
abbrev pub Progress : Type 0 → Type 0
Progress S = Counts × Option Uuid × S

abbrev pub last_id : Memory → List Memory → Uuid
last_id m [] = m.id
last_id m (n ∷ ms) = last_id n ms

module _ {S : Type 0} (r : Repository S) where
  abbrev pub count_upsert : Result Bool × S → Counts → Counts × S
  count_upsert (err e, s) c = (record c { failed = c.failed + 1 }, s)
  count_upsert (ok false, s) c = (record c { stale = c.stale + 1 }, s)
  count_upsert (ok true, s) c = (record c { completed = c.completed + 1 }, s)

  -- the `try` of one memory
  abbrev pub embed_one : Memory → Result (List ℤ) → Counts → S → Counts × S
  embed_one m (err e) c s = (record c { failed = c.failed + 1 }, s)
  embed_one m (ok vector) c s =
      if not (length vector == r.profile.dimension)
      then (record c { failed = c.failed + 1 }, s)
      else count_upsert (r.upsert_embedding_profile m.id m.version vector s) c

  unfoldable pub embed_each : List Memory → Counts → S → Counts × S
  embed_each [] c s = (c, s)
  embed_each (m ∷ ms) c s =
      let (c', s') = embed_one m (r.embed m.content) c s in embed_each ms c' s'

  -- the memories of one batch
  unfoldable pub run_batch : Bool → List Memory → Counts → S → Counts × S
  run_batch dry_run ms c s =
      let counted = record c { eligible = c.eligible + length ms } in
      if dry_run then (counted, s) else embed_each ms counted s

  -- The body of the loop. `again` is the loop from there on.
  abbrev pub run_listed :
      Options
      → (Progress S → Option (Result (Progress S) × S))
      → Result (List Memory)
      → Progress S
      → Option (Result (Progress S) × S)
  run_listed o again (err e) (c, cursor, s) = some (err e, s)
  run_listed o again (ok []) (c, cursor, s) = some (ok (c, cursor, s), s)
  run_listed o again (ok (m ∷ ms)) (c, cursor, s) =
      let (c', s') = run_batch o.dry_run (m ∷ ms) c s in
      if ltb (length (m ∷ ms)) o.batch_size
      then some (ok (c', some (last_id m ms), s'), s')
      else again (c', some (last_id m ms), s')

  -- `while True`, with fuel: `none` is a loop that goes on
  unfoldable pub run_loop : ℕ → Options → Progress S → Option (Result (Progress S) × S)
  run_loop zero o (c, cursor, s) = none
  run_loop (suc n) o (c, cursor, s) =
      run_listed o (run_loop n o) (r.list_for_reembedding cursor o.batch_size s) (c, cursor, s)

  abbrev pub cut_over : Options → S → Result ℕ × S
  cut_over o s = if o.cutover && not o.dry_run then r.cutover_embedding_profile s else (ok 0, s)

  abbrev pub report : Options → Progress S → ℕ → ℕ × ℕ → ReembeddingReport
  report o (c, cursor, s) activated (total, covered) = record {
    owner_id = o.owner_id;
    profile_id = r.profile.profile_id;
    profile_version = r.profile.profile_version;
    dry_run = o.dry_run;
    cutover = o.cutover;
    eligible = if o.dry_run then total else c.eligible;
    completed = c.completed;
    stale = c.stale;
    failed = c.failed;
    last_memory_id = cursor;
    activated = activated;
  }

  abbrev pub finish_cut : Options → Progress S → Result ℕ × S → Result ReembeddingReport × S
  finish_cut o at (err e, s) = (err e, s)
  finish_cut o at (ok activated, s) =
      (r.semantic_coverage s >>= λ coverage. ok (report o at activated coverage), s)

  abbrev pub finish : Options → Result (Progress S) × S → Result ReembeddingReport × S
  finish o (err e, s) = (err e, s)
  finish o (ok (c, cursor, s), _) = finish_cut o (c, cursor, s) (cut_over o s)

  abbrev pub finish_if :
      Options → Option (Result (Progress S) × S) → Option (Result ReembeddingReport × S)
  finish_if o none = none
  finish_if o (some out) = some (finish o out)

  abbrev pub checked_options : Options → Result (Unit {0})
  checked_options o = do
    validate_owner_id o.owner_id
    raise_if (ltb o.batch_size 1 || ltb 1000 o.batch_size) value_error
    raise_if (not (r.profile.dimension == 384)) value_error

  abbrev pub run_checked :
      ℕ → Options → Result (Unit {0}) → S → Option (Result ReembeddingReport × S)
  run_checked fuel o (err e) s = some (err e, s)
  run_checked fuel o (ok _) s = finish_if o (run_loop fuel o (no_counts, o.resume_after, s))

  unfoldable pub run : ℕ → Options → S → Option (Result ReembeddingReport × S)
  run fuel o s = run_checked fuel o (checked_options o) s
