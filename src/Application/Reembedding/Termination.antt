-- ===== src/Application/Reembedding/Termination.antt =====
-- The re-embedding job ends, and counts every memory that it meets once.
use umcp.Prelude.{
  ℕ, zero, suc, ◌+◌, ◌≤◌, ◌<◌, String, nat_eq, ◌==◌, ◌≡◌, ◌≢◌, ◌⊎◌, ◌&&◌, not, refl, ap, ◌∙◌, Bool,
  true, false, Option, some, List, [], ◌∷◌, length, ltb, arith, inl, inr, Bool-cases,
}
use umcp.Score.{ℤ}
use umcp.Domain.Errors.{Error, Result, ok, err, ◌>>=◌}
use umcp.Domain.Values.{Uuid}
use umcp.Domain.Memory.{Memory}
use umcp.Application.Reembedding.{
  Repository, ReembeddingReport, Counts, no_counts, Options, Progress, last_id, count_upsert,
  embed_one, embed_each, run_batch, run_listed, run_loop, cut_over, report, finish_cut, finish,
  finish_if, checked_options, run_checked, run,
}

-- What the job relies on: a batch lists memories after the cursor, so that fewer are left after its last
-- one, and storing a vector adds no memory.
pub record Advances {S : Type 0} (r : Repository S) : Type 0 where
  pub left : Option Uuid → S → ℕ
  pub listed :
      (cursor : Option Uuid) (n : ℕ) (s : S) (m : Memory) (ms : List Memory)
      → r.list_for_reembedding cursor n s ≡ ok (m ∷ ms)
      → left (some (last_id m ms)) s + length (m ∷ ms) ≤ left cursor s
  pub stored :
      (cursor : Option Uuid) (id : Uuid) (version : ℕ) (vector : List ℤ) (s : S)
      → left cursor (r.upsert_embedding_profile id version vector s).1 ≡ left cursor s

-- what was decided of the memories met so far
abbrev decided : Counts → ℕ
decided c = c.completed + c.stale + c.failed

-- in a dry run nothing is decided, otherwise every memory that was met
abbrev Balanced : Bool → Counts → Type 0
Balanced true c = decided c ≡ 0
Balanced false c = decided c ≡ c.eligible

ok≢err : {n : ℕ} {e : Error} → ok n ≢ err e
ok≢err h = cc

-- What a report says of the memories: a dry run decided nothing; any other run met at most `bound`, and
-- stored the vector of each, found it changed, or failed on it.
abbrev pub IsAccounted : Bool → ℕ → ReembeddingReport → Type 0
IsAccounted true bound x = x.completed + x.stale + x.failed ≡ 0
IsAccounted false bound x = (x.completed + x.stale + x.failed ≡ x.eligible) × (x.eligible ≤ bound)

module _ {S : Type 0} (r : Repository S) (a : Advances r) where
  -- `k` memories were decided, none was met, and none was added
  record Counted (k : ℕ) (c : Counts) (s : S) (out : Counts × S) : Type 0 where
    sum : decided out.0 ≡ decided c + k
    met : out.0.eligible ≡ c.eligible
    same : (cursor : Option Uuid) → a.left cursor out.1 ≡ a.left cursor s

  count_upsert-Counted :
      (m : Memory) (vector : List ℤ) (c : Counts) (s : S) (out : Result Bool × S)
      → ((cursor : Option Uuid) → a.left cursor out.1 ≡ a.left cursor s)
      → Counted 1 c s (count_upsert r out c)
  count_upsert-Counted m vector c s (err e, t) h = record {
    sum = omega arith;
    met = refl;
    same = h;
  }
  count_upsert-Counted m vector c s (ok false, t) h = record {
    sum = omega arith;
    met = refl;
    same = h;
  }
  count_upsert-Counted m vector c s (ok true, t) h = record {
    sum = omega arith;
    met = refl;
    same = h;
  }

  embed_one-Counted :
      (m : Memory) (v : Result (List ℤ)) (c : Counts) (s : S) → Counted 1 c s (embed_one r m v c s)
  embed_one-Counted m (err e) c s = record { sum = omega arith; met = refl; same = λ cursor. refl }
  embed_one-Counted m (ok vector) c s = elim (Bool-cases (length vector == r.profile.dimension)) [
    | inr other ↦ rw other (record { sum = omega arith; met = refl; same = λ cursor. refl })
    | inl fits ↦ rw fits (
        count_upsert-Counted m vector c s (r.upsert_embedding_profile m.id m.version vector s)
          (λ cursor. a.stored cursor m.id m.version vector s))
  ]

  embed_each-Counted :
      (ms : List Memory) (c : Counts) (s : S) → Counted (length ms) c s (embed_each r ms c s)
  unfolding embed_each
  embed_each-Counted [] c s = record { sum = omega arith; met = refl; same = λ cursor. refl }
  embed_each-Counted (m ∷ ms) c s =
      let one = embed_one-Counted m (r.embed m.content) c s in
      let out = embed_one r m (r.embed m.content) c s in
      let rest = embed_each-Counted ms out.0 out.1 in
      record {
        sum = (let x = one.sum in let y = rest.sum in omega (arith, x, y));
        met = rest.met ∙ one.met;
        same = λ cursor. rest.same cursor ∙ one.same cursor;
      }

  -- what a batch of `k` memories leaves
  record Batched (dry : Bool) (k : ℕ) (c : Counts) (s : S) (out : Counts × S) : Type 0 where
    balanced : Balanced dry out.0
    met : out.0.eligible ≡ c.eligible + k
    same : (cursor : Option Uuid) → a.left cursor out.1 ≡ a.left cursor s

  run_batch-Batched :
      (dry : Bool) (ms : List Memory) (c : Counts) (s : S)
      → Balanced dry c
      → Batched dry (length ms) c s (run_batch r dry ms c s)
  unfolding run_batch
  run_batch-Batched true ms c s h = record { balanced = h; met = refl; same = λ cursor. refl }
  run_batch-Batched false ms c s h =
      let each = embed_each-Counted ms (record c { eligible = c.eligible + length ms }) s in
      record {
        balanced = (let x = each.sum in let y = each.met in omega (arith, x, y, h));
        met = each.met;
        same = each.same;
      }

  -- The loop ended: with the error of a listing, or with balanced counts and no memory met twice.
  abbrev Ended : Options → ℕ → Result (Progress S) × S → Type 0
  Ended o bound (err e, s) =
      (cursor : Option Uuid) × (r.list_for_reembedding cursor o.batch_size s ≡ err e)
  Ended o bound (ok (c, cursor, s), _) = Balanced o.dry_run c × (c.eligible ≤ bound)

  run_listed-Ended :
      (o : Options) (again : Progress S → Option (Result (Progress S) × S)) (bound : ℕ)
      (l : Result (List Memory)) (c : Counts) (cursor : Option Uuid) (s : S)
      → r.list_for_reembedding cursor o.batch_size s ≡ l
      → Balanced o.dry_run c
      → c.eligible + a.left cursor s ≤ bound
      → ((c' : Counts) (next : Option Uuid) (s' : S)
          → Balanced o.dry_run c'
          → c'.eligible + a.left next s' ≤ bound
          → a.left next s' < a.left cursor s
          → (out : Result (Progress S) × S) × (again (c', next, s') ≡ some out) × Ended o bound out)
      → (out : Result (Progress S) × S) × (run_listed r o again l (c, cursor, s) ≡ some out)
        × Ended o bound out
  run_listed-Ended o again bound (err e) c cursor s l h k f = ((err e, s), refl, (cursor, l))
  run_listed-Ended o again bound (ok []) c cursor s l h k f =
      ((ok (c, cursor, s), s), refl, (h, omega (arith, k)))
  run_listed-Ended o again bound (ok (m ∷ ms)) c cursor s l h k f =
      let b = run_batch-Batched o.dry_run (m ∷ ms) c s h in
      let out = run_batch r o.dry_run (m ∷ ms) c s in
      let less = a.listed cursor o.batch_size s m ms l in
      let met = b.met in
      let same = b.same (some (last_id m ms)) in
      elim (Bool-cases (ltb (length (m ∷ ms)) o.batch_size)) [
        | inl short ↦ (
          (ok (out.0, some (last_id m ms), out.1), out.1),
          rw short refl,
          (b.balanced, omega (arith, k, less, met)),
        )
        | inr full ↦
            (let (x, went, ended) =
                f out.0 (some (last_id m ms)) out.1 b.balanced (omega (arith, k, less, met, same))
                  (omega (arith, less, same)) in
              (x, rw full went, ended))
      ]

  run_loop-Ended :
      (n : ℕ) (o : Options) (bound : ℕ) (c : Counts) (cursor : Option Uuid) (s : S)
      → Balanced o.dry_run c
      → c.eligible + a.left cursor s ≤ bound
      → a.left cursor s < n
      → (out : Result (Progress S) × S) × (run_loop r n o (c, cursor, s) ≡ some out)
        × Ended o bound out
  unfolding run_loop
  run_loop-Ended zero o bound c cursor s h k enough = absurd (omega arith)
  run_loop-Ended (suc n) o bound c cursor s h k enough =
      run_listed-Ended o (run_loop r n o) bound (r.list_for_reembedding cursor o.batch_size s) c
        cursor s refl h k
        (λ c' next s' h' k' less.
          run_loop-Ended n o bound c' next s' h' k' (omega (arith, less, enough)))

  -- What made the job fail: a check of its arguments, a listing, the cutover that was asked for, or the
  -- count of what is covered.
  abbrev pub Failed : Options → Error → Type 0
  Failed o e =
      (checked_options r o ≡ err e)
      ⊎ ((cursor : Option Uuid) × (s : S) × (r.list_for_reembedding cursor o.batch_size s ≡ err e))
      ⊎ ((o.cutover ≡ true)
          × (o.dry_run ≡ false)
          × ((s : S) × ((r.cutover_embedding_profile s).0 ≡ err e)))
      ⊎ ((s : S) × (r.semantic_coverage s ≡ err e))

  abbrev pub Answered : Options → ℕ → Result ReembeddingReport × S → Type 0
  Answered o bound (err e, s) = Failed o e
  Answered o bound (ok x, s) = IsAccounted o.dry_run bound x

  no_counts-Balanced : (dry : Bool) → Balanced dry no_counts
  no_counts-Balanced true = refl
  no_counts-Balanced false = refl

  report-IsAccounted :
      (dry cutover : Bool) (owner : String) (size bound activated : ℕ) (after cursor : Option Uuid)
      (c : Counts) (s : S) (cov : ℕ × ℕ)
      → Balanced dry c
      → c.eligible ≤ bound
      → IsAccounted dry bound (
          report r
            (record {
              owner_id = owner;
              batch_size = size;
              resume_after = after;
              dry_run = dry;
              cutover = cutover;
            })
            (c, cursor, s)
            activated
            cov)
  report-IsAccounted true cutover owner size bound activated after cursor c s (t, v) h k = h
  report-IsAccounted false cutover owner size bound activated after cursor c s (t, v) h k = (h, k)

  cover-Answered :
      (o : Options) (bound activated : ℕ) (c : Counts) (cursor : Option Uuid) (s t : S)
      (cov : Result (ℕ × ℕ))
      → r.semantic_coverage t ≡ cov
      → Balanced o.dry_run c
      → c.eligible ≤ bound
      → Answered o bound (cov >>= λ coverage. ok (report r o (c, cursor, s) activated coverage), t)
  unfolding ◌>>=◌
  cover-Answered o bound activated c cursor s t (err e) q h k = inr (inr (inr (t, q)))
  cover-Answered o bound activated c cursor s t (ok cov) q h k =
      report-IsAccounted o.dry_run o.cutover o.owner_id o.batch_size bound activated o.resume_after
        cursor c s cov h k

  cut_over-fails :
      (o : Options) (s t : S) (e : Error)
      → cut_over r o s ≡ (err e, t)
      → (o.cutover ≡ true) × (o.dry_run ≡ false) × ((r.cutover_embedding_profile s).0 ≡ err e)
  cut_over-fails o s t e q = elim (Bool-cases (o.cutover && not o.dry_run)) [
    | inl cut ↦ (ground arith, ground arith, ap (λ x. x.0) (rw cut at q))
    | inr kept ↦ absurd (ok≢err (ap (λ x. x.0) (rw kept at q)))
  ]

  finish_cut-Answered :
      (o : Options) (bound : ℕ) (c : Counts) (cursor : Option Uuid) (s : S) (out : Result ℕ × S)
      → cut_over r o s ≡ out
      → Balanced o.dry_run c
      → c.eligible ≤ bound
      → Answered o bound (finish_cut r o (c, cursor, s) out)
  finish_cut-Answered o bound c cursor s (err e, t) q h k =
      let (asked, wet, failed) = cut_over-fails o s t e q in
      inr (inr (inl (asked, wet, (s, failed))))
  finish_cut-Answered o bound c cursor s (ok activated, t) q h k =
      cover-Answered o bound activated c cursor s t (r.semantic_coverage t) refl h k

  finish-Answered :
      (o : Options) (bound : ℕ) (out : Result (Progress S) × S)
      → Ended o bound out
      → Answered o bound (finish r o out)
  finish-Answered o bound (err e, s) (cursor, h) = inr (inl (cursor, s, h))
  finish-Answered o bound (ok (c, cursor, s), t) (h, k) =
      finish_cut-Answered o bound c cursor s (cut_over r o s) refl h k

  checked-Answered :
      (fuel : ℕ) (o : Options) (s : S) (checked : Result (Unit {0}))
      → checked_options r o ≡ checked
      → a.left o.resume_after s < fuel
      → (out : Result ReembeddingReport × S) × (run_checked r fuel o checked s ≡ some out)
        × Answered o (a.left o.resume_after s) out
  checked-Answered fuel o s (err e) q enough = ((err e, s), refl, inl q)
  checked-Answered fuel o s (ok _) q enough =
      let (x, went, ended) =
        run_loop-Ended fuel o (a.left o.resume_after s) no_counts o.resume_after s
          (no_counts-Balanced o.dry_run) (omega arith) enough in
      (finish r o x, ap (finish_if r o) went, finish-Answered o (a.left o.resume_after s) x ended)

  -- What the job comes to for any repository whose batches list memories after the cursor.
  pub run-Answered :
      (fuel : ℕ) (o : Options) (s : S)
      → a.left o.resume_after s < fuel
      → (out : Result ReembeddingReport × S) × (run r fuel o s ≡ some out)
        × Answered o (a.left o.resume_after s) out
  unfolding run
  run-Answered fuel o s enough = checked-Answered fuel o s (checked_options r o) refl enough
