-- ===== src/Tests/ReembeddingExamples.antt =====
-- Two memories to embed again, and the theorem on the job there.
use umcp.Prelude.{ℕ, zero, suc, String, ◌≡◌, refl, false, none, some, List, [], ◌∷◌}
use umcp.Score.{ℤ, pos}
use umcp.Sorting.{sort, insert_sorted}
use umcp.Domain.Errors.{Result, ok, ◌>>=◌}
use umcp.Domain.Values.{EmbeddingDescriptor, validate_owner_id}
use umcp.Domain.Memory.{Memory}
use umcp.Text.{is_blank, len, strip, lstrip, rstrip}
use umcp.Application.Repository.{filter}
use umcp.Application.Reembedding.{Options, run, run_loop, run_batch, embed_each}
use umcp.Application.Reembedding.Postgres.{
  Database, EmbeddingRow, list_for_reembedding, upsert_embedding_profile, upsert_row, any_current,
  semantic_coverage, count_rows, count_covered, postgres,
}
use umcp.Tests.Examples.{tea, local_profile}

abbrev semantic : EmbeddingDescriptor
semantic = record local_profile { profile_id = "semantic"; dimension = 384 }

-- a memory of the first profile
abbrev with_64 : Memory → Memory
with_64 m = record m { embedding = some (record local_profile { dimension = 64 }) }

abbrev coffee : Memory
coffee = record tea { id = 9; content = "coffee"; idempotency_key = none }

abbrev tables : Database
tables = record { memories = with_64 coffee ∷ with_64 tea ∷ []; embeddings = [] }

abbrev zeros : ℕ → List ℤ
zeros zero = []
zeros (suc n) = pos 0 ∷ zeros n

abbrev embed_zeros : String → Result (List ℤ)
embed_zeros content = ok (zeros 384)

abbrev options : Options
options = record {
  owner_id = "ada";
  batch_size = 1;
  resume_after = none;
  dry_run = false;
  cutover = false;
}

abbrev embedded : Memory → EmbeddingRow
embedded m = record {
  memory_id = m.id;
  profile_id = "semantic";
  profile_version = "1";
  source_version = 1;
  dimension = 384;
  metric = "cosine";
  vector = zeros 384;
}

-- The run embeds both, in the order of their identifiers.
ran :
    run (postgres "ada" semantic embed_zeros) 3 options tables
    ≡ some (
      ok (record {
        owner_id = "ada";
        profile_id = "semantic";
        profile_version = "1";
        dry_run = false;
        cutover = false;
        eligible = 2;
        completed = 2;
        stale = 0;
        failed = 0;
        last_memory_id = some 9;
        activated = 0;
      }),
      record tables { embeddings = embedded tea ∷ embedded coffee ∷ [] },
    )
unfolding run run_loop run_batch embed_each list_for_reembedding upsert_embedding_profile upsert_row
    any_current semantic_coverage count_rows count_covered filter sort insert_sorted ◌>>=◌
    validate_owner_id is_blank len strip lstrip rstrip
ran = refl
