-- ===== src/Application/Transfer.antt =====
-- Export: `export_memories` and `_validate_import_record` of src/omp/application/services.py, over
-- InMemoryMemoryAdminRepository of src/omp/application/fakes.py.
pub mod Complete
use Prim.Native.Char.{Char, code}
use umcp.Prelude.{
  ℕ, zero, suc, ◌+◌, String, Eq, nat_eq, string_eq, option_eq, pair_eq, ◌==◌, Bool, true, false,
  ◌&&◌, ◌||◌, not, Option, none, some, List, [], ◌∷◌, elem, length, leb, if◌then◌else◌,
}
use umcp.Text.{len, all_chars}
use umcp.Dict.{lookup, values}
use umcp.Sorting.{sort}
use umcp.Domain.Errors.{Error, Result, ok, err, validation_error, ◌>>=◌, ◌>>◌, raise_if}
use umcp.Domain.Values.{Uuid, Relation, EmbeddingDescriptor, validate_owner_id}
use umcp.Domain.Memory.{Memory, MemoryVersion}
use umcp.Application.Models.{Vector}
use umcp.Application.Store.{InMemoryStore}
use umcp.Application.Exec
use umcp.Application.Exec.{Exec, lift, reads, transaction}
use umcp.Application.Repository.{get, history, list_relations}

-- `MemoryExportRecord` and `MemoryImportRecord`, which have the same fields
pub record MemoryExportRecord : Type 0 where
  pub memory : Memory
  pub history : List MemoryVersion
  pub relations : List Relation
  pub embedding : Option Vector
  pub write_fingerprint : Option String

-- `fingerprints.get((owner_id, key)) if key is not None else None`
abbrev pub fingerprint_of : String → Option String → InMemoryStore → Option String
fingerprint_of owner none s = none
fingerprint_of owner (some key) s = lookup (owner, key) s.fingerprints

abbrev pub vector_of : Bool → Uuid → InMemoryStore → Option Vector
vector_of include id s = if include then lookup id s.vectors else none

abbrev pub export_known :
    String → Uuid → Bool → InMemoryStore → Option Memory → Result (Option MemoryExportRecord)
export_known owner id include s none = ok none
export_known owner id include s (some m) = do
  versions ← history owner id s
  ok (
      some (record {
        memory = m;
        history = versions;
        relations = list_relations owner id s;
        embedding = vector_of include id s;
        write_fingerprint = fingerprint_of owner m.idempotency_key s;
      }))

unfoldable pub export_memory :
    String → Uuid → Bool → InMemoryStore → Result (Option MemoryExportRecord)
export_memory owner id include s = export_known owner id include s (get owner none id s)

-- `str(item.id)`
abbrev pub id_le : Memory → Memory → Bool
id_le a b = leb a.id b.id

abbrev pub with_record :
    Option MemoryExportRecord → List MemoryExportRecord → List MemoryExportRecord
with_record none records = records
with_record (some r) records = r ∷ records

-- the loop over the memories, in the order of their identifiers
unfoldable pub export_each :
    String → Bool → InMemoryStore → List Memory → Result (List MemoryExportRecord)
export_each owner include s [] = ok []
export_each owner include s (m ∷ ms) =
    let rest = export_each owner include s ms in
    if not (m.owner_id == owner)
    then rest
    else (do r ← export_memory owner m.id include s; records ← rest; ok (with_record r records))

-- `MemoryApplicationService.export_memories`
unfoldable pub export_memories : String → Bool → Exec (List MemoryExportRecord)
export_memories owner include =
    Exec.◌>>=◌ (lift (validate_owner_id owner))
      λ _. transaction (reads (λ s. export_each owner include s (sort id_le (values s.memories))))

-- `tuple(snapshot.version for snapshot in record.history)`
abbrev pub version_numbers : List MemoryVersion → List ℕ
version_numbers [] = []
version_numbers (v ∷ vs) = v.version ∷ version_numbers vs

-- `tuple(range(k, k + count))`
abbrev pub range_from : ℕ → ℕ → List ℕ
range_from k zero = []
range_from k (suc count) = k ∷ range_from (k + 1) count

abbrev pub same_numbers : List ℕ → List ℕ → Bool
same_numbers [] [] = true
same_numbers [] (y ∷ ys) = false
same_numbers (x ∷ xs) [] = false
same_numbers (x ∷ xs) (y ∷ ys) = x == y && same_numbers xs ys

abbrev pub any_foreign_version : Uuid → List MemoryVersion → Bool
any_foreign_version id [] = false
any_foreign_version id (v ∷ vs) = not (v.memory_id == id) || any_foreign_version id vs

abbrev pub any_foreign_relation : String → List Relation → Bool
any_foreign_relation owner [] = false
any_foreign_relation owner (r ∷ rs) = not (r.owner_id == owner) || any_foreign_relation owner rs

-- `character in "0123456789abcdef"`
abbrev pub is_hex : Char → Bool
is_hex ch = let c = code ch in (leb 48 c && leb c 57) || (leb 97 c && leb c 102)

unfoldable pub is_digest : String → Bool
is_digest t = len t == 64 && all_chars is_hex t

abbrev pub unsigned : Option String → Option String → Bool
unsigned none fingerprint = false
unsigned (some key) none = true
unsigned (some key) (some fp) = false

abbrev pub bad_digest : Option String → Bool
bad_digest none = false
bad_digest (some fp) = not (is_digest fp)

abbrev pub bad_dimension : Option EmbeddingDescriptor → Option Vector → Bool
bad_dimension descriptor none = false
bad_dimension none (some v) = true
bad_dimension (some d) (some v) = not (length v == d.dimension)

-- `_validate_import_record`, with the identifiers seen so far; it returns them with the record's
unfoldable pub validate_import_record : String → MemoryExportRecord → List Uuid → Result (List Uuid)
validate_import_record owner r seen = do
  raise_if (elem r.memory.id seen) validation_error
  raise_if (not (r.memory.owner_id == owner)) validation_error
  raise_if
      (not (same_numbers (version_numbers r.history) (range_from 1 r.memory.version))
        || any_foreign_version r.memory.id r.history)
      validation_error
  raise_if (unsigned r.memory.idempotency_key r.write_fingerprint) validation_error
  raise_if (bad_digest r.write_fingerprint) validation_error
  raise_if (bad_dimension r.memory.embedding r.embedding) validation_error
  raise_if (any_foreign_relation owner r.relations) validation_error
  ok (r.memory.id ∷ seen)

-- `is_tombstoned`
unfoldable pub is_tombstoned : String → Uuid → Option String → InMemoryStore → Bool
is_tombstoned owner id tenant s = elem (owner, (tenant, id)) s.tombstones
