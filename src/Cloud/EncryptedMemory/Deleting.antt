-- ===== src/Cloud/EncryptedMemory/Deleting.antt =====
-- `forget`, `delete_owner` and `tombstones` of EncryptedCloudMemoryService.
use Prim.Native.Char.{code}
use umcp.Prelude.{
  ℕ, String, nat_eq, string_eq, pair_eq, ◌==◌, Bool, true, false, ◌||◌, ◌&&◌, not, Option, none,
  some, List, [], ◌∷◌, elem, length, ltb, if◌then◌else◌,
}
use umcp.Dict.{Dict, lookup, insert, erase}
use umcp.Sorting.{sort}
use umcp.Domain.Errors.{Result, ok, err}
use umcp.Domain.Values.{Uuid}
use umcp.Cloud.EncryptedMemory.{Platform, Stored, CloudStore, OwnerKey, Answer, tenant_of}

abbrev pub is_owned : String → Option Stored → Bool
is_owned owner_id none = false
is_owned owner_id (some stored) = stored.owner_id == owner_id

-- the record and its vector go, and a tombstone stands for them
abbrev pub bury : String → String → String → CloudStore → CloudStore
bury now owner_id memory_id s = record s {
  forget_keys = (owner_id, memory_id) ∷ s.forget_keys;
  tombstones = insert (owner_id, memory_id) now s.tombstones;
  records = erase memory_id s.records;
  embeddings = erase memory_id s.embeddings;
}

-- the status and the store after it
unfoldable pub forget : String → String → String → CloudStore → String × CloudStore
forget now owner_id memory_id s =
    if elem (owner_id, memory_id) s.forget_keys
    then ("already_absent", s)
    else if not (is_owned owner_id (lookup memory_id s.records))
    then ("already_absent", record s { forget_keys = (owner_id, memory_id) ∷ s.forget_keys })
    else ("forgotten", bury now owner_id memory_id s)

unfoldable pub owned_ids : String → Dict String Stored → List String
owned_ids owner_id [] = []
owned_ids owner_id ((memory_id, stored) ∷ records) =
    let rest = owned_ids owner_id records in
    if stored.owner_id == owner_id then memory_id ∷ rest else rest

unfoldable pub bury_each : String → String → List String → CloudStore → CloudStore
bury_each now owner_id [] s = s
bury_each now owner_id (memory_id ∷ ids) s =
    bury_each now owner_id ids (bury now owner_id memory_id s)

unfoldable pub other_keys : String → Dict OwnerKey String → Dict OwnerKey String
other_keys owner_id [] = []
other_keys owner_id ((key, memory_id) ∷ keys) =
    let rest = other_keys owner_id keys in
    if not (key.0 == owner_id) then (key, memory_id) ∷ rest else rest

abbrev pub drop_keys : String → CloudStore → CloudStore
drop_keys owner_id s = record s { write_keys = other_keys owner_id s.write_keys }

abbrev pub delete_bound : Result Uuid → Answer ℕ → CloudStore → Answer ℕ
delete_bound (err e) answer s = (err e, s)
delete_bound (ok tenant) answer s = answer

module _ {J : Type 0} (p : Platform J) where
  -- `now` is the instant of the whole call.
  unfoldable pub delete_owner : String → String → CloudStore → Answer ℕ
  delete_owner now owner_id s =
      delete_bound (tenant_of p owner_id)
        (
          ok (length (owned_ids owner_id s.records)),
          drop_keys owner_id (bury_each now owner_id (owned_ids owner_id s.records) s),
        )
        s

-- `a <= b` of two texts
unfoldable pub leb_text : String → String → Bool
leb_text String.[] t = true
leb_text (String.◌∷◌ c s) String.[] = false
leb_text (String.◌∷◌ c s) (String.◌∷◌ d t) =
    let rest = leb_text s t in ltb (code c) (code d) || (code c == code d && rest)

abbrev pub leb_key : OwnerKey × String → OwnerKey × String → Bool
leb_key ((a, m), x) ((b, n), y) = if a == b then leb_text m n else leb_text a b

unfoldable pub tombstones : CloudStore → Dict OwnerKey String
tombstones s = sort leb_key s.tombstones
