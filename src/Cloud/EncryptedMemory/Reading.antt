-- ===== src/Cloud/EncryptedMemory/Reading.antt =====
-- `search`, `get` and `list_records` of EncryptedCloudMemoryService.
use umcp.Prelude.{
  ℕ, String, string_eq, ◌==◌, Bool, false, ◌||◌, ◌&&◌, not, Option, none, some, List, [], ◌∷◌, elem,
  take, if◌then◌else◌,
}
use umcp.Dict.{lookup, values}
use umcp.Domain.Errors.{Result, ok, ◌>>=◌, ◌>>◌}
use umcp.Cloud.EncryptedMemory.{Platform, Stored, CloudStore, View, tenant_of, read}

pub record SearchPayload : Type 0 where
  pub owner_id : String
  pub query : String
  pub state : Option String
  pub limit : Option ℕ

abbrev pub or_active : Option String → String
or_active none = "active"
or_active (some state) = state

abbrev pub or_ten : Option ℕ → ℕ
or_ten none = 10
or_ten (some n) = n

-- `a & b` of two sets of words is not empty
abbrev pub shares : List String → List String → Bool
shares [] ws = false
shares (v ∷ vs) ws = elem v ws || shares vs ws

module _ {J : Type 0} (p : Platform J) where
  abbrev pub belongs : String → String → Stored → Bool
  belongs owner_id state stored = stored.owner_id == owner_id && stored.state == state

  abbrev pub keep_match : List String → View J → List (View J) → List (View J)
  keep_match query view rest = if shares query (p.words view.content) then view ∷ rest else rest

  -- Every record of the owner in that state is read, and the first that cannot be read ends the search.
  unfoldable pub matching : String → String → List String → List Stored → Result (List (View J))
  matching owner_id state query [] = ok []
  matching owner_id state query (stored ∷ records) =
      let rest = matching owner_id state query records in
      if belongs owner_id state stored
      then (read p stored >>= λ view. rest >>= λ views. ok (keep_match query view views))
      else rest

  -- The score is the same for every hit, and left out.
  unfoldable pub search : SearchPayload → CloudStore → Result (List (View J))
  search payload s = do
    tenant_of p payload.owner_id
    views ←
        matching payload.owner_id (or_active payload.state) (p.words payload.query)
          (values s.records)
    ok (take (or_ten payload.limit) views)

  unfoldable pub get_owned : String → Option Stored → Result (Option (View J))
  get_owned owner_id none = ok none
  get_owned owner_id (some stored) =
      if not (stored.owner_id == owner_id)
      then ok none
      else read p stored >>= λ view. ok (some view)

  unfoldable pub get : String → String → CloudStore → Result (Option (View J))
  get owner_id memory_id s = do
    tenant_of p owner_id
    get_owned owner_id (lookup memory_id s.records)

  unfoldable pub read_active : String → List Stored → Result (List (View J))
  read_active owner_id [] = ok []
  read_active owner_id (stored ∷ records) =
      let rest = read_active owner_id records in
      if belongs owner_id "active" stored
      then (read p stored >>= λ view. rest >>= λ views. ok (view ∷ views))
      else rest

  unfoldable pub list_records : String → CloudStore → Result (List (View J))
  list_records owner_id s = do tenant_of p owner_id; read_active owner_id (values s.records)
