-- ===== src/Cloud/Access.antt =====
-- Scope and Principal of src/omp/cloud/security.py.
use umcp.Prelude.{ℕ, String, string_eq, Bool, ◌||◌, not, List, [], ◌∷◌, map, elem, leb}
use umcp.Domain.Errors.{Result, permission_error, raise_if}
use umcp.Domain.Values.{Uuid}

pub data Scope : Type 0 where
  memory_read memory_write memory_delete memory_export connections_manage : Scope

unfoldable pub scope_value : Scope → String
scope_value memory_read = "memory:read"
scope_value memory_write = "memory:write"
scope_value memory_delete = "memory:delete"
scope_value memory_export = "memory:export"
scope_value connections_manage = "connections:manage"

-- `frozenset(Scope)`
abbrev pub all_scopes : List Scope
all_scopes = memory_read ∷ memory_write ∷ memory_delete ∷ memory_export ∷ connections_manage ∷ []

pub record Principal : Type 0 where
  pub subject_id : Uuid
  pub tenant_id : Uuid
  pub membership_id : Uuid
  pub scopes : List Scope
  pub credential_id : Uuid
  pub auth_method : String
  pub expires_at : ℕ

-- A scope is its text, as the enumeration is one of texts.
unfoldable pub has_scope : Scope → List Scope → Bool
has_scope scope scopes = elem (scope_value scope) (map scope_value scopes)

unfoldable pub requires : ℕ → Scope → Principal → Result (Unit {0})
requires now scope p =
    raise_if (leb p.expires_at now || not (has_scope scope p.scopes)) permission_error
