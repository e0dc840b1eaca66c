-- ===== src/Cloud/Admin.antt =====
-- src/omp/cloud/admin.py: LocalMailboxAuth, logins by mailed links, sessions and agents' credentials of
-- the hosted service, and the checks of its routes.
pub mod Steps
pub mod Lasting
pub mod Sessions
pub mod Credentials
use umcp.Prelude.{
  ℕ, ◌+◌, String, Eq, nat_eq, string_eq, ◌==◌, Bool, true, false, ◌||◌, ◌&&◌, not, Option, none,
  some, List, [], ◌∷◌, ◌++◌, elem, length, ltb, leb, if◌then◌else◌,
}
use umcp.Text.{strip, is_empty}
use umcp.Dict.{Dict, lookup, insert, erase}
use umcp.Domain.Errors.{
  Error, Result, ok, err, value_error, permission_error, ◌>>=◌, ◌>>◌, raise_if,
}
use umcp.Domain.Values.{Uuid}
use umcp.Cloud.Access.{Scope, all_scopes, Principal, requires}

-- What Python's library gives: the SHA-256 digest of a text, `str.casefold`, and `uuid5` of a kind and a
-- digest.
pub record Library : Type 0 where
  pub digest : String → String
  pub casefold : String → String
  pub identifier : String → String → Uuid

pub record MagicLink : Type 0 where
  pub principal : Principal
  pub expires_at : ℕ
  pub used : Bool

pub record Connection : Type 0 where
  pub name : String
  pub tenant_id : Uuid
  pub scopes : List Scope
  pub status : String

pub record AgentCredential : Type 0 where
  pub name : String
  pub tenant_id : Uuid
  pub scopes : List Scope
  pub token_digest : String
  pub subject_id : Uuid
  pub membership_id : Uuid
  pub credential_id : Uuid
  pub expires_at : ℕ
  pub revoked : Bool

-- Times are instants, in microseconds. A tenant stands for its text.
pub record LocalMailboxAuth : Type 0 where
  pub magic_link_limit : ℕ
  pub magic_link_window : ℕ
  pub outbox : List String
  pub links : Dict String MagicLink
  pub sessions : Dict String Principal
  pub csrf_tokens : Dict String String
  pub connections : Dict String Connection
  pub agent_credentials : Dict String AgentCredential
  pub agent_token_index : Dict String String
  pub attempts : Dict String (List ℕ)
  pub deleted_tenants : List Uuid

abbrev pub new_auth : ℕ → ℕ → LocalMailboxAuth
new_auth limit window = record {
  magic_link_limit = limit;
  magic_link_window = window;
  outbox = [];
  links = [];
  sessions = [];
  csrf_tokens = [];
  connections = [];
  agent_credentials = [];
  agent_token_index = [];
  attempts = [];
  deleted_tenants = [];
}

unfoldable pub make_auth : ℕ → ℕ → Result LocalMailboxAuth
make_auth limit window =
    raise_if (ltb limit 1 || leb window 0) value_error >> ok (new_auth limit window)

abbrev pub principal_for_digest : Library → String → ℕ → Principal
principal_for_digest l email expires_at = record {
  subject_id = l.identifier "subject" email;
  tenant_id = l.identifier "tenant" email;
  membership_id = l.identifier "membership" email;
  credential_id = l.identifier "credential" email;
  scopes = all_scopes;
  auth_method = "local-magic-link";
  expires_at = expires_at;
}

abbrev pub or_empty : Option (List ℕ) → List ℕ
or_empty none = []
or_empty (some xs) = xs

-- the attempts that are later than `now - window`
unfoldable pub within : ℕ → ℕ → List ℕ → List ℕ
within now window [] = []
within now window (x ∷ xs) =
    let rest = within now window xs in if ltb now (x + window) then x ∷ rest else rest

abbrev pub hour : ℕ
hour = 3600000000

abbrev pub ten_minutes : ℕ
ten_minutes = 600000000

abbrev pub add_link : Library → ℕ → String → String → LocalMailboxAuth → LocalMailboxAuth
add_link l now raw email a = record a {
  links =
      insert (l.digest raw)
        (record {
          principal = principal_for_digest l email (now + hour);
          expires_at = now + ten_minutes;
          used = false;
        })
        a.links;
  outbox = a.outbox ++ (raw ∷ []);
}

abbrev pub note_attempts : String → List ℕ → LocalMailboxAuth → LocalMailboxAuth
note_attempts email xs a = record a { attempts = insert email xs a.attempts }

abbrev pub request_digest :
    Library → ℕ → String → String → LocalMailboxAuth → Bool × LocalMailboxAuth
request_digest l now raw email a =
    let allowed = within now a.magic_link_window (or_empty (lookup email a.attempts)) in
    if leb a.magic_link_limit (length allowed)
    then (false, note_attempts email allowed a)
    else (true, add_link l now raw email (note_attempts email (allowed ++ (now ∷ [])) a))

-- `raw` is the token that `secrets.token_urlsafe` gives.
unfoldable pub request : Library → ℕ → String → String → LocalMailboxAuth → Bool × LocalMailboxAuth
request l now raw email a = request_digest l now raw (l.digest (l.casefold (strip email))) a

abbrev pub open_session :
    Library → String → String → String → MagicLink → LocalMailboxAuth → LocalMailboxAuth
open_session l raw session token link a = record a {
  links = insert (l.digest raw) (record link { used = true }) a.links;
  sessions = insert (l.digest session) link.principal a.sessions;
  csrf_tokens = insert (l.digest session) token a.csrf_tokens;
}

unfoldable pub consume_link :
    Library
    → ℕ
    → String
    → String
    → String
    → Option MagicLink
    → LocalMailboxAuth
    → Option (String × String) × LocalMailboxAuth
consume_link l now session token raw none a = (none, a)
consume_link l now session token raw (some link) a =
    if link.used || leb link.expires_at now
    then (none, a)
    else (some (session, token), open_session l raw session token link a)

-- `session` and `token` are what `secrets.token_urlsafe` gives.
unfoldable pub consume :
    Library
    → ℕ
    → String
    → String
    → String
    → LocalMailboxAuth
    → Option (String × String) × LocalMailboxAuth
consume l now session token raw a =
    consume_link l now session token raw (lookup (l.digest raw) a.links) a

abbrev pub live_principal : LocalMailboxAuth → Option Principal → Option Principal
live_principal a none = none
live_principal a (some p) = if elem p.tenant_id a.deleted_tenants then none else some p

-- `d.get(digest(raw)) if raw else None`
unfoldable pub lookup_raw {ℓ} : {A : Type ℓ} → Library → Option String → Dict String A → Option A
lookup_raw l none d = none
lookup_raw l (some raw) d = if is_empty raw then none else lookup (l.digest raw) d

unfoldable pub session : Library → Option String → LocalMailboxAuth → Option Principal
session l raw a = live_principal a (lookup_raw l raw a.sessions)

abbrev pub csrf : Library → Option String → LocalMailboxAuth → Option String
csrf l raw a = lookup_raw l raw a.csrf_tokens

abbrev pub close_session : String → LocalMailboxAuth → LocalMailboxAuth
close_session digest a = record a {
  sessions = erase digest a.sessions;
  csrf_tokens = erase digest a.csrf_tokens;
}

unfoldable pub logout : Library → Option String → LocalMailboxAuth → LocalMailboxAuth
logout l none a = a
logout l (some raw) a = if is_empty raw then a else close_session (l.digest raw) a

unfoldable pub revoke_connections : Uuid → Dict String Connection → Dict String Connection
revoke_connections tenant [] = []
revoke_connections tenant ((i, c) ∷ d) =
    let rest = revoke_connections tenant d in
    if c.tenant_id == tenant then (i, record c { status = "revoked" }) ∷ rest else (i, c) ∷ rest

unfoldable pub revoke_credentials : Uuid → Dict String AgentCredential → Dict String AgentCredential
revoke_credentials tenant [] = []
revoke_credentials tenant ((i, c) ∷ d) =
    let rest = revoke_credentials tenant d in
    if c.tenant_id == tenant then (i, record c { revoked = true }) ∷ rest else (i, c) ∷ rest

unfoldable pub drop_tokens :
    Uuid → Dict String AgentCredential → Dict String String → Dict String String
drop_tokens tenant [] index = index
drop_tokens tenant ((i, c) ∷ d) index =
    let rest = drop_tokens tenant d index in
    if c.tenant_id == tenant then erase c.token_digest rest else rest

unfoldable pub tenant_sessions : Uuid → Dict String Principal → List String
tenant_sessions tenant [] = []
tenant_sessions tenant ((digest, p) ∷ d) =
    let rest = tenant_sessions tenant d in if p.tenant_id == tenant then digest ∷ rest else rest

unfoldable pub close_each : List String → LocalMailboxAuth → LocalMailboxAuth
close_each [] a = a
close_each (digest ∷ digests) a = close_each digests (close_session digest a)

unfoldable pub delete_tenant : Principal → LocalMailboxAuth → LocalMailboxAuth
delete_tenant p a = close_each (tenant_sessions p.tenant_id a.sessions) (record a {
  deleted_tenants = p.tenant_id ∷ a.deleted_tenants;
  connections = revoke_connections p.tenant_id a.connections;
  agent_credentials = revoke_credentials p.tenant_id a.agent_credentials;
  agent_token_index = drop_tokens p.tenant_id a.agent_credentials a.agent_token_index;
})

abbrev pub or_none_text : Option String → String
or_none_text none = ""
or_none_text (some t) = t

abbrev pub checked_csrf : String → Option String → Option Principal → Option Principal
checked_csrf header token none = none
checked_csrf header token (some p) = if header == or_none_text token then some p else none

-- The principal of a request by its session cookie and its header; `none` is the reply 401 or 403.
unfoldable pub require_csrf : Library → Option String → String → LocalMailboxAuth → Option Principal
require_csrf l cookie header a = checked_csrf header (csrf l cookie a) (session l cookie a)
