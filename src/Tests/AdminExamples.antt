-- ===== src/Tests/AdminExamples.antt =====
-- One login by a mailed link, and the theorems on LocalMailboxAuth there.
use umcp.Prelude.{nat_eq, string_eq, ◌≡◌, ◌≢◌, refl, false, none, some, []}
use umcp.Text.{is_empty}
use umcp.Dict.{lookup, insert, erase}
use umcp.Domain.Errors.{◌>>=◌}
use umcp.Cloud.Access.{Principal, requires, has_scope, scope_value}
use umcp.Cloud.Admin.Credentials.{
  CredentialDraws, AgentAccess, create_agent_credential, verify_token, delete_tenant-verify_token,
}
use umcp.Cloud.Admin.{
  Library, LocalMailboxAuth, new_auth, request, consume, consume_link, session, lookup_raw, csrf,
  require_csrf, delete_tenant, principal_for_digest, within, close_each, tenant_sessions,
  revoke_connections, revoke_credentials, drop_tokens,
}
use umcp.Cloud.Admin.Steps.{Steps, done, then_, requests, consumes}
use umcp.Cloud.Admin.Lasting.{consume-once, delete_tenant-Steps-session}
use umcp.Cloud.Admin.Sessions.{Guarded, Steps-Guarded, require_csrf-token}

abbrev library : Library
library = record { digest = λ t. t; casefold = λ t. t; identifier = λ kind email. 7 }

abbrev ada : Principal
ada = principal_for_digest library "ada" 3600000100

abbrev bob : Principal
bob = record ada { tenant_id = 8 }

abbrev mailed : LocalMailboxAuth
mailed = (request library 100 "link" "ada" (new_auth 1 10)).1

abbrev logged_in : LocalMailboxAuth
logged_in = (consume library 200 "cookie" "token" "link" mailed).1

mailed-Steps : Steps library (new_auth 1 10) mailed
unfolding lookup
mailed-Steps = then_ done (requests 100 "link" "ada" refl)

logged_in-Steps : Steps library (new_auth 1 10) logged_in
logged_in-Steps = then_ mailed-Steps (consumes 200 "cookie" "token" "link" refl)

used : consume library 200 "cookie" "token" "link" mailed ≡ (some ("cookie", "token"), logged_in)
unfolding consume consume_link request within lookup insert
used = refl

accepted : require_csrf library (some "cookie") "token" logged_in ≡ some ada
unfolding require_csrf session lookup_raw consume consume_link request within lookup insert
accepted = refl

consume-once_example : consume library 300 "other" "more" "link" logged_in ≡ (none, logged_in)
consume-once_example =
    consume-once library 200 300 "cookie" "token" "other" "more" "link" ("cookie", "token") mailed
      logged_in logged_in used done

Steps-Guarded_example : Guarded logged_in
Steps-Guarded_example = Steps-Guarded library 1 10 logged_in logged_in-Steps

require_csrf-token_example :
    (is_empty "token" ≡ false)
    × (csrf library (some "cookie") logged_in ≡ some "token")
    × (session library (some "cookie") logged_in ≡ some ada)
require_csrf-token_example =
    require_csrf-token library 1 10 logged_in (some "cookie") "token" ada logged_in-Steps accepted

still : session library (some "cookie") (delete_tenant bob logged_in) ≡ some ada
unfolding session lookup_raw consume consume_link request within lookup insert erase delete_tenant
    close_each tenant_sessions revoke_connections revoke_credentials drop_tokens
still = refl

delete_tenant-Steps-session_example : ada.tenant_id ≢ bob.tenant_id
delete_tenant-Steps-session_example =
    delete_tenant-Steps-session library bob ada (some "cookie") logged_in
      (delete_tenant bob logged_in) done still

abbrev drawn : CredentialDraws
drawn = record { raw = "pat"; id = "cred"; credential_id = 9 }

abbrev with_agent : LocalMailboxAuth
with_agent = (create_agent_credential library 100 drawn "agent" [] 60 ada (new_auth 1 10)).1

abbrev agent : AgentAccess
agent = record {
  client_id = "cred";
  scopes = [];
  expires_at = 60000100;
  subject = 7;
  tenant_id = 7;
  membership_id = 7;
  credential_id = 9;
}

agent-accepted : verify_token library 200 "pat" (delete_tenant bob with_agent) ≡ some agent
unfolding verify_token create_agent_credential requires has_scope scope_value lookup insert erase
    delete_tenant close_each tenant_sessions revoke_connections revoke_credentials drop_tokens ◌>>=◌
agent-accepted = refl

delete_tenant-verify_token_example : agent.tenant_id ≢ bob.tenant_id
delete_tenant-verify_token_example =
    delete_tenant-verify_token library 200 "pat" bob with_agent agent agent-accepted
