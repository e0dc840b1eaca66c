-- ===== src/Cloud/Admin/Credentials.antt =====
-- The agents' credentials of src/omp/cloud/admin.py: their routes and LocalAgentCredentialVerifier.
use umcp.Prelude.{
  ℕ, ◌+◌, ◌*◌, String, nat_eq, string_eq, ◌==◌, ◌≡◌, ◌≢◌, refl, sym, ap, ◌∙◌, true, false, ◌||◌,
  not, Option, none, some, List, [], ◌∷◌, leb, arith, inl, inr, Bool-cases, if◌then◌else◌,
}
use umcp.Dict.{Dict, lookup, insert}
use umcp.Domain.Errors.{Result, ok, err, not_found, ◌>>=◌, ◌>>◌}
use umcp.Domain.Values.{Uuid}
use umcp.Cloud.Access.{Scope, connections_manage, Principal, requires}
use umcp.Cloud.Admin.{
  Library, AgentCredential, LocalMailboxAuth, delete_tenant, close_each, close_session,
  revoke_credentials, tenant_sessions,
}

-- What the calls of `secrets` and `uuid4` give while a credential is created.
pub record CredentialDraws : Type 0 where
  pub raw : String
  pub id : String
  pub credential_id : Uuid

abbrev pub add_credential :
    Library
    → ℕ
    → CredentialDraws
    → String
    → List Scope
    → ℕ
    → Principal
    → LocalMailboxAuth
    → LocalMailboxAuth
add_credential l now draws name scopes seconds p a = record a {
  agent_credentials =
      insert draws.id
        (record {
          name = name;
          tenant_id = p.tenant_id;
          scopes = scopes;
          token_digest = l.digest draws.raw;
          subject_id = p.subject_id;
          membership_id = p.membership_id;
          credential_id = draws.credential_id;
          expires_at = now + seconds * 1000000;
          revoked = false;
        })
        a.agent_credentials;
  agent_token_index = insert (l.digest draws.raw) draws.id a.agent_token_index;
}

abbrev pub or_unchanged :
    Result LocalMailboxAuth → LocalMailboxAuth → Result (Unit {0}) × LocalMailboxAuth
or_unchanged (err e) a = (err e, a)
or_unchanged (ok b) a = (ok tt, b)

-- the route after `require_csrf`; the token `draws.raw` goes to the caller
unfoldable pub create_agent_credential :
    Library
    → ℕ
    → CredentialDraws
    → String
    → List Scope
    → ℕ
    → Principal
    → LocalMailboxAuth
    → Result (Unit {0}) × LocalMailboxAuth
create_agent_credential l now draws name scopes seconds p a =
    or_unchanged
      (requires now connections_manage p >> ok (add_credential l now draws name scopes seconds p a))
      a

abbrev pub owned_credential : Principal → Option AgentCredential → Result AgentCredential
owned_credential p none = err not_found
owned_credential p (some c) = if c.tenant_id == p.tenant_id then ok c else err not_found

abbrev pub revoked_credential : String → AgentCredential → LocalMailboxAuth → LocalMailboxAuth
revoked_credential id c a = record a {
  agent_credentials = insert id (record c { revoked = true }) a.agent_credentials;
}

unfoldable pub revoke_agent_credential :
    ℕ → String → Principal → LocalMailboxAuth → Result (Unit {0}) × LocalMailboxAuth
revoke_agent_credential now id p a =
    or_unchanged
      (requires now connections_manage p
        >> (owned_credential p (lookup id a.agent_credentials) >>= λ c.
            ok (revoked_credential id c a)))
      a

-- what a token stands for
pub record AgentAccess : Type 0 where
  pub client_id : String
  pub scopes : List Scope
  pub expires_at : ℕ
  pub subject : Uuid
  pub tenant_id : Uuid
  pub membership_id : Uuid
  pub credential_id : Uuid

abbrev pub access_of : String → AgentCredential → AgentAccess
access_of id c = record {
  client_id = id;
  scopes = c.scopes;
  expires_at = c.expires_at;
  subject = c.subject_id;
  tenant_id = c.tenant_id;
  membership_id = c.membership_id;
  credential_id = c.credential_id;
}

abbrev pub verify_credential : ℕ → String → String → Option AgentCredential → Option AgentAccess
verify_credential now digest id none = none
verify_credential now digest id (some c) =
    if not (c.token_digest == digest)
    then none
    else if c.revoked || leb c.expires_at now
    then none
    else some (access_of id c)

abbrev pub verify_indexed : ℕ → String → Option String → LocalMailboxAuth → Option AgentAccess
verify_indexed now digest none a = none
verify_indexed now digest (some id) a =
    verify_credential now digest id (lookup id a.agent_credentials)

-- `verify_token` of LocalAgentCredentialVerifier
unfoldable pub verify_token : Library → ℕ → String → LocalMailboxAuth → Option AgentAccess
verify_token l now token a =
    verify_indexed now (l.digest token) (lookup (l.digest token) a.agent_token_index) a

close_each-credentials :
    (ds : List String) (a : LocalMailboxAuth)
    → (close_each ds a).agent_credentials ≡ a.agent_credentials
unfolding close_each
close_each-credentials [] a = refl
close_each-credentials (d ∷ ds) a = close_each-credentials ds (close_session d a)

revoke_credentials-revokes :
    (tenant : Uuid) (id : String) (d : Dict String AgentCredential) (c : AgentCredential)
    → lookup id (revoke_credentials tenant d) ≡ some c
    → c.tenant_id ≡ tenant
    → c.revoked ≡ true
unfolding revoke_credentials lookup
revoke_credentials-revokes tenant id [] c h same = cc
revoke_credentials-revokes tenant id ((i, x) ∷ d) c h same =
    ground (arith, nat_eq.beq_iff x.tenant_id tenant, revoke_credentials-revokes tenant id d c)

abbrev tenant_or : Option AgentAccess → Uuid
tenant_or none = 0
tenant_or (some t) = t.tenant_id

verify_credential-live :
    (now : ℕ) (digest id : String) (o : Option AgentCredential) (t : AgentAccess)
    → verify_credential now digest id o ≡ some t
    → (c : AgentCredential) × (o ≡ some c) × (c.revoked ≡ false) × (t.tenant_id ≡ c.tenant_id)
verify_credential-live now digest id none t h = cc
verify_credential-live now digest id (some c) t h = elim (Bool-cases (c.token_digest == digest)) [
  | inr other ↦ let m = rw other at h in cc
  | inl same ↦ elim (Bool-cases (c.revoked || leb c.expires_at now)) [
    | inl dead ↦ let m = rw (same, dead) at h in cc
    | inr live ↦
        (let m = rw (same, live) at h in (c, refl, ground (arith, live), ap tenant_or (sym m)))
  ]
]

verify_indexed-live :
    (now : ℕ) (digest : String) (o : Option String) (a : LocalMailboxAuth) (t : AgentAccess)
    → verify_indexed now digest o a ≡ some t
    → (id : String) × (c : AgentCredential) × (lookup id a.agent_credentials ≡ some c)
      × (c.revoked ≡ false)
      × (t.tenant_id ≡ c.tenant_id)
verify_indexed-live now digest none a t h = cc
verify_indexed-live now digest (some id) a t h =
    let (c, at, live, same) =
      verify_credential-live now digest id (lookup id a.agent_credentials) t h in
    (id, c, at, live, same)

-- Once a tenant is deleted, no agent's token is accepted for it, whatever the state before.
pub delete_tenant-verify_token :
    (l : Library) (now : ℕ) (token : String) (p : Principal) (a : LocalMailboxAuth)
    (t : AgentAccess)
    → verify_token l now token (delete_tenant p a) ≡ some t
    → t.tenant_id ≢ p.tenant_id
unfolding verify_token delete_tenant
delete_tenant-verify_token l now token p a t h same =
    let (id, c, at, live, tenant) = verify_indexed-live now (l.digest token) _ _ t h in
    let revoked =
      revoke_credentials-revokes p.tenant_id id a.agent_credentials c
        (ap (lookup id) (sym (close_each-credentials (tenant_sessions p.tenant_id a.sessions) _))
          ∙ at)
        (sym tenant ∙ same) in
    cc (live, revoked)
