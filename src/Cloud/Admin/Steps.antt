-- ===== src/Cloud/Admin/Steps.antt =====
-- The calls that change LocalMailboxAuth, as steps.
use umcp.Prelude.{ℕ, String, ◌≡◌, string_eq, false, Option, none, List, [], ◌∷◌, refl}
use umcp.Text.{is_empty}
use umcp.Dict.{lookup}
use umcp.Cloud.Access.{Principal}
use umcp.Cloud.Admin.{
  Library, LocalMailboxAuth, request, consume, logout, delete_tenant, close_each,
}

module _ (l : Library) where
  -- Drawn tokens are not empty, and no link was ever mailed with one that is drawn.
  pub data Step : LocalMailboxAuth → LocalMailboxAuth → Type 0 where
    requests :
        {a : LocalMailboxAuth} (now : ℕ) (raw email : String)
        → lookup (l.digest raw) a.links ≡ none
        → Step a (request l now raw email a).1
    consumes :
        {a : LocalMailboxAuth} (now : ℕ) (session token raw : String)
        → is_empty token ≡ false
        → Step a (consume l now session token raw a).1
    logouts : {a : LocalMailboxAuth} (raw : Option String) → Step a (logout l raw a)
    deletes : {a : LocalMailboxAuth} (p : Principal) → Step a (delete_tenant p a)

  pub data Steps : LocalMailboxAuth → LocalMailboxAuth → Type 0 where
    done : {a : LocalMailboxAuth} → Steps a a
    then_ : {a b c : LocalMailboxAuth} → Steps a b → Step b c → Steps a c

-- what closing sessions leaves alone
pub close_each-links : (ds : List String) (a : LocalMailboxAuth) → (close_each ds a).links ≡ a.links
unfolding close_each
close_each-links [] a = refl
close_each-links (d ∷ ds) a = close_each-links ds _

pub close_each-deleted :
    (ds : List String) (a : LocalMailboxAuth)
    → (close_each ds a).deleted_tenants ≡ a.deleted_tenants
unfolding close_each
close_each-deleted [] a = refl
close_each-deleted (d ∷ ds) a = close_each-deleted ds _

pub close_each-attempts :
    (ds : List String) (a : LocalMailboxAuth) → (close_each ds a).attempts ≡ a.attempts
unfolding close_each
close_each-attempts [] a = refl
close_each-attempts (d ∷ ds) a = close_each-attempts ds _

pub close_each-limit :
    (ds : List String) (a : LocalMailboxAuth)
    → (close_each ds a).magic_link_limit ≡ a.magic_link_limit
unfolding close_each
close_each-limit [] a = refl
close_each-limit (d ∷ ds) a = close_each-limit ds _
