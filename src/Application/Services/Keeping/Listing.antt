-- ===== src/Application/Services/Keeping/Listing.antt =====
-- `list_inbox` of src/omp/application/services.py changes nothing, and what it lists.
use mathlib.Core.Path.{subst}
use umcp.Prelude.{
  Bool, take, ltb, if◌then◌else◌, false, ℕ, String, nat_eq, string_eq, option_eq, ◌≡◌, refl, sym,
  true, Option, none, some, List, length,
}
use umcp.Domain.Errors.{IsExpected}
use umcp.Domain.Memory.{Memory}
use umcp.Application.Models.{ListInboxCommand}
use umcp.Application.Store.{InMemoryStore}
use umcp.Application.Exec.Triple.{
  Holds, Holds-pure, Holds-gets, Holds-refuse, Holds-transaction, RolledBack,
}
use umcp.Application.Repository.Candidates.{Lists, list_candidates-Lists}
use umcp.Application.Services.{Env}
use umcp.Application.Services.Inbox.{list_inbox, inbox_page}
use umcp.Application.Services.Steps.{owner-step, validate_scope-step, validate_scope_value-step}
use umcp.Application.WellFormed.{WellFormed}

-- `next_cursor is not None`
abbrev pub has_more : Option ℕ → Bool
has_more none = false
has_more (some n) = true

has_more-if : (b : Bool) (n : ℕ) → has_more (if b then some n else none) ≡ b
has_more-if true n = refl
has_more-if false n = refl

inbox_page-Lists :
    (s : InMemoryStore) (owner tenant : String) (space : Option String) (limit : ℕ)
    (found : List Memory)
    → Lists s owner tenant space limit (take limit found) (ltb limit (length found))
    → Lists s owner tenant space limit
        (inbox_page limit found).candidates
        (has_more (inbox_page limit found).next_cursor)
inbox_page-Lists s owner tenant space limit found h =
    subst (λ b. Lists s owner tenant space limit (take limit found) b)
      (sym (has_more-if (ltb limit (length found)) limit)) h

-- In a well-formed store, `list_inbox` changes nothing. It lists at most `limit` memories, oldest
-- first: each is a stored candidate of the owner, the tenant and the space, if one was asked for; and
-- without a next cursor all such candidates are listed. What it raises is expected.
pub list_inbox-Holds :
    (env : Env) (c : ListInboxCommand) (s : InMemoryStore)
    → WellFormed s
    → Holds
        (λ r t.
          Lists s c.owner_id c.tenant_id c.space c.limit r.candidates (has_more r.next_cursor)
          × (t ≡ s))
        (RolledBack IsExpected s)
        (list_inbox env c s)
unfolding list_inbox
list_inbox-Holds env c s w =
    validate_scope-step s (λ e p. (p, refl)) c.scopes _ _
      λ _.
        validate_scope_value-step s (λ e p. (p, refl)) c.tenant_id _
          (owner-step s (λ e p. (p, refl)) c.owner_id _
            λ _.
              Holds-refuse _ _ _ s (tt, refl)
                λ _.
                  Holds-refuse _ _ _ s (tt, refl)
                    λ _. Holds-transaction _ s (
                      Holds-gets _ _ s (
                        Holds-pure _ s (
                          inbox_page-Lists s c.owner_id c.tenant_id c.space c.limit _
                              (list_candidates-Lists s w c.owner_id c.tenant_id c.space c.limit),
                          refl,
                        ))))
