-- ===== src/Application/Services/Request/Reachable.antt =====
-- Every request keeps the invariant, whatever came before.
use mathlib.Core.Path.{subst}
use umcp.Prelude.{◌≡◌, refl, sym}
use umcp.Domain.Errors.{Result, ok, err, IsExpected}
use umcp.Application.Store.{InMemoryStore}
use umcp.Application.Exec.{Exec}
use umcp.Application.Exec.Triple.{Holds, Holds-pure, Holds-bind, Holds-map, RolledBack}
use umcp.Application.Services.{Env}
use umcp.Application.Services.Request.{
  Request, write, capture, list_inbox, confirm_candidate, pin, discard_candidate, update, search,
  recall, forget, relate, Reply, reply_with, handle, Reach, start, step,
}
use umcp.Application.Services.Keeping.Creating.{write-Holds, capture-Holds}
use umcp.Application.Services.Keeping.Mutating.{
  confirm_candidate-Holds, pin-Holds, discard_candidate-Holds, forget_service-Holds,
}
use umcp.Application.Services.Keeping.Linking.{update_service-Holds, relate-Holds}
use umcp.Application.Services.Keeping.Reading.{search-Holds, recall-Holds}
use umcp.Application.Services.Keeping.Listing.{list_inbox-Holds}
use umcp.Application.Idempotency.Settling.{Inv, empty-Inv}
use umcp.Application.WellFormed.Adding.{IsFresh}

-- How a request may end: with the invariant, or with an expected error and the store as it was.
abbrev pub Safe : {A : Type 0} → InMemoryStore → Result A × InMemoryStore → Type 0
Safe s x = Holds (λ _ t. Inv t) (RolledBack IsExpected s) x

reply_with-Safe :
    {A : Type 0} (f : A → Reply) (m : Exec A) (s : InMemoryStore)
    → Safe s (m s)
    → Safe s (reply_with f m s)
reply_with-Safe f m s h = Holds-bind (λ _ t. Inv t) m _ s h λ a t i. Holds-pure (f a) t i

still-Safe :
    {A : Type 0} {P : A → InMemoryStore → Type 0} (s : InMemoryStore) (x : Result A × InMemoryStore)
    → Inv s
    → ((a : A) (t : InMemoryStore) → P a t → t ≡ s)
    → Holds P (RolledBack IsExpected s) x
    → Safe s x
still-Safe s x i same h = Holds-map x (λ a t p. subst Inv (sym (same a t p)) i) h

-- A request to any of the eleven methods, from a store with the invariant and with a fresh new
-- identifier, either returns and leaves the invariant, or raises one of the errors that the program
-- raises on purpose or an error of the embedding provider, and leaves the store as it was. It never
-- raises a missing key, an exhausted search or an operation in progress.
pub handle-Safe :
    (env : Env) (r : Request) (s : InMemoryStore)
    → Inv s
    → IsFresh env.new_id s
    → Safe s (handle env r s)
unfolding handle
handle-Safe env (write c) s i fresh = reply_with-Safe _ _ s (write-Holds env s i fresh c)
handle-Safe env (capture c) s i fresh = reply_with-Safe _ _ s (capture-Holds env s i fresh c)
handle-Safe env (list_inbox c) s i fresh =
    reply_with-Safe _ _ s (still-Safe s _ i (λ a t p. p.1) (list_inbox-Holds env c s i.well))
handle-Safe env (confirm_candidate c) s i fresh =
    reply_with-Safe _ _ s (confirm_candidate-Holds env c s i)
handle-Safe env (pin c) s i fresh = reply_with-Safe _ _ s (pin-Holds env c s i)
handle-Safe env (discard_candidate c) s i fresh =
    reply_with-Safe _ _ s (discard_candidate-Holds env c s i)
handle-Safe env (update c) s i fresh = reply_with-Safe _ _ s (update_service-Holds env c s i)
handle-Safe env (search c) s i fresh =
    reply_with-Safe _ _ s (still-Safe s _ i (λ a t p. p.1) (search-Holds env s i.well c))
handle-Safe env (recall c) s i fresh =
    reply_with-Safe _ _ s (still-Safe s _ i (λ a t p. p.2) (recall-Holds env s i.well c))
handle-Safe env (forget c) s i fresh = reply_with-Safe _ _ s (forget_service-Holds env c s i)
handle-Safe env (relate c) s i fresh = reply_with-Safe _ _ s (relate-Holds env c s i)

-- a result that is safe leaves the invariant either way
Safe-Inv :
    {A : Type 0} (s : InMemoryStore) (x : Result A) (t : InMemoryStore)
    → Inv s
    → Safe s (x, t)
    → Inv t
Safe-Inv s (ok a) t i h = h.returned a refl
Safe-Inv s (err e) t i h = subst Inv (sym (h.raised e refl).1) i

-- Every store that requests lead to from the empty one, in any order and with any surroundings whose
-- new identifiers are fresh, satisfies the invariant: its seven tables agree, and every idempotent
-- operation is completed.
pub Reach-Inv : (s : InMemoryStore) → Reach s → Inv s
Reach-Inv _ start = empty-Inv
Reach-Inv _ (step {s} before env r fresh) =
    Safe-Inv s (handle env r s).0 (handle env r s).1 (Reach-Inv s before)
      (handle-Safe env r s (Reach-Inv s before) fresh)
