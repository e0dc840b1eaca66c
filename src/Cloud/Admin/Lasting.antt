-- ===== src/Cloud/Admin/Lasting.antt =====
-- What lasts in LocalMailboxAuth: a link that was used, and a tenant that was deleted.
use mathlib.Core.Path.{subst}
use umcp.Prelude.{
  ℕ, String, nat_eq, string_eq, ◌==◌, ==_refl, ◌≡◌, ◌≢◌, refl, sym, ap, ◌∙◌, true, ◌||◌, Option,
  none, some, List, ◌∷◌, elem, length, arith, inl, inr, Bool-cases, leb,
}
use umcp.Text.{is_empty, strip}
use umcp.Dict.{Dict, lookup, insert}
use umcp.Dict.Laws.{lookup-insert_self, lookup-insert_ne}
use umcp.Domain.Values.{Uuid}
use umcp.Cloud.Access.{Principal}
use umcp.Cloud.Admin.{
  Library, MagicLink, LocalMailboxAuth, request, consume, consume_link, logout, delete_tenant,
  session, live_principal, lookup_raw, within, or_empty, tenant_sessions,
}
use umcp.Cloud.Admin.Steps.{
  Step, requests, consumes, logouts, deletes, Steps, done, then_, close_each-links,
  close_each-deleted,
}

-- The link with the digest was used.
abbrev pub Used : String → Dict String MagicLink → Type 0
Used d links = (link : MagicLink) × (lookup d links ≡ some link) × (link.used ≡ true)

Used-insert :
    (d e : String) (link : MagicLink) (links : Dict String MagicLink)
    → (e ≡ d → link.used ≡ true)
    → Used d links
    → Used d (insert e link links)
Used-insert d e link links h (x, at, used) = elim (Bool-cases (e == d)) [
  | inl same ↦
      (let here = (string_eq.beq_iff e d).0 same in
        (
          link,
          subst (λ k. lookup k (insert e link links) ≡ some link) here
              (lookup-insert_self e link links),
          h here,
        ))
  | inr other ↦ (
    x,
    lookup-insert_ne e d link links (λ same. cc (other, (string_eq.beq_iff e d).1 same)) ∙ at,
    used,
  )
]

module _ (l : Library) (d : String) where
  request-Used :
      (now : ℕ) (raw email : String) (a : LocalMailboxAuth)
      → lookup (l.digest raw) a.links ≡ none
      → Used d a.links
      → Used d (request l now raw email a).1.links
  unfolding request
  request-Used now raw email a new (x, at, used) =
      elim (Bool-cases (
        leb a.magic_link_limit (
          length (
            within now a.magic_link_window
              (or_empty (lookup (l.digest (l.casefold (strip email))) a.attempts)))))) [
                | inl over ↦ rw over (x, at, used)
                | inr under ↦ rw under (
                    Used-insert d (l.digest raw) _ a.links
                      (λ same. absurd (cc (new, ap (λ k. lookup k a.links) same, at)))
                      (x, at, used))
              ]

  consume_link-Used :
      (now : ℕ) (s t raw : String) (o : Option MagicLink) (a : LocalMailboxAuth)
      → Used d a.links
      → Used d (consume_link l now s t raw o a).1.links
  unfolding consume_link
  consume_link-Used now s t raw none a h = h
  consume_link-Used now s t raw (some link) a h =
      elim (Bool-cases (link.used || leb link.expires_at now)) [
        | inl spent ↦ rw spent h
        | inr open_ ↦
            rw open_
              (Used-insert d (l.digest raw) (record link { used = true }) a.links (λ _. refl) h)
      ]

  logout-links : (raw : Option String) (a : LocalMailboxAuth) → (logout l raw a).links ≡ a.links
  unfolding logout
  logout-links none a = refl
  logout-links (some raw) a = elim (Bool-cases (is_empty raw)) [
    | inl blank ↦ rw blank refl
    | inr full ↦ rw full refl
  ]

  Step-Used : (a b : LocalMailboxAuth) → Step l a b → Used d a.links → Used d b.links
  unfolding consume delete_tenant
  Step-Used a _ (requests now raw email new) h = request-Used now raw email a new h
  Step-Used a _ (consumes now s t raw full) h =
      consume_link-Used now s t raw (lookup (l.digest raw) a.links) a h
  Step-Used a _ (logouts raw) h = subst (Used d) (sym (logout-links raw a)) h
  Step-Used a _ (deletes p) h =
      subst (Used d) (sym (close_each-links (tenant_sessions p.tenant_id a.sessions) _)) h

  Steps-Used : (a b : LocalMailboxAuth) → Steps l a b → Used d a.links → Used d b.links
  Steps-Used a _ done h = h
  Steps-Used a c (then_ {b} before last) h = Step-Used b c last (Steps-Used a b before h)

module _ (l : Library) where
  consume-Used :
      (now : ℕ) (s t raw : String) (a : LocalMailboxAuth)
      → Used (l.digest raw) a.links
      → consume l now s t raw a ≡ (none, a)
  unfolding consume consume_link
  consume-Used now s t raw a (link, at, used) = rw (at, used) refl

  consume_link-uses :
      (now : ℕ) (s t raw : String) (o : Option MagicLink) (x : String × String)
      (a b : LocalMailboxAuth)
      → consume_link l now s t raw o a ≡ (some x, b)
      → Used (l.digest raw) b.links
  unfolding consume_link
  consume_link-uses now s t raw none x a b h = cc
  consume_link-uses now s t raw (some link) x a b h =
      elim (Bool-cases (link.used || leb link.expires_at now)) [
        | inl spent ↦ let m = rw spent at h in cc
        | inr open_ ↦
            let m = rw open_ at h in
            subst
              (λ (y : Option (String × String) × LocalMailboxAuth). Used (l.digest raw) y.1.links) m
              (
                record link { used = true },
                lookup-insert_self (l.digest raw) (record link { used = true }) a.links,
                refl,
              )
      ]

  -- A mailed link logs in once: after it was consumed, whatever is requested, consumed or deleted later,
  -- a second use of it is refused and changes nothing, as long as no drawn token is empty or was mailed
  -- before.
  pub consume-once :
      (now later : ℕ) (s t s' t' raw : String) (x : String × String) (a b c : LocalMailboxAuth)
      → consume l now s t raw a ≡ (some x, b)
      → Steps l b c
      → consume l later s' t' raw c ≡ (none, c)
  unfolding consume
  consume-once now later s t s' t' raw x a b c h steps = consume-Used later s' t' raw c (
      Steps-Used l (l.digest raw) b c steps
        (consume_link-uses now s t raw (lookup (l.digest raw) a.links) x a b h))

module _ (l : Library) (tenant : Uuid) where
  abbrev Gone : LocalMailboxAuth → Type 0
  Gone a = elem tenant a.deleted_tenants ≡ true

  request-deleted :
      (now : ℕ) (raw email : String) (a : LocalMailboxAuth)
      → (request l now raw email a).1.deleted_tenants ≡ a.deleted_tenants
  unfolding request
  request-deleted now raw email a =
      elim (Bool-cases (
        leb a.magic_link_limit (
          length (
            within now a.magic_link_window
              (or_empty (lookup (l.digest (l.casefold (strip email))) a.attempts)))))) [
                | inl over ↦ rw over refl
                | inr under ↦ rw under refl
              ]

  consume_link-deleted :
      (now : ℕ) (s t raw : String) (o : Option MagicLink) (a : LocalMailboxAuth)
      → (consume_link l now s t raw o a).1.deleted_tenants ≡ a.deleted_tenants
  unfolding consume_link
  consume_link-deleted now s t raw none a = refl
  consume_link-deleted now s t raw (some link) a =
      elim (Bool-cases (link.used || leb link.expires_at now)) [
        | inl spent ↦ rw spent refl
        | inr open_ ↦ rw open_ refl
      ]

  logout-deleted :
      (raw : Option String) (a : LocalMailboxAuth)
      → (logout l raw a).deleted_tenants ≡ a.deleted_tenants
  unfolding logout
  logout-deleted none a = refl
  logout-deleted (some raw) a = elim (Bool-cases (is_empty raw)) [
    | inl blank ↦ rw blank refl
    | inr full ↦ rw full refl
  ]

  elem_later : (x : Uuid) (xs : List Uuid) → elem tenant xs ≡ true → elem tenant (x ∷ xs) ≡ true
  elem_later x xs h = ground arith

  Step-Gone : (a b : LocalMailboxAuth) → Step l a b → Gone a → Gone b
  unfolding consume delete_tenant
  Step-Gone a _ (requests now raw email new) h =
      ap (elem tenant) (request-deleted now raw email a) ∙ h
  Step-Gone a _ (consumes now s t raw full) h =
      ap (elem tenant) (consume_link-deleted now s t raw (lookup (l.digest raw) a.links) a) ∙ h
  Step-Gone a _ (logouts raw) h = ap (elem tenant) (logout-deleted raw a) ∙ h
  Step-Gone a _ (deletes p) h =
      ap (elem tenant) (close_each-deleted (tenant_sessions p.tenant_id a.sessions) _)
      ∙ elem_later p.tenant_id a.deleted_tenants h

  Steps-Gone : (a b : LocalMailboxAuth) → Steps l a b → Gone a → Gone b
  Steps-Gone a _ done h = h
  Steps-Gone a c (then_ {b} before last) h = Step-Gone b c last (Steps-Gone a b before h)

  abbrev tenant_or : Option Principal → Uuid
  tenant_or none = 0
  tenant_or (some p) = p.tenant_id

  live_principal-Gone :
      (a : LocalMailboxAuth) (o : Option Principal) (q : Principal)
      → Gone a
      → live_principal a o ≡ some q
      → q.tenant_id ≢ tenant
  live_principal-Gone a none q h s same = cc
  live_principal-Gone a (some p) q h s same =
      elim (Bool-cases (elem p.tenant_id a.deleted_tenants)) [
        | inl gone ↦ let m = rw gone at s in cc
        | inr there ↦ let m = rw there at s in let k = ap tenant_or m ∙ same in cc (there, h, k)
      ]

module _ (l : Library) where
  delete_tenant-Gone :
      (p : Principal) (a : LocalMailboxAuth) → Gone l p.tenant_id (delete_tenant p a)
  unfolding delete_tenant
  delete_tenant-Gone p a =
      ap (elem p.tenant_id) (close_each-deleted (tenant_sessions p.tenant_id a.sessions) _)
      ∙ rw (==_refl p.tenant_id) refl

  -- After a tenant was deleted, no session is the tenant's, whatever links were mailed before and
  -- whatever is requested or consumed later, as long as no drawn token is empty or was mailed before.
  pub delete_tenant-Steps-session :
      (p q : Principal) (raw : Option String) (a c : LocalMailboxAuth)
      → Steps l (delete_tenant p a) c
      → session l raw c ≡ some q
      → q.tenant_id ≢ p.tenant_id
  unfolding session
  delete_tenant-Steps-session p q raw a c steps h =
      live_principal-Gone l p.tenant_id c (lookup_raw l raw c.sessions) q
        (Steps-Gone l p.tenant_id (delete_tenant p a) c steps (delete_tenant-Gone p a)) h
