-- ===== src/Cloud/Admin/Sessions.antt =====
-- The requests of a mailbox and the guard of a session.
use umcp.Prelude.{
  ℕ, suc, ◌+◌, ◌≤◌, String, nat_eq, string_eq, ◌==◌, ◌≡◌, refl, sym, ap, ◌∙◌, false, ◌||◌, Option,
  none, some, List, [], ◌∷◌, ◌++◌, length, arith, inl, inr, Bool-cases, leb, ltb,
}
use umcp.Text.{is_empty, strip}
use umcp.Dict.{Dict, lookup, insert}
use umcp.Dict.Laws.{
  lookup-insert_self, lookup-insert_ne, lookup-insert_cases, lookup-erase-some, lookup-erase_ne,
}
use umcp.Cloud.Access.{Principal}
use umcp.Cloud.Admin.{
  Library, MagicLink, LocalMailboxAuth, new_auth, request, request_digest, consume, consume_link,
  open_session, logout, delete_tenant, close_each, close_session, session, live_principal,
  lookup_raw, within, or_empty, tenant_sessions, require_csrf, checked_csrf, csrf, or_none_text,
}
use umcp.Cloud.Admin.Steps.{Step, requests, consumes, logouts, deletes, Steps, done, then_}

-- No mailbox has more attempts in its window than the limit, and each session has a token.
pub record Guarded (a : LocalMailboxAuth) : Type 0 where
  pub limited :
      (email : String) (xs : List ℕ)
      → lookup email a.attempts ≡ some xs
      → length xs ≤ a.magic_link_limit
  pub guarded :
      (d : String) (p : Principal)
      → lookup d a.sessions ≡ some p
      → (t : String) × (lookup d a.csrf_tokens ≡ some t) × (is_empty t ≡ false)

new_auth-Guarded : (limit window : ℕ) → Guarded (new_auth limit window)
unfolding lookup
new_auth-Guarded limit window = record { limited = λ email xs h. cc; guarded = λ d p h. cc }

length-within : (now window : ℕ) (xs : List ℕ) → length (within now window xs) ≤ length xs
unfolding within
length-within now window [] = omega arith
length-within now window (x ∷ xs) =
    let h = length-within now window xs in
    elim (Bool-cases (ltb now (x + window))) [
      | inl late ↦ rw late (omega (arith, h))
      | inr early ↦ rw early (omega (arith, h))
    ]

length_snoc : (xs : List ℕ) (x : ℕ) → length (xs ++ (x ∷ [])) ≡ suc (length xs)
length_snoc [] x = refl
length_snoc (y ∷ xs) x = ap suc (length_snoc xs x)

below : (n m : ℕ) → leb n m ≡ false → suc m ≤ n
below n m h = ground arith

kept_length :
    (now window limit : ℕ) (o : Option (List ℕ))
    → ((xs : List ℕ) → o ≡ some xs → length xs ≤ limit)
    → length (within now window (or_empty o)) ≤ limit
kept_length now window limit none h = let k = length-within now window [] in omega (arith, k)
kept_length now window limit (some xs) h =
    let k = length-within now window xs in let m = h xs refl in omega (arith, k, m)

limited-insert :
    (email : String) (ys : List ℕ) (limit : ℕ) (d : Dict String (List ℕ))
    → length ys ≤ limit
    → ((e : String) (xs : List ℕ) → lookup e d ≡ some xs → length xs ≤ limit)
    → (e : String) (xs : List ℕ) → lookup e (insert email ys d) ≡ some xs
    → length xs ≤ limit
limited-insert email ys limit d k h e xs l = elim (lookup-insert_cases email e ys xs d l) [
  | inl (here, same) ↦ rw same k
  | inr (other, old) ↦ h e xs old
]

close_session-Guarded :
    (d : String) (a : LocalMailboxAuth) → Guarded a → Guarded (close_session d a)
close_session-Guarded d a h = record {
  limited = h.limited;
  guarded = λ e p l.
      let (other, old) = lookup-erase-some d e p a.sessions l in
      let (t, at, full) = h.guarded e p old in
      (t, lookup-erase_ne d e a.csrf_tokens other ∙ at, full);
}

close_each-Guarded :
    (ds : List String) (a : LocalMailboxAuth) → Guarded a → Guarded (close_each ds a)
unfolding close_each
close_each-Guarded [] a h = h
close_each-Guarded (d ∷ ds) a h =
    close_each-Guarded ds (close_session d a) (close_session-Guarded d a h)

module _ (l : Library) where
  request_digest-Guarded :
      (now : ℕ) (raw email : String) (a : LocalMailboxAuth)
      → Guarded a
      → Guarded (request_digest l now raw email a).1
  request_digest-Guarded now raw email a h =
      let k =
        kept_length now a.magic_link_window a.magic_link_limit (lookup email a.attempts)
          (h.limited email) in
      let kept = within now a.magic_link_window (or_empty (lookup email a.attempts)) in
      elim (Bool-cases (leb a.magic_link_limit (length kept))) [
        | inl over ↦ rw over (record {
          limited = limited-insert email kept a.magic_link_limit a.attempts k h.limited;
          guarded = h.guarded;
        })
        | inr under ↦ rw under (record {
          limited =
              limited-insert email (kept ++ (now ∷ [])) a.magic_link_limit a.attempts
                (rw (length_snoc kept now) (below a.magic_link_limit (length kept) under))
                h.limited;
          guarded = h.guarded;
        })
      ]

  open_session-Guarded :
      (raw s t : String) (link : MagicLink) (a : LocalMailboxAuth)
      → is_empty t ≡ false
      → Guarded a
      → Guarded (open_session l raw s t link a)
  open_session-Guarded raw s t link a full h = record {
    limited = h.limited;
    guarded = λ d p at. elim (lookup-insert_cases (l.digest s) d link.principal p a.sessions at) [
      | inl (here, same) ↦ (
        t,
        ap (λ k. lookup k (insert (l.digest s) t a.csrf_tokens)) here
            ∙ lookup-insert_self (l.digest s) t a.csrf_tokens,
        full,
      )
      | inr (other, old) ↦
          (let (u, was, filled) = h.guarded d p old in
            (u, lookup-insert_ne (l.digest s) d t a.csrf_tokens other ∙ was, filled))
    ];
  }

  consume_link-Guarded :
      (now : ℕ) (s t raw : String) (o : Option MagicLink) (a : LocalMailboxAuth)
      → is_empty t ≡ false
      → Guarded a
      → Guarded (consume_link l now s t raw o a).1
  unfolding consume_link
  consume_link-Guarded now s t raw none a full h = h
  consume_link-Guarded now s t raw (some link) a full h =
      elim (Bool-cases (link.used || leb link.expires_at now)) [
        | inl spent ↦ rw spent h
        | inr open_ ↦ rw open_ (open_session-Guarded raw s t link a full h)
      ]

  logout-Guarded :
      (raw : Option String) (a : LocalMailboxAuth) → Guarded a → Guarded (logout l raw a)
  unfolding logout
  logout-Guarded none a h = h
  logout-Guarded (some raw) a h = elim (Bool-cases (is_empty raw)) [
    | inl blank ↦ rw blank h
    | inr full ↦ rw full (close_session-Guarded (l.digest raw) a h)
  ]

  Step-Guarded : (a b : LocalMailboxAuth) → Step l a b → Guarded a → Guarded b
  unfolding request consume delete_tenant
  Step-Guarded a _ (requests now raw email new) h =
      request_digest-Guarded now raw (l.digest (l.casefold (strip email))) a h
  Step-Guarded a _ (consumes now s t raw full) h =
      consume_link-Guarded now s t raw (lookup (l.digest raw) a.links) a full h
  Step-Guarded a _ (logouts raw) h = logout-Guarded raw a h
  Step-Guarded a _ (deletes p) h =
      close_each-Guarded (tenant_sessions p.tenant_id a.sessions) _
        (record { limited = h.limited; guarded = h.guarded })

  -- Whatever is requested, consumed, closed and deleted: no mailbox has more attempts in its
  -- window than the limit, and each session has a token that is not empty, as long as no drawn
  -- token is empty.
  pub Steps-Guarded :
      (limit window : ℕ) (a : LocalMailboxAuth) → Steps l (new_auth limit window) a → Guarded a
  Steps-Guarded limit window _ done = new_auth-Guarded limit window
  Steps-Guarded limit window c (then_ {b} before last) =
      Step-Guarded b c last (Steps-Guarded limit window b before)

  checked :
      (header : String) (token : Option String) (o : Option Principal) (p : Principal)
      → checked_csrf header token o ≡ some p
      → (o ≡ some p) × (header ≡ or_none_text token)
  checked header token none p h = cc
  checked header token (some q) p h = elim (Bool-cases (header == or_none_text token)) [
    | inl same ↦
        (let m = rw same at h in (m, (string_eq.beq_iff header (or_none_text token)).0 same))
    | inr other ↦ let m = rw other at h in cc
  ]

  live-found :
      (a : LocalMailboxAuth) (d : String) (o : Option Principal) (p : Principal)
      → Guarded a
      → lookup d a.sessions ≡ o
      → live_principal a o ≡ some p
      → (t : String) × (lookup d a.csrf_tokens ≡ some t) × (is_empty t ≡ false)
  live-found a d none p h at live = cc
  live-found a d (some q) p h at live = h.guarded d q at

  token_found :
      (a : LocalMailboxAuth)
      → Guarded a
      → (cookie : Option String) (p : Principal) → session l cookie a ≡ some p
      → (t : String) × (csrf l cookie a ≡ some t) × (is_empty t ≡ false)
  unfolding session lookup_raw
  token_found a h none p s = cc
  token_found a h (some raw) p s = elim (Bool-cases (is_empty raw)) [
    | inl blank ↦ let m = rw blank at s in cc
    | inr full ↦
        rw full
          (live-found a (l.digest raw) (lookup (l.digest raw) a.sessions) p h refl (rw full at s))
  ]

  require_csrf-Guarded :
      (a : LocalMailboxAuth) (cookie : Option String) (header : String) (p : Principal)
      → Guarded a
      → require_csrf l cookie header a ≡ some p
      → (is_empty header ≡ false) × (csrf l cookie a ≡ some header) × (session l cookie a ≡ some p)
  unfolding require_csrf
  require_csrf-Guarded a cookie header p h r =
      let (found, same) = checked header (csrf l cookie a) (session l cookie a) p r in
      let (t, token, full) = token_found a h cookie p found in
      let header_t = same ∙ ap or_none_text token in
      (ap is_empty header_t ∙ full, token ∙ ap some (sym header_t), found)

  -- A request that changes something passes only with the token that was issued with its session:
  -- the header is not empty, it is that token, and the session is the principal's, as long as no
  -- drawn token is empty.
  pub require_csrf-token :
      (limit window : ℕ) (a : LocalMailboxAuth) (cookie : Option String) (header : String)
      (p : Principal)
      → Steps l (new_auth limit window) a
      → require_csrf l cookie header a ≡ some p
      → (is_empty header ≡ false) × (csrf l cookie a ≡ some header) × (session l cookie a ≡ some p)
  require_csrf-token limit window a cookie header p steps =
      require_csrf-Guarded a cookie header p (Steps-Guarded limit window a steps)
