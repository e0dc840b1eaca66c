-- ===== src/Cloud/Cipher/Binding.antt =====
-- What a ciphertext is bound to: the authenticated bytes name the tenant, the record, the field and the
-- version of the key.
use Prim.Native.Char.{Char}
use umcp.Prelude.{
  ℕ, String, nat_eq, ◌==◌, ◌++◌, length, ltb, ◌≤◌, ◌⊎◌, ◌≡◌, ◌≢◌, refl, sym, ap, true, false, not,
  none, arith, if◌then◌else◌, inl, inr, Bool-cases,
}
use umcp.Text.{append, all_chars, is_empty}
use umcp.Score.{pos}
use umcp.Domain.Errors.{ok, err, permission_error, kms_unavailable, ◌>>=◌, raise_if, ok_injective}
use umcp.Domain.Values.{Uuid}
use umcp.Cloud.Cipher.RoundTrip.{
  Opens, IsDrawn, take-append, drop-append, wrapped_length, same_length, not_shorter,
  local_unwrap-wrap,
}
use umcp.Cloud.Cipher.{
  Bytes, Crypto, local_kms, local_wrap, local_unwrap, dek_aad, EnvelopeCiphertext,
  TenantEnvelopeEncryptor, aad, aad_text, no_slash, is_slash, Entropy, encrypt, decrypt, all_as,
  opened,
}

-- The printed forms of identifiers and numbers are different for different ones, and hold no slash.
pub record Prints (c : Crypto) : Type 0 where
  pub uuid_injective : (u v : Uuid) → c.uuid_text u ≡ c.uuid_text v → u ≡ v
  pub uuid_flat : (u : Uuid) → no_slash (c.uuid_text u) ≡ true
  pub digits_injective : (m n : ℕ) → c.digits (pos m) ≡ c.digits (pos n) → m ≡ n
  pub utf8_injective : (s t : String) → c.utf8 s ≡ c.utf8 t → s ≡ t

-- AES-GCM authenticates: nothing sealed under other authenticated bytes is opened.
pub record Authenticates (c : Crypto) : Type 0 where
  pub unseal-other :
      (key nonce plain a b : Bytes) → a ≢ b → c.unseal key nonce (c.seal key nonce plain a) b ≡ none

at_least_one : (v : ℕ) → ltb v 1 ≡ false → 1 ≤ v
at_least_one v h = ground arith

cons_injective : (c d : Char) (s t : String) → String.◌∷◌ c s ≡ String.◌∷◌ d t → (c ≡ d) × (s ≡ t)
cons_injective c d s t h = (cc, cc)

tail_flat :
    (c : Char) (s : String)
    → no_slash (String.◌∷◌ c s) ≡ true
    → (is_slash c ≡ false) × (no_slash s ≡ true)
unfolding no_slash all_chars
tail_flat c s h = ground arith

-- a slash in front is not the start of a text without one
slash_first :
    (c : Char) (b s t : String)
    → no_slash (String.◌∷◌ c b) ≡ true
    → append "/" s ≡ String.◌∷◌ c t
    → ⊥
slash_first c b s t f h =
    let x = ap is_slash (cons_injective _ c s t h).0 in let y = (tail_flat c b f).0 in cc

-- Texts without a slash, in front of one, can be told apart.
split_slash :
    (a b s t : String)
    → no_slash a ≡ true
    → no_slash b ≡ true
    → append a (append "/" s) ≡ append b (append "/" t)
    → (a ≡ b) × (s ≡ t)
split_slash String.[] String.[] s t f g h = (refl, (cons_injective _ _ s t h).1)
split_slash String.[] (String.◌∷◌ c b) s t f g h =
    absurd (slash_first c b s (append b (append "/" t)) g h)
split_slash (String.◌∷◌ c a) String.[] s t f g h =
    absurd (slash_first c a t (append a (append "/" s)) f (sym h))
split_slash (String.◌∷◌ c a) (String.◌∷◌ d b) s t f g h =
    let (x, y) = cons_injective c d _ _ h in
    let (p, q) = split_slash a b s t (tail_flat c a f).1 (tail_flat d b g).1 y in (cc, q)

append-injective : (p s t : String) → append p s ≡ append p t → s ≡ t
append-injective String.[] s t h = h
append-injective (String.◌∷◌ c p) s t h = append-injective p s t (cons_injective c c _ _ h).1

module _ (c : Crypto) (prints : Prints c) where
  -- The authenticated bytes determine the tenant, the record, the field and the version.
  pub aad-injective :
      (t t' r r' : Uuid) (n n' : String) (v v' : ℕ)
      → no_slash n ≡ true
      → no_slash n' ≡ true
      → aad c t r n v ≡ aad c t' r' n' v'
      → (t ≡ t') × (r ≡ r') × (n ≡ n') × (v ≡ v')
  unfolding aad_text
  aad-injective t t' r r' n n' v v' flat flat' h =
      let h1 = append-injective "umcp/content/v1/" _ _ (prints.utf8_injective _ _ h) in
      let (p, h2) =
        split_slash (c.uuid_text t) (c.uuid_text t') _ _ (prints.uuid_flat t) (prints.uuid_flat t')
          h1 in
      let (q, h3) =
        split_slash (c.uuid_text r) (c.uuid_text r') _ _ (prints.uuid_flat r) (prints.uuid_flat r')
          h2 in
      let (n_same, h4) = split_slash n n' _ _ flat flat' h3 in
      (
        prints.uuid_injective t t' p,
        prints.uuid_injective r r' q,
        n_same,
        prints.digits_injective v v' h4,
      )

  dek_aad-tenant : (t t' : Uuid) (v : ℕ) → dek_aad c t v ≡ dek_aad c t' v → t ≡ t'
  unfolding dek_aad
  dek_aad-tenant t t' v h =
      let h1 = append-injective "umcp/dek/v1/" _ _ (prints.utf8_injective _ _ h) in
      prints.uuid_injective t t'
        (split_slash (c.uuid_text t) (c.uuid_text t') _ _ (prints.uuid_flat t) (prints.uuid_flat t')
          h1).0

module _ (c : Crypto) (opens : Opens c) (prints : Prints c) (authenticates : Authenticates c)
    (master_key : Bytes) where
  -- the encryptor over the development service
  abbrev pub local_encryptor : TenantEnvelopeEncryptor
  local_encryptor = record { crypto = c; kms = local_kms c master_key }

  abbrev envelope : Entropy → Uuid → Uuid → String → String → ℕ → EnvelopeCiphertext
  envelope r t i n plaintext v = record {
    key_version = v;
    wrapped_dek = r.wrap_nonce ++ c.seal master_key r.wrap_nonce r.dek (dek_aad c t v);
    nonce = r.nonce;
    ciphertext = c.seal r.dek r.nonce (c.utf8 plaintext) (aad c t i n v);
  }

  module _ (r : Entropy) (t i : Uuid) (n plaintext : String) (v : ℕ) (drawn : IsDrawn r) where
    -- an encryption that succeeds, taken apart
    encrypted :
        (e : EnvelopeCiphertext)
        → encrypt local_encryptor r t i n plaintext v ≡ ok e
        → (ltb v 1 ≡ false) × (no_slash n ≡ true) × (e ≡ envelope r t i n plaintext v)
    unfolding encrypt local_wrap ◌>>=◌
    encrypted e made =
        let l = same_length (length r.dek) 32 drawn.dek in
        elim (Bool-cases (ltb v 1)) [
          | inl low ↦ let m = rw low at made in cc
          | inr high ↦ elim (Bool-cases (is_empty n)) [
            | inl none_ ↦ let m = rw (high, none_) at made in cc
            | inr full ↦ elim (Bool-cases (no_slash n)) [
              | inr slash ↦ let m = rw (high, full, slash) at made in cc
              | inl flat ↦
                  let m = rw (high, full, flat, l) at made in (high, flat, sym (ok_injective _ _ m))
            ]
          ]
        ]

    long_wrapped : ltb (length (envelope r t i n plaintext v).wrapped_dek) 28 ≡ false
    long_wrapped =
        not_shorter _ 28
          (wrapped_length c opens master_key r.wrap_nonce r.dek (dek_aad c t v) drawn.wrap_nonce)

    -- another tenant cannot even unwrap the key
    other_tenant :
        (t' : Uuid)
        → ltb v 1 ≡ false
        → t ≢ t'
        → local_unwrap c master_key t' v (envelope r t i n plaintext v).wrapped_dek
          ≡ err kms_unavailable
    unfolding local_unwrap ◌>>=◌
    other_tenant t' high other =
        rw
          (
            high,
            long_wrapped,
            take-append 12 r.wrap_nonce (c.seal master_key r.wrap_nonce r.dek (dek_aad c t v))
                drawn.wrap_nonce,
            drop-append 12 r.wrap_nonce (c.seal master_key r.wrap_nonce r.dek (dek_aad c t v))
                drawn.wrap_nonce,
            authenticates.unseal-other master_key r.wrap_nonce r.dek (dek_aad c t v)
                (dek_aad c t' v) (λ same. other (dek_aad-tenant c prints t t' v same)),
          )
          refl

    -- the checks of a decryption that do not fail here
    decrypt_unwrapped :
        (t' i' : Uuid) (n' : String)
        → ltb v 1 ≡ false
        → decrypt local_encryptor t' i' n' (envelope r t i n plaintext v) ≡ (
            all_as kms_unavailable
              (local_unwrap c master_key t' v (envelope r t i n plaintext v).wrapped_dek)
            >>= λ dek. raise_if (not (length dek == 32)) kms_unavailable >>= λ _.
                opened permission_error (
                  c.unseal dek r.nonce (envelope r t i n plaintext v).ciphertext (aad c t' i' n' v))
                >>= λ plain. opened permission_error (c.utf8_decode plain))
    unfolding decrypt ◌>>=◌
    decrypt_unwrapped t' i' n' high =
        rw
          (
            high,
            same_length (length r.nonce) 12 drawn.nonce,
            not_shorter (length (envelope r t i n plaintext v).ciphertext) 16
                (opens.tag r.dek r.nonce (c.utf8 plaintext) (aad c t i n v)),
          )
          refl

    other_place :
        (t' i' : Uuid) (n' : String) (v' : ℕ)
        → no_slash n ≡ true
        → no_slash n' ≡ true
        → (i ≢ i') ⊎ (n ≢ n')
        → aad c t i n v ≢ aad c t' i' n' v'
    other_place t' i' n' v' flat flat' (inl other) h =
        other (aad-injective c prints t t' i i' n n' v v' flat flat' h).1
    other_place t' i' n' v' flat flat' (inr other) h =
        other (aad-injective c prints t t' i i' n n' v v' flat flat' h).2

    refused :
        (t' i' : Uuid) (n' : String)
        → ltb v 1 ≡ false
        → no_slash n ≡ true
        → no_slash n' ≡ true
        → (t ≢ t') ⊎ ((i ≢ i') ⊎ (n ≢ n'))
        → ((t == t') ≡ true) ⊎ ((t == t') ≡ false)
        → decrypt local_encryptor t' i' n' (envelope r t i n plaintext v)
          ≡ err (if t == t' then permission_error else kms_unavailable)
    unfolding ◌>>=◌
    refused t' i' n' high flat flat' moved (inr other) =
        rw
          (
            other,
            decrypt_unwrapped t' i' n' high,
            other_tenant t' high (λ same. cc (other, (nat_eq.beq_iff t t').1 same)),
          )
          refl
    refused t' i' n' high flat flat' (inl other) (inl same) =
        absurd (other ((nat_eq.beq_iff t t').0 same))
    refused t' i' n' high flat flat' (inr other) (inl same) =
        rw
          (
            same,
            decrypt_unwrapped t' i' n' high,
            ← (nat_eq.beq_iff t t').0 same,
            local_unwrap-wrap c opens master_key r.wrap_nonce t v r.dek (at_least_one v high)
                drawn.dek drawn.wrap_nonce,
            same_length (length r.dek) 32 drawn.dek,
            authenticates.unseal-other r.dek r.nonce (c.utf8 plaintext) (aad c t i n v)
                (aad c t i' n' v) (other_place t i' n' v flat flat' other),
          )
          refl

    -- A ciphertext is read only where it was written: under another tenant, another record or
    -- another field without a slash it is refused, for another tenant by the development key
    -- service, for the same tenant by the authentication of the text. This needs that AES-GCM
    -- opens what it sealed and nothing that was sealed with other authenticated bytes, that
    -- printed identifiers and numbers can be told apart and hold no slash, and that random bytes
    -- have the length asked for.
    pub decrypt-misplaced :
        (e : EnvelopeCiphertext) (t' i' : Uuid) (n' : String)
        → encrypt local_encryptor r t i n plaintext v ≡ ok e
        → no_slash n' ≡ true
        → (t ≢ t') ⊎ ((i ≢ i') ⊎ (n ≢ n'))
        → decrypt local_encryptor t' i' n' e
          ≡ err (if t == t' then permission_error else kms_unavailable)
    decrypt-misplaced e t' i' n' made flat' moved =
        let (high, flat, shape) = encrypted e made in
        rw shape (refused t' i' n' high flat flat' moved (Bool-cases (t == t')))
