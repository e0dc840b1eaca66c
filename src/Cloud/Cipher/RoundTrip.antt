-- ===== src/Cloud/Cipher/RoundTrip.antt =====
-- TenantEnvelopeEncryptor over a key management service: what it encrypts, it decrypts.
use umcp.Prelude.{
  ℕ, zero, suc, ◌+◌, ◌≤◌, String, nat_eq, string_eq, ◌==◌, ◌≡◌, refl, ap, true, false, some, List,
  [], ◌∷◌, ◌++◌, length, take, drop, ltb, arith,
}
use umcp.Text.{is_empty}
use umcp.Domain.Errors.{ok, ◌>>=◌}
use umcp.Domain.Values.{Uuid}
use umcp.Cloud.Cipher.{
  Bytes, Crypto, KeyManagementService, local_wrap, local_unwrap, local_kms, dek_aad,
  EnvelopeCiphertext, aad, no_slash, Entropy, TenantEnvelopeEncryptor, encrypt, decrypt, rewrap,
}

-- AES-GCM opens what it sealed under the same key, nonce and authenticated bytes, and a ciphertext holds
-- at least its tag of 16 bytes; UTF-8 reads back what it wrote.
pub record Opens (c : Crypto) : Type 0 where
  pub unseal-seal :
      (key nonce plain aad : Bytes)
      → c.unseal key nonce (c.seal key nonce plain aad) aad ≡ some plain
  pub tag : (key nonce plain aad : Bytes) → 16 ≤ length (c.seal key nonce plain aad)
  pub utf8 : (s : String) → c.utf8_decode (c.utf8 s) ≡ some s

-- `os.urandom` gives as many bytes as it was asked for.
pub record IsDrawn (r : Entropy) : Type 0 where
  pub dek : length r.dek ≡ 32
  pub nonce : length r.nonce ≡ 12
  pub wrap_nonce : length r.wrap_nonce ≡ 12

-- What the encryptor needs of a key management service: it unwraps the keys that it wraps.
pub record Unwraps (kms : KeyManagementService) : Type 0 where
  pub unwrap-wrap :
      (nonce : Bytes) (tenant_id : Uuid) (v : ℕ) (dek : Bytes)
      → 1 ≤ v
      → length dek ≡ 32
      → length nonce ≡ 12
      → (w : Bytes) × (kms.wrap nonce tenant_id v dek ≡ ok w) × (kms.unwrap tenant_id v w ≡ ok dek)

module _ {A : Type 0} where
  pub take-append : (n : ℕ) (xs ys : List A) → length xs ≡ n → take n (xs ++ ys) ≡ xs
  take-append zero [] ys h = refl
  take-append zero (x ∷ xs) ys h = absurd (omega arith)
  take-append (suc n) [] ys h = absurd (omega arith)
  take-append (suc n) (x ∷ xs) ys h = ap (◌∷◌ x) (take-append n xs ys (omega arith))

  pub drop-append : (n : ℕ) (xs ys : List A) → length xs ≡ n → drop n (xs ++ ys) ≡ ys
  drop-append zero [] ys h = refl
  drop-append zero (x ∷ xs) ys h = absurd (omega arith)
  drop-append (suc n) [] ys h = absurd (omega arith)
  drop-append (suc n) (x ∷ xs) ys h = drop-append n xs ys (omega arith)

  length-append : (xs ys : List A) → length (xs ++ ys) ≡ length xs + length ys
  length-append [] ys = omega arith
  length-append (x ∷ xs) ys = let l = length-append xs ys in omega (arith, l)

positive : (v : ℕ) → 1 ≤ v → ltb v 1 ≡ false
positive v h = ground arith

pub same_length : (n m : ℕ) → n ≡ m → (n == m) ≡ true
same_length n m h = ground arith

pub not_shorter : (n m : ℕ) → m ≤ n → ltb n m ≡ false
not_shorter n m h = ground arith

module _ (c : Crypto) (opens : Opens c) (master_key : Bytes) where
  pub wrapped_length :
      (nonce plain aad : Bytes)
      → length nonce ≡ 12
      → 28 ≤ length (nonce ++ c.seal master_key nonce plain aad)
  wrapped_length nonce plain aad h =
      let l = length-append nonce (c.seal master_key nonce plain aad) in
      let t = opens.tag master_key nonce plain aad in omega (arith, l, t)

  pub local_unwrap-wrap :
      (nonce : Bytes) (tenant_id : Uuid) (v : ℕ) (dek : Bytes)
      → 1 ≤ v
      → length dek ≡ 32
      → length nonce ≡ 12
      → local_unwrap c master_key tenant_id v
          (nonce ++ c.seal master_key nonce dek (dek_aad c tenant_id v))
        ≡ ok dek
  unfolding local_unwrap ◌>>=◌
  local_unwrap-wrap nonce tenant_id v dek h l n =
      rw
        (
          positive v h,
          not_shorter _ 28 (wrapped_length nonce dek (dek_aad c tenant_id v) n),
          take-append 12 nonce (c.seal master_key nonce dek (dek_aad c tenant_id v)) n,
          drop-append 12 nonce (c.seal master_key nonce dek (dek_aad c tenant_id v)) n,
          opens.unseal-seal master_key nonce dek (dek_aad c tenant_id v),
          same_length (length dek) 32 l,
        )
        refl

  -- the development service is such a service
  pub local_kms-Unwraps : Unwraps (local_kms c master_key)
  unfolding local_wrap ◌>>=◌
  local_kms-Unwraps = record {
    unwrap-wrap = λ nonce tenant_id v dek h l n. (
      nonce ++ c.seal master_key nonce dek (dek_aad c tenant_id v),
      rw (positive v h, same_length (length dek) 32 l) refl,
      local_unwrap-wrap nonce tenant_id v dek h l n,
    );
  }

module _ (x : TenantEnvelopeEncryptor) (opens : Opens x.crypto) (unwraps : Unwraps x.kms) where
  -- What an encryption gives, and that it is read back.
  pub record Encrypted (r : Entropy) (tenant_id record_id : Uuid) (name plaintext : String) (v : ℕ)
      : Type 0 where
    pub value : EnvelopeCiphertext
    pub made : encrypt x r tenant_id record_id name plaintext v ≡ ok value
    pub version : value.key_version ≡ v
    pub read : decrypt x tenant_id record_id name value ≡ ok plaintext

  -- Whatever tenant, record, positive key version, and field name that is not empty and has no
  -- slash: a text is encrypted, under that version, and what comes out is decrypted to the text,
  -- if the key service unwraps what it wraps, the random bytes have the length asked for, and
  -- AES-GCM and UTF-8 read back what they wrote.
  pub decrypt-encrypt :
      (r : Entropy) (tenant_id record_id : Uuid) (name plaintext : String) (v : ℕ)
      → IsDrawn r
      → 1 ≤ v
      → is_empty name ≡ false
      → no_slash name ≡ true
      → Encrypted r tenant_id record_id name plaintext v
  unfolding encrypt decrypt ◌>>=◌
  decrypt-encrypt r tenant_id record_id name plaintext v drawn h full flat =
      let (w, wraps, back) =
        unwraps.unwrap-wrap r.wrap_nonce tenant_id v r.dek h drawn.dek drawn.wrap_nonce in
      let sealed =
        x.crypto.seal r.dek r.nonce (x.crypto.utf8 plaintext)
          (aad x.crypto tenant_id record_id name v) in
      record {
        value = record { key_version = v; wrapped_dek = w; nonce = r.nonce; ciphertext = sealed };
        made = rw (positive v h, full, flat, wraps) refl;
        version = refl;
        read =
            rw
              (
                positive v h,
                same_length (length r.nonce) 12 drawn.nonce,
                not_shorter (length sealed) 16 (
                    opens.tag r.dek r.nonce (x.crypto.utf8 plaintext)
                      (aad x.crypto tenant_id record_id name v)),
                back,
                same_length (length r.dek) 32 drawn.dek,
                opens.unseal-seal r.dek r.nonce (x.crypto.utf8 plaintext)
                    (aad x.crypto tenant_id record_id name v),
                opens.utf8 plaintext,
              )
              refl;
      }

  -- A field whose text can be read is rewrapped, and then it reads as before, under the new version.
  pub rewrap-Encrypted :
      (r : Entropy) (tenant_id record_id : Uuid) (name plaintext : String)
      (old : EnvelopeCiphertext) (v : ℕ)
      → IsDrawn r
      → 1 ≤ v
      → is_empty name ≡ false
      → no_slash name ≡ true
      → decrypt x tenant_id record_id name old ≡ ok plaintext
      → (new : EnvelopeCiphertext) × (rewrap x r tenant_id record_id name old v ≡ ok new)
        × (new.key_version ≡ v)
        × (decrypt x tenant_id record_id name new ≡ ok plaintext)
  unfolding rewrap ◌>>=◌
  rewrap-Encrypted r tenant_id record_id name plaintext old v drawn h full flat readable =
      let e = decrypt-encrypt r tenant_id record_id name plaintext v drawn h full flat in
      (e.value, rw (positive v h, readable) e.made, e.version, e.read)
