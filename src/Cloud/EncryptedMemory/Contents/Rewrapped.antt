-- ===== src/Cloud/EncryptedMemory/Contents/Rewrapped.antt =====
-- A rotation of the key leaves what callers read as it was.
use umcp.Prelude.{
  ℕ, ◌+◌, ◌≤◌, String, nat_eq, string_eq, ◌==◌, ◌≡◌, refl, sym, ◌∙◌, true, false, ◌||◌, some, [],
  ◌∷◌, arith, ltb, inl, inr, Bool-cases,
}
use umcp.Text.{is_empty, all_chars}
use umcp.Dict.{Dict, lookup}
use umcp.Dict.Entries.{Every}
use umcp.Domain.Errors.{ok, ◌>>=◌}
use umcp.Domain.Values.{Uuid}
use umcp.Cloud.Cipher.{Entropy, EnvelopeCiphertext, decrypt, no_slash}
use umcp.Cloud.Cipher.RoundTrip.{IsDrawn, rewrap-Encrypted}
use umcp.Cloud.EncryptedMemory.{Platform, Stored, View, CloudStore, read}
use umcp.Cloud.EncryptedMemory.Reading.{get, get_owned}
use umcp.Cloud.EncryptedMemory.Rewrapping.{rewrap_field, rewrap_record, rewrap_records, rewrap}
use umcp.Cloud.EncryptedMemory.Contents.{Lawful, read-Readable, Readable-read}

allowed : (old new : ℕ) → 1 ≤ new → old ≤ new → ltb new 1 || ltb new old ≡ false
allowed old new h k = ground arith

module _ {J : Type 0} (p : Platform J) where
  -- every record can be read
  abbrev pub AllReadable : Dict String Stored → Type 0
  AllReadable d = Every (λ i stored. (view : View J) × (read p stored ≡ ok view)) d

module _ {J : Type 0} (p : Platform J) (l : Lawful p) (draw : String → String → Entropy)
    (drawn : (id name : String) → IsDrawn (draw id name)) (version : ℕ)
    (positive : 1 ≤ version) where
  -- a field under the version, with the text that it had
  pub record Rewrapped (tenant record_id : Uuid) (name plaintext : String) (random : Entropy)
      (old : EnvelopeCiphertext) : Type 0 where
    pub value : EnvelopeCiphertext
    pub count : ℕ
    pub made : rewrap_field p random version tenant record_id name old ≡ ok (value, count)
    pub under : value.key_version ≡ version
    pub opened : decrypt p.encryptor tenant record_id name value ≡ ok plaintext

  rewrap_field-Rewrapped :
      (tenant record_id : Uuid) (name plaintext : String) (random : Entropy)
      (old : EnvelopeCiphertext)
      → IsDrawn random
      → is_empty name ≡ false
      → no_slash name ≡ true
      → decrypt p.encryptor tenant record_id name old ≡ ok plaintext
      → Rewrapped tenant record_id name plaintext random old
  unfolding rewrap_field ◌>>=◌
  rewrap_field-Rewrapped tenant record_id name plaintext random old r full flat readable =
      elim (Bool-cases (old.key_version == version)) [
        | inl same ↦ record {
          value = old;
          count = 0;
          made = rw same refl;
          under = (nat_eq.beq_iff old.key_version version).0 same;
          opened = readable;
        }
        | inr other ↦
            (let (new, made, under, opened) =
                rewrap-Encrypted p.encryptor l.opens l.unwraps random tenant record_id name
                  plaintext old version r positive full flat readable in
              record {
                value = new;
                count = 1;
                made = rw (other, made) refl;
                under = under;
                opened = opened;
              })
      ]

  -- both fields stand under the version
  abbrev pub IsUnder : Stored → Type 0
  IsUnder stored =
      (stored.content_ciphertext.key_version ≡ version)
      × (stored.provenance_ciphertext.key_version ≡ version)

  pub record Kept (old : Stored) : Type 0 where
    pub stored : Stored
    pub count : ℕ
    pub made : rewrap_record p draw version old ≡ ok (stored, count)
    pub under : IsUnder stored
    pub owner : stored.owner_id ≡ old.owner_id
    pub same : read p stored ≡ read p old

  rewrap_record-Kept : (old : Stored) (view : View J) → read p old ≡ ok view → Kept old
  unfolding rewrap_record ◌>>=◌ no_slash all_chars
  rewrap_record-Kept old view h =
      let r = read-Readable p old view h in
      let c =
        rewrap_field-Rewrapped r.tenant r.record_id "content" r.content (draw old.id "content")
          old.content_ciphertext (drawn old.id "content") refl refl r.opened in
      let e =
        rewrap_field-Rewrapped r.tenant r.record_id "provenance" r.json (draw old.id "provenance")
          old.provenance_ciphertext (drawn old.id "provenance") refl refl r.opened_json in
      let stored : Stored = record old {
        content_ciphertext = c.value;
        provenance_ciphertext = e.value;
      } in
      record {
        stored = stored;
        count = c.count + e.count;
        made = rw (r.bound, r.named, c.made, e.made) refl;
        under = (c.under, e.under);
        owner = refl;
        same =
            Readable-read p stored view (record {
              tenant = r.tenant;
              record_id = r.record_id;
              content = r.content;
              json = r.json;
              provenance = r.provenance;
              bound = r.bound;
              named = r.named;
              opened = c.opened;
              opened_json = e.opened;
              loaded = r.loaded;
              seen = r.seen;
            })
            ∙ sym h;
      }

  -- what a caller gets of a record
  pub record KeptAll (d : Dict String Stored) : Type 0 where
    pub records : Dict String Stored
    pub count : ℕ
    pub made : rewrap_records p draw version d ≡ ok (records, count)
    pub under : Every (λ i stored. IsUnder stored) records
    pub same :
        (owner i : String) → get_owned p owner (lookup i records) ≡ get_owned p owner (lookup i d)

  same_owned :
      (owner : String) (a b : Stored)
      → a.owner_id ≡ b.owner_id
      → read p a ≡ read p b
      → get_owned p owner (some a) ≡ get_owned p owner (some b)
  unfolding get_owned
  same_owned owner a b o r = rw (r, o) refl

  rewrap_records-KeptAll : (d : Dict String Stored) → AllReadable p d → KeptAll d
  unfolding rewrap_records ◌>>=◌ lookup
  rewrap_records-KeptAll [] h = record {
    records = [];
    count = 0;
    made = refl;
    under = tt;
    same = λ owner i. refl;
  }
  rewrap_records-KeptAll ((j, old) ∷ d) ((view, here), later) =
      let k = rewrap_record-Kept old view here in
      let rest = rewrap_records-KeptAll d later in
      record {
        records = (j, k.stored) ∷ rest.records;
        count = k.count + rest.count;
        made = rw (k.made, rest.made) refl;
        under = (k.under, rest.under);
        same = λ owner i. elim (Bool-cases (j == i)) [
          | inl same ↦ rw same (same_owned owner k.stored old k.owner k.same)
          | inr other ↦ rw other (rest.same owner i)
        ];
      }

  -- What a rotation of the key leaves.
  pub record Rotated (s : CloudStore) : Type 0 where
    pub count : ℕ
    pub after : CloudStore
    pub made : rewrap p draw version s ≡ (ok count, after)
    pub current : after.key_version ≡ version
    pub under : Every (λ i stored. IsUnder stored) after.records
    pub same : (owner i : String) → get p owner i after ≡ get p owner i s

  -- When every record can be read, a rewrap to a positive version that is not below the current
  -- one succeeds, leaves no field under another version, and no owner reads anything else than
  -- before, as long as random bytes have the length asked for, and encryption reads back what it
  -- wrote.
  pub rewrap-Rotated :
      (s : CloudStore) → s.key_version ≤ version → AllReadable p s.records → Rotated s
  unfolding rewrap get
  rewrap-Rotated s up h =
      let k = rewrap_records-KeptAll s.records h in
      record {
        count = k.count;
        after = record s { records = k.records; key_version = version };
        made = rw (allowed s.key_version version positive up, k.made) refl;
        current = refl;
        under = k.under;
        same = λ owner i. rw (k.same owner i) refl;
      }
