-- ===== src/Tests/Cloud.antt =====
-- Concrete libraries for the hosted service: printers that tally, and a cipher that only authenticates.
use Prim.Native.Char.{Char, char, code, IsScalar, IsLt}
use Prim.Native.Nat.{Ordering, compare}
use umcp.Prelude.{
  ℕ, zero, suc, String, nat_eq, string_eq, ◌==◌, ==_refl, ◌≡◌, ◌≢◌, refl, sym, ap, ◌∙◌, true,
  Option, none, some, [], ◌∷◌, ◌++◌, length, drop, arith, inl, inr, Bool-cases, if◌then◌else◌,
}
use umcp.Text.{len, append, all_chars}
use umcp.Score.{ℤ, pos, negsuc}
use umcp.Domain.Values.{Datetime, naive, aware}
use umcp.Cloud.Envelope.{Signer}
use umcp.Cloud.Worker.Snapshot.{Parsers}
use umcp.Cloud.Worker.Snapshot.Entries.{Inverse}
use umcp.Cloud.Cipher.{Bytes, Crypto, Entropy, local_kms, no_slash, TenantEnvelopeEncryptor}
use umcp.Cloud.Cipher.RoundTrip.{Opens, IsDrawn, Unwraps, local_kms-Unwraps}
use umcp.Cloud.Cipher.Binding.{Prints, Authenticates}
use umcp.Cloud.EncryptedMemory.{Platform, cut}
use umcp.Cloud.EncryptedMemory.Contents.{Lawful}

abbrev pub tally : ℕ → String
tally zero = ""
tally (suc n) = append "a" (tally n)

pub len-tally : (n : ℕ) → len (tally n) ≡ n
unfolding len
len-tally zero = refl
len-tally (suc n) = ap suc (len-tally n)

pub tally_injective : (m n : ℕ) → tally m ≡ tally n → m ≡ n
tally_injective m n h = sym (len-tally m) ∙ ap len h ∙ len-tally n

tally_flat : (n : ℕ) → no_slash (tally n) ≡ true
unfolding no_slash all_chars
tally_flat zero = refl
tally_flat (suc n) = tally_flat n

-- The offset after a colon; `n` in front where there is none, `-` where it is negative.
abbrev pub print_time : Datetime → String
print_time (naive t) = append "n" (tally t)
print_time (aware t (pos offset)) = append "p" (append (tally t) (append ":" (tally offset)))
print_time (aware t (negsuc offset)) = append "-" (append (tally t) (append ":" (tally offset)))

abbrev aware_of : (ℕ → ℤ) → Option (String × String) → Option Datetime
aware_of sign none = none
aware_of sign (some (t, offset)) = some (aware (len t) (sign (len offset)))

abbrev pub read_time : String → Option Datetime
read_time String.[] = none
read_time (String.◌∷◌ c s) =
    if code c == 110
    then some (naive (len s))
    else if code c == 112
    then aware_of pos (cut s)
    else aware_of negsuc (cut s)

cut-tally : (n : ℕ) (s : String) → cut (append (tally n) (append ":" s)) ≡ some (tally n, s)
unfolding cut
cut-tally zero s = refl
cut-tally (suc n) s = rw (cut-tally n s) refl

abbrev pub print_int : ℤ → String
print_int (pos n) = tally n
print_int (negsuc n) = append "-" (tally n)

abbrev pub read_int : String → Option ℤ
read_int String.[] = some (pos 0)
read_int (String.◌∷◌ c s) = if code c == 45 then some (negsuc (len s)) else some (pos (suc (len s)))

abbrev pub signer : Signer
signer = record {
  secret = "key";
  hmac = λ secret message. "signed";
  uuid_text = tally;
  isoformat = print_time;
}

abbrev pub parsers : Parsers
parsers = record {
  dumps = λ item. "{}";
  digits = print_int;
  uuid_of = λ t. some (len t);
  time_of = read_time;
  int_of = read_int;
}

read_time-print : (t : Datetime) → read_time (print_time t) ≡ some t
unfolding len
read_time-print (naive t) = ap (λ n. some (naive n)) (len-tally t)
read_time-print (aware t (pos o)) = rw (cut-tally t (tally o), len-tally t, len-tally o) refl
read_time-print (aware t (negsuc o)) = rw (cut-tally t (tally o), len-tally t, len-tally o) refl

read_int-print : (n : ℤ) → read_int (print_int n) ≡ some n
read_int-print (pos zero) = refl
read_int-print (pos (suc n)) = ap (λ m. some (pos (suc m))) (len-tally n)
read_int-print (negsuc n) = ap (λ m. some (negsuc m)) (len-tally n)

pub parsers-Inverse : Inverse signer parsers
parsers-Inverse = record {
  uuid = λ u. ap some (len-tally u);
  time = read_time-print;
  int = read_int-print;
}

-- the bytes after a prefix
abbrev strip : Bytes → Bytes → Option Bytes
strip [] ys = some ys
strip (x ∷ xs) [] = none
strip (x ∷ xs) (y ∷ ys) = if x == y then strip xs ys else none

abbrev tag : Bytes
tag = 0 ∷ 0 ∷ 0 ∷ 0 ∷ 0 ∷ 0 ∷ 0 ∷ 0 ∷ 0 ∷ 0 ∷ 0 ∷ 0 ∷ 0 ∷ 0 ∷ 0 ∷ 0 ∷ []

strip-same : (xs ys : Bytes) → strip xs (xs ++ ys) ≡ some ys
strip-same [] ys = refl
strip-same (x ∷ xs) ys = rw (==_refl x) (strip-same xs ys)

strip-other : (xs ys zs : Bytes) → length xs ≡ length ys → xs ≢ ys → strip ys (xs ++ zs) ≡ none
strip-other [] [] zs l h = absurd (h refl)
strip-other [] (y ∷ ys) zs l h = absurd (omega (arith, l))
strip-other (x ∷ xs) [] zs l h = absurd (omega (arith, l))
strip-other (x ∷ xs) (y ∷ ys) zs l h = elim (Bool-cases (y == x)) [
  | inr other ↦ rw other refl
  | inl same ↦ rw same (
      strip-other xs ys zs (omega (arith, l))
        (λ tails. h (cc (tails, (nat_eq.beq_iff y x).0 same))))
]

abbrev codes : String → Bytes
codes String.[] = []
codes (String.◌∷◌ c s) = code c ∷ codes s

-- Native characters are numbers with a proof of this, of three comparisons.
abbrev BothLt : Ordering → Ordering → Type 0
BothLt Ordering.lt o = IsLt o
BothLt Ordering.eq _ = ⊥
BothLt Ordering.gt _ = ⊥

abbrev IsFine : Ordering → Ordering → Ordering → Type 0
IsFine Ordering.lt _ _ = Unit
IsFine Ordering.eq o p = BothLt o p
IsFine Ordering.gt o p = BothLt o p

abbrev below : (o : Ordering) → Option (IsLt o)
below Ordering.lt = some tt
below Ordering.eq = none
below Ordering.gt = none

abbrev both : (o p : Ordering) → Option (BothLt o p)
both Ordering.lt p = below p
both Ordering.eq p = none
both Ordering.gt p = none

abbrev scalar : (o p q : Ordering) → Option (IsFine o p q)
scalar Ordering.lt p q = some tt
scalar Ordering.eq p q = both p q
scalar Ordering.gt p q = both p q

below_complete : (o : Ordering) (h : IsLt o) → below o ≡ some h
below_complete Ordering.lt h = refl
below_complete Ordering.eq h = absurd h
below_complete Ordering.gt h = absurd h

both_complete : (o p : Ordering) (h : BothLt o p) → both o p ≡ some h
both_complete Ordering.lt p h = below_complete p h
both_complete Ordering.eq p h = absurd h
both_complete Ordering.gt p h = absurd h

scalar_complete : (o p q : Ordering) (h : IsFine o p q) → scalar o p q ≡ some h
scalar_complete Ordering.lt p q h = refl
scalar_complete Ordering.eq p q h = both_complete p q h
scalar_complete Ordering.gt p q h = both_complete p q h

abbrev char_if : (n : ℕ) → Option (IsScalar n) → Option Char
char_if n none = none
char_if n (some h) = some (char n h)

abbrev char_of : ℕ → Option Char
char_of n = char_if n (scalar (compare n 55296) (compare 57343 n) (compare n 1114112))

char_of-code : (c : Char) → char_of (code c) ≡ some c
char_of-code (char n h) =
    ap (char_if n) (scalar_complete (compare n 55296) (compare 57343 n) (compare n 1114112) h)

abbrev cons_if : Option Char → Option String → Option String
cons_if (some c) (some s) = some (String.◌∷◌ c s)
cons_if (some c) none = none
cons_if none s = none

abbrev text_of : Bytes → Option String
text_of [] = some ""
text_of (n ∷ ns) = cons_if (char_of n) (text_of ns)

text_of-codes : (s : String) → text_of (codes s) ≡ some s
text_of-codes String.[] = refl
text_of-codes (String.◌∷◌ c s) = rw (char_of-code c, text_of-codes s) refl

some_injective : (s t : String) → some s ≡ some t → s ≡ t
some_injective s t h = cc

codes_injective : (s t : String) → codes s ≡ codes t → s ≡ t
codes_injective s t h = some_injective s t (sym (text_of-codes s) ∙ ap text_of h ∙ text_of-codes t)

abbrev pub crypto : Crypto
crypto = record {
  seal = λ key nonce plain aad. tag ++ ((length aad ∷ aad) ++ plain);
  unseal = λ key nonce sealed aad. strip (length aad ∷ aad) (drop 16 sealed);
  utf8 = codes;
  utf8_decode = text_of;
  uuid_text = tally;
  digits = print_int;
  dumps = λ item. "{}";
  loads = λ t. none;
  base64 = λ b. "";
  base64_decode = λ t. none;
}

pub crypto-Opens : Opens crypto
crypto-Opens = record {
  unseal-seal = λ key nonce plain aad. strip-same (length aad ∷ aad) plain;
  tag = λ key nonce plain aad. omega arith;
  utf8 = text_of-codes;
}

pub crypto-Prints : Prints crypto
crypto-Prints = record {
  uuid_injective = tally_injective;
  uuid_flat = tally_flat;
  digits_injective = tally_injective;
  utf8_injective = codes_injective;
}

pub crypto-Authenticates : Authenticates crypto
crypto-Authenticates = record {
  unseal-other = λ key nonce plain a b other. elim (Bool-cases (length b == length a)) [
    | inr longer ↦ rw longer refl
    | inl same ↦
        rw same (strip-other a b plain (sym ((nat_eq.beq_iff (length b) (length a)).0 same)) other)
  ];
}

abbrev pub twelve : Bytes
twelve = 1 ∷ 2 ∷ 3 ∷ 4 ∷ 5 ∷ 6 ∷ 7 ∷ 8 ∷ 9 ∷ 10 ∷ 11 ∷ 12 ∷ []

abbrev pub thirty_two : Bytes
thirty_two = twelve ++ (twelve ++ (1 ∷ 2 ∷ 3 ∷ 4 ∷ 5 ∷ 6 ∷ 7 ∷ 8 ∷ []))

abbrev pub entropy : Entropy
entropy = record { dek = thirty_two; nonce = twelve; wrap_nonce = twelve }

pub entropy-IsDrawn : IsDrawn entropy
entropy-IsDrawn = record { dek = refl; nonce = refl; wrap_nonce = refl }

abbrev pub encryptor : TenantEnvelopeEncryptor
encryptor = record { crypto = crypto; kms = local_kms crypto thirty_two }

pub encryptor-Unwraps : Unwraps encryptor.kms
encryptor-Unwraps = local_kms-Unwraps crypto crypto-Opens thirty_two

-- Provenance is a text here.
abbrev pub platform : Platform String
platform = record {
  encryptor = encryptor;
  uuid_of = λ t. some (len t);
  hex = tally;
  dumps = λ t. t;
  loads = λ t. some t;
  words = λ t. t ∷ [];
  is_time = λ t. true;
}

pub platform-Lawful : Lawful platform
platform-Lawful = record {
  opens = crypto-Opens;
  unwraps = encryptor-Unwraps;
  hex = λ u. ap some (len-tally u);
  loads = λ j. refl;
}
