-- ===== src/Domain/Values.antt =====
-- src/omp/domain/types.py: the value objects and their validation. A value is built by its
-- `make_…` function, which is the constructor with `__post_init__`.
use umcp.Prelude.{
  ℕ, String, Eq, nat_eq, string_eq, option_eq, pair_eq, ◌==◌, ◌≡◌, ◌↔◌, Bool, true, false, ◌&&◌,
  ◌||◌, not, Option, none, some, List, [], ◌∷◌, elem, arith, ltb, if◌then◌else◌,
}
use umcp.Text.{len, strip, is_blank, is_empty}
use umcp.Score.{ℤ, pos, one, leb_ℤ, int_eq}
use umcp.Domain.Errors.{validation_error, Result, ok, err, ◌>>=◌, ◌>>◌, raise_if}
use umcp.Domain.Enums.{SourceType, ConsentMode, ConsentReason, RelationType, relation_type_eq}

-- A UUID is its 128-bit number; the order of the canonical texts is the order of the numbers.
abbrev pub Uuid : Type 0
Uuid = ℕ

-- A wall clock without a zone, or an instant (in microseconds, UTC) with the offset of its zone.
pub data Datetime : Type 0 where
  naive : ℕ → Datetime
  aware : ℕ → ℤ → Datetime

abbrev pub instant : Datetime → ℕ
instant (naive t) = t
instant (aware t offset) = t

abbrev pub utc : ℕ → Datetime
utc t = aware t (pos 0)

-- `a < b` and `a == b` of two aware times
abbrev pub before : Datetime → Datetime → Bool
before a b = ltb (instant a) (instant b)

unfoldable pub ensure_aware : Datetime → Result Datetime
ensure_aware (naive t) = err validation_error
ensure_aware (aware t offset) = ok (utc t)

abbrev pub max_owner_id_length : ℕ
max_owner_id_length = 256

abbrev pub max_space_length : ℕ
max_space_length = 256

abbrev pub max_idempotency_key_length : ℕ
max_idempotency_key_length = 256

abbrev pub max_opaque_id_length : ℕ
max_opaque_id_length = 256

abbrev pub max_evidence_item_length : ℕ
max_evidence_item_length = 512

unfoldable pub validate_owner_id : String → Result String
validate_owner_id value = do
  raise_if (is_blank value) validation_error
  let normalized = strip value
  raise_if (ltb max_owner_id_length (len normalized)) validation_error
  ok normalized

unfoldable pub validate_space : Option String → Result (Option String)
validate_space none = ok none
validate_space (some value) = do
  let normalized = strip value
  raise_if (is_empty normalized || ltb max_space_length (len normalized)) validation_error
  ok (some normalized)

unfoldable pub validate_idempotency_key : Option String → Result (Option String)
validate_idempotency_key none = ok none
validate_idempotency_key (some value) = do
  let normalized = strip value
  raise_if (is_empty normalized || ltb max_idempotency_key_length (len normalized)) validation_error
  ok (some normalized)

unfoldable pub validate_unit_interval : ℤ → Result ℤ
validate_unit_interval value =
    if leb_ℤ (pos 0) value && leb_ℤ value one then ok value else err validation_error

abbrev pub any_item : (String → Bool) → List String → Bool
any_item p [] = false
any_item p (x ∷ xs) = p x || any_item p xs

-- a blank optional text
abbrev pub present_blank : Option String → Bool
present_blank none = false
present_blank (some s) = is_blank s

pub record Provenance : Type 0 where
  pub source_type : SourceType
  pub captured_at : Datetime
  pub source_id : Option String
  pub source_model : Option String
  pub evidence : List String
  pub source_client : Option String
  pub source_connection_id : Option String
  pub conversation_id : Option String
  pub message_id : Option String

-- the loop body over the four opaque identifiers
unfoldable pub check_opaque_id : Option String → Result (Unit {0})
check_opaque_id none = ok tt
check_opaque_id (some value) = do
  raise_if (is_blank value) validation_error
  raise_if (ltb max_opaque_id_length (len value)) validation_error

unfoldable pub make_provenance : Provenance → Result Provenance
unfolding ensure_aware check_opaque_id
make_provenance p = do
  captured ← ensure_aware p.captured_at
  raise_if (present_blank p.source_id) validation_error
  raise_if (present_blank p.source_model) validation_error
  raise_if (any_item is_blank p.evidence) validation_error
  check_opaque_id p.source_client
  check_opaque_id p.source_connection_id
  check_opaque_id p.conversation_id
  check_opaque_id p.message_id
  raise_if (any_item (λ item. ltb max_evidence_item_length (len item)) p.evidence) validation_error
  ok (record p { captured_at = captured })

pub record CaptureConsent : Type 0 where
  pub mode : ConsentMode
  pub consent_id : String
  pub reason_code : ConsentReason
  pub policy_version : String
  pub granted_at : Datetime

-- the loop body over `consent_id` and `policy_version`
unfoldable pub check_consent_text : String → Result (Unit {0})
check_consent_text value = do
  raise_if (is_blank value) validation_error
  raise_if (ltb max_opaque_id_length (len value)) validation_error

-- The time is checked and not normalised.
unfoldable pub make_consent : CaptureConsent → Result CaptureConsent
unfolding ensure_aware check_consent_text
make_consent c = do
  check_consent_text c.consent_id
  check_consent_text c.policy_version
  ensure_aware c.granted_at
  ok c

pub record EmbeddingDescriptor : Type 0 where
  pub profile_id : String
  pub profile_version : String
  pub dimension : ℕ
  pub metric : String

-- A dimension of the model is at least 0, so `dimension <= 0` is `dimension == 0`.
unfoldable pub make_descriptor : EmbeddingDescriptor → Result EmbeddingDescriptor
make_descriptor d = do
  raise_if (is_blank d.profile_id || is_blank d.profile_version) validation_error
  raise_if (d.dimension == 0) validation_error
  raise_if (not (elem d.metric ("cosine" ∷ "l2" ∷ "inner_product" ∷ []))) validation_error
  ok d

pub record Relation : Type 0 where
  pub source_id : Uuid
  pub target_id : Uuid
  pub relation_type : RelationType
  pub owner_id : String
  pub created_at : Datetime

unfoldable pub make_relation : Relation → Result Relation
unfolding validate_owner_id ensure_aware
make_relation r = do
  validate_owner_id r.owner_id
  ensure_aware r.created_at
  raise_if (r.source_id == r.target_id) validation_error
  ok r

-- Equality of the frozen dataclass.
abbrev pub descriptor_beq : EmbeddingDescriptor → EmbeddingDescriptor → Bool
descriptor_beq a b =
    a.profile_id == b.profile_id
    && a.profile_version == b.profile_version
    && a.dimension == b.dimension
    && a.metric == b.metric

pub descriptor_beq_iff : (a b : EmbeddingDescriptor) → (descriptor_beq a b ≡ true) ↔ (a ≡ b)
descriptor_beq_iff a b = ground (
  arith,
  string_eq.beq_iff a.profile_id b.profile_id,
  string_eq.beq_iff a.profile_version b.profile_version,
  nat_eq.beq_iff a.dimension b.dimension,
  string_eq.beq_iff a.metric b.metric,
)

instance abbrev pub descriptor_eq : Eq EmbeddingDescriptor
descriptor_eq = record { beq = descriptor_beq; beq_iff = descriptor_beq_iff }
