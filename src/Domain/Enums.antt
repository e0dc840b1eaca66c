-- ===== src/Domain/Enums.antt =====
-- src/omp/domain/types.py: the string enumerations. `value` is the member's text; members are
-- compared by their position, as distinct members have distinct texts.
use umcp.Prelude.{ℕ, String, Eq, nat_eq, string_eq, ◌==◌, ◌≡◌, ◌↔◌, Bool, true, arith}

pub data MemoryType : Type 0 where
  fact preference decision insight hypothesis lesson goal project_context : MemoryType
  concept relationship open_question mental_note : MemoryType

unfoldable pub type_value : MemoryType → String
type_value fact = "fact"
type_value preference = "preference"
type_value decision = "decision"
type_value insight = "insight"
type_value hypothesis = "hypothesis"
type_value lesson = "lesson"
type_value goal = "goal"
type_value project_context = "project_context"
type_value concept = "concept"
type_value relationship = "relationship"
type_value open_question = "open_question"
type_value mental_note = "mental_note"

abbrev pub type_index : MemoryType → ℕ
type_index fact = 0
type_index preference = 1
type_index decision = 2
type_index insight = 3
type_index hypothesis = 4
type_index lesson = 5
type_index goal = 6
type_index project_context = 7
type_index concept = 8
type_index relationship = 9
type_index open_question = 10
type_index mental_note = 11

abbrev pub type_beq : MemoryType → MemoryType → Bool
type_beq a b = type_index a == type_index b

pub type_beq_iff : (a b : MemoryType) → (type_beq a b ≡ true) ↔ (a ≡ b)
type_beq_iff a b = ground arith

instance abbrev pub type_eq : Eq MemoryType
type_eq = record { beq = type_beq; beq_iff = type_beq_iff }

pub data MemoryState : Type 0 where
  candidate confirmed pinned stale active superseded contradicted archived : MemoryState

unfoldable pub state_value : MemoryState → String
state_value candidate = "candidate"
state_value confirmed = "confirmed"
state_value pinned = "pinned"
state_value stale = "stale"
state_value active = "active"
state_value superseded = "superseded"
state_value contradicted = "contradicted"
state_value archived = "archived"

abbrev pub state_index : MemoryState → ℕ
state_index candidate = 0
state_index confirmed = 1
state_index pinned = 2
state_index stale = 3
state_index active = 4
state_index superseded = 5
state_index contradicted = 6
state_index archived = 7

abbrev pub state_beq : MemoryState → MemoryState → Bool
state_beq a b = state_index a == state_index b

pub state_beq_iff : (a b : MemoryState) → (state_beq a b ≡ true) ↔ (a ≡ b)
state_beq_iff a b = ground arith

instance abbrev pub state_eq : Eq MemoryState
state_eq = record { beq = state_beq; beq_iff = state_beq_iff }

pub data RelationType : Type 0 where
  supports contradicts derived_from related_to supersedes applies_to : RelationType

unfoldable pub relation_type_value : RelationType → String
relation_type_value supports = "supports"
relation_type_value contradicts = "contradicts"
relation_type_value derived_from = "derived_from"
relation_type_value related_to = "related_to"
relation_type_value supersedes = "supersedes"
relation_type_value applies_to = "applies_to"

abbrev pub relation_type_index : RelationType → ℕ
relation_type_index supports = 0
relation_type_index contradicts = 1
relation_type_index derived_from = 2
relation_type_index related_to = 3
relation_type_index supersedes = 4
relation_type_index applies_to = 5

abbrev pub relation_type_beq : RelationType → RelationType → Bool
relation_type_beq a b = relation_type_index a == relation_type_index b

pub relation_type_beq_iff : (a b : RelationType) → (relation_type_beq a b ≡ true) ↔ (a ≡ b)
relation_type_beq_iff a b = ground arith

instance abbrev pub relation_type_eq : Eq RelationType
relation_type_eq = record { beq = relation_type_beq; beq_iff = relation_type_beq_iff }

pub data SourceType : Type 0 where
  user agent conversation imported system unknown : SourceType

unfoldable pub source_type_value : SourceType → String
source_type_value user = "user"
source_type_value agent = "agent"
source_type_value conversation = "conversation"
source_type_value imported = "import"
source_type_value system = "system"
source_type_value unknown = "unknown"

abbrev pub source_type_index : SourceType → ℕ
source_type_index user = 0
source_type_index agent = 1
source_type_index conversation = 2
source_type_index imported = 3
source_type_index system = 4
source_type_index unknown = 5

abbrev pub source_type_beq : SourceType → SourceType → Bool
source_type_beq a b = source_type_index a == source_type_index b

pub source_type_beq_iff : (a b : SourceType) → (source_type_beq a b ≡ true) ↔ (a ≡ b)
source_type_beq_iff a b = ground arith

instance abbrev pub source_type_eq : Eq SourceType
source_type_eq = record { beq = source_type_beq; beq_iff = source_type_beq_iff }

pub data ConsentMode : Type 0 where
  manual assisted automatic legacy_unverified : ConsentMode

unfoldable pub consent_mode_value : ConsentMode → String
consent_mode_value manual = "manual"
consent_mode_value assisted = "assisted"
consent_mode_value automatic = "automatic"
consent_mode_value legacy_unverified = "legacy_unverified"

abbrev pub consent_mode_index : ConsentMode → ℕ
consent_mode_index manual = 0
consent_mode_index assisted = 1
consent_mode_index automatic = 2
consent_mode_index legacy_unverified = 3

abbrev pub consent_mode_beq : ConsentMode → ConsentMode → Bool
consent_mode_beq a b = consent_mode_index a == consent_mode_index b

pub consent_mode_beq_iff : (a b : ConsentMode) → (consent_mode_beq a b ≡ true) ↔ (a ≡ b)
consent_mode_beq_iff a b = ground arith

instance abbrev pub consent_mode_eq : Eq ConsentMode
consent_mode_eq = record { beq = consent_mode_beq; beq_iff = consent_mode_beq_iff }

pub data ConsentReason : Type 0 where
  user_requested_memory user_confirmed_inbox connection_policy_automatic import_authorized :
      ConsentReason

unfoldable pub consent_reason_value : ConsentReason → String
consent_reason_value user_requested_memory = "user_requested_memory"
consent_reason_value user_confirmed_inbox = "user_confirmed_inbox"
consent_reason_value connection_policy_automatic = "connection_policy_automatic"
consent_reason_value import_authorized = "import_authorized"

abbrev pub consent_reason_index : ConsentReason → ℕ
consent_reason_index user_requested_memory = 0
consent_reason_index user_confirmed_inbox = 1
consent_reason_index connection_policy_automatic = 2
consent_reason_index import_authorized = 3

abbrev pub consent_reason_beq : ConsentReason → ConsentReason → Bool
consent_reason_beq a b = consent_reason_index a == consent_reason_index b

pub consent_reason_beq_iff : (a b : ConsentReason) → (consent_reason_beq a b ≡ true) ↔ (a ≡ b)
consent_reason_beq_iff a b = ground arith

instance abbrev pub consent_reason_eq : Eq ConsentReason
consent_reason_eq = record { beq = consent_reason_beq; beq_iff = consent_reason_beq_iff }
