-- ===== src/Tests/Examples.antt =====
-- One service, one user's commands, and the stores that they lead to.
use mathlib.Core.Path.{subst}
use umcp.Application.Transfer.{is_digest}
use umcp.Prelude.{
  String, Bool-cases, inl, inr, ◌≢◌, string_eq, pair_eq, ◌==◌, ap, ℕ, true, false, none, some, [],
  ◌∷◌, ◌≡◌, refl,
}
use umcp.Score.{pos, one, clamp, round6, round_hundredths, weigh}
use umcp.Sorting.{sort, insert_sorted}
use umcp.Text.{is_blank, is_space, len, all_chars, strip, lstrip, rstrip, split, normalize}
use umcp.Domain.Errors
use umcp.Domain.Errors.{ok}
use umcp.Domain.Enums
use umcp.Domain.Values.{
  Datetime, aware, Provenance, EmbeddingDescriptor, make_descriptor, ensure_aware,
  validate_owner_id, validate_space, validate_idempotency_key, validate_unit_interval,
}
use umcp.Domain.Memory
use umcp.Domain.Memory.{Memory, MemoryVersion, make_memory, snapshot}
use umcp.Dict.{lookup, insert, find}
use umcp.Application.Models.{
  WriteMemoryCommand, ForgetMemoryCommand, SearchMemoryCommand, RecallMemoryCommand, SearchFilters,
  SpacePolicy, ListInboxCommand, SearchMemoryResult, MemorySearchCandidate, allows,
}
use umcp.Application.Store.{InMemoryStore, empty_store}
use umcp.Application.Exec
use umcp.Application.Exec.{lift, reads, pure, some_or, refuse_if, transaction}
use umcp.Application.Repository
use umcp.Application.Repository.{find_by_idempotency_key, create_with_key, create_keyed, add_memory}
use umcp.Application.Services.{Env, now, embed_checked}
use umcp.Application.Services.Writing.{write, store_new}
use umcp.Application.Services.{validate_scope, validate_scope_value}
use umcp.Application.Services.Finding.{
  recall, recall_candidates, rank_unseen, item_of, requested_spaces, all_allowed,
}
use umcp.Application.Services.Request
use umcp.Application.Services.Request.{Reach, start, step}
use umcp.Application.Services.Request.Reachable.{Reach-Inv}
use umcp.Application.Idempotency.Settling.{Inv}
use umcp.Application.WellFormed.{WellFormed, empty-WellFormed}
use umcp.Application.WellFormed.Reading.{update-Holds}
use umcp.Application.WellFormed.Adding.{IsFresh, unkeyed-WellFormed}
use umcp.Application.Services.Steps.{Evolves-Succeeds}
use umcp.Domain.Memory.Construction.{evolve-Evolves}

abbrev pub noon : Datetime
noon = aware 1000 (pos 0)

abbrev pub local_profile : EmbeddingDescriptor
local_profile = record {
  profile_id = "local";
  profile_version = "1";
  dimension = 2;
  metric = "cosine";
}

pub local_profile-valid : make_descriptor local_profile ≡ ok local_profile
unfolding make_descriptor Errors.◌>>=◌ is_blank strip lstrip rstrip
local_profile-valid = refl

abbrev pub sample_digest : String
sample_digest = "000000000000000000000000000000000000000000000000000000000000cafe"

-- every text is near every other
abbrev pub service_at : ℕ → Env
service_at id = record {
  profile = local_profile;
  profile_valid = local_profile-valid;
  embed = λ text query. some (pos 0 ∷ pos 1 ∷ []);
  clock = λ n. noon;
  new_id = id;
  digest = λ json. sample_digest;
  similarity = λ a b. one;
}

abbrev pub said : Provenance
said = record {
  source_type = Enums.user;
  captured_at = noon;
  source_id = none;
  source_model = none;
  evidence = [];
  source_client = some "cli";
  source_connection_id = none;
  conversation_id = none;
  message_id = none;
}

abbrev pub remember : WriteMemoryCommand
remember = record {
  owner_id = "ada";
  content = "tea  at four";
  memory_type = Enums.fact;
  provenance = said;
  importance = pos 500000;
  confidence = one;
  space = some "home";
  occurred_at = none;
  idempotency_key = some "k1";
  tenant_id = some "t";
}

abbrev pub tea : Memory
tea = record {
  id = 7;
  owner_id = "ada";
  content = "tea at four";
  memory_type = Enums.fact;
  importance = pos 500000;
  confidence = one;
  state = Enums.active;
  version = 1;
  created_at = aware 1000 (pos 0);
  updated_at = aware 1000 (pos 0);
  occurred_at = none;
  space = some "home";
  provenance = said;
  embedding = some local_profile;
  idempotency_key = some "k1";
  tenant_id = some "t";
  capture_consent = none;
}

-- the store after `remember`
abbrev pub tea_store : InMemoryStore
tea_store = record empty_store {
  memories = (7, tea) ∷ [];
  vectors = (7, pos 0 ∷ pos 1 ∷ []) ∷ [];
  fingerprints = (("ada", "k1"), sample_digest) ∷ [];
  history_by_memory = (7, snapshot tea "created" ∷ []) ∷ [];
}

pub remembered :
    write (service_at 7) remember empty_store
    ≡ (ok (record { memory = tea; created = true }), tea_store)
unfolding Exec.◌>>=◌ Errors.◌>>=◌ write lift validate_owner_id is_blank is_space len strip lstrip
    rstrip split normalize now ensure_aware transaction reads find_by_idempotency_key
    create_with_key create_keyed add_memory pure some_or refuse_if store_new embed_checked
    make_descriptor Memory.create make_memory validate_space validate_idempotency_key
    validate_unit_interval Repository.create lookup insert find snapshot
remembered = refl

pub handled :
    Request.handle (service_at 7) (Request.write remember) empty_store
    ≡ (ok (Request.stored (record { memory = tea; created = true })), tea_store)
unfolding Request.handle Exec.◌>>=◌ pure
handled = rw remembered refl

pub IsFresh-7 : IsFresh 7 empty_store
unfolding lookup
IsFresh-7 = record { unused = refl; unburied = λ owner tenant. refl }

pub IsFresh-8 : IsFresh 8 tea_store
unfolding lookup
IsFresh-8 = record { unused = refl; unburied = λ owner tenant. refl }

pub tea_store-Reach : Reach tea_store
tea_store-Reach =
    subst Reach (ap (λ x. x.1) handled)
      (step start (service_at 7) (Request.write remember) IsFresh-7)

pub tea_store-Inv : Inv tea_store
tea_store-Inv = Reach-Inv tea_store tea_store-Reach

abbrev pub any_fact : SearchFilters
any_fact = record {
  states = Enums.active ∷ [];
  memory_types = none;
  space = none;
  min_importance = none;
  min_confidence = none;
}

abbrev pub look : SearchMemoryCommand
look = record {
  owner_id = "ada";
  query = "tea";
  filters = any_fact;
  limit = 10;
  candidate_limit = 50;
  threshold = pos 300000;
}

abbrev pub at_home : SpacePolicy
at_home = record {
  default_recall = "same_space";
  allowed_spaces = [];
  allow_global = false;
  allow_mental_notes_cross_space = false;
}

abbrev pub ask : RecallMemoryCommand
ask = record {
  tenant_id = "t";
  owner_id = "ada";
  connection_id = "c";
  query = "tea";
  context_space = some "home";
  include_spaces = [];
  memory_types = none;
  states = Enums.active ∷ [];
  allow_mental_notes = false;
  limit = 10;
  candidate_limit = 50;
  threshold = pos 300000;
  space_policy = at_home;
  connection_revoked = false;
  scopes = "memory:read" ∷ [];
}

abbrev pub list_first : ListInboxCommand
list_first = record {
  tenant_id = "t";
  owner_id = "ada";
  connection_id = "c";
  space = none;
  limit = 5;
  cursor = none;
  connection_revoked = false;
  scopes = "memory:read" ∷ [];
}

abbrev pub forget_tea : ForgetMemoryCommand
forget_tea = record {
  owner_id = "ada";
  memory_id = 7;
  idempotency_key = some "k2";
  reason_code = "user_requested";
  tenant_id = some "t";
}

-- an answer with the one memory
abbrev pub tea_page : SearchMemoryResult
tea_page = record {
  items =
      record {
        memory = tea;
        score = pos 925000;
        similarity = one;
        profile_id = "local";
        profile_version = "1";
      }
      ∷ [];
  profile_id = "local";
  profile_version = "1";
}

pub recalled : recall (service_at 8) ask tea_store ≡ (ok tea_page, tea_store)
unfolding Exec.◌>>=◌ recall recall_candidates rank_unseen item_of requested_spaces all_allowed
    allows validate_scope validate_scope_value validate_owner_id lift is_blank is_space len strip
    lstrip rstrip split Errors.◌>>=◌ refuse_if some_or embed_checked pure reads transaction
    Repository.search_candidates Repository.collect Repository.matches lookup sort insert_sorted
    clamp round6 round_hundredths weigh
recalled = refl

abbrev pub tea_at_five : Memory
tea_at_five = record tea { content = "tea at five"; version = 2 }

abbrev pub moved : MemoryVersion
moved = record {
  memory_id = 7;
  version = 2;
  content = "tea at five";
  memory_type = Enums.fact;
  state = Enums.active;
  importance = pos 500000;
  confidence = one;
  space = some "home";
  occurred_at = none;
  provenance = said;
  changed_at = aware 1000 (pos 0);
  change_reason = "moved";
  capture_consent = none;
}

-- the store after the update
abbrev pub five_store : InMemoryStore
five_store = record tea_store {
  memories = (7, tea_at_five) ∷ [];
  vectors = (7, pos 1 ∷ pos 0 ∷ []) ∷ [];
  history_by_memory = (7, snapshot tea "created" ∷ moved ∷ []) ∷ [];
}

pub updated :
    Repository.update tea_at_five 1 moved (pos 1 ∷ pos 0 ∷ []) tea_store
    ≡ (ok tea_at_five, five_store)
unfolding Repository.update Repository.update_known lookup insert
updated = refl

pub tea-seen : Repository.get "ada" (some "t") 7 tea_store ≡ some tea
unfolding Repository.get lookup
tea-seen = refl

abbrev pub to_five : Memory.Changes
to_five = record Memory.no_changes { content = some "tea  at five" }

pub tea-evolved : Memory.evolve tea noon to_five ≡ ok tea_at_five
unfolding Errors.◌>>=◌ Memory.evolve Memory.assert_transition make_memory is_blank is_space len
    strip lstrip rstrip split normalize validate_owner_id validate_space validate_idempotency_key
    validate_unit_interval ensure_aware
tea-evolved = refl

pub tea-made : make_memory (record tea { content = " tea at  four" }) ≡ ok tea
unfolding Errors.◌>>=◌ make_memory is_blank is_space len strip lstrip rstrip split normalize
    validate_owner_id validate_space validate_idempotency_key validate_unit_interval ensure_aware
tea-made = refl

pub noon-aware : ensure_aware noon ≡ ok noon
unfolding ensure_aware
noon-aware = refl

some_injective : {a b : String} → some a ≡ some b → a ≡ b
some_injective h = cc

none≢some : {a : String} → none ≢ some a
none≢some h = cc

sample_digest-valid : is_digest sample_digest ≡ true
unfolding is_digest len all_chars
sample_digest-valid = refl

pub tea_store-digests :
    (key fp : String) → lookup ("ada", key) tea_store.fingerprints ≡ some fp → is_digest fp ≡ true
unfolding lookup
tea_store-digests key fp h =
    elim (Bool-cases (◌==◌ {T = String × String} ("ada", "k1") ("ada", key))) [
      | inl found ↦
          subst (λ t. is_digest t ≡ true) (some_injective (rw found at h)) sample_digest-valid
      | inr missing ↦ absurd (none≢some (rw missing at h))
    ]

pub tea-owned : Repository.get "ada" none 7 tea_store ≡ some tea
unfolding Repository.get lookup
tea-owned = refl

pub tea-valid : make_memory tea ≡ ok tea
unfolding Errors.◌>>=◌ make_memory is_blank is_space len strip lstrip rstrip split normalize
    validate_owner_id validate_space validate_idempotency_key validate_unit_interval ensure_aware
tea-valid = refl

pub five_store-well : WellFormed five_store
unfolding snapshot
five_store-well =
    let (at, next) =
      Evolves-Succeeds tea_store tea_store-Inv.well "ada" (some "t") 7 tea tea_at_five to_five
        tea-seen (evolve-Evolves tea tea_at_five noon to_five tea-evolved) in
    let kept =
      (update-Holds tea_store tea_store-Inv.well tea tea_at_five at next moved (pos 1 ∷ pos 0 ∷ [])
          refl refl 1).returned
        tea_at_five (ap (λ x. x.0) updated) in
    subst WellFormed (ap (λ x. x.1) updated) kept.0.well

pub five-seen : Repository.get "ada" (some "t") 7 five_store ≡ some tea_at_five
unfolding Repository.get lookup
five-seen = refl

-- the memory, found with a similarity out of range
abbrev pub far_tea : MemorySearchCandidate
far_tea = record { memory = tea; similarity = pos 2000000; profile = local_profile }

abbrev unsure : Memory
unsure = record tea { state = Enums.candidate; idempotency_key = none }

-- a store with one candidate
abbrev pub inbox_store : InMemoryStore
inbox_store = record empty_store {
  memories = (7, unsure) ∷ [];
  vectors = (7, pos 0 ∷ pos 1 ∷ []) ∷ [];
  history_by_memory = (7, snapshot unsure "created" ∷ []) ∷ [];
}

unsure-valid : make_memory unsure ≡ ok unsure
unfolding Errors.◌>>=◌ make_memory is_blank is_space len strip lstrip rstrip split normalize
    validate_owner_id validate_space validate_idempotency_key validate_unit_interval ensure_aware
unsure-valid = refl

pub inbox_store-WellFormed : WellFormed inbox_store
unfolding insert
inbox_store-WellFormed =
    unkeyed-WellFormed empty_store empty-WellFormed unsure IsFresh-7 unsure-valid refl
      (pos 0 ∷ pos 1 ∷ []) refl
