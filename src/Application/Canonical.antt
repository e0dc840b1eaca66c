-- ===== src/Application/Canonical.antt =====
-- src/omp/application/services.py: what the fingerprints of commands are computed from.
use umcp.Prelude.{ℕ, String, Bool, Option, none, some, List}
use umcp.Score.{ℤ}
use umcp.Domain.Enums.{
  type_value, state_value, source_type_value, consent_mode_value, consent_reason_value,
}
use umcp.Domain.Values.{Uuid, Datetime, Provenance, CaptureConsent}
use umcp.Application.Models.{
  WriteMemoryCommand, UpdateMemoryCommand, ForgetMemoryCommand, CaptureMemoryCommand,
  ConfirmCandidateCommand, PinMemoryCommand, DiscardCandidateCommand,
}

-- A JSON value. `uuid` and `time` are the texts that `str` and `isoformat` give.
mutual
  pub data Json : Type 0 where
    null : Json
    text : String → Json
    integer : ℕ → Json
    float : ℤ → Json
    boolean : Bool → Json
    uuid : Uuid → Json
    time : Datetime → Json
    texts : List String → Json
    object : Fields → Json

  pub data Fields : Type 0 where
    end : Fields
    field : String → Json → Fields → Fields

abbrev pub optional {ℓ} : {A : Type ℓ} → (A → Json) → Option A → Json
optional f none = null
optional f (some a) = f a

unfoldable pub canonical_provenance : Provenance → Json
canonical_provenance p = object (
    field "source_type" (text (source_type_value p.source_type)) (
      field "source_id" (optional text p.source_id) (
        field "source_model" (optional text p.source_model) (
          field "source_client" (optional text p.source_client) (
            field "source_connection_id" (optional text p.source_connection_id) (
              field "conversation_id" (optional text p.conversation_id) (
                field "message_id" (optional text p.message_id) (
                  field "captured_at" (time p.captured_at)
                    (field "evidence" (texts p.evidence) end)))))))))

unfoldable pub canonical_consent : CaptureConsent → Json
canonical_consent c = object (
    field "mode" (text (consent_mode_value c.mode)) (
      field "consent_id" (text c.consent_id) (
        field "reason_code" (text (consent_reason_value c.reason_code)) (
          field "policy_version" (text c.policy_version)
            (field "granted_at" (time c.granted_at) end)))))

unfoldable pub canonical_write_command : WriteMemoryCommand → Json
canonical_write_command c = object (
    field "content" (text c.content) (
      field "type" (text (type_value c.memory_type)) (
        field "importance" (float c.importance) (
          field "confidence" (float c.confidence) (
            field "space" (optional text c.space) (
              field "occurred_at" (optional time c.occurred_at)
                (field "provenance" (canonical_provenance c.provenance) end)))))))

unfoldable pub canonical_capture_command : CaptureMemoryCommand → Json
canonical_capture_command c = object (
    field "tenant_id" (text c.tenant_id) (
      field "connection_id" (text c.connection_id) (
        field "content" (text c.content) (
          field "type" (text (type_value c.memory_type)) (
            field "space" (optional text c.space) (
              field "importance" (float c.importance) (
                field "confidence" (float c.confidence) (
                  field "provenance" (canonical_provenance c.provenance)
                    (field "consent" (canonical_consent c.consent) end)))))))))

unfoldable pub canonical_confirm_command : ConfirmCandidateCommand → Json
canonical_confirm_command c = object (
    field "memory_id" (uuid c.memory_id) (
      field "expected_version" (integer c.expected_version) (
        field "content" (optional text c.content) (
          field "type" (optional (λ t. text (type_value t)) c.memory_type)
            (field "space" (optional text c.space) (field "reason" (text c.actor_reason) end))))))

unfoldable pub canonical_pin_command : PinMemoryCommand → Json
canonical_pin_command c = object (
    field "memory_id" (uuid c.memory_id) (
      field "expected_version" (integer c.expected_version)
        (field "pinned" (boolean c.pinned) end)))

unfoldable pub canonical_discard_command : DiscardCandidateCommand → Json
canonical_discard_command c = object (
    field "memory_id" (uuid c.memory_id) (
      field "expected_version" (integer c.expected_version)
        (field "reason" (text c.reason_code) end)))

unfoldable pub canonical_update_command : UpdateMemoryCommand → Json
canonical_update_command c = object (
    field "owner_id" (text c.owner_id) (
      field "memory_id" (uuid c.memory_id) (
        field "expected_version" (integer c.expected_version) (
          field "content" (optional text c.content) (
            field "memory_type" (optional (λ t. text (type_value t)) c.memory_type) (
              field "importance" (optional float c.importance) (
                field "confidence" (optional float c.confidence) (
                  field "state" (optional (λ s. text (state_value s)) c.state) (
                    field "occurred_at" (optional time c.occurred_at) (
                      field "space" (optional text c.space) (
                        field "provenance" (optional canonical_provenance c.provenance) (
                          field "supersedes_memory_id" (optional uuid c.supersedes_memory_id) (
                            field "contradicts_memory_id" (optional uuid c.contradicts_memory_id)
                              (field "change_reason" (text c.change_reason) end))))))))))))))

unfoldable pub canonical_forget_command : ForgetMemoryCommand → Json
canonical_forget_command c =
    object (field "owner_id" (text c.owner_id) (field "memory_id" (uuid c.memory_id) end))
