-- ===== src/Ipp/Enums.antt =====
-- The enumerations of `ipp::model`, each with the variants that the source names; `other` stands
-- for every further variant.
use ippper_rs.Prelude.{ℕ, ◌≡◌, ◌↔◌, Bool, true, false, arith, eqb}

pub data DelimiterTag : Type 0 where
  operation_attributes job_attributes printer_attributes unsupported_attributes : DelimiterTag
  other : ℕ → DelimiterTag

-- `==` of two tags.
abbrev pub same_tag : DelimiterTag → DelimiterTag → Bool
same_tag operation_attributes operation_attributes = true
same_tag job_attributes job_attributes = true
same_tag printer_attributes printer_attributes = true
same_tag unsupported_attributes unsupported_attributes = true
same_tag (other m) (other n) = eqb m n
same_tag _ _ = false

pub same_tag_iff : (s t : DelimiterTag) → (same_tag s t ≡ true) ↔ (s ≡ t)
same_tag_iff s t = ground arith

pub data StatusCode : Type 0 where
  successful_ok : StatusCode
  client_error_not_possible client_error_not_found : StatusCode
  client_error_attributes_or_values_not_supported : StatusCode
  client_error_document_format_not_supported : StatusCode
  client_error_compression_not_supported : StatusCode
  server_error_internal_error server_error_operation_not_supported : StatusCode
  server_error_version_not_supported : StatusCode
  other : ℕ → StatusCode

pub data JobState : Type 0 where
  pending pending_held processing processing_stopped canceled aborted completed : JobState

-- `==` of two job states.
abbrev pub same_state : JobState → JobState → Bool
same_state pending pending = true
same_state pending_held pending_held = true
same_state processing processing = true
same_state processing_stopped processing_stopped = true
same_state canceled canceled = true
same_state aborted aborted = true
same_state completed completed = true
same_state _ _ = false

pub same_state_iff : (s t : JobState) → (same_state s t ≡ true) ↔ (s ≡ t)
same_state_iff s t = ground arith

pub data Operation : Type 0 where
  print_job print_uri validate_job create_job send_document send_uri cancel_job : Operation
  get_job_attributes get_jobs get_printer_attributes hold_job release_job restart_job : Operation
  pause_printer resume_printer purge_jobs : Operation
  other : ℕ → Operation
