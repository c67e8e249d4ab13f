-- ===== src/Core/Errors.antt =====
-- core/errors.py: `ErrorCode` with its numbers, and `AstralError` by its code and message.
use astral_project.Base.{String, nat_eq, string_eq, list_eq, option_eq, pair_eq, int_eq}

pub data ErrorCode : Type 0 where
  cli_unknown_command cli_internal_unavailable : ErrorCode
  config_invalid_id config_invalid_path config_unknown_field config_parse : ErrorCode
  path_invalid_name : ErrorCode
  permission_wrong_owner permission_insecure_mode permission_invalid_type : ErrorCode
  file_create file_atomic_write : ErrorCode
  crypto_serialization crypto_signature crypto_context crypto_key_storage : ErrorCode
  grant_invalid grant_extension : ErrorCode
  state_open state_migration state_version state_corrupt : ErrorCode
  daemon_protocol daemon_auth daemon_unavailable daemon_startup : ErrorCode
  host_record host_probe host_enrollment : ErrorCode
  protocol_command protocol_frame protocol_version protocol_issuer : ErrorCode
  path_resolution path_unsupported path_autofs : ErrorCode
  hardening_unavailable hardening_apply hardening_policy : ErrorCode

-- The message is the source's literal, without the values that an f-string puts into it.
pub record AstralError : Type 0 where
  pub code : ErrorCode
  pub message : String

abbrev pub astral_error : ErrorCode → String → AstralError
astral_error code message = record { code = code; message = message }
