-- ===== src/Protocol/Validate/Fields.antt =====
-- The checks on single fields in crates/nrm-protocol/src/runtime.rs, from
-- `validate_package_version` to `reject_control`.
use nvim_remote_mirror.Prelude.{
  ℕ, String, Bool, ◌||◌, xor, Option, none, some, List, Text, length, len, is_empty, is_some, any,
  all, contains, starts_with, split, list_eq, codes, is_control, checked_add, Result, ok, err,
  fail_if, ◌>>◌, ltb, ◌==◌,
}
use nvim_remote_mirror.Protocol.Limits.{
  runtime_max_data_chunk_len, runtime_max_path_bytes, runtime_max_package_version_bytes,
}
use nvim_remote_mirror.Protocol.Types.{TerminalSize, PtySessionCredentials}
use nvim_remote_mirror.Protocol.Errors.{
  RuntimeValidationError, empty_data_chunk, data_chunk_too_large, data_offset_overflow,
  empty_package_version, package_version_too_large, contains_nul, contains_control,
  empty_environment_name, invalid_environment_name, empty_workspace_path, workspace_path_too_large,
  invalid_workspace_path, invalid_terminal_size, incomplete_terminal_pixel_size,
  zero_session_credential,
}

abbrev Checked : Type 0
Checked = Result RuntimeValidationError (Unit {0})

unfoldable pub reject_nul : String → Text → Checked
reject_nul label value = fail_if (contains 0 value) (contains_nul label)

unfoldable pub reject_control : String → Text → Checked
reject_control label value = fail_if (any is_control value) (contains_control label)

unfoldable pub validate_package_version : Text → Checked
validate_package_version v = do
  fail_if (is_empty v) empty_package_version
  fail_if (ltb runtime_max_package_version_bytes (len v)) (package_version_too_large (len v))
  reject_nul "runtime package version" v

unfoldable pub validate_env_name : Text → Checked
unfolding reject_nul
validate_env_name v = do
  fail_if (is_empty v) empty_environment_name
  reject_nul "environment name" v
  fail_if (contains b'=' v) invalid_environment_name

-- `part.is_empty() || matches!(part, "." | "..")`
unfoldable pub is_bad_part : Text → Bool
is_bad_part part = is_empty part || (list_eq part (codes ".") || list_eq part (codes ".."))

unfoldable pub validate_workspace_path : Text → Checked
unfolding is_bad_part split
validate_workspace_path path = do
  fail_if (is_empty path) empty_workspace_path
  fail_if (ltb runtime_max_path_bytes (len path)) (workspace_path_too_large (len path))
  fail_if
      (contains 0 path
        || (starts_with b'/' path
            || (starts_with 0x5c path
                || (contains 0x5c path || any is_bad_part (split b'/' path)))))
      invalid_workspace_path

unfoldable pub validate_terminal_size : TerminalSize → Checked
validate_terminal_size size = do
  fail_if (size.columns == 0 || size.rows == 0) invalid_terminal_size
  fail_if (xor (is_some size.pixel_width) (is_some size.pixel_height))
      incomplete_terminal_pixel_size

unfoldable pub validate_nonzero_id : String → List ℕ → Checked
validate_nonzero_id label value =
    fail_if (all (λ byte. byte == 0) value) (zero_session_credential label)

unfoldable pub validate_credentials : PtySessionCredentials → Checked
unfolding validate_nonzero_id
validate_credentials c = do
  validate_nonzero_id "session ID" c.session_id
  validate_nonzero_id "attachment token" c.attachment_token

unfoldable pub validate_optional_data_chunk : List ℕ → Checked
validate_optional_data_chunk bytes =
    fail_if (ltb runtime_max_data_chunk_len (length bytes)) (data_chunk_too_large (length bytes))

-- `checked_add(..).ok_or(..)?`, the sum dropped
offset_fits : Option ℕ → Checked
offset_fits none = err data_offset_overflow
offset_fits (some _) = ok tt

unfoldable pub validate_data_chunk : ℕ → List ℕ → Checked
unfolding validate_optional_data_chunk offset_fits
validate_data_chunk offset bytes = do
  fail_if (is_empty bytes) empty_data_chunk
  validate_optional_data_chunk bytes
  offset_fits (checked_add offset (length bytes))
