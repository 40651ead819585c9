-- ===== src/Protocol/Limits.antt =====
-- The limits of crates/nrm-protocol/src/runtime.rs.
use nvim_remote_mirror.Prelude.{ℕ, ◌*◌}

abbrev pub runtime_max_frame_len : ℕ
runtime_max_frame_len = 256 * 1024

abbrev pub runtime_max_data_chunk_len : ℕ
runtime_max_data_chunk_len = 64 * 1024

abbrev pub runtime_max_watch_events : ℕ
runtime_max_watch_events = 4096

abbrev pub runtime_max_argv : ℕ
runtime_max_argv = 1024

abbrev pub runtime_max_env_changes : ℕ
runtime_max_env_changes = 2048

abbrev pub runtime_max_path_bytes : ℕ
runtime_max_path_bytes = 16 * 1024

abbrev pub runtime_max_error_message_bytes : ℕ
runtime_max_error_message_bytes = 8 * 1024

abbrev pub runtime_max_package_version_bytes : ℕ
runtime_max_package_version_bytes = 128
