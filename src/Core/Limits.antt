-- ===== src/Core/Limits.antt =====
-- crates/eggwork-core/src/lib.rs: the limits that the validators share. Times are milliseconds.
use eggwork.Prelude.{ℕ, ◌*◌}

abbrev pub max_id_bytes : ℕ
max_id_bytes = 128

abbrev pub max_arg_count : ℕ
max_arg_count = 256

abbrev pub max_arg_bytes : ℕ
max_arg_bytes = 32 * 1024

abbrev pub max_env_count : ℕ
max_env_count = 256

abbrev pub max_env_name_bytes : ℕ
max_env_name_bytes = 256

abbrev pub max_env_value_bytes : ℕ
max_env_value_bytes = 16 * 1024

abbrev pub max_path_bytes : ℕ
max_path_bytes = 4096

abbrev pub max_metadata_count : ℕ
max_metadata_count = 64

abbrev pub max_metadata_key_bytes : ℕ
max_metadata_key_bytes = 128

abbrev pub max_metadata_value_bytes : ℕ
max_metadata_value_bytes = 2048

abbrev pub max_outputs : ℕ
max_outputs = 128

abbrev pub max_stdin_bytes : ℕ
max_stdin_bytes = 4 * 1024 * 1024

abbrev pub max_event_chunk_bytes : ℕ
max_event_chunk_bytes = 64 * 1024

abbrev pub max_event_bytes : ℕ
max_event_bytes = 512 * 1024

abbrev pub max_capture_bytes : ℕ
max_capture_bytes = 16 * 1024 * 1024

-- `MAX_TIMEOUT.as_millis()`
abbrev pub max_timeout : ℕ
max_timeout = 7 * 24 * 60 * 60 * 1000

abbrev pub max_capabilities : ℕ
max_capabilities = 256

abbrev pub max_workspace_entries : ℕ
max_workspace_entries = 4096

abbrev pub max_workspace_path_bytes : ℕ
max_workspace_path_bytes = 1024 * 1024

abbrev pub max_workspace_depth : ℕ
max_workspace_depth = 128

abbrev pub max_workspace_logical_bytes : ℕ
max_workspace_logical_bytes = 2 * 1024 * 1024 * 1024
