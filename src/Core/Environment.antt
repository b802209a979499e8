-- ===== src/Core/Environment.antt =====
-- crates/eggwork-core/src/lib.rs: `EnvironmentEntry`, `StdinPolicy`, `OutputPolicy` and
-- `DeclaredOutput`, the parts of a command specification.
use eggwork.Prelude.{
  ℕ, ◌==◌, Bool, false, not, ◌||◌, [], ◌∷◌, ltb, all, length, ok, reject_if, ◌>>◌,
}
use eggwork.Prelude.Bytes.{Bytes, is_empty, is_ascii_alphanumeric, is_ascii_digit, contains}
use eggwork.Core.Error.{Checked, Validation, invalid_syntax, too_long, forbidden, out_of_range}
use eggwork.Core.Limits.{
  max_env_name_bytes, max_env_value_bytes, max_stdin_bytes, max_capture_bytes,
  max_event_chunk_bytes,
}
use eggwork.Core.RelativePath.{RelativePath}

pub record EnvironmentEntry : Type 0 where
  pub name : Bytes
  pub value : Bytes

abbrev pub is_name_byte : ℕ → Bool
is_name_byte b = is_ascii_alphanumeric b || b == b'_'

-- `name.as_bytes().first().is_some_and(u8::is_ascii_digit)`
abbrev pub first_is_digit : Bytes → Bool
first_is_digit [] = false
first_is_digit (b ∷ bs) = is_ascii_digit b

-- `EnvironmentEntry::new`
unfoldable pub new_entry : Bytes → Bytes → Checked EnvironmentEntry
unfolding is_empty
new_entry name value = do
  reject_if
      (is_empty name
        || ltb max_env_name_bytes (length name)
        || not (all is_name_byte name)
        || first_is_digit name
        || contains 0 name)
      (invalid_syntax "environment name")
  reject_if (ltb max_env_value_bytes (length value))
      (too_long "environment value" max_env_value_bytes)
  reject_if (contains 0 value) (forbidden "environment value NUL")
  ok (record { name = name; value = value })

pub data StdinPolicy : Type 0 where
  null : StdinPolicy
  input : Bytes → StdinPolicy

-- `StdinPolicy::validate`
unfoldable pub validate_stdin : StdinPolicy → Validation
validate_stdin null = ok tt
validate_stdin (input v) =
    reject_if (ltb max_stdin_bytes (length v)) (too_long "stdin" max_stdin_bytes)

pub data OverflowPolicy : Type 0 where
  truncate terminate : OverflowPolicy

pub record OutputPolicy : Type 0 where
  pub capture_limit_bytes : ℕ
  pub event_chunk_bytes : ℕ
  pub overflow : OverflowPolicy

-- `OutputPolicy::default`
abbrev pub default_output : OutputPolicy
default_output = record {
  capture_limit_bytes = 1048576;
  event_chunk_bytes = 16384;
  overflow = truncate;
}

-- `OutputPolicy::validate`
unfoldable pub validate_output : OutputPolicy → Validation
validate_output o =
    reject_if
      (ltb max_capture_bytes o.capture_limit_bytes
        || o.event_chunk_bytes == 0
        || ltb max_event_chunk_bytes o.event_chunk_bytes)
      (out_of_range "output policy")

pub record DeclaredOutput : Type 0 where
  pub path : RelativePath
  pub required : Bool
