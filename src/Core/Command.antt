-- ===== src/Core/Command.antt =====
-- crates/eggwork-core/src/lib.rs: `CommandSpec` and `ExecutionSpec` with their validators.
pub mod Valid
use eggwork.Prelude.{
  ℕ, ◌==◌, Bool, ◌||◌, List, [], ◌∷◌, map, Option, ltb, any, length, ok, reject_if, for_each, ◌>>=◌,
  ◌>>◌,
}
use eggwork.Prelude.Bytes.{Bytes, is_empty, contains}
use eggwork.Prelude.Distinct.{repeats}
use eggwork.Core.Error.{Validation, empty, too_many, invalid_syntax, out_of_range}
use eggwork.Core.Limits.{
  max_arg_count, max_arg_bytes, max_env_count, max_outputs, max_timeout, max_metadata_count,
  max_metadata_key_bytes, max_metadata_value_bytes,
}
use eggwork.Core.RelativePath.{RelativePath}
use eggwork.Core.Environment.{
  EnvironmentEntry, StdinPolicy, OutputPolicy, DeclaredOutput, new_entry, validate_stdin,
  validate_output,
}
use eggwork.Core.Resources.{ResourceRequirements, validate_resources}

pub data IsolationRequirement : Type 0 where
  none best_effort required : IsolationRequirement

pub data NetworkRequirement : Type 0 where
  unrestricted disabled : NetworkRequirement
  allow_listed : List Bytes → NetworkRequirement

pub record CommandSpec : Type 0 where
  pub argv : List Bytes
  pub cwd : Option RelativePath
  pub environment : List EnvironmentEntry
  pub stdin : StdinPolicy
  pub timeout_millis : ℕ
  pub output : OutputPolicy
  pub declared_outputs : List DeclaredOutput
  pub resources : ResourceRequirements
  pub isolation : IsolationRequirement
  pub network : NetworkRequirement

abbrev pub names : List EnvironmentEntry → List Bytes
names = map (λ e. e.name)

-- `EnvironmentEntry::new(&e.name, &e.value)?;`
unfoldable pub check_entry : EnvironmentEntry → Validation
check_entry e = do _ ← new_entry e.name e.value; ok tt

-- An argument that is too long or holds a NUL byte.
abbrev pub is_bad_argument : Bytes → Bool
is_bad_argument a = ltb max_arg_bytes (length a) || contains 0 a

-- `CommandSpec::validate`
unfoldable pub validate_command : CommandSpec → Validation
validate_command c = do
  reject_if (length c.argv == 0) (empty "argv")
  reject_if (ltb max_arg_count (length c.argv)) (too_many "argv" max_arg_count)
  reject_if (any is_bad_argument c.argv) (out_of_range "argv entry")
  reject_if (ltb max_env_count (length c.environment)) (too_many "environment" max_env_count)
  for_each check_entry c.environment
  reject_if (repeats [] (names c.environment)) (invalid_syntax "duplicate environment name")
  reject_if (ltb max_outputs (length c.declared_outputs)) (too_many "declared outputs" max_outputs)
  reject_if (c.timeout_millis == 0 || ltb max_timeout c.timeout_millis) (out_of_range "timeout")
  validate_stdin c.stdin
  validate_output c.output
  validate_resources c.resources
  ok tt

pub record ExecutionSpec : Type 0 where
  pub schema_version : ℕ
  pub command : CommandSpec
  pub metadata : List (Bytes × Bytes)

-- A metadata entry that is refused.
unfoldable pub is_bad_metadata : Bytes × Bytes → Bool
is_bad_metadata (k, v) =
    is_empty k
    || ltb max_metadata_key_bytes (length k)
    || ltb max_metadata_value_bytes (length v)
    || contains 0 k
    || contains 0 v

-- `ExecutionSpec::validate`
unfoldable pub validate_spec : ExecutionSpec → Validation
validate_spec s = do
  validate_command s.command
  reject_if (s.schema_version == 0) (out_of_range "schema version")
  reject_if (ltb max_metadata_count (length s.metadata)) (too_many "metadata" max_metadata_count)
  reject_if (any is_bad_metadata s.metadata) (out_of_range "metadata entry")
  ok tt
