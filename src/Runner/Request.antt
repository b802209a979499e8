-- ===== src/Runner/Request.antt =====
-- crates/eggwork-runner/src/lib.rs: `RunnerRequest`, its translation from a specification, its
-- checks, and the environment of the child. Times are milliseconds; the platform is not Windows. The
-- two `StdinPolicy` types, of the core and of the runner, have the same variants and are one here.
pub mod Accepted
pub mod Variables
use eggwork.Prelude.{
  ◌>>=◌, ◌>>◌, ℕ, Bool, false, not, ◌==◌, ◌||◌, List, [], ◌∷◌, map, Option, none, some, any,
  is_some, length, ltb, Result, ok, err, reject_if, if◌then◌else◌,
}
use eggwork.Prelude.Bytes.{
  Bytes, bytes, bytes_eq, contains, is_empty, strip_prefix, to_ascii_uppercase,
}
use eggwork.Prelude.TreeMap.{TreeMap, insert}
use eggwork.Core.Error.{ValidationError, Validation}
use eggwork.Core.Limits.{
  max_arg_count, max_arg_bytes, max_env_count, max_env_name_bytes, max_env_value_bytes,
  max_stdin_bytes, max_capture_bytes, max_event_chunk_bytes, max_timeout,
}
use eggwork.Core.RelativePath.{RelativePath}
use eggwork.Core.Environment.{EnvironmentEntry, StdinPolicy, null, input, OverflowPolicy}
use eggwork.Core.Resources.{Requirement}
use eggwork.Core.Command.{CommandSpec, ExecutionSpec, IsolationRequirement, validate_spec}
use eggwork.Runner.Setup.{SandboxRequest, ResourceSetupRequest, RunnerError}

-- Both fields are validated ids and generations.
pub record ExecutionProvenance : Type 0 where
  pub execution_id : Option Bytes
  pub generation : Option ℕ

-- A file system path is the bytes of its `OsStr`.
pub record RunnerRequest : Type 0 where
  pub argv : List Bytes
  pub root : Bytes
  pub cwd : Option RelativePath
  pub environment : List (Bytes × Bytes)
  pub stdin : StdinPolicy
  pub timeout : ℕ
  pub capture_limit : ℕ
  pub event_chunk_bytes : ℕ
  pub overflow : OverflowPolicy
  pub provenance : ExecutionProvenance
  pub sandbox : SandboxRequest
  pub resources : ResourceSetupRequest

-- The `match isolation` of `from_spec`.
abbrev pub sandbox_of : IsolationRequirement → SandboxRequest
sandbox_of IsolationRequirement.none = SandboxRequest.none
sandbox_of IsolationRequirement.best_effort = SandboxRequest.best_effort (bytes "workspace_rw")
sandbox_of IsolationRequirement.required = SandboxRequest.required (bytes "workspace_rw")

-- `|e| (e.name, e.value)`
abbrev pub variable_of : EnvironmentEntry → Bytes × Bytes
variable_of e = (e.name, e.value)

-- The request of a validated specification.
abbrev pub request_of : CommandSpec → Bytes → ExecutionProvenance → RunnerRequest
request_of c at_root attribution = record {
  argv = c.argv;
  root = at_root;
  cwd = c.cwd;
  environment = map variable_of c.environment;
  stdin = c.stdin;
  timeout = c.timeout_millis;
  capture_limit = c.output.capture_limit_bytes;
  event_chunk_bytes = c.output.event_chunk_bytes;
  overflow = c.output.overflow;
  provenance = attribution;
  sandbox = sandbox_of c.isolation;
  resources = record {
    memory_bytes = c.resources.memory_bytes;
    cpu_millis = c.resources.cpu_millis;
    pids = c.resources.pids;
  };
}

-- `map_err(|e| RunnerError::InvalidRequest(e.to_string()))`
abbrev pub or_invalid_request :
    (ValidationError → Bytes) → Validation → Result RunnerError (Unit {0})
or_invalid_request to_string (ok u) = ok u
or_invalid_request to_string (err e) = err (RunnerError.invalid_request (to_string e))

-- `RunnerRequest::from_spec`; `to_string` is the derived `Display` of the error.
unfoldable pub from_spec :
    (ValidationError → Bytes)
    → ExecutionSpec
    → Bytes
    → ExecutionProvenance
    → Result RunnerError RunnerRequest
from_spec to_string spec at_root attribution = do
  or_invalid_request to_string (validate_spec spec)
  ok (request_of spec.command at_root attribution)

-- The closures of the two `any` of `validate`.
abbrev pub is_refused_argument : Bytes → Bool
is_refused_argument a = is_empty a || ltb max_arg_bytes (length a) || contains 0 a

abbrev pub is_bad_variable : Bytes × Bytes → Bool
is_bad_variable e =
    is_empty e.0
    || ltb max_env_name_bytes (length e.0)
    || ltb max_env_value_bytes (length e.1)
    || contains 0 e.0
    || contains b'=' e.0
    || contains 0 e.1

-- `StdinPolicy::validate`
abbrev pub is_long_input : StdinPolicy → Bool
is_long_input null = false
is_long_input (input v) = ltb max_stdin_bytes (length v)

-- The checks of `validate` on the fields.
unfoldable pub check_fields : RunnerRequest → Result RunnerError (Unit {0})
check_fields r = do
  reject_if
      (length r.argv == 0 || ltb max_arg_count (length r.argv) || any is_refused_argument r.argv)
      (RunnerError.invalid_request (bytes "argv is empty or contains an empty/NUL entry"))
  reject_if (ltb max_env_count (length r.environment) || any is_bad_variable r.environment)
      (RunnerError.invalid_request (bytes "environment violates bounds or syntax"))
  reject_if
      (ltb max_capture_bytes r.capture_limit
        || r.event_chunk_bytes == 0
        || ltb max_event_chunk_bytes r.event_chunk_bytes)
      (RunnerError.invalid_request (bytes "output limits are outside supported bounds"))
  reject_if (r.timeout == 0 || ltb max_timeout r.timeout)
      (RunnerError.invalid_request (bytes "timeout must be positive"))
  reject_if (is_long_input r.stdin) (RunnerError.invalid_request (bytes "stdin exceeds limit"))

-- What the code uses of the file system and of `std::path`.
pub record FileSystem : Type 0 where
  pub canonicalize : Bytes → Result Bytes Bytes
  pub is_dir : Bytes → Bool
  pub join : Bytes → Bytes → Bytes
  pub starts_with : Bytes → Bytes → Bool

-- `canonicalize().map_err(|e| error(e.to_string()))`
abbrev pub or_error : (Bytes → RunnerError) → Result Bytes Bytes → Result RunnerError Bytes
or_error error (ok at) = ok at
or_error error (err reason) = err (error reason)

module _ (fs : FileSystem) where
  -- The `if let Some(relative)`.
  unfoldable pub resolve_cwd : Bytes → Option RelativePath → Result RunnerError Bytes
  resolve_cwd base none = ok base
  resolve_cwd base (some relative) = do
    canonical ←
        or_error RunnerError.invalid_working_directory
          (fs.canonicalize (fs.join base relative.text))
    reject_if (not (fs.starts_with canonical base) || not (fs.is_dir canonical))
        (RunnerError.invalid_working_directory (bytes "cwd escapes root or is not a directory"))
    ok canonical

  -- The part of `validate` on the directories.
  unfoldable pub resolve : RunnerRequest → Result RunnerError Bytes
  unfolding resolve_cwd
  resolve r = do
    base ← or_error RunnerError.invalid_root (fs.canonicalize r.root)
    reject_if (not (fs.is_dir base))
        (RunnerError.invalid_root (bytes "execution root is not a directory"))
    resolve_cwd base r.cwd

  -- `RunnerRequest::validate`
  unfoldable pub validate : RunnerRequest → Result RunnerError Bytes
  unfolding check_fields resolve
  validate r = do check_fields r; resolve r

-- `upper == *denied || upper.starts_with(denied)`; `none` from `strip_prefix` is a text that does
-- not start so.
abbrev pub is_denied_by : Bytes → Bytes → Bool
is_denied_by upper denied = bytes_eq upper denied || is_some (strip_prefix denied upper)

abbrev pub denied_keys : List Bytes
denied_keys =
    bytes "LD_"
    ∷ bytes "DYLD_"
    ∷ bytes "PATH"
    ∷ bytes "IFS"
    ∷ bytes "SHELLOPTS"
    ∷ bytes "CDPATH"
    ∷ bytes "BASH_ENV"
    ∷ bytes "ENV"
    ∷ bytes "PYTHONPATH"
    ∷ bytes "PYTHONHOME"
    ∷ bytes "NODE_OPTIONS"
    ∷ bytes "RUBYOPT"
    ∷ bytes "PERL5OPT"
    ∷ bytes "GIT_ASKPASS"
    ∷ bytes "SSH_ASKPASS"
    ∷ bytes "GIT_CONFIG"
    ∷ bytes "GIT_CONFIG_"
    ∷ bytes "AWS_"
    ∷ bytes "AZURE_"
    ∷ bytes "GOOGLE_"
    ∷ bytes "SSH_AUTH_SOCK"
    ∷ []

unfoldable pub denied_environment_key : Bytes → Bool
denied_environment_key key = any (is_denied_by (to_ascii_uppercase key)) denied_keys

unfoldable pub baseline_child_environment : List (Bytes × Bytes)
baseline_child_environment =
    (bytes "CI", bytes "1")
    ∷ (bytes "NO_COLOR", bytes "1")
    ∷ (bytes "TERM", bytes "dumb")
    ∷ (bytes "GIT_TERMINAL_PROMPT", bytes "0")
    ∷ (bytes "PAGER", bytes "cat")
    ∷ (bytes "PATH", bytes "/usr/bin:/bin")
    ∷ (bytes "LANG", bytes "C.UTF-8")
    ∷ (bytes "LC_ALL", bytes "C.UTF-8")
    ∷ []

-- The two loops of `direct_command`; `command.env(key, value)` sets a variable of the command.
abbrev pub set_all : List (Bytes × Bytes) → TreeMap Bytes → TreeMap Bytes
set_all [] variables = variables
set_all (e ∷ es) variables = set_all es (insert e.0 e.1 variables)

abbrev pub set_allowed : List (Bytes × Bytes) → TreeMap Bytes → TreeMap Bytes
set_allowed [] variables = variables
set_allowed (e ∷ es) variables =
    let kept = set_allowed es (insert e.0 e.1 variables) in
    let skipped = set_allowed es variables in if denied_environment_key e.0 then skipped else kept

-- The two `if let` on the attribution; `to_string` prints a number.
abbrev pub set_execution_id : Option Bytes → TreeMap Bytes → TreeMap Bytes
set_execution_id none variables = variables
set_execution_id (some id) variables = insert (bytes "EGGWORK_EXECUTION_ID") id variables

abbrev pub set_generation : (ℕ → Bytes) → Option ℕ → TreeMap Bytes → TreeMap Bytes
set_generation to_string none variables = variables
set_generation to_string (some g) variables =
    insert (bytes "EGGWORK_EXECUTION_GENERATION") (to_string g) variables

-- The environment of the command that `direct_command` builds.
unfoldable pub direct_environment : (ℕ → Bytes) → RunnerRequest → TreeMap Bytes
direct_environment to_string r = set_generation to_string r.provenance.generation (
    set_execution_id r.provenance.execution_id
      (set_allowed r.environment (set_all baseline_child_environment [])))
