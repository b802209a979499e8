-- ===== src/Runner/Report.antt =====
-- crates/eggwork-runner/src/lib.rs: `RunnerResult::execution_result` and `resource_result`. An `i32`
-- exit code is kept as its bit pattern.
pub mod Consistent
use eggwork.Prelude.{
  ℕ, Bool, true, false, not, ◌==◌, List, [], ◌∷◌, Option, none, some, any, if◌then◌else◌,
}
use eggwork.Prelude.Bytes.{Bytes, bytes}
use eggwork.Core.Resources.{ResourceDimension, memory, cpu, pids}
use eggwork.Core.Execution.{
  ExecutionState, ExecutionFailure, ExecutionResult, SandboxResult, DimensionResult, ResourceResult,
}
use eggwork.Runner.Capture.{BoundedCapture}
use eggwork.Runner.Setup.{
  SandboxOutcome, ResourceSetupRequest, ResourceSetupOutcome, SetupOutcome, is_not_requested,
}

pub data TerminationReason : Type 0 where
  exited timed_out cancelled output_limit : TerminationReason

pub record CleanupDiagnostics : Type 0 where
  pub process_group_signal_error : Option Bytes
  pub wait_error : Option Bytes
  pub stdin_error : Option Bytes

-- The attribution to an execution is not here: `execution_result` does not read it.
pub record RunnerResult : Type 0 where
  pub termination : TerminationReason
  pub exit_code : Option ℕ
  pub stdout : BoundedCapture
  pub stderr : BoundedCapture
  pub cleanup : CleanupDiagnostics
  pub setup : SetupOutcome
  pub resource_request : ResourceSetupRequest
  pub resource_limits_exceeded : List ResourceDimension
  pub stream_chunks_dropped : ℕ

-- `slice::is_empty`
abbrev pub exceeds_none : List ResourceDimension → Bool
exceeds_none [] = true
exceeds_none (d ∷ ds) = false

-- `self.exit_code == Some(0)`
abbrev pub is_success_code : Option ℕ → Bool
is_success_code none = false
is_success_code (some code) = code == 0

abbrev pub state_of_termination : TerminationReason → Option ℕ → ExecutionState
state_of_termination exited code =
    if is_success_code code then ExecutionState.succeeded else ExecutionState.failed
state_of_termination timed_out code = ExecutionState.timed_out
state_of_termination cancelled code = ExecutionState.cancelled
state_of_termination output_limit code = ExecutionState.failed

abbrev pub failure_of_termination : TerminationReason → Option ℕ → Option ExecutionFailure
failure_of_termination output_limit code = some ExecutionFailure.output_limit
failure_of_termination exited none = some ExecutionFailure.internal
failure_of_termination exited (some code) = none
failure_of_termination timed_out code = none
failure_of_termination cancelled code = none

-- `Option::or_else`
abbrev pub or : Option Bytes → Option Bytes → Option Bytes
or none other = other
or (some v) other = some v

abbrev pub sandbox_result : SandboxOutcome → SandboxResult
sandbox_result SandboxOutcome.not_requested = SandboxResult.not_requested
sandbox_result (SandboxOutcome.not_applied reason) = SandboxResult.not_applied reason
sandbox_result (SandboxOutcome.applied profile) = SandboxResult.applied profile
sandbox_result (SandboxOutcome.failed reason) = SandboxResult.failed reason

-- The derived equality of dimensions.
abbrev pub same_dimension : ResourceDimension → ResourceDimension → Bool
same_dimension memory memory = true
same_dimension memory cpu = false
same_dimension memory pids = false
same_dimension cpu memory = false
same_dimension cpu cpu = true
same_dimension cpu pids = false
same_dimension pids memory = false
same_dimension pids cpu = false
same_dimension pids pids = true

-- `limits_exceeded.contains(&kind)`
abbrev pub is_exceeded : ResourceDimension → List ResourceDimension → Bool
is_exceeded kind = any (λ d. same_dimension d kind)

-- The closure `dimension` of `resource_result`.
abbrev pub dimension :
    ResourceSetupOutcome → List ResourceDimension → Bool → ResourceDimension → DimensionResult
dimension ResourceSetupOutcome.not_requested exceeded requested kind =
    if requested
    then DimensionResult.not_applied (bytes "resource control was not requested")
    else DimensionResult.not_requested
dimension (ResourceSetupOutcome.not_applied reason) exceeded requested kind =
    if requested then DimensionResult.not_applied reason else DimensionResult.not_requested
dimension (ResourceSetupOutcome.failed reason) exceeded requested kind =
    if requested then DimensionResult.not_applied reason else DimensionResult.not_requested
dimension (ResourceSetupOutcome.applied backend) exceeded requested kind =
    if requested
    then (if is_exceeded kind exceeded
        then DimensionResult.limit_exceeded backend
        else DimensionResult.applied backend)
    else DimensionResult.not_requested

unfoldable pub resource_result :
    ResourceSetupOutcome → ResourceSetupRequest → List ResourceDimension → ResourceResult
resource_result outcome request exceeded = record {
  memory_bytes = dimension outcome exceeded (not (is_not_requested request.memory_bytes)) memory;
  cpu_millis = dimension outcome exceeded (not (is_not_requested request.cpu_millis)) cpu;
  pids = dimension outcome exceeded (not (is_not_requested request.pids)) pids;
}

-- `RunnerResult::execution_result`
unfoldable pub execution_result : RunnerResult → ExecutionResult
unfolding resource_result
execution_result r = record {
  state =
      if exceeds_none r.resource_limits_exceeded
      then state_of_termination r.termination r.exit_code
      else ExecutionState.failed;
  exit_code = r.exit_code;
  failure =
      if exceeds_none r.resource_limits_exceeded
      then failure_of_termination r.termination r.exit_code
      else some ExecutionFailure.resource_limit;
  stdout_bytes = r.stdout.total_bytes;
  stderr_bytes = r.stderr.total_bytes;
  stdout_omitted = r.stdout.omitted_bytes;
  stderr_omitted = r.stderr.omitted_bytes;
  cleanup_warning =
      or (or r.cleanup.process_group_signal_error r.cleanup.wait_error) r.cleanup.stdin_error;
  finalization_failure = none;
  artifact_count = 0;
  sandbox = some (sandbox_result r.setup.sandbox);
  resources =
      some (resource_result r.setup.resources r.resource_request r.resource_limits_exceeded);
}
