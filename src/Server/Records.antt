-- ===== src/Server/Records.antt =====
-- crates/eggwork-server/src/lib.rs: the record of an execution in memory, `publish`, and how
-- `run_execution` makes the result that it publishes at last. The locks are held as the code holds
-- them: one publisher at a time, which is one call of `publish`.
pub mod Agreement
pub mod Settled
use eggwork.Prelude.{
  ℕ, Bool, true, false, not, ◌&&◌, List, [], ◌∷◌, ◌++◌, Option, none, some, is_some, Result, ok,
  err, if◌then◌else◌,
}
use eggwork.Prelude.Bytes.{Bytes, bytes}
use eggwork.Core.Resources.{Requirement}
use eggwork.Core.Execution.{
  ExecutionState, EventKind, ExecutionEvent, ExecutionSnapshot, ExecutionResult, ExecutionFailure,
  SandboxResult, DimensionResult, FinalizationFailure,
}
use eggwork.Store.Tables.{Json, Db, Stored}
use eggwork.Store.Journal.{commit_event}
use eggwork.Runner.Setup.{SandboxRequest, ResourceSetupRequest, RunnerError}
use eggwork.Runner.Report.{RunnerResult, execution_result}
use eggwork.Server.Events.{is_terminal}

-- What `publish` reads and writes of an `ExecutionRecord`: `draining` is the node's flag, and `sent`
-- are the events given to the broadcast channel so far.
pub record ExecutionRecord : Type 0 where
  pub snapshot : ExecutionSnapshot
  pub cancelled : Bool
  pub draining : Bool
  pub sent : List ExecutionEvent

-- `if let Some(result) = result`
abbrev pub or_kept : Option ExecutionResult → Option ExecutionResult → Option ExecutionResult
or_kept none kept = kept
or_kept (some result) kept = some result

abbrev pub proposed_of :
    ExecutionSnapshot → ExecutionState → Option ExecutionResult → ExecutionSnapshot
proposed_of base to result = record base { state = to; result = or_kept result base.result }

module _ (js : Json) where
  open js use {Encoded}

  -- The `match` on what `commit_event` returns.
  abbrev pub after_commit :
      ExecutionSnapshot
      → ExecutionRecord
      → Db Encoded
      → Stored (Option ExecutionEvent × Db Encoded)
      → ExecutionRecord × Db Encoded
  after_commit proposed r db (ok (some event, db')) =
      (record r { snapshot = proposed; sent = r.sent ++ event ∷ [] }, db')
  after_commit proposed r db (ok (none, db')) = (r, db')
  after_commit proposed r db (err e) = (record r { draining = true; cancelled = true }, db)

  -- `publish`, and `publish_terminal`, at the time `now`
  unfoldable pub publish :
      ℕ
      → ExecutionState
      → Option ExecutionResult
      → EventKind
      → ExecutionRecord × Db Encoded
      → ExecutionRecord × Db Encoded
  unfolding commit_event
  publish now to result kind (r, db) =
      let proposed = proposed_of r.snapshot to result in
      let committed = after_commit proposed r db (commit_event js proposed kind now db) in
      if is_terminal r.snapshot.state then (r, db) else committed

-- `failure_for_runner_error`, on the error that there is.
abbrev pub failure_for_runner_error : RunnerError → Bool → ExecutionFailure
failure_for_runner_error (RunnerError.spawn reason) expired = ExecutionFailure.spawn
failure_for_runner_error RunnerError.cancelled_before_spawn expired =
    if expired then ExecutionFailure.lease_expired else ExecutionFailure.interrupted
failure_for_runner_error _ expired =
    if expired then ExecutionFailure.lease_expired else ExecutionFailure.internal

-- `failed_result`
abbrev pub requested_dimension : Requirement ℕ → DimensionResult
requested_dimension Requirement.not_requested = DimensionResult.not_requested
requested_dimension _ =
    DimensionResult.not_applied (bytes "requested resource enforcement failed before execution")

abbrev pub failed_sandbox : SandboxRequest → SandboxResult
failed_sandbox SandboxRequest.none = SandboxResult.not_requested
failed_sandbox (SandboxRequest.best_effort profile) =
    SandboxResult.not_applied (bytes "best-effort sandbox setup was unavailable")
failed_sandbox (SandboxRequest.required profile) =
    SandboxResult.failed (bytes "required sandbox setup failed")

unfoldable pub failed_result :
    ExecutionState → ExecutionFailure → SandboxRequest → ResourceSetupRequest → ExecutionResult
failed_result to reason sandbox resources = record {
  state = to;
  exit_code = none;
  failure = some reason;
  stdout_bytes = 0;
  stderr_bytes = 0;
  stdout_omitted = 0;
  stderr_omitted = 0;
  cleanup_warning = none;
  finalization_failure = none;
  artifact_count = 0;
  sandbox = some (failed_sandbox sandbox);
  resources = some (record {
    memory_bytes = requested_dimension resources.memory_bytes;
    cpu_millis = requested_dimension resources.cpu_millis;
    pids = requested_dimension resources.pids;
  });
}

-- `matches!(failure, ExecutionFailure::Interrupted)`
abbrev pub is_interrupted : ExecutionFailure → Bool
is_interrupted ExecutionFailure.interrupted = true
is_interrupted _ = false

abbrev pub terminal_for : ExecutionFailure → Bool → ExecutionState
terminal_for reason expired =
    if expired
    then ExecutionState.interrupted
    else if is_interrupted reason
    then ExecutionState.cancelled
    else ExecutionState.failed

-- The `let mut execution_result` of `run_execution`, on how the runner ended and whether the lease
-- has expired.
unfoldable pub settled :
    Result RunnerError RunnerResult → Bool → SandboxRequest → ResourceSetupRequest → ExecutionResult
unfolding failed_result
settled (ok done) expired sandbox resources =
    let reported = execution_result done in
    if expired
    then record reported {
      state = ExecutionState.interrupted;
      failure = some ExecutionFailure.lease_expired;
      exit_code = none;
    }
    else reported
settled (err error) expired sandbox resources =
    let reason = failure_for_runner_error error expired in
    failed_result (terminal_for reason expired) reason sandbox resources

-- What the workspace's part of the end gives: the capture of the declared outputs, when it is made,
-- with the number of artifacts, and `mark_terminal`.
pub record Workspace : Type 0 where
  pub has_outputs : Bool
  pub captured : Option ℕ
  pub marked_terminal : Bool

-- `should_capture`, after `runner_completed`
abbrev pub may_capture : ExecutionResult → Bool
may_capture e = is_captured_state e.state && not (is_output_limit e.failure)
  where
    is_captured_state : ExecutionState → Bool
    is_captured_state ExecutionState.succeeded = true
    is_captured_state ExecutionState.failed = true
    is_captured_state _ = false

    is_output_limit : Option ExecutionFailure → Bool
    is_output_limit (some ExecutionFailure.output_limit) = true
    is_output_limit _ = false

abbrev pub with_capture : Option ℕ → ExecutionResult → ExecutionResult
with_capture (some count) e = record e { artifact_count = count }
with_capture none e = record e { finalization_failure = some FinalizationFailure.artifact_capture }

-- `if should_capture`, and `if mark_terminal(..).is_err()`
abbrev pub after_capture : Bool → Option ℕ → ExecutionResult → ExecutionResult
after_capture true captured e = with_capture captured e
after_capture false captured e = e

abbrev pub after_retention : Bool → ExecutionResult → ExecutionResult
after_retention true e = e
after_retention false e = record e { finalization_failure = some FinalizationFailure.retention }

-- The `if let Some(workspace)` of `run_execution`.
unfoldable pub finalized : Bool → Option Workspace → ExecutionResult → ExecutionResult
finalized completed none e = e
finalized completed (some w) e =
    after_retention w.marked_terminal
      (after_capture (completed && w.has_outputs && may_capture e) w.captured e)
