-- ===== src/Runner/Report/Consistent.antt =====
-- crates/eggwork-runner/src/lib.rs, `execution_result`: the reported state, failure and resource
-- dimensions against the way the child ended.
use eggwork.Prelude.{
  ℕ, true, false, not, ◌≡◌, ◌≢◌, ◌↔◌, refl, arith, List, [], ◌∷◌, Option, none, some,
}
use eggwork.Prelude.Bytes.{Bytes}
use eggwork.Core.Execution.{
  ExecutionState, ExecutionFailure, ExecutionResult, DimensionResult, ResourceResult,
}
use eggwork.Core.Resources.{Requirement, ResourceDimension, memory, cpu, pids}
use eggwork.Runner.Setup.{ResourceSetupOutcome, is_not_requested}
use eggwork.Runner.Report.{
  TerminationReason, exited, timed_out, cancelled, output_limit, RunnerResult, exceeds_none,
  is_exceeded, dimension, resource_result, execution_result,
}

-- A result against the way the child ended, the limits it exceeded, and its resource controls.
pub record ReportIsConsistent (r : RunnerResult) (e : ExecutionResult) : Type 0 where
  pub succeeded_iff : (e.state ≡ ExecutionState.succeeded) ↔ (
      (exceeds_none r.resource_limits_exceeded ≡ true)
      × (r.termination ≡ exited)
      × (r.exit_code ≡ some 0))
  pub timed_out_iff :
      (e.state ≡ ExecutionState.timed_out)
      ↔ ((exceeds_none r.resource_limits_exceeded ≡ true) × (r.termination ≡ timed_out))
  pub cancelled_iff :
      (e.state ≡ ExecutionState.cancelled)
      ↔ ((exceeds_none r.resource_limits_exceeded ≡ true) × (r.termination ≡ cancelled))
  pub failure_fails : (f : ExecutionFailure) → e.failure ≡ some f → e.state ≡ ExecutionState.failed
  pub bad_exit :
      e.state ≡ ExecutionState.failed
      → e.failure ≡ none
      → (r.termination ≡ exited) × (r.exit_code ≢ none) × (r.exit_code ≢ some 0)
  pub other_exit : r.termination ≡ exited → r.exit_code ≢ some 0 → e.state ≡ ExecutionState.failed

-- The same, of the fields that the state and the failure are computed from.
report_of :
    (exceeded : List ResourceDimension) (reason : TerminationReason) (code : Option ℕ)
    (r : RunnerResult)
    → r.resource_limits_exceeded ≡ exceeded
    → r.termination ≡ reason
    → r.exit_code ≡ code
    → ReportIsConsistent r (execution_result r)
unfolding execution_result
report_of [] exited none r l t c =
    rw (l, t, c)
      (record {
        succeeded_iff = ground arith;
        timed_out_iff = ground arith;
        cancelled_iff = ground arith;
        failure_fails = ground arith;
        bad_exit = ground arith;
        other_exit = ground arith;
      })
report_of [] exited (some n) r l t c =
    rw (l, t, c)
      (record {
        succeeded_iff = ground arith;
        timed_out_iff = ground arith;
        cancelled_iff = ground arith;
        failure_fails = ground arith;
        bad_exit = ground arith;
        other_exit = ground arith;
      })
report_of [] timed_out code r l t c =
    rw (l, t, c)
      (record {
        succeeded_iff = ground arith;
        timed_out_iff = ground arith;
        cancelled_iff = ground arith;
        failure_fails = ground arith;
        bad_exit = ground arith;
        other_exit = ground arith;
      })
report_of [] cancelled code r l t c =
    rw (l, t, c)
      (record {
        succeeded_iff = ground arith;
        timed_out_iff = ground arith;
        cancelled_iff = ground arith;
        failure_fails = ground arith;
        bad_exit = ground arith;
        other_exit = ground arith;
      })
report_of [] output_limit code r l t c =
    rw (l, t, c)
      (record {
        succeeded_iff = ground arith;
        timed_out_iff = ground arith;
        cancelled_iff = ground arith;
        failure_fails = ground arith;
        bad_exit = ground arith;
        other_exit = ground arith;
      })
report_of (x ∷ xs) reason code r l t c =
    rw (l, t, c)
      (record {
        succeeded_iff = ground arith;
        timed_out_iff = ground arith;
        cancelled_iff = ground arith;
        failure_fails = ground arith;
        bad_exit = ground arith;
        other_exit = ground arith;
      })

-- The reported state is `succeeded`, `timed_out` or `cancelled` exactly when no limit was exceeded
-- and the child exited with code 0, ran out of time, or was cancelled. A reported failure comes with
-- the state `failed`; `failed` without a failure is an exit with a known code other than 0, and an
-- exit without the code 0 is always `failed`.
pub execution_result-IsConsistent : (r : RunnerResult) → ReportIsConsistent r (execution_result r)
execution_result-IsConsistent r =
    report_of r.resource_limits_exceeded r.termination r.exit_code r refl refl refl

-- What is reported of one resource dimension.
pub record DimensionIsHonest (outcome : ResourceSetupOutcome) (exceeded : List ResourceDimension)
    (request : Requirement ℕ) (kind : ResourceDimension) (d : DimensionResult) : Type 0 where
  pub silent_iff : (d ≡ DimensionResult.not_requested) ↔ (is_not_requested request ≡ true)
  pub applied_iff :
      (backend : Bytes)
      → (d ≡ DimensionResult.applied backend) ↔ (
          (is_not_requested request ≡ false)
          × (outcome ≡ ResourceSetupOutcome.applied backend)
          × (is_exceeded kind exceeded ≡ false))
  pub exceeded_iff :
      (backend : Bytes)
      → (d ≡ DimensionResult.limit_exceeded backend) ↔ (
          (is_not_requested request ≡ false)
          × (outcome ≡ ResourceSetupOutcome.applied backend)
          × (is_exceeded kind exceeded ≡ true))

dimension-IsHonest :
    (outcome : ResourceSetupOutcome) (exceeded : List ResourceDimension) (request : Requirement ℕ)
    (kind : ResourceDimension)
    → DimensionIsHonest outcome exceeded request kind
        (dimension outcome exceeded (not (is_not_requested request)) kind)
dimension-IsHonest ResourceSetupOutcome.not_requested exceeded request kind = record {
  silent_iff = ground arith;
  applied_iff = ground arith;
  exceeded_iff = ground arith;
}
dimension-IsHonest (ResourceSetupOutcome.not_applied reason) exceeded request kind = record {
  silent_iff = ground arith;
  applied_iff = ground arith;
  exceeded_iff = ground arith;
}
dimension-IsHonest (ResourceSetupOutcome.failed reason) exceeded request kind = record {
  silent_iff = ground arith;
  applied_iff = ground arith;
  exceeded_iff = ground arith;
}
dimension-IsHonest (ResourceSetupOutcome.applied backend) exceeded request kind = record {
  silent_iff = ground arith;
  applied_iff = ground arith;
  exceeded_iff = ground arith;
}

-- In a reported result, each resource dimension is `not_requested` exactly when the request did not
-- ask for it, and `applied` or `limit_exceeded` exactly when it was asked for, the setup applied
-- the controls with the reported backend, and the limit was not, or was, seen to be exceeded.
execution_result-resources :
    (r : RunnerResult)
    → (res : ResourceResult) × ((execution_result r).resources ≡ some res)
      × DimensionIsHonest r.setup.resources r.resource_limits_exceeded
          r.resource_request.memory_bytes memory res.memory_bytes
      × DimensionIsHonest r.setup.resources r.resource_limits_exceeded r.resource_request.cpu_millis
          cpu res.cpu_millis
      × DimensionIsHonest r.setup.resources r.resource_limits_exceeded r.resource_request.pids pids
          res.pids
unfolding execution_result resource_result
execution_result-resources r = (
  resource_result r.setup.resources r.resource_request r.resource_limits_exceeded,
  refl,
  dimension-IsHonest _ _ _ _,
  dimension-IsHonest _ _ _ _,
  dimension-IsHonest _ _ _ _,
)
