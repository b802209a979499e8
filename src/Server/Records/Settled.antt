-- ===== src/Server/Records/Settled.antt =====
-- crates/eggwork-server/src/lib.rs, `run_execution`: the result that it publishes.
use eggwork.Prelude.{
  ℕ, ◌≡◌, ◌↔◌, refl, sym, ap, ◌∙◌, Bool, true, false, arith, Option, none, some, Result, ok, err,
  Bool-cases, inl, inr,
}
use eggwork.Core.Execution.{ExecutionState, ExecutionResult}
use eggwork.Runner.Setup.{SandboxRequest, ResourceSetupRequest, RunnerError}
use eggwork.Runner.Report.{
  TerminationReason, RunnerResult, exceeds_none, execution_result, state_of_termination,
}
use eggwork.Runner.Report.Consistent.{execution_result-IsConsistent}
use eggwork.Server.Events.{is_terminal}
use eggwork.Server.Records.{
  failure_for_runner_error, is_interrupted, settled, Workspace, after_capture, after_retention,
  finalized,
}

-- What the end of a run gives.
pub record ResultIsSettled (ran : Result RunnerError RunnerResult) (expired : Bool)
    (e : ExecutionResult) : Type 0 where
  pub terminal : is_terminal e.state ≡ true
  pub interrupted_iff : (e.state ≡ ExecutionState.interrupted) ↔ (expired ≡ true)
  pub succeeded :
      e.state ≡ ExecutionState.succeeded
      → (done : RunnerResult) × (ran ≡ ok done)
        × (done.termination ≡ TerminationReason.exited)
        × (done.exit_code ≡ some 0)
        × (exceeds_none done.resource_limits_exceeded ≡ true)

state_known :
    (reason : TerminationReason) (code : Option ℕ)
    → (is_terminal (state_of_termination reason code) ≡ true)
      × ((state_of_termination reason code ≡ ExecutionState.interrupted) → true ≡ false)
unfolding is_terminal
state_known TerminationReason.exited none = (refl, λ h. cc)
state_known TerminationReason.exited (some c) = (ground arith, ground arith)
state_known TerminationReason.timed_out code = (refl, λ h. cc)
state_known TerminationReason.cancelled code = (refl, λ h. cc)
state_known TerminationReason.output_limit code = (refl, λ h. cc)

report_known :
    (done : RunnerResult)
    → (is_terminal (execution_result done).state ≡ true)
      × (((execution_result done).state ≡ ExecutionState.interrupted) → true ≡ false)
unfolding is_terminal execution_result
report_known done = elim (Bool-cases (exceeds_none done.resource_limits_exceeded)) [
  | inl within ↦ rw within (state_known done.termination done.exit_code)
  | inr beyond ↦ rw beyond (refl, λ h. cc)
]

settled-IsSettled :
    (ran : Result RunnerError RunnerResult) (expired : Bool) (sandbox : SandboxRequest)
    (resources : ResourceSetupRequest)
    → ResultIsSettled ran expired (settled ran expired sandbox resources)
unfolding settled is_terminal
settled-IsSettled (ok done) true sandbox resources = record {
  terminal = refl;
  interrupted_iff = ground arith;
  succeeded = λ h. cc;
}
settled-IsSettled (ok done) false sandbox resources = record {
  terminal = (report_known done).0;
  interrupted_iff = (λ h. sym ((report_known done).1 h), λ h. cc);
  succeeded = λ h.
      let (within, how, code) = (execution_result-IsConsistent done).succeeded_iff.0 h in
      (done, refl, how, code, within);
}
settled-IsSettled (err error) true sandbox resources = record {
  terminal = refl;
  interrupted_iff = ground arith;
  succeeded = λ h. cc;
}
settled-IsSettled (err error) false sandbox resources =
    elim (Bool-cases (is_interrupted (failure_for_runner_error error false))) [
      | inl gone ↦
          rw gone (record { terminal = refl; interrupted_iff = ground arith; succeeded = λ h. cc })
      | inr broke ↦
          rw broke (record { terminal = refl; interrupted_iff = ground arith; succeeded = λ h. cc })
    ]

after_capture-state :
    (captures : Bool) (captured : Option ℕ) (e : ExecutionResult)
    → (after_capture captures captured e).state ≡ e.state
after_capture-state true none e = refl
after_capture-state true (some count) e = refl
after_capture-state false captured e = refl

after_retention-state :
    (marked : Bool) (e : ExecutionResult) → (after_retention marked e).state ≡ e.state
after_retention-state true e = refl
after_retention-state false e = refl

finalized-state :
    (completed : Bool) (w : Option Workspace) (e : ExecutionResult)
    → (finalized completed w e).state ≡ e.state
unfolding finalized
finalized-state completed none e = refl
finalized-state completed (some w) e =
    after_retention-state w.marked_terminal _ ∙ after_capture-state _ w.captured e

-- The result that a run publishes at its end, whatever the runner returned and whatever became of the
-- workspace, has a terminal state; the state is `interrupted` exactly when the lease has expired, and
-- it is `succeeded` only for a child that exited with code 0 and exceeded no limit.
pub settled-finalized :
    (ran : Result RunnerError RunnerResult) (expired completed : Bool) (sandbox : SandboxRequest)
    (resources : ResourceSetupRequest) (w : Option Workspace)
    → ResultIsSettled ran expired (finalized completed w (settled ran expired sandbox resources))
settled-finalized ran expired completed sandbox resources w =
    let known = settled-IsSettled ran expired sandbox resources in
    let same = finalized-state completed w (settled ran expired sandbox resources) in
    record {
      terminal = ap is_terminal same ∙ known.terminal;
      interrupted_iff =
          (λ h. known.interrupted_iff.0 (sym same ∙ h), λ h. same ∙ known.interrupted_iff.1 h);
      succeeded = λ h. known.succeeded (sym same ∙ h);
    }
