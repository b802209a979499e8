-- ===== src/Runner/Setup.antt =====
-- crates/eggwork-runner/src/lib.rs: what a request asks of the sandbox and of the resource
-- controls, what its setup reports, and `NoExecutionSetup`.
pub mod Required
use eggwork.Prelude.{◌>>=◌, ℕ, Bool, true, false, not, ◌||◌, Result, ok, err, if◌then◌else◌}
use eggwork.Prelude.Bytes.{Bytes, bytes, bytes_eq}
use eggwork.Core.Resources.{Requirement}

pub data SandboxRequest : Type 0 where
  none : SandboxRequest
  best_effort required : Bytes → SandboxRequest

pub data SandboxOutcome : Type 0 where
  not_requested : SandboxOutcome
  not_applied applied failed : Bytes → SandboxOutcome

pub record ResourceSetupRequest : Type 0 where
  pub memory_bytes : Requirement ℕ
  pub cpu_millis : Requirement ℕ
  pub pids : Requirement ℕ

-- `matches!(r, Requirement::NotRequested)` and `matches!(r, Requirement::Required(_))`
abbrev pub is_not_requested : Requirement ℕ → Bool
is_not_requested Requirement.not_requested = true
is_not_requested (Requirement.best_effort v) = false
is_not_requested (Requirement.required v) = false

abbrev pub is_required : Requirement ℕ → Bool
is_required Requirement.not_requested = false
is_required (Requirement.best_effort v) = false
is_required (Requirement.required v) = true

-- `ResourceSetupRequest::is_requested`
abbrev pub is_requested : ResourceSetupRequest → Bool
is_requested r =
    not (is_not_requested r.memory_bytes)
    || not (is_not_requested r.cpu_millis)
    || not (is_not_requested r.pids)

-- `ResourceSetupRequest::has_required`
abbrev pub has_required : ResourceSetupRequest → Bool
has_required r = is_required r.memory_bytes || is_required r.cpu_millis || is_required r.pids

pub data ResourceSetupOutcome : Type 0 where
  not_requested : ResourceSetupOutcome
  not_applied applied failed : Bytes → ResourceSetupOutcome

pub record SetupOutcome : Type 0 where
  pub sandbox : SandboxOutcome
  pub resources : ResourceSetupOutcome

pub data RunnerError : Type 0 where
  invalid_request invalid_root invalid_working_directory : Bytes → RunnerError
  cancelled_before_spawn : RunnerError
  setup : Bytes → RunnerError
  required_setup_unavailable : RunnerError
  unsupported_platform : RunnerError
  spawn io wait : Bytes → RunnerError

-- `matches!(sandbox, SandboxRequest::Required { .. })`
abbrev pub sandbox_is_required : SandboxRequest → Bool
sandbox_is_required SandboxRequest.none = false
sandbox_is_required (SandboxRequest.best_effort profile) = false
sandbox_is_required (SandboxRequest.required profile) = true

-- The `match sandbox` of `NoExecutionSetup::prepare`.
abbrev pub no_sandbox : SandboxRequest → SandboxOutcome
no_sandbox SandboxRequest.none = SandboxOutcome.not_requested
no_sandbox (SandboxRequest.best_effort profile) =
    SandboxOutcome.not_applied (bytes "no sandbox backend is configured")
no_sandbox (SandboxRequest.required profile) =
    SandboxOutcome.not_applied (bytes "no sandbox backend is configured")

-- `NoExecutionSetup::prepare`
unfoldable pub prepare : SandboxRequest → ResourceSetupRequest → Result RunnerError SetupOutcome
prepare sandbox resources =
    let controls =
      if is_requested resources
      then ResourceSetupOutcome.not_applied (bytes "no resource-control backend is configured")
      else ResourceSetupOutcome.not_requested in
    if sandbox_is_required sandbox || has_required resources
    then err required_setup_unavailable
    else ok (record { sandbox = no_sandbox sandbox; resources = controls })

-- `TrustedLandlockSetup`: its live probe of the resource controls, and what `verify_trusted_helper`
-- says of its helper, first for the controls and then, in a call of its own, for the sandbox. All
-- read the running system.
pub record TrustedSetup : Type 0 where
  pub probe : ResourceSetupRequest → Result Bytes (Unit {0})
  pub verify_for_controls : Result Bytes (Unit {0})
  pub verify_for_sandbox : Result Bytes (Unit {0})

-- The profile is `workspace_rw`, the only one.
abbrev pub is_workspace_rw : Bytes → Bool
is_workspace_rw profile = bytes_eq profile (bytes "workspace_rw")

-- A failed probe or helper check fails what is required, and drops what is best effort.
abbrev pub settle_controls :
    ResourceSetupRequest → Bytes → Result Bytes (Unit {0}) → Result RunnerError ResourceSetupOutcome
settle_controls resources backend (ok _) = ok (ResourceSetupOutcome.applied backend)
settle_controls resources backend (err reason) =
    if has_required resources
    then err (RunnerError.setup reason)
    else ok (ResourceSetupOutcome.not_applied reason)

abbrev pub require_helper : Bytes → Result Bytes (Unit {0}) → Result RunnerError SandboxOutcome
require_helper profile (ok _) = ok (SandboxOutcome.applied profile)
require_helper profile (err reason) = err (RunnerError.setup reason)

module _ (host : TrustedSetup) where
  -- The first `if` of `TrustedLandlockSetup::prepare`.
  unfoldable pub probe_controls : ResourceSetupRequest → Result RunnerError ResourceSetupOutcome
  probe_controls resources =
      if is_requested resources
      then settle_controls resources (bytes "systemd-cgroup-v2") (host.probe resources)
      else ok ResourceSetupOutcome.not_requested

  -- The second: controls that were found still need the helper.
  unfoldable pub check_helper :
      ResourceSetupRequest → ResourceSetupOutcome → Result RunnerError ResourceSetupOutcome
  check_helper resources (ResourceSetupOutcome.applied backend) =
      settle_controls resources backend host.verify_for_controls
  check_helper resources ResourceSetupOutcome.not_requested = ok ResourceSetupOutcome.not_requested
  check_helper resources (ResourceSetupOutcome.not_applied reason) =
      ok (ResourceSetupOutcome.not_applied reason)
  check_helper resources (ResourceSetupOutcome.failed reason) =
      ok (ResourceSetupOutcome.failed reason)

  -- The `match sandbox`.
  unfoldable pub prepare_sandbox : SandboxRequest → Result RunnerError SandboxOutcome
  prepare_sandbox SandboxRequest.none = ok SandboxOutcome.not_requested
  prepare_sandbox (SandboxRequest.best_effort profile) =
      if is_workspace_rw profile
      then ok (elim host.verify_for_sandbox [
        | ok _ ↦ SandboxOutcome.applied profile
        | err reason ↦ SandboxOutcome.not_applied reason
      ])
      else ok (SandboxOutcome.not_applied (bytes "unsupported sandbox profile"))
  prepare_sandbox (SandboxRequest.required profile) =
      if is_workspace_rw profile
      then require_helper profile host.verify_for_sandbox
      else err (RunnerError.setup (bytes "unsupported sandbox profile"))

  -- `TrustedLandlockSetup::prepare`
  unfoldable pub trusted_prepare :
      SandboxRequest → ResourceSetupRequest → Result RunnerError SetupOutcome
  unfolding probe_controls check_helper prepare_sandbox
  trusted_prepare sandbox resources = do
    probed ← probe_controls resources
    controls ← check_helper resources probed
    outcome ← prepare_sandbox sandbox
    ok (record { sandbox = outcome; resources = controls })
