-- ===== src/Runner/Tests.antt =====
-- The theorems on the runner at work on small values.
use mathlib.Core.Option
use eggwork.Prelude.{
  ℕ, ◌≡◌, ◌↔◌, refl, Bool, true, false, List, [], ◌∷◌, Option, none, some, Result, ok, err, any,
  if◌then◌else◌,
}
use eggwork.Prelude.Bytes.{Bytes, bytes, is_empty}
use eggwork.Prelude.TreeMap.{get}
use eggwork.Core.Error.{ValidationError}
use eggwork.Core.Resources.{Requirement, ResourceDimension}
use eggwork.Core.Environment.{StdinPolicy, default_output}
use eggwork.Core.Command.{CommandSpec, ExecutionSpec, IsolationRequirement, NetworkRequirement}
use eggwork.Runner.Capture.{no_capture, push, push_all, push_per_byte}
use eggwork.Runner.Capture.Retained.{retained, concat, push_all-retained}
use eggwork.Runner.Capture.Bytewise.{push-push_per_byte}
use eggwork.Runner.Setup.{
  SandboxRequest, SandboxOutcome, ResourceSetupRequest, ResourceSetupOutcome, SetupOutcome,
  TrustedSetup, trusted_prepare,
}
use eggwork.Runner.Setup.Required.{Enforces, trusted_prepare-Enforces}
use eggwork.Runner.Report.{TerminationReason, RunnerResult, execution_result}
use eggwork.Runner.Report.Consistent.{ReportIsConsistent, execution_result-IsConsistent}
use eggwork.Runner.Request.{
  ExecutionProvenance, RunnerRequest, FileSystem, request_of, from_spec, validate, resolve,
  direct_environment,
}
use eggwork.Runner.Request.Accepted.{empty_argument, from_spec-validate}
use eggwork.Runner.Request.Variables.{
  first_some, named, requested, baseline, direct_environment-get,
}

abbrev three_reads : List Bytes
three_reads = bytes "abc" ∷ bytes "defg" ∷ bytes "hij" ∷ []

push_all-retained_example : push_all 5 three_reads no_capture ≡ retained 5 (concat three_reads)
push_all-retained_example = push_all-retained 5 three_reads

push-push_per_byte_example :
    push 5 (bytes "klm") (push_all 5 three_reads no_capture)
    ≡ push_per_byte 5 (bytes "klm") (push_all 5 three_reads no_capture)
push-push_per_byte_example = push-push_per_byte 5 three_reads (bytes "klm")

-- A host whose helper is trusted and whose probe finds the controls.
abbrev trusted_host : TrustedSetup
trusted_host = record {
  probe = λ resources. ok tt;
  verify_for_controls = ok tt;
  verify_for_sandbox = ok tt;
}

abbrev confined : SandboxRequest
confined = SandboxRequest.required (bytes "workspace_rw")

abbrev memory_capped : ResourceSetupRequest
memory_capped = record {
  memory_bytes = Requirement.required 1024;
  cpu_millis = Requirement.not_requested;
  pids = Requirement.best_effort 8;
}

abbrev enforced : SetupOutcome
enforced = record {
  sandbox = SandboxOutcome.applied (bytes "workspace_rw");
  resources = ResourceSetupOutcome.applied (bytes "systemd-cgroup-v2");
}

prepared : trusted_prepare trusted_host confined memory_capped ≡ ok enforced
unfolding trusted_prepare eggwork.Prelude.Bytes.bytes_eq
prepared = refl

trusted_prepare-Enforces_example : Enforces trusted_host confined memory_capped enforced
trusted_prepare-Enforces_example =
    trusted_prepare-Enforces trusted_host confined memory_capped enforced prepared

abbrev ran : RunnerResult
ran = record {
  termination = TerminationReason.exited;
  exit_code = some 0;
  stdout = push_all 5 three_reads no_capture;
  stderr = no_capture;
  cleanup = record { process_group_signal_error = none; wait_error = none; stdin_error = none };
  setup = enforced;
  resource_request = memory_capped;
  resource_limits_exceeded = ResourceDimension.memory ∷ [];
  stream_chunks_dropped = 0;
}

execution_result-IsConsistent_example : ReportIsConsistent ran (execution_result ran)
execution_result-IsConsistent_example = execution_result-IsConsistent ran

abbrev to_text : ValidationError → Bytes
to_text e = bytes "invalid"

-- Every path is a directory and is its own canonical form.
abbrev flat : FileSystem
flat = record {
  canonicalize = λ at. ok at;
  is_dir = λ at. true;
  join = λ base at. base;
  starts_with = λ at base. true;
}

-- An accepted specification with an empty argument.
abbrev blank_argument : ExecutionSpec
blank_argument = record {
  schema_version = 1;
  command = record {
    argv = bytes "make" ∷ [] ∷ [];
    cwd = none;
    environment = record { name = bytes "LD_PRELOAD"; value = bytes "lib.so" } ∷ [];
    stdin = StdinPolicy.null;
    timeout_millis = 1000;
    output = default_output;
    declared_outputs = [];
    resources = record {
      memory_bytes = Requirement.not_requested;
      cpu_millis = Requirement.not_requested;
      pids = Requirement.not_requested;
    };
    isolation = IsolationRequirement.none;
    network = NetworkRequirement.unrestricted;
  };
  metadata = [];
}

abbrev attribution : ExecutionProvenance
attribution = record { execution_id = some (bytes "job"); generation = some 1 }

abbrev blank_request : RunnerRequest
blank_request = request_of blank_argument.command (bytes "/work") attribution

translated : from_spec to_text blank_argument (bytes "/work") attribution ≡ ok blank_request
unfolding from_spec eggwork.Core.Command.validate_spec eggwork.Core.Command.validate_command
    eggwork.Prelude.Bytes.contains eggwork.Prelude.Distinct.repeats
    eggwork.Core.Environment.validate_stdin eggwork.Core.Environment.validate_output
    eggwork.Core.Resources.validate_resources eggwork.Core.Command.check_entry
    eggwork.Core.Environment.new_entry eggwork.Prelude.Bytes.is_ascii_alphanumeric
translated = refl

from_spec-validate_example : validate flat blank_request ≡ (
    if any is_empty blank_argument.command.argv
    then err empty_argument
    else resolve flat blank_request)
from_spec-validate_example =
    from_spec-validate to_text flat blank_argument (bytes "/work") attribution blank_request
      translated

abbrev digits : ℕ → Bytes
digits n = bytes "1"

direct_environment-get_example :
    get (bytes "LD_PRELOAD") (direct_environment digits blank_request)
    ≡ first_some
        (named
          (bytes "LD_PRELOAD")
          (bytes "EGGWORK_EXECUTION_GENERATION")
          (Option.map digits (some 1)))
        (first_some
          (named (bytes "LD_PRELOAD") (bytes "EGGWORK_EXECUTION_ID") (some (bytes "job")))
          (first_some
            (requested (bytes "LD_PRELOAD") blank_request.environment)
            (baseline (bytes "LD_PRELOAD"))))
direct_environment-get_example = direct_environment-get digits blank_request (bytes "LD_PRELOAD")
