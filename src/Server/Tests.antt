-- ===== src/Server/Tests.antt =====
-- The theorems on the node's request handling at work on small values.
mod Samples
mod Streams
mod Controls
mod Forwarded
use eggwork.Prelude.{
  ℕ, zero, suc, ◌+◌, ◌-◌, ◌≡◌, refl, arith, Bool, true, false, ◌&&◌, List, [], ◌∷◌, ◌++◌, map,
  Option, none, some, Result, ok, err, length, min, max, if◌then◌else◌,
}
use eggwork.Prelude.Bytes.{Bytes, bytes}
use eggwork.Core.Resources.{Requirement, ResourceDimension}
use eggwork.Core.Environment.{StdinPolicy, default_output}
use eggwork.Core.Command.{CommandSpec, ExecutionSpec, IsolationRequirement, NetworkRequirement}
use eggwork.Core.Execution.{ExecutionState, EventKind, ExecutionEvent, ExecutionSnapshot}
use eggwork.Store.Tables.{Json, Row, Db}
use eggwork.Store.Reserve.{ReserveResult, Admission, reserve}
use eggwork.Store.Reserve.Invariant.{IsStore}
use eggwork.Store.History.{reserving, empty_db, created, stepped}
use eggwork.Store.History.Reachable.{Reached-IsStore}
use eggwork.Runner.Setup.{SandboxRequest, ResourceSetupRequest, RunnerError}
use eggwork.Server.Routes.{
  Operation, Route, Tls, Policy, operation_for, authenticated_principal, handled, dispatch,
}
use eggwork.Server.Routes.Matches.{path_resource, Serves}
use eggwork.Server.Routes.Authorized.{dispatch-authorized}
use eggwork.Server.Events.{received, at_end, drain, has_no_event, event_stream_response}
use eggwork.Server.Events.Delivered.{
  Numbered, from_number, until_end, ending_of, event_stream_response-delivers,
}
use eggwork.Server.Records.{ExecutionRecord, publish, settled, finalized}
use eggwork.Server.Records.Agreement.{Agrees, Published, publish-Published}
use eggwork.Server.Records.Settled.{ResultIsSettled, settled-finalized}
use eggwork.Server.Admission.{
  ExecuteRequest, NodeState, check_request, landlock_workspace_rw_capability,
}
use eggwork.Server.Admission.Admissible.{IsAdmissible, check_request-IsAdmissible}
use eggwork.Server.Recent.{Recent, make_room, max_recent_executions}
use eggwork.Server.Recent.Room.{HasKeysOnce, over, not_over, make_room-exact}

-- Certificates name their principals, and every principal may do everything.
abbrev open_policy : Policy
open_policy = record {
  resolve_verified_leaf = λ leaf. some leaf;
  authorize_request = λ principal operation resource. true;
}

abbrev connection : Tls
connection = record {
  client_authenticated = true;
  peer_certificates_present = true;
  peer_certificate_chain = some (bytes "user" ∷ []);
}

dispatched :
    dispatch open_policy (some connection) (bytes "POST") (bytes "/v1/executions/job/cancel")
    ≡ handled (bytes "user") (Route.cancel (bytes "job"))
unfolding dispatch eggwork.Prelude.Bytes.bytes_eq eggwork.Prelude.Bytes.split eggwork.Core.Id.new_id
    eggwork.Core.Id.is_id_byte eggwork.Prelude.Bytes.is_ascii_alphanumeric
dispatched = refl

dispatch-authorized_example :
    (operation : Operation) × (operation_for (bytes "POST") (bytes "/v1/executions/job/cancel")
      ≡ some (operation, Route.cancel (bytes "job")))
    × Serves operation (Route.cancel (bytes "job"))
    × (authenticated_principal open_policy (some connection) ≡ some (bytes "user"))
    × (open_policy.authorize_request
          (bytes "user")
          operation
          (path_resource (Route.cancel (bytes "job")))
        ≡ true)
dispatch-authorized_example =
    dispatch-authorized open_policy (some connection) (bytes "POST")
      (bytes "/v1/executions/job/cancel") (bytes "user") (Route.cancel (bytes "job")) dispatched

abbrev event_in : ℕ → ExecutionState → ExecutionEvent
event_in n s = record { sequence = n; kind = EventKind.state s; metadata = record { fields = [] } }

abbrev page : List ExecutionEvent
page = event_in 2 ExecutionState.running ∷ event_in 3 ExecutionState.cancelling ∷ []

abbrev sent_later : List ExecutionEvent
sent_later = event_in 3 ExecutionState.cancelling ∷ event_in 4 ExecutionState.cancelled ∷ []

event_stream_response-delivers_example :
    Numbered 2 (page ++ from_number 4 sent_later) (max 4 5)
    × (drain
          (suc (length page + length sent_later))
          (event_stream_response 1 page (map received sent_later) false)
        ≡ (if false && has_no_event page then ([], at_end) else (
          until_end (page ++ from_number 4 sent_later),
          ending_of (page ++ from_number 4 sent_later),
        )))
event_stream_response-delivers_example =
    event_stream_response-delivers 1 3 4 5 page sent_later false (refl, (refl, refl))
      (refl, (refl, refl)) (omega arith)

pub data Encoded : Type 0 where
  a_snapshot : ExecutionSnapshot → Encoded
  an_event : ExecutionEvent → Encoded

abbrev snapshot_of : Encoded → Option ExecutionSnapshot
snapshot_of (a_snapshot s) = some s
snapshot_of (an_event e) = none

abbrev event_of : Encoded → Option ExecutionEvent
event_of (a_snapshot s) = none
event_of (an_event e) = some e

-- Keeps the values.
abbrev pub kept : Json
kept = record {
  Encoded = Encoded;
  size = λ e. 10;
  snapshot_to_vec = λ s. some (a_snapshot s);
  snapshot_from_slice = snapshot_of;
  event_to_vec = λ e. some (an_event e);
  event_from_slice = event_of;
}

abbrev pub accepted_job : ExecutionSnapshot
accepted_job = record {
  schema_version = 1;
  execution_id = bytes "job";
  generation = 1;
  state = ExecutionState.accepted;
  result = none;
}

abbrev admission : Admission
admission = record {
  canonical_version = 2;
  digest = bytes "digest";
  principal_id = bytes "user";
  lease_token_hash = bytes "token";
  lease_expires_unix_ms = 500;
}

abbrev job_row : Row Encoded
job_row = record {
  execution_id = bytes "job";
  generation = 1;
  canonical_version = 2;
  digest = bytes "digest";
  principal_id = bytes "user";
  lease_token_hash = bytes "token";
  lease_expires_unix_ms = 500;
  last_renewal_id = none;
  state = "Accepted";
  next_sequence = 1;
  snapshot_json = a_snapshot accepted_job;
  created_unix_ms = 100;
  updated_unix_ms = 100;
}

abbrev pub admitted : Db Encoded
admitted = record { executions = job_row ∷ []; events = []; node_metrics = [] }

admit :
    reserve kept accepted_job admission 100 (empty_db kept) ≡ ok (ReserveResult.created, admitted)
unfolding reserve eggwork.Store.Tables.find_row eggwork.Store.Tables.latest
    eggwork.Store.Tables.state_name
admit = refl

admitted_sound : IsStore kept admitted
admitted_sound =
    Reached-IsStore kept admitted
      (stepped created (reserving accepted_job admission 100 ReserveResult.created admit))

abbrev pub job : ExecutionRecord
job = record { snapshot = accepted_job; cancelled = false; draining = false; sent = [] }

Agrees-job : Agrees kept job admitted
unfolding eggwork.Store.Tables.find_row eggwork.Store.Tables.same_key eggwork.Prelude.Bytes.bytes_eq
    eggwork.Store.Tables.state_name
Agrees-job = record {
  journal = admitted_sound.journal;
  row = job_row;
  found = refl;
  state = refl;
  stored = refl;
}

publish-Published_example :
    Published kept ExecutionState.running none
      (EventKind.state ExecutionState.running)
      job
      admitted
      (publish kept 110 ExecutionState.running none
        (EventKind.state ExecutionState.running)
        (job, admitted))
publish-Published_example =
    publish-Published kept 110 ExecutionState.running none (EventKind.state ExecutionState.running)
      job admitted Agrees-job

abbrev unlimited : ResourceSetupRequest
unlimited = record {
  memory_bytes = Requirement.not_requested;
  cpu_millis = Requirement.not_requested;
  pids = Requirement.not_requested;
}

-- The runner could not start the child, and the workspace could not be kept.
settled-finalized_example : ResultIsSettled (err (RunnerError.spawn (bytes "no such file"))) false (
    finalized false
      (some (record { has_outputs = true; captured = none; marked_terminal = false }))
      (settled
        (err (RunnerError.spawn (bytes "no such file")))
        false
        SandboxRequest.none
        unlimited))
settled-finalized_example =
    settled-finalized (err (RunnerError.spawn (bytes "no such file"))) false false
      SandboxRequest.none unlimited
      (some (record { has_outputs = true; captured = none; marked_terminal = false }))

abbrev node : NodeState
node = record {
  capabilities_features =
      landlock_workspace_rw_capability ∷ bytes "resources.cgroups-v2.memory" ∷ [];
  draining = false;
  persistently_draining = false;
}

abbrev wire : ExecuteRequest
wire = record {
  schema_version = 1;
  handle = record { execution_id = bytes "job"; generation = 1; lease_id = bytes "lease" };
  workspace_id = some (bytes "work");
  spec = record {
    schema_version = 1;
    command = record {
      argv = bytes "make" ∷ [];
      cwd = none;
      environment = [];
      stdin = StdinPolicy.null;
      timeout_millis = 1000;
      output = default_output;
      declared_outputs = [];
      resources = record {
        memory_bytes = Requirement.required 1024;
        cpu_millis = Requirement.not_requested;
        pids = Requirement.best_effort 8;
      };
      isolation = IsolationRequirement.required;
      network = NetworkRequirement.unrestricted;
    };
    metadata = [];
  };
}

checked : check_request open_policy (bytes "user") node wire ≡ ok tt
unfolding check_request eggwork.Core.Command.validate_spec eggwork.Core.Command.validate_command
    eggwork.Prelude.Bytes.contains eggwork.Prelude.Distinct.repeats
    eggwork.Core.Environment.validate_stdin eggwork.Core.Environment.validate_output
    eggwork.Core.Resources.validate_resources eggwork.Prelude.Bytes.bytes_eq
checked = refl

check_request-IsAdmissible_example : IsAdmissible open_policy (bytes "user") node wire
check_request-IsAdmissible_example =
    check_request-IsAdmissible open_policy (bytes "user") node wire checked

abbrev two_recent : List Recent
two_recent =
    record { id = bytes "job"; is_over = true }
    ∷ record { id = bytes "other"; is_over = false }
    ∷ []

two_apart : HasKeysOnce two_recent
unfolding eggwork.Prelude.Bytes.bytes_eq
two_apart = ((refl, tt), (tt, tt))

make_room-exact_example :
    (not_over (make_room two_recent) ≡ not_over two_recent)
    × (length (make_room two_recent)
        ≡ length two_recent
          - min (length two_recent + 1 - max_recent_executions) (length (over two_recent)))
make_room-exact_example = make_room-exact two_recent two_apart
