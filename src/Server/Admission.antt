-- ===== src/Server/Admission.antt =====
-- crates/eggwork-server/src/lib.rs: the features that a node advertises, and the checks of `execute`
-- on a decoded request before it computes the request's digest. The authorizer is given.
pub mod Admissible
use eggwork.Prelude.{
  ℕ, ◌==◌, Bool, true, false, not, ◌&&◌, ◌||◌, List, [], ◌∷◌, ◌++◌, Option, none, some, any,
  is_some, length, Result, ok, err, reject_if, ◌>>◌, if◌then◌else◌,
}
use eggwork.Prelude.Bytes.{Bytes, bytes, bytes_eq, cmp_bytes}
use eggwork.Prelude.Sorting.{sort_by}
use eggwork.Core.Error.{Validation}
use eggwork.Core.Resources.{Requirement, ResourceRequirements}
use eggwork.Core.Command.{ExecutionSpec, IsolationRequirement, NetworkRequirement, validate_spec}
use eggwork.Core.Environment.{DeclaredOutput}
use eggwork.Core.Execution.{ExecutionHandle}
use eggwork.Core.Digest.{le_of}
use eggwork.Runner.Setup.{is_required}
use eggwork.Server.Routes.{Operation, ResourceId, Policy}

abbrev pub api_schema_version : ℕ
api_schema_version = 1

-- `LANDLOCK_WORKSPACE_RW_CAPABILITY`, of the runner
abbrev pub landlock_workspace_rw_capability : Bytes
landlock_workspace_rw_capability = bytes "isolation.landlock.workspace-rw.v1"

abbrev pub static_capability_features : List Bytes
static_capability_features =
    bytes "exec.argv.v1"
    ∷ bytes "events.live.v1"
    ∷ bytes "auth.mtls.v1"
    ∷ bytes "blob.sha256.v1"
    ∷ bytes "blob.stream.v1"
    ∷ bytes "workspace.manifest.v1"
    ∷ bytes "workspace.materialize.v1"
    ∷ bytes "workspace.derive.v1"
    ∷ bytes "artifact.declared.v1"
    ∷ bytes "artifact.stream.v1"
    ∷ bytes "artifact.retention.v1"
    ∷ bytes "network.unrestricted.v1"
    ∷ []

-- `Vec::dedup`: of equal neighbours the first stays.
unfoldable pub dedup_from : Bytes → List Bytes → List Bytes
dedup_from x [] = x ∷ []
dedup_from x (y ∷ ys) =
    let same = dedup_from x ys in
    let next = x ∷ dedup_from y ys in if bytes_eq x y then same else next

unfoldable pub dedup : List Bytes → List Bytes
unfolding dedup_from
dedup [] = []
dedup (x ∷ xs) = dedup_from x xs

unfoldable pub server_capability_features : List Bytes → List Bytes
unfolding dedup
server_capability_features dynamic =
    dedup (sort_by (λ a b. le_of (cmp_bytes a b)) (static_capability_features ++ dynamic))

-- `iter().any(|f| f == feature)`
abbrev pub has : List Bytes → Bytes → Bool
has features feature = any (λ f. bytes_eq f feature) features

-- `check_isolation_supported` and its two kin, on the node's features.
unfoldable pub check_isolation_supported : List Bytes → IsolationRequirement → Bool
check_isolation_supported features IsolationRequirement.none = true
check_isolation_supported features IsolationRequirement.best_effort = true
check_isolation_supported features IsolationRequirement.required =
    has features landlock_workspace_rw_capability

unfoldable pub check_resources_supported : List Bytes → ResourceRequirements → Bool
check_resources_supported features r =
    let memory_ok =
      not (is_required r.memory_bytes) || has features (bytes "resources.cgroups-v2.memory") in
    let cpu_ok =
      not (is_required r.cpu_millis) || has features (bytes "resources.cgroups-v2.cpu") in
    let pids_ok = not (is_required r.pids) || has features (bytes "resources.cgroups-v2.pids") in
    memory_ok && cpu_ok && pids_ok

unfoldable pub check_network_supported : NetworkRequirement → Bool
check_network_supported NetworkRequirement.unrestricted = true
check_network_supported NetworkRequirement.disabled = false
check_network_supported (NetworkRequirement.allow_listed hosts) = false

pub record ExecuteRequest : Type 0 where
  pub schema_version : ℕ
  pub handle : ExecutionHandle
  pub workspace_id : Option Bytes
  pub spec : ExecutionSpec

-- What the checks read of the node: its features, and whether it drains, by its flag or by the
-- marker on disk.
pub record NodeState : Type 0 where
  pub capabilities_features : List Bytes
  pub draining : Bool
  pub persistently_draining : Bool

-- A refusal's status and code.
abbrev pub Refusal : Type 0
Refusal = ℕ × Bytes

-- `authorize_resource`, for `Operation::Execute`
abbrev pub may_execute : Policy → Bytes → ResourceId → Bool
may_execute policy principal resource =
    policy.authorize_request principal Operation.execute (some resource)

-- `is_some_and(|workspace_id| !authorize_resource(..))`
abbrev pub lacks_workspace : Policy → Bytes → Option Bytes → Bool
lacks_workspace policy principal none = false
lacks_workspace policy principal (some id) =
    not (may_execute policy principal (ResourceId.workspace id))

-- `is_empty` of the declared outputs
abbrev pub declares_none : List DeclaredOutput → Bool
declares_none [] = true
declares_none (o ∷ os) = false

-- `if let Err(error) = wire.spec.validate()`
abbrev pub or_refusal : Refusal → Validation → Result Refusal (Unit {0})
or_refusal refusal (ok u) = ok u
or_refusal refusal (err e) = err refusal

-- The checks of `execute` from the schema version to the capabilities.
unfoldable pub check_request :
    Policy → Bytes → NodeState → ExecuteRequest → Result Refusal (Unit {0})
unfolding check_isolation_supported check_resources_supported check_network_supported
check_request policy principal node wire =
    let command = wire.spec.command in
    do
      reject_if (not (wire.schema_version == api_schema_version)) (426, bytes "protocol_version")
      reject_if
          (not (may_execute policy principal (ResourceId.execution wire.handle.execution_id))
            || lacks_workspace policy principal wire.workspace_id)
          (403, bytes "forbidden")
      reject_if (wire.handle.generation == 0) (400, bytes "invalid_request")
      reject_if (not (wire.spec.schema_version == api_schema_version))
          (426, bytes "protocol_version")
      or_refusal (400, bytes "invalid_request") (validate_spec wire.spec)
      reject_if (not (declares_none command.declared_outputs) && not (is_some wire.workspace_id))
          (400, bytes "workspace_required")
      reject_if (node.draining || node.persistently_draining) (503, bytes "draining")
      reject_if (not (check_isolation_supported node.capabilities_features command.isolation))
          (409, bytes "capability_mismatch")
      reject_if (not (check_resources_supported node.capabilities_features command.resources))
          (409, bytes "capability_mismatch")
      reject_if (not (check_network_supported command.network)) (409, bytes "capability_mismatch")
