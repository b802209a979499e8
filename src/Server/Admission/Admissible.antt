-- ===== src/Server/Admission/Admissible.antt =====
-- crates/eggwork-server/src/lib.rs, `execute`: what a request that passes the checks satisfies.
use eggwork.Prelude.{
  ◌≡◌, ◌≢◌, refl, sym, ap, ◌∙◌, ◌==◌, Bool, true, false, not, ◌&&◌, ◌||◌, arith, List, [], ◌∷◌,
  Option, none, some, Memᴰ, is_some, ok, err, reject_if, reject_if-eq-ok, >>-eq-ok, Bool-cases, inl,
  inr,
}
use eggwork.Prelude.Bytes.{Bytes, bytes, bytes_eq, bytes_eq_iff}
use eggwork.Core.Error.{Validation}
use eggwork.Core.Resources.{ResourceRequirements}
use eggwork.Core.Command.{IsolationRequirement, NetworkRequirement, validate_spec}
use eggwork.Runner.Setup.{is_required}
use eggwork.Server.Routes.{Operation, ResourceId, Policy}
use eggwork.Server.Admission.{
  api_schema_version, landlock_workspace_rw_capability, has, check_isolation_supported,
  check_resources_supported, check_network_supported, ExecuteRequest, NodeState, Refusal,
  may_execute, lacks_workspace, declares_none, or_refusal, check_request,
}

-- What a request has to meet, without the order in which it is checked.
pub record IsAdmissible (policy : Policy) (principal : Bytes) (node : NodeState)
    (wire : ExecuteRequest) : Type 0 where
  pub version :
      (wire.schema_version ≡ api_schema_version) × (wire.spec.schema_version ≡ api_schema_version)
  pub execution :
      policy.authorize_request principal Operation.execute
        (some (ResourceId.execution wire.handle.execution_id))
      ≡ true
  pub workspace :
      (id : Bytes)
      → wire.workspace_id ≡ some id
      → policy.authorize_request principal Operation.execute (some (ResourceId.workspace id)) ≡ true
  pub generation : wire.handle.generation ≢ 0
  pub spec : validate_spec wire.spec ≡ ok tt
  pub outputs : wire.workspace_id ≡ none → wire.spec.command.declared_outputs ≡ []
  pub open_node : (node.draining ≡ false) × (node.persistently_draining ≡ false)
  pub isolation :
      wire.spec.command.isolation ≡ IsolationRequirement.required
      → Memᴰ landlock_workspace_rw_capability node.capabilities_features
  pub memory :
      is_required wire.spec.command.resources.memory_bytes ≡ true
      → Memᴰ (bytes "resources.cgroups-v2.memory") node.capabilities_features
  pub cpu :
      is_required wire.spec.command.resources.cpu_millis ≡ true
      → Memᴰ (bytes "resources.cgroups-v2.cpu") node.capabilities_features
  pub pids :
      is_required wire.spec.command.resources.pids ≡ true
      → Memᴰ (bytes "resources.cgroups-v2.pids") node.capabilities_features
  pub network : wire.spec.command.network ≡ NetworkRequirement.unrestricted

has-Mem :
    (features : List Bytes) (feature : Bytes) → has features feature ≡ true → Memᴰ feature features
has-Mem [] feature h = cc
has-Mem (f ∷ features) feature h = elim (Bool-cases (bytes_eq f feature)) [
  | inl same ↦ Memᴰ.head (sym ((bytes_eq_iff f feature).0 same))
  | inr other ↦ Memᴰ.tail (has-Mem features feature (rw other at h))
]

isolation-Mem :
    (features : List Bytes) (isolation : IsolationRequirement)
    → check_isolation_supported features isolation ≡ true
    → isolation ≡ IsolationRequirement.required
    → Memᴰ landlock_workspace_rw_capability features
unfolding check_isolation_supported
isolation-Mem features IsolationRequirement.none h e = cc
isolation-Mem features IsolationRequirement.best_effort h e = cc
isolation-Mem features IsolationRequirement.required h e = has-Mem features _ h

network-unrestricted :
    (network : NetworkRequirement)
    → check_network_supported network ≡ true
    → network ≡ NetworkRequirement.unrestricted
unfolding check_network_supported
network-unrestricted NetworkRequirement.unrestricted h = refl
network-unrestricted NetworkRequirement.disabled h = cc
network-unrestricted (NetworkRequirement.allow_listed hosts) h = cc

or_refusal-ok : (refusal : Refusal) (v : Validation) → or_refusal refusal v ≡ ok tt → v ≡ ok tt
or_refusal-ok refusal (ok u) h = refl
or_refusal-ok refusal (err e) h = cc

workspace-allowed :
    (policy : Policy) (principal : Bytes) (o : Option Bytes) (id : Bytes)
    → lacks_workspace policy principal o ≡ false
    → o ≡ some id
    → may_execute policy principal (ResourceId.workspace id) ≡ true
workspace-allowed policy principal none id h e = cc
workspace-allowed policy principal (some w) id h e =
    let same : w ≡ id = cc in
    ap (λ w. may_execute policy principal (ResourceId.workspace w)) (sym same) ∙ ground (arith, h)

outputs-none :
    (o : Option Bytes) (os : List _)
    → (not (declares_none os) && not (is_some o)) ≡ false
    → o ≡ none
    → os ≡ []
outputs-none o [] h e = refl
outputs-none none (x ∷ os) h e = cc
outputs-none (some w) (x ∷ os) h e = cc

resources-Mem :
    (features : List Bytes) (r : ResourceRequirements)
    → check_resources_supported features r ≡ true
    → (is_required r.memory_bytes ≡ true → Memᴰ (bytes "resources.cgroups-v2.memory") features)
      × (is_required r.cpu_millis ≡ true → Memᴰ (bytes "resources.cgroups-v2.cpu") features)
      × (is_required r.pids ≡ true → Memᴰ (bytes "resources.cgroups-v2.pids") features)
unfolding check_resources_supported
resources-Mem features r h =
    let parts =
      three (is_required r.memory_bytes) (is_required r.cpu_millis) (is_required r.pids) _ _ _ h in
    (
      λ needed. has-Mem features _ (parts.0 needed),
      λ needed. has-Mem features _ (parts.1 needed),
      λ needed. has-Mem features _ (parts.2 needed),
    )
  where
    three :
        (m c p x y z : Bool)
        → ((not m || x) && (not c || y) && (not p || z)) ≡ true
        → (m ≡ true → x ≡ true) × (c ≡ true → y ≡ true) × (p ≡ true → z ≡ true)
    three m c p x y z h =
        (λ e. ground (arith, h, e), λ e. ground (arith, h, e), λ e. ground (arith, h, e))

reject_if-ok : (t : Bool) (e : Refusal) → reject_if t e ≡ ok tt → t ≡ false
reject_if-ok true e h = cc
reject_if-ok false e h = refl

-- A request that passes the checks of `execute` has the version that the node speaks, in its
-- envelope and in its specification, which is valid; its principal is authorized for the execution
-- and for the workspace it names; its generation is not 0; it declares no outputs without a
-- workspace; the node is not draining; and what it requires of isolation and of each resource is
-- among the node's features, and it asks for no restriction of the network.
pub check_request-IsAdmissible :
    (policy : Policy) (principal : Bytes) (node : NodeState) (wire : ExecuteRequest)
    → check_request policy principal node wire ≡ ok tt
    → IsAdmissible policy principal node wire
unfolding check_request
check_request-IsAdmissible policy principal node wire h =
    let (version, h₁) = reject_if-eq-ok (not (wire.schema_version == api_schema_version)) _ _ h in
    let (allowed, h₂) =
      reject_if-eq-ok
        (not (may_execute policy principal (ResourceId.execution wire.handle.execution_id))
          || lacks_workspace policy principal wire.workspace_id)
        _ _ h₁ in
    let (generation, h₃) = reject_if-eq-ok (wire.handle.generation == 0) _ _ h₂ in
    let (inner, h₄) =
      reject_if-eq-ok (not (wire.spec.schema_version == api_schema_version)) _ _ h₃ in
    let (valid, h₅) = >>-eq-ok (or_refusal _ (validate_spec wire.spec)) _ h₄ in
    let (outputs, h₆) =
      reject_if-eq-ok
        (not (declares_none wire.spec.command.declared_outputs) && not (is_some wire.workspace_id))
        _ _ h₅ in
    let (open_node, h₇) = reject_if-eq-ok (node.draining || node.persistently_draining) _ _ h₆ in
    let (isolation, h₈) =
      reject_if-eq-ok
        (not (check_isolation_supported node.capabilities_features wire.spec.command.isolation)) _ _
        h₇ in
    let (resources, h₉) =
      reject_if-eq-ok
        (not (check_resources_supported node.capabilities_features wire.spec.command.resources)) _ _
        h₈ in
    let network = reject_if-ok (not (check_network_supported wire.spec.command.network)) _ h₉ in
    let needs =
      resources-Mem node.capabilities_features wire.spec.command.resources
        (ground (arith, resources)) in
    record {
      version = (ground (arith, version), ground (arith, inner));
      execution = ground (arith, allowed);
      workspace = λ id e.
          workspace-allowed policy principal wire.workspace_id id (ground (arith, allowed)) e;
      generation = ground (arith, generation);
      spec = or_refusal-ok _ (validate_spec wire.spec) valid;
      outputs = outputs-none wire.workspace_id wire.spec.command.declared_outputs outputs;
      open_node = (ground (arith, open_node), ground (arith, open_node));
      isolation =
          isolation-Mem node.capabilities_features wire.spec.command.isolation
            (ground (arith, isolation));
      memory = needs.0;
      cpu = needs.1;
      pids = needs.2;
      network = network-unrestricted wire.spec.command.network (ground (arith, network));
    }
