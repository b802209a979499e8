-- ===== src/Runner/Setup/Required.antt =====
-- crates/eggwork-runner/src/lib.rs, `ExecutionSetup::prepare` of `TrustedLandlockSetup`: what is
-- required is enforced or refused, what is best effort never fails an execution.
use eggwork.Prelude.{
  true, false, ◌≡◌, refl, sym, ap, subst, ◌∙◌, arith, Result, ok, err, >>=-eq-ok, Bool-cases, inl,
  inr,
}
use eggwork.Prelude.Bytes.{Bytes, bytes, bytes_eq_iff}
use eggwork.Runner.Setup.{
  SandboxRequest, SandboxOutcome, ResourceSetupRequest, ResourceSetupOutcome, SetupOutcome,
  TrustedSetup, is_requested, has_required, is_workspace_rw, sandbox_is_required, settle_controls,
  require_helper, probe_controls, check_helper, prepare_sandbox, trusted_prepare,
}

-- What a prepared request may rely on.
pub record Enforces (host : TrustedSetup) (sandbox : SandboxRequest)
    (resources : ResourceSetupRequest) (outcome : SetupOutcome) : Type 0 where
  pub confined :
      (profile : Bytes)
      → sandbox ≡ SandboxRequest.required profile
      → (outcome.sandbox ≡ SandboxOutcome.applied profile)
        × (profile ≡ bytes "workspace_rw")
        × (host.verify_for_sandbox ≡ ok tt)
  pub controlled :
      has_required resources ≡ true
      → (outcome.resources ≡ ResourceSetupOutcome.applied (bytes "systemd-cgroup-v2"))
        × (host.probe resources ≡ ok tt)
        × (host.verify_for_controls ≡ ok tt)

required_is_requested :
    (resources : ResourceSetupRequest)
    → has_required resources ≡ true
    → is_requested resources ≡ true
required_is_requested resources h = ground arith

settle-required :
    (resources : ResourceSetupRequest) (backend : Bytes) (checked : Result Bytes (Unit {0}))
    (controls : ResourceSetupOutcome)
    → has_required resources ≡ true
    → settle_controls resources backend checked ≡ ok controls
    → (controls ≡ ResourceSetupOutcome.applied backend) × (checked ≡ ok tt)
settle-required resources backend (ok u) controls needed h = (cc, refl)
settle-required resources backend (err reason) controls needed h = ground (arith, needed, h)

probe-required :
    (host : TrustedSetup) (resources : ResourceSetupRequest)
    (probed controls : ResourceSetupOutcome)
    → has_required resources ≡ true
    → probe_controls host resources ≡ ok probed
    → check_helper host resources probed ≡ ok controls
    → (controls ≡ ResourceSetupOutcome.applied (bytes "systemd-cgroup-v2"))
      × (host.probe resources ≡ ok tt)
      × (host.verify_for_controls ≡ ok tt)
unfolding probe_controls check_helper
probe-required host resources probed controls needed found checked =
    let asked = required_is_requested resources needed in
    let settled = rw asked at found in
    let first =
      settle-required resources (bytes "systemd-cgroup-v2") (host.probe resources) probed needed
        settled in
    let kept = rw first.0 at checked in
    let second =
      settle-required resources (bytes "systemd-cgroup-v2") host.verify_for_controls controls needed
        kept in
    (second.0, first.1, second.1)

require_helper-ok :
    (profile : Bytes) (verified : Result Bytes (Unit {0})) (outcome : SandboxOutcome)
    → require_helper profile verified ≡ ok outcome
    → (outcome ≡ SandboxOutcome.applied profile) × (verified ≡ ok tt)
require_helper-ok profile (ok u) outcome h = (cc, refl)
require_helper-ok profile (err reason) outcome h = ground (arith, h)

sandbox-required :
    (host : TrustedSetup) (profile : Bytes) (outcome : SandboxOutcome)
    → prepare_sandbox host (SandboxRequest.required profile) ≡ ok outcome
    → (outcome ≡ SandboxOutcome.applied profile)
      × (profile ≡ bytes "workspace_rw")
      × (host.verify_for_sandbox ≡ ok tt)
unfolding prepare_sandbox
sandbox-required host profile outcome h = elim (Bool-cases (is_workspace_rw profile)) [
  | inl known ↦
      let kept = rw known at h in
      let held = require_helper-ok profile host.verify_for_sandbox outcome kept in
      (held.0, (bytes_eq_iff profile (bytes "workspace_rw")).0 known, held.1)
  | inr unknown ↦ let refused = rw unknown at h in ground (arith, refused)
]

parts-Enforces :
    (host : TrustedSetup) (sandbox : SandboxRequest) (resources : ResourceSetupRequest)
    (probed controls : ResourceSetupOutcome) (outcome : SandboxOutcome)
    → probe_controls host resources ≡ ok probed
    → check_helper host resources probed ≡ ok controls
    → prepare_sandbox host sandbox ≡ ok outcome
    → Enforces host sandbox resources (record { sandbox = outcome; resources = controls })
parts-Enforces host sandbox resources probed controls outcome found checked prepared = record {
  confined = λ profile e.
      sandbox-required host profile outcome (ap (prepare_sandbox host) (sym e) ∙ prepared);
  controlled = λ needed. probe-required host resources probed controls needed found checked;
}

-- A request that the trusted setup prepares gets what it requires: a required sandbox is applied
-- with the requested profile, which is `workspace_rw`, and a required resource control is applied,
-- where the helper is trusted and, for the controls, the live probe found them.
pub trusted_prepare-Enforces :
    (host : TrustedSetup) (sandbox : SandboxRequest) (resources : ResourceSetupRequest)
    (outcome : SetupOutcome)
    → trusted_prepare host sandbox resources ≡ ok outcome
    → Enforces host sandbox resources outcome
unfolding trusted_prepare
trusted_prepare-Enforces host sandbox resources outcome h =
    let (probed, found, rest) = >>=-eq-ok (probe_controls host resources) _ h in
    let (controls, checked, rest₁) = >>=-eq-ok (check_helper host resources probed) _ rest in
    let (landed, prepared, done) = >>=-eq-ok (prepare_sandbox host sandbox) _ rest₁ in
    let whole : record { sandbox = landed; resources = controls } ≡ outcome = cc in
    subst (Enforces host sandbox resources) whole
      (parts-Enforces host sandbox resources probed controls landed found checked prepared)

settle-best_effort :
    (resources : ResourceSetupRequest) (backend : Bytes) (checked : Result Bytes (Unit {0}))
    → has_required resources ≡ false
    → (controls : ResourceSetupOutcome) × (settle_controls resources backend checked ≡ ok controls)
settle-best_effort resources backend (ok u) loose = (_, refl)
settle-best_effort resources backend (err reason) loose = rw loose (_, refl)

probe-best_effort :
    (host : TrustedSetup) (resources : ResourceSetupRequest)
    → has_required resources ≡ false
    → (controls : ResourceSetupOutcome) × (probe_controls host resources ≡ ok controls)
unfolding probe_controls
probe-best_effort host resources loose = elim (Bool-cases (is_requested resources)) [
  | inl asked ↦
      rw asked
        (settle-best_effort resources (bytes "systemd-cgroup-v2") (host.probe resources) loose)
  | inr unasked ↦ rw unasked (_, refl)
]

helper-best_effort :
    (host : TrustedSetup) (resources : ResourceSetupRequest) (probed : ResourceSetupOutcome)
    → has_required resources ≡ false
    → (controls : ResourceSetupOutcome) × (check_helper host resources probed ≡ ok controls)
unfolding check_helper
helper-best_effort host resources (ResourceSetupOutcome.applied backend) loose =
    settle-best_effort resources backend host.verify_for_controls loose
helper-best_effort host resources ResourceSetupOutcome.not_requested loose = (_, refl)
helper-best_effort host resources (ResourceSetupOutcome.not_applied reason) loose = (_, refl)
helper-best_effort host resources (ResourceSetupOutcome.failed reason) loose = (_, refl)

sandbox-best_effort :
    (host : TrustedSetup) (sandbox : SandboxRequest)
    → sandbox_is_required sandbox ≡ false
    → (outcome : SandboxOutcome) × (prepare_sandbox host sandbox ≡ ok outcome)
unfolding prepare_sandbox
sandbox-best_effort host SandboxRequest.none free = (_, refl)
sandbox-best_effort host (SandboxRequest.best_effort profile) free =
    elim (Bool-cases (is_workspace_rw profile)) [
      | inl known ↦ rw known (_, refl)
      | inr unknown ↦ rw unknown (_, refl)
    ]
sandbox-best_effort host (SandboxRequest.required profile) free = cc

-- A request that requires nothing is always prepared, whatever the probe and the helper check say.
trusted_prepare-best_effort :
    (host : TrustedSetup) (sandbox : SandboxRequest) (resources : ResourceSetupRequest)
    → sandbox_is_required sandbox ≡ false
    → has_required resources ≡ false
    → (outcome : SetupOutcome) × (trusted_prepare host sandbox resources ≡ ok outcome)
unfolding trusted_prepare
trusted_prepare-best_effort host sandbox resources free loose =
    let (probed, found) = probe-best_effort host resources loose in
    let (controls, checked) = helper-best_effort host resources probed loose in
    let (landed, prepared) = sandbox-best_effort host sandbox free in
    rw (found, checked, prepared) (_, refl)
