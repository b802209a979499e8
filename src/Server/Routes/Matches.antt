-- ===== src/Server/Routes/Matches.antt =====
-- crates/eggwork-server/src/lib.rs: the operation, and the resource that the path names, of each route
-- of `operation_for`.
use mathlib.Core.Option
use eggwork.Prelude.{
  ◌≡◌, refl, ap, subst, ◌∙◌, ◌⊎◌, arith, Bool, true, false, ◌&&◌, List, [], ◌∷◌, Option, none, some,
  All, Bool-cases, Option-cases, inl, inr, if◌then◌else◌,
}
use eggwork.Prelude.Bytes.{Bytes, bytes, bytes_eq, bytes_eq_iff, split}
use eggwork.Server.Routes.{
  Operation, ResourceId, Route, Arm, arms, first_arm, arm_or, as_execution, as_artifact, as_blob,
  artifact_route, execution_route, control_route, blob_route, is_v1, parts_route, operation_for,
  resource_of_parts,
}

-- The resource that a route carries from its path. The other routes carry none; `execute`, the
-- blob queries and preparations, and the workspaces name what they work on in their bodies.
abbrev pub path_resource : Route → Option ResourceId
path_resource (Route.observe id) = some (ResourceId.execution id)
path_resource (Route.cancel id) = some (ResourceId.execution id)
path_resource (Route.renew id) = some (ResourceId.execution id)
path_resource (Route.events id) = some (ResourceId.execution id)
path_resource (Route.artifact_list id) = some (ResourceId.execution id)
path_resource (Route.blob_upload digest) = some (ResourceId.blob digest)
path_resource (Route.blob_download digest) = some (ResourceId.blob digest)
path_resource (Route.artifact_download id) = some (ResourceId.artifact id)
path_resource Route.capabilities = none
path_resource Route.status = none
path_resource Route.telemetry = none
path_resource Route.execute = none
path_resource Route.blob_missing = none
path_resource Route.blob_prepare = none
path_resource Route.blob_invalid_digest = none
path_resource Route.workspace_create = none
path_resource Route.workspace_derive = none

-- The operation that a route stands for: reading and writing through `/v1/blobs` differ by method.
abbrev pub Serves : Operation → Route → Type 0
Serves operation Route.capabilities = operation ≡ Operation.capabilities
Serves operation Route.status = operation ≡ Operation.status
Serves operation Route.telemetry = operation ≡ Operation.telemetry
Serves operation Route.execute = operation ≡ Operation.execute
Serves operation (Route.observe id) = operation ≡ Operation.observe
Serves operation (Route.cancel id) = operation ≡ Operation.cancel
Serves operation (Route.renew id) = operation ≡ Operation.renew
Serves operation (Route.events id) = operation ≡ Operation.events
Serves operation Route.blob_missing = operation ≡ Operation.blob_read
Serves operation Route.blob_prepare = operation ≡ Operation.blob_write
Serves operation (Route.blob_upload digest) = operation ≡ Operation.blob_write
Serves operation (Route.blob_download digest) = operation ≡ Operation.blob_read
Serves operation Route.blob_invalid_digest =
    (operation ≡ Operation.blob_read) ⊎ (operation ≡ Operation.blob_write)
Serves operation Route.workspace_create = operation ≡ Operation.workspace_create
Serves operation Route.workspace_derive = operation ≡ Operation.workspace_create
Serves operation (Route.artifact_list id) = operation ≡ Operation.artifact_read
Serves operation (Route.artifact_download id) = operation ≡ Operation.artifact_read

-- An operation and a route that belong together, on the parts of a path.
abbrev Matches : List Bytes → Operation × Route → Type 0
Matches parts found =
    Serves found.0 found.1 × (resource_of_parts found.0 parts ≡ path_resource found.1)

arms_match : All (λ arm. Matches (split b'/' arm.path) (arm.operation, arm.route)) arms
unfolding resource_of_parts split eggwork.Core.Id.parse_digest
arms_match = (
  (refl, refl),
  (
    (refl, refl),
    (
      (refl, refl),
      ((refl, refl), ((refl, refl), ((refl, refl), ((refl, refl), ((refl, refl), tt))))),
    ),
  ),
)

if_some :
    {A : Type 0} (test : Bool) (x : A) (rest : Option A) (y : A)
    → (if test then some x else rest) ≡ some y
    → ((test ≡ true) × (x ≡ y)) ⊎ (rest ≡ some y)
if_some true x rest y e = inl (refl, cc)
if_some false x rest y e = inr e

first_arm-Matches :
    (method path : Bytes) (others : List Arm) (found : Operation × Route)
    → All (λ arm. Matches (split b'/' arm.path) (arm.operation, arm.route)) others
    → first_arm method path others ≡ some found
    → Matches (split b'/' path) found
unfolding first_arm
first_arm-Matches method path [] found h e = cc
first_arm-Matches method path (arm ∷ others) found h e =
    elim (if_some (bytes_eq method arm.method && bytes_eq path arm.path) _ _ _ e) [
      | inl (here, same) ↦
          let both : bytes_eq path arm.path ≡ true = ground (arith, here) in
          let at = (bytes_eq_iff path arm.path).0 both in
          subst (Matches (split b'/' path)) same (rw at h.0)
      | inr later ↦ first_arm-Matches method path others found h.1 later
    ]

artifact_route-Matches :
    (a b d method : Bytes) (found : Operation × Route)
    → artifact_route method (as_artifact d) ≡ some found
    → Matches (a ∷ b ∷ bytes "artifacts" ∷ d ∷ []) found
unfolding resource_of_parts bytes_eq
artifact_route-Matches a b d method found e = elim (Option-cases (as_artifact d)) [
  | inl bad ↦ let e₁ = rw bad at e in cc
  | inr (id, good) ↦
      let e₁ = rw good at e in
      elim (if_some (bytes_eq method (bytes "GET")) _ _ _ e₁) [
        | inl (get, same) ↦ subst (Matches _) same (refl, ap (Option.map ResourceId.artifact) good)
        | inr other ↦ cc
      ]
]

execution_route-Matches :
    (a b c d method : Bytes) (found : Operation × Route)
    → execution_route method (as_execution d) ≡ some found
    → Matches (a ∷ b ∷ c ∷ d ∷ []) found
unfolding resource_of_parts
execution_route-Matches a b c d method found e = elim (Option-cases (as_execution d)) [
  | inl bad ↦ let e₁ = rw bad at e in cc
  | inr (id, good) ↦
      let e₁ = rw good at e in
      elim (if_some (bytes_eq method (bytes "GET")) _ _ _ e₁) [
        | inl (get, same) ↦ subst (Matches _) same (refl, ap (Option.map ResourceId.execution) good)
        | inr other ↦ cc
      ]
]

control_route-Matches :
    (a b d last method : Bytes) (found : Operation × Route)
    → control_route method last (as_execution d) ≡ some found
    → Matches (a ∷ b ∷ bytes "executions" ∷ d ∷ last ∷ []) found
unfolding resource_of_parts bytes_eq
control_route-Matches a b d last method found e = elim (Option-cases (as_execution d)) [
  | inl bad ↦ let e₁ = rw bad at e in cc
  | inr (id, good) ↦
      let e₁ = rw good at e in
      let owned = ap (Option.map ResourceId.execution) good in
      elim (if_some (bytes_eq method (bytes "POST") && bytes_eq last (bytes "cancel")) _ _ _ e₁) [
        | inl (is, same) ↦ subst (Matches _) same (refl, owned)
        | inr e₂ ↦
            elim (if_some (bytes_eq method (bytes "POST") && bytes_eq last (bytes "renew")) _ _ _
              e₂) [
                | inl (is, same) ↦ subst (Matches _) same (refl, owned)
                | inr e₃ ↦
                    elim (if_some (bytes_eq method (bytes "GET") && bytes_eq last (bytes "events"))
                      _ _ _ e₃) [
                        | inl (is, same) ↦ subst (Matches _) same (refl, owned)
                        | inr e₄ ↦
                            elim (if_some
                              (bytes_eq method (bytes "GET") && bytes_eq last (bytes "artifacts")) _
                              _ _ e₄) [
                                | inl (is, same) ↦ subst (Matches _) same (refl, owned)
                                | inr other ↦ cc
                              ]
                      ]
              ]
      ]
]

literal : (c name : Bytes) (before : Bool) → (before && bytes_eq c name) ≡ true → c ≡ name
literal c name before h =
    let same : bytes_eq c name ≡ true = ground (arith, h) in (bytes_eq_iff c name).0 same

blob_route-Matches :
    (a b c d method : Bytes) (found : Operation × Route)
    → blob_route method (as_blob d) ≡ some found
    → Matches (a ∷ b ∷ c ∷ d ∷ []) found
unfolding resource_of_parts
blob_route-Matches a b c d method found e = elim (Option-cases (as_blob d)) [
  | inl bad ↦
      let e₁ = rw bad at e in
      let unnamed = ap (Option.map ResourceId.blob) bad in
      elim (if_some (bytes_eq method (bytes "PUT")) _ _ _ e₁) [
        | inl (put, same) ↦ subst (Matches _) same (inr refl, unnamed)
        | inr e₂ ↦ elim (if_some (bytes_eq method (bytes "GET")) _ _ _ e₂) [
          | inl (get, same) ↦ subst (Matches _) same (inl refl, unnamed)
          | inr other ↦ cc
        ]
      ]
  | inr (digest, good) ↦
      let e₁ = rw good at e in
      let owned = ap (Option.map ResourceId.blob) good in
      elim (if_some (bytes_eq method (bytes "PUT")) _ _ _ e₁) [
        | inl (put, same) ↦ subst (Matches _) same (refl, owned)
        | inr e₂ ↦ elim (if_some (bytes_eq method (bytes "GET")) _ _ _ e₂) [
          | inl (get, same) ↦ subst (Matches _) same (refl, owned)
          | inr other ↦ cc
        ]
      ]
]

parts_route-Matches :
    (method : Bytes) (parts : List Bytes) (found : Operation × Route)
    → parts_route method parts ≡ some found
    → Matches parts found
unfolding parts_route
parts_route-Matches method [] found e = cc
parts_route-Matches method (a ∷ []) found e = cc
parts_route-Matches method (a ∷ b ∷ []) found e = cc
parts_route-Matches method (a ∷ b ∷ c ∷ []) found e = cc
parts_route-Matches method (a ∷ b ∷ c ∷ d ∷ []) found e =
    elim (Bool-cases (is_v1 a b && bytes_eq c (bytes "artifacts"))) [
      | inl is ↦
          rw (literal c _ (is_v1 a b) is) (artifact_route-Matches a b d method found (rw is at e))
      | inr isnt ↦
          let e₁ = rw isnt at e in
          elim (Bool-cases (is_v1 a b && bytes_eq c (bytes "executions"))) [
            | inl is ↦ execution_route-Matches a b c d method found (rw is at e₁)
            | inr isnt₁ ↦
                let e₂ = rw isnt₁ at e₁ in
                elim (Bool-cases (is_v1 a b && bytes_eq c (bytes "blobs"))) [
                  | inl is ↦ blob_route-Matches a b c d method found (rw is at e₂)
                  | inr isnt₂ ↦ let e₃ = rw isnt₂ at e₂ in cc
                ]
          ]
    ]
parts_route-Matches method (a ∷ b ∷ c ∷ d ∷ last ∷ []) found e =
    elim (Bool-cases (is_v1 a b && bytes_eq c (bytes "executions"))) [
      | inl is ↦
          rw (literal c _ (is_v1 a b) is)
            (control_route-Matches a b d last method found (rw is at e))
      | inr isnt ↦ let e₁ = rw isnt at e in cc
    ]
parts_route-Matches method (a ∷ b ∷ c ∷ d ∷ last ∷ more ∷ parts) found e = cc

pub operation_for-Matches :
    (method path : Bytes) (found : Operation × Route)
    → operation_for method path ≡ some found
    → Matches (split b'/' path) found
unfolding operation_for
operation_for-Matches method path found e = elim (Option-cases (first_arm method path arms)) [
  | inl missing ↦ parts_route-Matches method (split b'/' path) found (rw missing at e)
  | inr (first, here) ↦
      let e₁ : arm_or (some first) (parts_route method (split b'/' path)) ≡ some found =
        rw here at e in
      let same : first ≡ found = cc in
      first_arm-Matches method path arms found arms_match (here ∙ ap some same)
]
