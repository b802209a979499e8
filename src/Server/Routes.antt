-- ===== src/Server/Routes.antt =====
-- crates/eggwork-server/src/lib.rs: which operation and route a request names, on which resource it
-- is authorized, and the refusals of `dispatch` before a handler runs. A request's parts that the
-- HTTP library reads (method, path, TLS state) are given.
pub mod Matches
pub mod Authorized
use mathlib.Core.Option
use eggwork.Prelude.{
  ℕ, zero, suc, ◌*◌, Bool, true, false, not, ◌&&◌, ◌||◌, List, [], ◌∷◌, Option, none, some, any,
  length, ltb, ok, err, if◌then◌else◌,
}
use eggwork.Prelude.Bytes.{Bytes, bytes, bytes_eq, split}
use eggwork.Core.Error.{Checked}
use eggwork.Core.Id.{new_id, parse_digest}

pub data Operation : Type 0 where
  capabilities status telemetry execute observe cancel renew : Operation
  events blob_read blob_write workspace_create artifact_read : Operation

pub data ResourceId : Type 0 where
  execution blob workspace artifact : Bytes → ResourceId

pub data Route : Type 0 where
  capabilities status telemetry execute : Route
  observe cancel renew events : Bytes → Route
  blob_missing blob_prepare : Route
  blob_upload blob_download : Bytes → Route
  blob_invalid_digest workspace_create workspace_derive : Route
  artifact_list artifact_download : Bytes → Route

-- `Result::ok`
abbrev pub accepted {ℓ} : {A : Type ℓ} → Checked A → Option A
accepted (ok x) = some x
accepted (err e) = none

-- `ExecutionId::new(..).ok()` and the like
abbrev pub as_execution : Bytes → Option Bytes
as_execution value = accepted (new_id "execution id" value)

abbrev pub as_artifact : Bytes → Option Bytes
as_artifact value = accepted (new_id "artifact id" value)

abbrev pub as_blob : Bytes → Option Bytes
as_blob value = accepted (parse_digest value)

-- An arm of the `match (method, path)` whose two patterns are literals.
pub record Arm : Type 0 where
  pub method : Bytes
  pub path : Bytes
  pub operation : Operation
  pub route : Route

abbrev pub arms : List Arm
arms =
    record {
      method = bytes "GET";
      path = bytes "/v1/capabilities";
      operation = Operation.capabilities;
      route = Route.capabilities;
    }
    ∷ record {
      method = bytes "GET";
      path = bytes "/v1/status";
      operation = Operation.status;
      route = Route.status;
    }
    ∷ record {
      method = bytes "GET";
      path = bytes "/v1/node/telemetry";
      operation = Operation.telemetry;
      route = Route.telemetry;
    }
    ∷ record {
      method = bytes "POST";
      path = bytes "/v1/executions";
      operation = Operation.execute;
      route = Route.execute;
    }
    ∷ record {
      method = bytes "POST";
      path = bytes "/v1/blobs/missing";
      operation = Operation.blob_read;
      route = Route.blob_missing;
    }
    ∷ record {
      method = bytes "POST";
      path = bytes "/v1/blobs/prepare";
      operation = Operation.blob_write;
      route = Route.blob_prepare;
    }
    ∷ record {
      method = bytes "POST";
      path = bytes "/v1/workspaces";
      operation = Operation.workspace_create;
      route = Route.workspace_create;
    }
    ∷ record {
      method = bytes "POST";
      path = bytes "/v1/workspaces/derive";
      operation = Operation.workspace_create;
      route = Route.workspace_derive;
    }
    ∷ []

unfoldable pub first_arm : Bytes → Bytes → List Arm → Option (Operation × Route)
first_arm method path [] = none
first_arm method path (arm ∷ others) =
    let rest = first_arm method path others in
    if bytes_eq method arm.method && bytes_eq path arm.path
    then some (arm.operation, arm.route)
    else rest

abbrev pub artifact_route : Bytes → Option Bytes → Option (Operation × Route)
artifact_route method none = none
artifact_route method (some id) =
    if bytes_eq method (bytes "GET")
    then some (Operation.artifact_read, Route.artifact_download id)
    else none

abbrev pub execution_route : Bytes → Option Bytes → Option (Operation × Route)
execution_route method none = none
execution_route method (some id) =
    if bytes_eq method (bytes "GET") then some (Operation.observe, Route.observe id) else none

-- The `match (method, parts[4])`.
abbrev pub control_route : Bytes → Bytes → Option Bytes → Option (Operation × Route)
control_route method last none = none
control_route method last (some id) =
    if bytes_eq method (bytes "POST") && bytes_eq last (bytes "cancel")
    then some (Operation.cancel, Route.cancel id)
    else if bytes_eq method (bytes "POST") && bytes_eq last (bytes "renew")
    then some (Operation.renew, Route.renew id)
    else if bytes_eq method (bytes "GET") && bytes_eq last (bytes "events")
    then some (Operation.events, Route.events id)
    else if bytes_eq method (bytes "GET") && bytes_eq last (bytes "artifacts")
    then some (Operation.artifact_read, Route.artifact_list id)
    else none

abbrev pub blob_route : Bytes → Option Bytes → Option (Operation × Route)
blob_route method none =
    if bytes_eq method (bytes "PUT")
    then some (Operation.blob_write, Route.blob_invalid_digest)
    else if bytes_eq method (bytes "GET")
    then some (Operation.blob_read, Route.blob_invalid_digest)
    else none
blob_route method (some digest) =
    if bytes_eq method (bytes "PUT")
    then some (Operation.blob_write, Route.blob_upload digest)
    else if bytes_eq method (bytes "GET")
    then some (Operation.blob_read, Route.blob_download digest)
    else none

-- `parts[..2] == ["", "v1"]`
abbrev pub is_v1 : Bytes → Bytes → Bool
is_v1 a b = bytes_eq a [] && bytes_eq b (bytes "v1")

-- The `_` arm, on a path of four or of five parts.
unfoldable pub parts_route : Bytes → List Bytes → Option (Operation × Route)
parts_route method (a ∷ b ∷ c ∷ d ∷ []) =
    if is_v1 a b && bytes_eq c (bytes "artifacts")
    then artifact_route method (as_artifact d)
    else if is_v1 a b && bytes_eq c (bytes "executions")
    then execution_route method (as_execution d)
    else if is_v1 a b && bytes_eq c (bytes "blobs")
    then blob_route method (as_blob d)
    else none
parts_route method (a ∷ b ∷ c ∷ d ∷ e ∷ []) =
    if is_v1 a b && bytes_eq c (bytes "executions")
    then control_route method e (as_execution d)
    else none
parts_route method parts = none

-- The arms before the `_` arm come first.
abbrev pub arm_or :
    Option (Operation × Route) → Option (Operation × Route) → Option (Operation × Route)
arm_or none other = other
arm_or (some found) other = some found

-- `operation_for`
unfoldable pub operation_for : Bytes → Bytes → Option (Operation × Route)
unfolding first_arm parts_route
operation_for method path =
    arm_or (first_arm method path arms) (parts_route method (split b'/' path))

-- `slice::get`
abbrev pub get_elem? : List Bytes → ℕ → Option Bytes
get_elem? [] n = none
get_elem? (x ∷ xs) zero = some x
get_elem? (x ∷ xs) (suc n) = get_elem? xs n

-- `.and_then(|part| parse(part).ok()).map(kind)`, where the part is there
abbrev pub parsed : (Bytes → Option Bytes) → (Bytes → ResourceId) → Option Bytes → Option ResourceId
parsed parse kind none = none
parsed parse kind (some part) = Option.map kind (parse part)

-- `parts.get(2) == Some(&"artifacts")`
abbrev pub names_artifacts : Option Bytes → Bool
names_artifacts none = false
names_artifacts (some part) = bytes_eq part (bytes "artifacts")

unfoldable pub resource_of_parts : Operation → List Bytes → Option ResourceId
resource_of_parts Operation.observe parts =
    parsed as_execution ResourceId.execution (get_elem? parts 3)
resource_of_parts Operation.cancel parts =
    parsed as_execution ResourceId.execution (get_elem? parts 3)
resource_of_parts Operation.renew parts =
    parsed as_execution ResourceId.execution (get_elem? parts 3)
resource_of_parts Operation.events parts =
    parsed as_execution ResourceId.execution (get_elem? parts 3)
resource_of_parts Operation.blob_read parts = parsed as_blob ResourceId.blob (get_elem? parts 3)
resource_of_parts Operation.blob_write parts = parsed as_blob ResourceId.blob (get_elem? parts 3)
resource_of_parts Operation.artifact_read parts =
    if names_artifacts (get_elem? parts 2)
    then parsed as_artifact ResourceId.artifact (get_elem? parts 3)
    else parsed as_execution ResourceId.execution (get_elem? parts 3)
resource_of_parts Operation.capabilities parts = none
resource_of_parts Operation.status parts = none
resource_of_parts Operation.telemetry parts = none
resource_of_parts Operation.execute parts = none
resource_of_parts Operation.workspace_create parts = none

-- `resource_for_path`
unfoldable pub resource_for_path : Operation → Bytes → Option ResourceId
unfolding resource_of_parts
resource_for_path operation path = resource_of_parts operation (split b'/' path)

-- What the TLS library says of a connection.
pub record Tls : Type 0 where
  pub client_authenticated : Bool
  pub peer_certificates_present : Bool
  pub peer_certificate_chain : Option (List Bytes)

-- The resolver's and the authorizer's policies, on principals by their ids.
pub record Policy : Type 0 where
  pub resolve_verified_leaf : Bytes → Option Bytes
  pub authorize_request : Bytes → Operation → Option ResourceId → Bool

-- The rest of `authenticated_principal`, on the chain.
abbrev pub resolve_chain : Policy → Option (List Bytes) → Option Bytes
resolve_chain policy none = none
resolve_chain policy (some []) = none
resolve_chain policy (some (leaf ∷ issuers)) =
    if ltb 8 (length (leaf ∷ issuers))
      || any (λ cert. ltb (64 * 1024) (length cert)) (leaf ∷ issuers)
    then none
    else policy.resolve_verified_leaf leaf

-- `authenticated_principal`
unfoldable pub authenticated_principal : Policy → Option Tls → Option Bytes
authenticated_principal policy none = none
authenticated_principal policy (some tls) =
    if not tls.client_authenticated || not tls.peer_certificates_present
    then none
    else resolve_chain policy tls.peer_certificate_chain

-- What becomes of a request: a refusal with its status and code, or the handler of its route.
pub data Dispatched : Type 0 where
  refused : ℕ → Bytes → Dispatched
  handled : Bytes → Route → Dispatched

abbrev pub authorize_route : Policy → Bytes → Option Bytes → Option (Operation × Route) → Dispatched
authorize_route policy path client none = refused 404 (bytes "not_found")
authorize_route policy path none (some (operation, route)) = refused 401 (bytes "unauthenticated")
authorize_route policy path (some principal) (some (operation, route)) =
    if policy.authorize_request principal operation (resource_for_path operation path)
    then handled principal route
    else refused 403 (bytes "forbidden")

-- `dispatch`, up to the call of the handler.
unfoldable pub dispatch : Policy → Option Tls → Bytes → Bytes → Dispatched
unfolding authenticated_principal operation_for
dispatch policy tls method path =
    authorize_route policy path (authenticated_principal policy tls) (operation_for method path)
