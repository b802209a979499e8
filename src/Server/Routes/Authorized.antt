-- ===== src/Server/Routes/Authorized.antt =====
-- crates/eggwork-server/src/lib.rs, `dispatch`: the resource that is authorized is the one that the
-- route carries from its path to its handler.
use eggwork.Prelude.{◌≡◌, ap, subst, true, Option, none, some, Bool-cases, inl, inr}
use eggwork.Prelude.Bytes.{Bytes, split}
use eggwork.Server.Routes.{
  Operation, Route, operation_for, resource_of_parts, resource_for_path, Tls, Policy,
  authenticated_principal, handled, authorize_route, dispatch,
}
use eggwork.Server.Routes.Matches.{path_resource, Serves, operation_for-Matches}

authorize_route-handled :
    (policy : Policy) (path : Bytes) (client : Option Bytes) (named : Option (Operation × Route))
    (principal : Bytes) (route : Route)
    → authorize_route policy path client named ≡ handled principal route
    → (operation : Operation) × (named ≡ some (operation, route))
      × (client ≡ some principal)
      × (policy.authorize_request principal operation (resource_for_path operation path) ≡ true)
authorize_route-handled policy path client none principal route h = cc
authorize_route-handled policy path none (some (operation, r)) principal route h = cc
authorize_route-handled policy path (some p) (some (operation, r)) principal route h =
    elim (Bool-cases (policy.authorize_request p operation (resource_for_path operation path))) [
      | inl allowed ↦
          let e : handled p r ≡ handled principal route = rw allowed at h in
          let who : p ≡ principal = cc in
          let what : r ≡ route = cc in
          (
            operation,
            ap (λ r. some (operation, r)) what,
            ap some who,
            subst
                (λ p.
                  policy.authorize_request p operation (resource_for_path operation path) ≡ true)
                who allowed,
          )
      | inr denied ↦ let e = rw denied at h in cc
    ]

resource-same :
    (operation : Operation) (path : Bytes) (route : Route)
    → resource_of_parts operation (split b'/' path) ≡ path_resource route
    → resource_for_path operation path ≡ path_resource route
unfolding resource_for_path
resource-same operation path route e = e

-- A request reaches a handler only when its method and path name the handler's route, its client's
-- certificate, verified by TLS, resolves to the principal that the handler is given, and the
-- authorizer allows that principal the route's own operation on the execution, artifact or blob
-- that the route carries from the path to the handler; and on no resource where the route carries
-- none.
pub dispatch-authorized :
    (policy : Policy) (tls : Option Tls) (method path principal : Bytes) (route : Route)
    → dispatch policy tls method path ≡ handled principal route
    → (operation : Operation) × (operation_for method path ≡ some (operation, route))
      × Serves operation route
      × (authenticated_principal policy tls ≡ some principal)
      × (policy.authorize_request principal operation (path_resource route) ≡ true)
unfolding dispatch
dispatch-authorized policy tls method path principal route h =
    let (operation, named, client, allowed) =
      authorize_route-handled policy path (authenticated_principal policy tls)
        (operation_for method path) principal route h in
    let (serves, owned) = operation_for-Matches method path (operation, route) named in
    (
      operation,
      named,
      serves,
      client,
      subst (λ o. policy.authorize_request principal operation o ≡ true)
          (resource-same operation path route owned) allowed,
    )
