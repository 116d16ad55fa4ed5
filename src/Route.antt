-- ===== src/Route.antt =====
-- Where a thread came from and where its answers go: the route of an ingress
-- (ansible/roles/threlium/files/scripts/threlium/types/identity.py, types/ingress.py), its search
-- along the ancestors (ingress_route_resolve.py) and the stage states/egress_router.py.
pub mod Wire
pub mod Resolve
pub mod Router
pub mod Typed
pub mod Agree
mod Tests
