-- ===== src/Routing.antt =====
-- tengen/routing: routes, their registry, and the router between the alert queue and the others.
pub mod Registry
pub mod Routes
pub mod Router
mod Samples
