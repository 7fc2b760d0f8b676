-- ===== src/N8n.antt =====
-- tengen/n8n: from a routing table to a webhook, its response, and the enriched alert.
pub mod Resolver
pub mod Client
pub mod Response
pub mod Dispatch
mod Samples
