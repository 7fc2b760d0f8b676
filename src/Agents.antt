-- ===== src/Agents.antt =====
-- tengen/agents: the tools that the agents call. What a tool returns is JSON, which is kept as a
-- value; the prompts and the language model that calls the tools are not modelled.
pub mod Json
pub mod Azure
pub mod Kubernetes
pub mod Edr
pub mod Query
pub mod Normalizer
pub mod Orchestrator
pub mod Clouds
mod Samples
