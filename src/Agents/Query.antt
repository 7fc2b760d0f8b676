-- ===== src/Agents/Query.antt =====
-- agents/query.py: the tools of the query agent. Each answers with JSON, which is kept as a value.
pub mod CloudTrail
pub mod Sources
pub mod Cluster
pub mod Correlation
