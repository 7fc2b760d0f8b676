-- ===== src/Consumers.antt =====
-- tengen/consumers: how each source of alerts hands its messages on.
pub mod Ingestion
pub mod Sqs
pub mod Publishing
pub mod Kafka
pub mod PubSub
pub mod Http
mod Samples
