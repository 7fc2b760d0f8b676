-- ===== src/Forwarder.antt =====
-- tengen/forwarder: the delivery of events to Splunk.
pub mod Splunk
pub mod Workers
mod Samples
