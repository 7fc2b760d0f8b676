-- ===== src/Queue.antt =====
-- tengen/queue: what the publisher and the consumer do with a broker's messages.
pub mod Publisher
pub mod Consumer
