-- ===== src/Queue.antt =====
-- internal/queue: the streams with consumer groups behind the queue.
pub mod Stream
pub mod Examples
