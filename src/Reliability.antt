-- ===== src/Reliability.antt =====
-- internal/reliability: the circuit breaker, the sliding window, retries, bulkheads and backpressure.
pub mod CircuitBreaker
pub mod Examples
pub mod SlidingWindow
pub mod Retry
pub mod Bulkhead
pub mod Backpressure
