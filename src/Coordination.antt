-- ===== src/Coordination.antt =====
-- internal/coordination: the backend, the locks and the leader election over it, and replication.
pub mod Backend
pub mod Memory
pub mod Locks
pub mod Leader
pub mod Replication
pub mod Examples
