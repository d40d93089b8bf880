-- ===== src/Rooms.antt =====
-- internal/rooms: the lifecycle machine, the permissions and the room aggregate.
pub mod Lifecycle
pub mod Permissions
pub mod Room
pub mod Examples
