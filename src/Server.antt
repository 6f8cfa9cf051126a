-- ===== src/Server.antt =====
-- The crate `alefs-server`: requests over a socket.
pub mod Protocol
pub mod Framing
pub mod Values
pub mod Store
pub mod Action
pub mod Mutations
pub mod Handle
pub mod Batches
pub mod Counters
