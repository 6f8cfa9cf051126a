-- ===== src/Namespace.antt =====
-- The crate `alefs-namespace`: the graph of paths over a key-value store, and transactions.
pub mod Keys
pub mod Json
pub mod Errors
pub mod Resolve
pub mod Ops
pub mod Containers
pub mod Database
pub mod Walk
pub mod Open
pub mod Port
pub mod Overlay
