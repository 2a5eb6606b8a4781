-- ===== src/Rpc.antt =====
-- src/rpc.rs: the CBOR interface.
pub mod Cbor
pub mod Request
pub mod Inner
pub mod Context
pub mod Notifications
