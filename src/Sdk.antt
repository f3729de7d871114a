-- ===== src/Sdk.antt =====
-- sdk-rust/src/lib.rs, the guest side of the GWB ABI.
pub mod Batch
pub mod Rpc
pub mod Calls
pub mod Atom
pub mod Kind
pub mod Events
