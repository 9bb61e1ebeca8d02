-- ===== src/Store.antt =====
-- src/store.rs: swaps, their serialization, and the store of swaps over a key-value database.
pub mod Data
pub mod RoundTrip
pub mod Ops
pub mod Save
pub mod View
pub mod Refinement
