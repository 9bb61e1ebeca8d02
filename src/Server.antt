-- ===== src/Server.antt =====
-- src/server.rs: submitting a swap, and the round that mixes the swaps.
pub mod Swap
pub mod Round
pub mod Accept
pub mod Refuse
pub mod Attempt
pub mod Refused
pub mod Submit
pub mod Select
pub mod Mark
pub mod Rounded
pub mod Ledger
pub mod Mixed
pub mod Reach
pub mod Client
pub mod Fees
pub mod Live
pub mod Complete
pub mod Lifecycle
pub mod Mixing
pub mod Once
pub mod Mocked
pub mod Asked
