-- ===== src/Config.antt =====
-- src/config.rs: the server's configuration, and its file with the encrypted server key.
pub mod Key
pub mod Save
pub mod RoundTrip
pub mod Paths
