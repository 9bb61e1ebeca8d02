-- ===== src/Main.antt =====
-- src/main.rs: the command line, which writes a new configuration file or starts the server.
pub mod Args
pub mod Prompt
pub mod Start
pub mod RoundTrip
pub mod Safety
pub mod Launch
