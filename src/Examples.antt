-- ===== src/Examples.antt =====
-- Concrete crates, and runs of the program over them.
pub mod Toy
pub mod ToyLaws
pub mod ToyUp
pub mod Data
pub mod ServerRuns
pub mod ClientRuns
pub mod ToyFiles
pub mod ToyNet
pub mod PartRuns
pub mod NetRuns
pub mod LifeRuns
pub mod ListenRuns
pub mod PromiseRuns
pub mod MockRuns
pub mod MainRuns
