-- ===== src/Ext.antt =====
-- The code outside this repository that the program calls, as one parameter of the development.
pub mod Secp
pub mod Grin
pub mod Laws
pub mod DbLaws
pub mod Files
pub mod Net
pub mod Serde
pub mod Http
pub mod System
use mwixnet.Ext.Secp
use mwixnet.Ext.Grin

pub record Crates : Type 1 where
  pub secp : Secp.Secp
  pub open secp use *
  pub grin : Grin.Grin secp
  pub open grin use *
