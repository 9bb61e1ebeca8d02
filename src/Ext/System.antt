-- ===== src/Ext/System.antt =====
-- What the command line and the configuration's paths use of the standard library, `dirs`, `clap`
-- and `grin_core`: paths, addresses, text, and opening the database.
use mwixnet.Base.{ℕ, Bool, Option, Result, ◌≢◌}
use mwixnet.Base.Codec.{Bytes}
use mwixnet.Base.Exec.{Exec}
use mwixnet.Ext.{Crates}
use mwixnet.Ext.Files.{Files}

-- `ChainTypes` of `grin_core::global`
pub data ChainTypes : Type 0 where
  automated_testing user_testing testnet mainnet : ChainTypes

-- The texts that are written in the program.
pub data Literal : Type 0 where
  grin_home node_api_secret_file_name wallet_owner_api_secret_file_name : Literal
  config_file_name db_directory : Literal
  any_address testnet_node_address mainnet_node_address owner_address : Literal
  first_text second_text : Literal

pub record System (x : Crates) (f : Files) : Type 1 where
  pub literal : Literal → f.Text
  pub text_dec : Discrete f.Text
  pub as_bytes : f.Text → Bytes
  pub shortname : ChainTypes → f.Text
  -- `dirs::home_dir`, `PathBuf::{new, from, push, to_str}`, and `push` on a copy as `join`
  pub home_dir : Option f.PathBuf
  pub path_new : f.PathBuf
  pub path_from : f.Text → f.PathBuf
  pub path_push : f.PathBuf → f.Text → f.PathBuf
  pub to_str : f.PathBuf → Option f.Text
  pub exists : f.PathBuf → f.FileSystem → Bool
  -- `parse` at `SocketAddr` and at `u32`
  pub AddrError : Type 0
  pub IntError : Type 0
  pub parse_addr : f.Text → Result AddrError f.SocketAddr
  pub parse_u32 : f.Text → Result IntError ℕ
  -- `Store::new` of `grin_store`, which makes the directory and the files of the database, and
  -- `lmdb::Error::FileErr` with "db_root path error"
  pub store_new : f.Text → Exec f.FileSystem x.LmdbError x.Db
  pub db_root_error : x.LmdbError
  -- `Runtime::new` of `tokio`
  pub RuntimeError : Type 0
  pub runtime_new : Result RuntimeError (Unit {0})

-- What the proofs assume: the two texts that a prompt starts with differ.
pub record SystemLaws (x : Crates) (f : Files) (s : System x f) : Type 0 where
  pub first_second : s.literal Literal.first_text ≢ s.literal Literal.second_text
