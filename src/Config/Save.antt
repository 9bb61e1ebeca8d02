-- ===== src/Config/Save.antt =====
-- `ServerConfig`, `RawConfig`, `write_config` and `load_config` of src/config.rs. The state is the
-- file system.
use mwixnet.Base.{ℕ, Option, Result, ok, map_err}
use mwixnet.Base
use mwixnet.Base.Codec.{Bytes}
use mwixnet.Base.Exec.{Exec, lift, ◌>>=◌}
use mwixnet.Ext.{Crates}
use mwixnet.Ext.Files.{Files}
use mwixnet.Config.Key.{
  ConfigError, file_write_error, encoding_error, decoding_error, read_config_error, from_secret_key,
  decrypt,
}

-- `RawConfig`, of the types of its texts, addresses and paths.
pub record RawConfig (Text SocketAddr : Type 0) : Type 0 where
  pub encrypted_key : Text
  pub salt : Text
  pub nonce : Text
  pub interval_s : ℕ
  pub addr : SocketAddr
  pub grin_node_url : SocketAddr
  pub grin_node_secret_path : Option Text
  pub wallet_owner_url : SocketAddr
  pub wallet_owner_secret_path : Option Text

-- `toml::to_string` and `toml::from_str` at `RawConfig`.
pub record Toml (f : Files) : Type 0 where
  pub to_string : RawConfig f.Text f.SocketAddr → Result f.EncodeError f.Document
  pub from_str : f.Document → Result f.DecodeError (RawConfig f.Text f.SocketAddr)

module _ (x : Crates) (f : Files) where
  pub record ServerConfig : Type 0 where
    pub key : x.SecretKey
    pub interval_s : ℕ
    pub addr : f.SocketAddr
    pub grin_node_url : f.SocketAddr
    pub grin_node_secret_path : Option f.Text
    pub wallet_owner_url : f.SocketAddr
    pub wallet_owner_secret_path : Option f.Text

  -- `.map_err(g)?` on a call that changes the file system
  abbrev pub under : {E F A : Type 0} → (E → F) → Exec f.FileSystem E A → Exec f.FileSystem F A
  under g m fs = let (r, fs') = m fs in (map_err g r, fs')

  -- `write_config`, with the salt and the nonce of the key
  unfoldable pub write_config :
      Toml f
      → f.PathBuf
      → ServerConfig
      → Bytes
      → Bytes
      → Bytes
      → Exec f.FileSystem (ConfigError x f) (Unit {0})
  write_config toml config_path config password salt nonce = do
    encrypted ← lift (from_secret_key x f config.key password salt nonce)
    encoded ← lift (
        map_err encoding_error (
          toml.to_string (record {
            encrypted_key = encrypted.encrypted_key;
            salt = encrypted.salt;
            nonce = encrypted.nonce;
            interval_s = config.interval_s;
            addr = config.addr;
            grin_node_url = config.grin_node_url;
            grin_node_secret_path = config.grin_node_secret_path;
            wallet_owner_url = config.wallet_owner_url;
            wallet_owner_secret_path = config.wallet_owner_secret_path;
          })))
    file ← under file_write_error (f.file_create config_path)
    under file_write_error (f.file_write_all file encoded)

  unfoldable pub load_config :
      Toml f → f.PathBuf → Bytes → f.FileSystem → Result (ConfigError x f) ServerConfig
  load_config toml config_path password fs =
      Base.◌>>=◌ (map_err read_config_error (f.read_to_string config_path fs)) λ contents.
        Base.◌>>=◌ (map_err decoding_error (toml.from_str contents)) λ raw.
          Base.◌>>=◌
            (decrypt x f
              (record { encrypted_key = raw.encrypted_key; salt = raw.salt; nonce = raw.nonce })
              password)
            λ secret_key. ok (record {
              key = secret_key;
              interval_s = raw.interval_s;
              addr = raw.addr;
              grin_node_url = raw.grin_node_url;
              grin_node_secret_path = raw.grin_node_secret_path;
              wallet_owner_url = raw.wallet_owner_url;
              wallet_owner_secret_path = raw.wallet_owner_secret_path;
            })
