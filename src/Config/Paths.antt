-- ===== src/Config/Paths.antt =====
-- The default paths and addresses of src/config.rs, and the API secrets in the files that a
-- configuration names.
use mwixnet.Base.{Option, none, some, Result, ok, err, panic}
use mwixnet.Ext.{Crates}
use mwixnet.Ext.Files.{Files}
use mwixnet.Ext.System.{System, ChainTypes, testnet, Literal}
use mwixnet.Config.Save.{ServerConfig}

module _ (x : Crates) (f : Files) (s : System x f) where
  -- `ServerConfig::node_api_secret`
  unfoldable pub node_api_secret : ServerConfig x f → f.FileSystem → Option f.Text
  node_api_secret config fs = f.get_first_line config.grin_node_secret_path fs

  -- `ServerConfig::wallet_owner_api_secret`
  unfoldable pub wallet_owner_api_secret : ServerConfig x f → f.FileSystem → Option f.Text
  wallet_owner_api_secret config fs = f.get_first_line config.wallet_owner_secret_path fs

  abbrev home_or_empty : Option f.PathBuf → f.PathBuf
  home_or_empty (some p) = p
  home_or_empty none = s.path_new

  unfoldable pub get_grin_path : ChainTypes → f.PathBuf
  get_grin_path chain_type =
      let grin_path = s.path_push (home_or_empty s.home_dir) (s.literal Literal.grin_home) in
      s.path_push grin_path (s.shortname chain_type)

  unfoldable pub node_secret_path : ChainTypes → f.PathBuf
  unfolding get_grin_path
  node_secret_path chain_type =
      s.path_push (get_grin_path chain_type) (s.literal Literal.node_api_secret_file_name)

  unfoldable pub wallet_owner_secret_path : ChainTypes → f.PathBuf
  unfolding get_grin_path
  wallet_owner_secret_path chain_type =
      s.path_push (get_grin_path chain_type) (s.literal Literal.wallet_owner_api_secret_file_name)

  -- `.parse().unwrap()` of an address
  abbrev parsed : {E : Type 0} → Literal → Result E f.SocketAddr
  parsed t = elim (s.parse_addr (s.literal t)) [ ok a ↦ ok a | err _ ↦ panic | panic ↦ panic ]

  unfoldable pub grin_node_url : {E : Type 0} → ChainTypes → Result E f.SocketAddr
  grin_node_url testnet = parsed Literal.testnet_node_address
  grin_node_url _ = parsed Literal.mainnet_node_address

  unfoldable pub wallet_owner_url : {E : Type 0} → ChainTypes → Result E f.SocketAddr
  wallet_owner_url chain_type = parsed Literal.owner_address
