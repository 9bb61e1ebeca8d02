-- ===== src/Main/Args.antt =====
-- The command line of src/main.rs, the configuration that "init-config" writes, and the one that
-- the server runs with.
use mwixnet.Base.{
  ℕ, Bool, ◌*◌, Option, none, some, Result, ok, err, panic, map_err, ◌>>=◌, if◌then◌else◌,
}
use mwixnet.Ext.{Crates}
use mwixnet.Ext.Files.{Files}
use mwixnet.Ext.System.{System, ChainTypes, testnet, mainnet, Literal}
use mwixnet.Config.Key.{ConfigError}
use mwixnet.Config.Save.{ServerConfig}
use mwixnet.Config.Paths as Paths
use mwixnet.Store.Ops.{StoreError}
use mwixnet.Wallet.{WalletError}

module _ (x : Crates) (f : Files) (s : System x f) where
  -- `get_matches`: the flag, the options and the subcommand of the command line.
  pub record Args : Type 0 where
    pub testnet_flag : Bool
    pub config_file : Option f.Text
    pub round_time : Option f.Text
    pub bind_addr : Option f.Text
    pub grin_node_url : Option f.Text
    pub grin_node_secret_path : Option f.Text
    pub wallet_owner_url : Option f.Text
    pub wallet_owner_secret_path : Option f.Text
    pub wallet_pass : Option f.Text
    pub init_config : Bool

  -- `Box<dyn Error>`, by the error in it
  pub data MainError : Type 0 where
    addr_error : s.AddrError → MainError
    config_error : ConfigError x f → MainError
    wallet_error : WalletError x → MainError
    store_error : StoreError x → MainError
    runtime_error : s.RuntimeError → MainError

  unfoldable pub chain_type : Args → ChainTypes
  chain_type args = if args.testnet_flag then testnet else mainnet

  unfoldable pub config_path : Args → f.PathBuf
  unfolding chain_type
  config_path args = elim args.config_file [
    | some path ↦ s.path_from path
    | none ↦
        s.path_push (Paths.get_grin_path x f s (chain_type args))
          (s.literal Literal.config_file_name)
  ]

  -- `t.parse::<u32>().unwrap()` of "round_time"
  unfoldable pub round_time : Args → Result MainError (Option ℕ)
  round_time args = elim args.round_time [
    | none ↦ ok none
    | some t ↦ elim (s.parse_u32 t) [ ok k ↦ ok (some k) | err _ ↦ panic | panic ↦ panic ]
  ]

  -- `unwrap_or(DEFAULT_INTERVAL)`
  abbrev pub interval : Option ℕ → ℕ
  interval none = 12 * 60 * 60
  interval (some k) = k

  -- An address that is given is parsed, and else the default's value is used.
  abbrev pub addr_or : Option f.Text → Result MainError f.SocketAddr → Result MainError f.SocketAddr
  addr_or none default = default
  addr_or (some u) default = map_err addr_error (s.parse_addr u)

  abbrev pub text_or : Option f.Text → f.Text → f.Text
  text_or none default = default
  text_or (some t) default = t

  abbrev pub path_or : Option f.Text → Option f.Text → Option f.Text
  path_or none default = default
  path_or (some p) default = some p

  -- The configuration of "init-config", with the key that is drawn.
  unfoldable pub new_config : Args → Option ℕ → x.SecretKey → Result MainError (ServerConfig x f)
  unfolding chain_type
  new_config args round_time key = do
    addr ←
        map_err addr_error (s.parse_addr (text_or args.bind_addr (s.literal Literal.any_address)))
    node_url ← addr_or args.grin_node_url (Paths.grin_node_url x f s (chain_type args))
    owner_url ← addr_or args.wallet_owner_url (Paths.wallet_owner_url x f s (chain_type args))
    ok (record {
      key = key;
      interval_s = interval round_time;
      addr = addr;
      grin_node_url = node_url;
      grin_node_secret_path =
          path_or args.grin_node_secret_path
            (s.to_str (Paths.node_secret_path x f s (chain_type args)));
      wallet_owner_url = owner_url;
      wallet_owner_secret_path =
          path_or args.wallet_owner_secret_path
            (s.to_str (Paths.wallet_owner_secret_path x f s (chain_type args)));
    })

  -- The overrides of a configuration that was loaded, in their order.
  unfoldable pub override_config : Args → ServerConfig x f → Result MainError (ServerConfig x f)
  override_config args config = do
    addr ← addr_or args.bind_addr (ok config.addr)
    node_url ← addr_or args.grin_node_url (ok config.grin_node_url)
    owner_url ← addr_or args.wallet_owner_url (ok config.wallet_owner_url)
    ok (record {
      key = config.key;
      interval_s = config.interval_s;
      addr = addr;
      grin_node_url = node_url;
      grin_node_secret_path = path_or args.grin_node_secret_path config.grin_node_secret_path;
      wallet_owner_url = owner_url;
      wallet_owner_secret_path =
          path_or args.wallet_owner_secret_path config.wallet_owner_secret_path;
    })
