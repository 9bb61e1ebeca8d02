-- ===== src/Main/Start.antt =====
-- `real_main` of src/main.rs, up to the call of `rpc::listen`. The state is the file system and the
-- lines that the user has still to enter. The keys, the salt and the nonce that are drawn are
-- arguments.
use mwixnet.Base.{
  ℕ, Bool, true, false, Option, none, some, List, Result, map_err, ok_or, if◌then◌else◌, panic,
}
use mwixnet.Base
use mwixnet.Base.Codec.{Bytes}
use mwixnet.Base.Exec.{Exec, lift, asks, pure, ◌>>=◌, ◌>>◌}
use mwixnet.Ext.{Crates}
use mwixnet.Ext.Files.{Files}
use mwixnet.Ext.Net.{Net}
use mwixnet.Ext.System.{System, Literal}
use mwixnet.Config.Save.{ServerConfig, Toml, write_config, load_config}
use mwixnet.Config.Paths.{node_api_secret, wallet_owner_api_secret, get_grin_path}
use mwixnet.Main.Args.{
  Args, MainError, config_error, wallet_error, store_error, chain_type, config_path, new_config,
  round_time, override_config,
}
use mwixnet.Main.Prompt.{prompt, prompt_password_confirm, prompt_wallet_password}
use mwixnet.Store.Ops.{StoreError, open_error}
use mwixnet.Wallet.Http.{HttpWallet, open_wallet}
use mwixnet.Node.Http.{HttpGrinNode, new}

module _ (x : Crates) (f : Files) (s : System x f) where
  pub record Host : Type 0 where
    pub fs : f.FileSystem
    pub lines : List f.Text

  -- What is drawn at random: the server's key, and the salt and the nonce of its encryption.
  pub record Draw : Type 0 where
    pub key : x.SecretKey
    pub salt : Bytes
    pub nonce : Bytes

  -- Calls that write files, with what `?` makes of their errors, and prompts.
  abbrev pub on_files :
      {E A : Type 0} → (E → MainError x f s) → Exec f.FileSystem E A → Exec Host (MainError x f s) A
  on_files wrap m host =
      let (r, fs') = m host.fs in (map_err wrap r, record { fs = fs'; lines = host.lines })

  abbrev pub on_lines :
      {A : Type 0} → Exec (List f.Text) (MainError x f s) A → Exec Host (MainError x f s) A
  on_lines m host = let (r, lines') = m host.lines in (r, record { fs = host.fs; lines = lines' })

  -- The branch of "init-config"
  unfoldable pub init_config :
      Toml f → Args x f s → Option ℕ → Draw → Exec Host (MainError x f s) (Unit {0})
  init_config toml args round_time draw host =
      if s.exists (config_path x f s args) host.fs then (panic, host) else write_new host
    where
      write_new : Exec Host (MainError x f s) (Unit {0})
      write_new = do
        server_config ← lift (new_config x f s args round_time draw.key)
        password ← on_lines (prompt_password_confirm x f s)
        on_files config_error (
            write_config x f toml (config_path x f s args) server_config (s.as_bytes password)
              draw.salt draw.nonce)

  -- The configuration that the server runs with
  unfoldable pub configure : Toml f → Args x f s → Exec Host (MainError x f s) (ServerConfig x f)
  configure toml args = do
    password ← on_lines (prompt x f s)
    server_config ← asks λ host.
        map_err config_error
          (load_config x f toml (config_path x f s args) (s.as_bytes password) host.fs)
    lift (override_config x f s args server_config)

  -- What `rpc::listen` is called with.
  pub record Running (n : Net x f) : Type 0 where
    pub server_config : ServerConfig x f
    pub wallet : HttpWallet x f n
    pub node : HttpGrinNode x f n
    pub store : x.Db

  -- `SwapStore::new`, which makes the database where there is none
  abbrev pub new_store : f.Text → Exec f.FileSystem (StoreError x) x.Db
  new_store db_root fs = let (r, fs') = s.store_new db_root fs in (map_err open_error r, fs')

  -- The path of the database, as text
  unfoldable pub db_root : Args x f s → Option f.Text
  db_root args =
      s.to_str
        (s.path_push (get_grin_path x f s (chain_type x f s args)) (s.literal Literal.db_directory))

  -- The store, on the path of the database
  unfoldable pub open_store : Args x f s → Exec Host (MainError x f s) x.Db
  open_store args = do
    root ← lift (ok_or (store_error (open_error s.db_root_error)) (db_root args))
    on_files store_error (new_store root)

  -- The wallet, the node and the store, with the ephemeral key of the wallet's session
  unfoldable pub serve :
      (n : Net x f)
      → Args x f s
      → x.SecretKey
      → ServerConfig x f
      → Exec Host (MainError x f s) (Running n)
  unfolding open_store
  serve n args ephemeral_sk server_config = do
    wallet_pass ← on_lines (prompt_wallet_password x f s args.wallet_pass)
    wallet ← asks λ host. map_err wallet_error (
        open_wallet x f n server_config.wallet_owner_url
          (wallet_owner_api_secret x f s server_config host.fs) wallet_pass ephemeral_sk)
    node ← asks λ host.
        Base.ok
          (new x f n server_config.grin_node_url (node_api_secret x f s server_config host.fs))
    store ← open_store args
    pure (record { server_config = server_config; wallet = wallet; node = node; store = store })

  -- The rest of `real_main`
  unfoldable pub start :
      (n : Net x f) → Toml f → Args x f s → x.SecretKey → Exec Host (MainError x f s) (Running n)
  unfolding configure serve
  start n toml args ephemeral_sk = configure toml args >>= serve n args ephemeral_sk

  -- `real_main`: nothing after "init-config", and else what the server is started with
  unfoldable pub real_main :
      (n : Net x f)
      → Toml f
      → Args x f s
      → Draw
      → x.SecretKey
      → Exec Host (MainError x f s) (Option (Running n))
  unfolding init_config start
  real_main n toml args draw ephemeral_sk = do
    interval ← lift (round_time x f s args)
    if args.init_config
        then (init_config toml args interval draw >> pure none)
        else (start n toml args ephemeral_sk >>= λ running. pure (some running))
