-- ===== src/Examples/MainRuns.antt =====
-- The whole program, from the command line to its exit, over the toy crates.
use mwixnet.Base.{
  ℕ, ◌≡◌, ◌≢◌, ◌≤◌, refl, sym, ap, ◌∙◌, [], ◌∷◌, ◌++◌, List, Option, none, some, false, Result, ok,
  arith,
}
use mwixnet.Ext.Net.{Net}
use mwixnet.Main.Args.{Args}
use mwixnet.Main.Start.{Host, Running, real_main}
use mwixnet.Main.Launch.{main, main-Stops}
use mwixnet.Rpc.Listen.{left, play, listen, started}
use mwixnet.Rpc.Stopping.{moves}
use mwixnet.Examples.Toy.{toy}
use mwixnet.Examples.ToyFiles.{toy_files, toy_toml}
use mwixnet.Examples.ToyNet.{toy_net, toy_system}
use mwixnet.Examples.NetRuns.{args, draw, host_after}
use mwixnet.Examples.ListenRuns.{toy_http, call, wake, signals}

-- The server is started with the configuration file of the first run, the password and the
-- wallet's password.
-- With the prefix that public keys are serialized with.
abbrev run_net : Net toy toy_files
run_net = record toy_net { pubkey_serialize_vec = λ p. 2 ∷ p ∷ [] }

abbrev run_args : Args toy toy_files toy_system
run_args = record args { init_config = false }

abbrev run_host : Host toy toy_files toy_system
run_host = record host_after { lines = (8 ∷ []) ∷ (4 ∷ []) ∷ [] }

abbrev running : Running toy toy_files toy_system run_net
running = record {
  server_config = record {
    key = 5;
    interval_s = 43200;
    addr = 5;
    grin_node_url = 7;
    grin_node_secret_path = some [];
    wallet_owner_url = 9;
    wallet_owner_secret_path = some [];
  };
  wallet = record {
    wallet_owner_url = 9;
    wallet_owner_secret = none;
    shared_key = 7;
    token = 0 ∷ [];
  };
  node = record { node_url = 7; node_api_secret = none };
  store = [];
}

begun :
    real_main toy toy_files toy_system run_net toy_toml run_args draw 7 run_host
    ≡ (ok (some running), record run_host { lines = [] })
unfolding real_main mwixnet.Main.Args.round_time mwixnet.Main.Prompt.prompt
    mwixnet.Config.Save.load_config mwixnet.Main.Args.new_config mwixnet.Config.Paths.grin_node_url
    mwixnet.Config.Paths.wallet_owner_url mwixnet.Main.Prompt.prompt_password_confirm
    mwixnet.Base.ℕ_discrete mwixnet.Config.Save.write_config mwixnet.Config.Key.from_secret_key
    mwixnet.Config.Key.decrypt mwixnet.Main.Args.override_config
    mwixnet.Main.Prompt.prompt_wallet_password mwixnet.Wallet.Http.open_wallet
    mwixnet.Config.Paths.wallet_owner_api_secret mwixnet.Node.Http.new
    mwixnet.Config.Paths.node_api_secret mwixnet.Main.Start.db_root
begun = refl

listening : listen toy toy_files toy_http 5 [] ≡ ok (started toy [])
unfolding listen
listening = refl

two_moves : 2 ≤ moves toy toy_files toy_http (wake ∷ call ∷ wake ∷ [])
unfolding moves
two_moves = omega arith

ends : (play toy toy_files toy_http 43200 5 signals (started toy [])).rounds ≡ left
unfolding play
ends = refl

main-Stops_example :
    main toy toy_files toy_system run_net toy_http toy_toml run_args draw 7 signals run_host
    ≡ (ok (some 0), record run_host { lines = [] })
main-Stops_example =
    main-Stops toy toy_files toy_system run_net toy_http toy_toml run_args draw 7 run_host
      (record run_host { lines = [] }) running (started toy []) (call ∷ wake ∷ [])
      (wake ∷ call ∷ wake ∷ []) begun refl listening two_moves (λ e. absurd (cc (sym e ∙ ends)))
