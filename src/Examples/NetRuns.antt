-- ===== src/Examples/NetRuns.antt =====
-- The theorems on JSON, on the network and on the command line, over the toy crates.
use mwixnet.Base.{
  ℕ, ◌≡◌, ◌≢◌, ◌<◌, ◌+◌, ◌*◌, refl, inl, inr, [], ◌∷◌, ◌++◌, All, In, List, Option, none, some,
  true, false, Result, ok, panic, arith, add_u64, length, subst, ok-injective, ap,
}
use mwixnet.Base.Codec.{Bytes}
use mwixnet.Node.{GrinNode, IsHonest}
use mwixnet.Ext.Serde.{text, texts}
use mwixnet.Wallet.Http.{HttpWallet, http_wallet}
use mwixnet.Wallet.HttpLaws.{Refused}
use mwixnet.Onion.{Onion}
use mwixnet.Onion.Json.{Entry, field_pubkey, field_commit, field_data, serialize, deserialize}
use mwixnet.Onion.JsonLaws.{same_field, has_field, deserialize-serialize, deserialize_missing}
use mwixnet.Rpc.{Shared, api_swap}
use mwixnet.Rpc.Loop.{Second, run_round}
use mwixnet.Rpc.Poison.{api_swap-Refused}
use mwixnet.Main.Args.{Args, MainError, new_config}
use mwixnet.Main.Prompt.{flat, prompt_password_confirm, prompt_password_confirm-Ends}
use mwixnet.Main.Start.{Host, Draw, init_config, configure}
use mwixnet.Main.RoundTrip.{configure-init_config}
use mwixnet.Config.Save.{ServerConfig}
use mwixnet.Store.Data.{SwapData}
use mwixnet.Store.Ops.{save_swap, swaps_iter}
use mwixnet.Store.RoundTrip.{IsSwap}
use mwixnet.Server.Mark.{IsSound, IsLedger, save_swap-IsLedger}
use mwixnet.Server.Fees.{Fits, total_fee}
use mwixnet.Server.Swap.{get_minimum_swap_fee, get_fee_base}
use mwixnet.Server.Round.{select}
use mwixnet.Examples.Toy.{toy, sum}
use mwixnet.Examples.ToyLaws.{toy_ser, toy_values, toy_db}
use mwixnet.Examples.ToyUp.{toy_weights}
use mwixnet.Examples.ToyFiles.{toy_files, toy_toml, toy-FileLaws, nonce}
use mwixnet.Examples.ToyNet.{toy_net, toy_forms, toy_system, toy_system-SystemLaws}
use mwixnet.Examples.Data.{node, onion, comsig, fresh_swap, empty-IsLedger}

-- The entries of the onion's object in another order, and without its payloads.
abbrev key_entry : Entry toy toy_files toy_net
key_entry = (field_pubkey, text (2 ∷ []))

abbrev commit_entry : Entry toy toy_files toy_net
commit_entry = (field_commit, text (100 ∷ []))

abbrev data_entry : Entry toy toy_files toy_net
data_entry = (field_data, texts ((0 ∷ 7 ∷ 60 ∷ 1 ∷ 47 ∷ []) ∷ []))

abbrev shuffled : List (Entry toy toy_files toy_net)
shuffled = commit_entry ∷ data_entry ∷ key_entry ∷ []

deserialize-serialize_example : deserialize toy toy_files toy_net shuffled ≡ ok onion
unfolding serialize has_field same_field
deserialize-serialize_example =
    deserialize-serialize toy toy_files toy_net toy_forms onion shuffled
      (inr (inl refl), (inr (inr (inl refl)), (inl refl, tt))) refl refl refl

deserialize_missing_example :
    deserialize toy toy_files toy_net (commit_entry ∷ key_entry ∷ []) ≡ panic
unfolding serialize has_field same_field
deserialize_missing_example =
    deserialize_missing toy toy_files toy_net toy_forms onion (commit_entry ∷ key_entry ∷ [])
      (inr (inl refl), (inl refl, tt)) field_data (inr (inr (inl refl))) refl

-- One entry that is not confirmed.
abbrev wrong : List (Bytes × Bytes)
wrong = ((1 ∷ []), (2 ∷ [])) ∷ []

one_two : ◌≢◌ {A = Bytes} (1 ∷ []) (2 ∷ [])
one_two h = absurd (omega (arith, ap sum h))

prompt_password_confirm-Ends_example :
    ((p : Bytes) (rest : List Bytes)
      → prompt_password_confirm {E = Unit {0}} toy toy_files toy_system
          (flat wrong ++ (p ∷ p ∷ rest))
        ≡ (ok p, rest))
    × (prompt_password_confirm {E = Unit {0}} toy toy_files toy_system (flat wrong) ≡ (panic, []))
    × ((a : Bytes)
        → prompt_password_confirm {E = Unit {0}} toy toy_files toy_system (flat wrong ++ (a ∷ []))
          ≡ (panic, []))
prompt_password_confirm-Ends_example =
    prompt_password_confirm-Ends toy toy_files toy_system toy_system-SystemLaws wrong (one_two, tt)

abbrev pub args : Args toy toy_files toy_system
args = record {
  testnet_flag = true;
  config_file = none;
  round_time = none;
  bind_addr = some (5 ∷ []);
  grin_node_url = none;
  grin_node_secret_path = none;
  wallet_owner_url = none;
  wallet_owner_secret_path = none;
  wallet_pass = none;
  init_config = true;
}

abbrev pub draw : Draw toy toy_files toy_system
draw = record { key = 5; salt = 9 ∷ []; nonce = nonce }

abbrev pub host : Host toy toy_files toy_system
host = record { fs = none; lines = (8 ∷ []) ∷ (8 ∷ []) ∷ [] }

abbrev pub host_after : Host toy toy_files toy_system
host_after = (init_config toy toy_files toy_system toy_toml args none draw host).1

configured : init_config toy toy_files toy_system toy_toml args none draw host ≡ (ok tt, host_after)
unfolding init_config mwixnet.Main.Args.new_config prompt_password_confirm
    mwixnet.Config.Save.write_config mwixnet.Config.Key.from_secret_key
    mwixnet.Config.Paths.grin_node_url mwixnet.Config.Paths.wallet_owner_url mwixnet.Base.ℕ_discrete
configured = refl

configure-init_config_example :
    (password : Bytes) × (config : ServerConfig toy toy_files) × ((prompt_password_confirm
        {E = MainError toy toy_files toy_system} toy toy_files toy_system host.lines).0
      ≡ ok password)
    × (new_config toy toy_files toy_system args none 5 ≡ ok config)
    × ((lines : List Bytes)
        → configure toy toy_files toy_system toy_toml args
            (record { fs = host_after.fs; lines = password ∷ lines })
          ≡ (ok config, record { fs = host_after.fs; lines = lines }))
configure-init_config_example =
    configure-init_config toy toy_files toy_system toy_toml toy-FileLaws args none draw host
      host_after refl refl configured

-- A swap whose fee is more than its round needs, and a wallet that refuses to collect the rest.
abbrev pub rich_swap : SwapData toy
rich_swap = record fresh_swap { fee = 200 }

rich_swap-IsSwap : IsSwap toy toy_ser rich_swap
rich_swap-IsSwap = record { key = refl; fee = omega arith; onion = (omega arith, tt) }

rich-IsSound : IsSound toy toy_ser toy_db rich_swap
unfolding get_minimum_swap_fee mwixnet.Base.mul_u64
rich-IsSound = record { fee_lem = omega arith; proof = 47; proof_lem = refl; verified = refl }

abbrev rich_db : toy.Db
rich_db = (save_swap toy rich_swap false []).1

pub rich-IsLedger : IsLedger toy toy_ser toy_db rich_db
rich-IsLedger =
    save_swap-IsLedger toy toy_ser toy_db [] rich_swap rich_swap-IsSwap false rich-IsSound
      empty-IsLedger

pub rich_listed : swaps_iter toy rich_db ≡ ok (rich_swap ∷ [])
unfolding swaps_iter mwixnet.Store.Ops.save_swap mwixnet.Store.Data.write_swap_data
    mwixnet.Types.write_optional mwixnet.Onion.write_onion mwixnet.Onion.write_payloads
    mwixnet.Store.Data.write_status mwixnet.Store.Ops.commit_batch mwixnet.Store.Data.read_swap_data
    mwixnet.Secp.read_secret_key mwixnet.Types.read_optional mwixnet.Onion.read_onion
    mwixnet.Onion.read_payloads mwixnet.Store.Data.read_status
rich_listed = refl

abbrev pub picked : List (SwapData toy)
picked = select toy node (add_u64 10 1) (rich_swap ∷ [])

picked_lem : picked ≡ rich_swap ∷ []
unfolding select add_u64 mwixnet.Node.is_spendable mwixnet.Node.is_unspent
picked_lem = refl

pub picked_one : 0 < length picked
picked_one = rw picked_lem (omega arith)

pub fits : Fits toy toy_weights (length picked) (total_fee toy picked)
unfolding select add_u64 mwixnet.Node.is_spendable mwixnet.Node.is_unspent
fits = record { total_lem = omega arith; weight_lem = omega arith; fee_lem = omega arith }

pub picked_rich :
    toy.weight_by_iok (length picked) (length picked + 1) 1 * get_fee_base toy
      + toy.weight_by_iok 1 0 0 * get_fee_base toy
    < total_fee toy picked
picked_rich = rw picked_lem (omega arith)

abbrev pub owner : HttpWallet toy toy_files toy_net
owner = record { wallet_owner_url = 3; wallet_owner_secret = none; shared_key = 6; token = [] }

pub refuses : (amount : ℕ) → Refused toy toy_files toy_net owner amount
refuses amount = record {
  mask = [];
  mask_lem = refl;
  request = 0;
  request_lem = refl;
  answer = 0;
  answer_lem = refl;
  decrypted = 0;
  decrypted_lem = refl;
  response = 0;
  response_lem = refl;
  result = 0;
  result_lem = refl;
  no_ok = refl;
}

abbrev pub shared : Shared toy
shared = record { world = record { db = rich_db; posted = [] }; poisoned = false }

abbrev pub second : Second toy
second = record { wallet = http_wallet toy toy_files toy_net owner; node = node; offset = 3 }

api_swap-Refused_example :
    api_swap toy 5 node onion comsig (run_round toy second 0 shared).1
    ≡ (panic, (run_round toy second 0 shared).1)
api_swap-Refused_example =
    api_swap-Refused toy toy_files toy_net toy_ser toy_values toy_db toy_weights 5 owner node 3 0
      shared 10 (rich_swap ∷ []) node onion comsig refuses refl rich-IsLedger refl rich_listed
      picked_one fits picked_rich
