-- ===== src/Examples/PartRuns.antt =====
-- The theorems on the store, the serialization, the onion, the node, the configuration and the
-- RPC server at values of the toy crates.
use mwixnet.Base.{List, ◌≡◌, ◌↔◌, refl, [], ◌∷◌, ◌++◌, In, none, some, true, false, not, ok, arith}
use mwixnet.Base.Codec.{Bytes}
use mwixnet.Ext.Grin.{coinbase}
use mwixnet.Secp.{read_comsig, write_comsig}
use mwixnet.Types.{payload_deserialize, payload_serialize}
use mwixnet.Onion.{Onion, read_onion, write_onion}
use mwixnet.Onion.Peel.{peel_layer}
use mwixnet.Onion.Create.{Hop, create_onion}
use mwixnet.Node.{GrinNode, is_spendable}
use mwixnet.Node.Maturity.{mature, is_spendable-coinbase}
use mwixnet.Store.Data.{SwapData, read_swap_data, write_swap_data, read_status}
use mwixnet.Store.RoundTrip.{read_swap_data-write_swap_data}
use mwixnet.Store.Ops.{save_swap, swaps_iter, get_swap, already_exists}
use mwixnet.Store.View.{Holds, swaps_iter-Holds}
use mwixnet.Store.Refinement.{save_swap-Holds, save_swap-Holds_ne}
use mwixnet.Config.Save.{load_config, write_config}
use mwixnet.Config.RoundTrip.{load_config-write_config}
use mwixnet.Examples.Toy.{toy}
use mwixnet.Examples.ToyLaws.{toy_ser, toy_db}
use mwixnet.Examples.ToyFiles.{toy_files, toy_toml, toy-FileLaws, config, nonce, written}
use mwixnet.Examples.Data.{
  payload, fresh_swap, busy_swap, fresh_db, busy_db, busy-IsLedger, fresh_saved, fresh_swap-IsSwap,
  busy_swap-IsSwap,
}

save_swap-Holds_example : Holds toy toy_ser toy_db fresh_db 100 fresh_swap
save_swap-Holds_example =
    save_swap-Holds toy toy_ser toy_db [] fresh_swap fresh_swap-IsSwap false fresh_saved

abbrev other_swap : SwapData toy
other_swap = record fresh_swap { input = 200 }

save_swap-Holds_ne_example :
    Holds toy toy_ser toy_db (save_swap toy other_swap true busy_db).1 100 busy_swap
    ↔ Holds toy toy_ser toy_db busy_db 100 busy_swap
save_swap-Holds_ne_example =
    save_swap-Holds_ne toy toy_ser toy_db busy_db other_swap
      (record { key = refl; fee = omega arith; onion = (omega arith, tt) }) true 100 busy_swap
      (λ e. absurd (omega arith))

listed : swaps_iter toy busy_db ≡ ok (busy_swap ∷ [])
unfolding swaps_iter save_swap write_swap_data mwixnet.Types.write_optional write_onion
    mwixnet.Onion.write_payloads mwixnet.Store.Data.write_status mwixnet.Store.Ops.commit_batch
    read_swap_data mwixnet.Secp.read_secret_key mwixnet.Types.read_optional read_onion
    mwixnet.Onion.read_payloads read_status
listed = refl

swaps_iter-Holds_example :
    In busy_swap (busy_swap ∷ []) ↔ Holds toy toy_ser toy_db busy_db 100 busy_swap
swaps_iter-Holds_example =
    swaps_iter-Holds toy toy_ser toy_db busy_db (busy_swap ∷ []) busy-IsLedger.store listed
      busy_swap

read_swap_data-write_swap_data_example :
    (b : Bytes) × (write_swap_data toy busy_swap [] ≡ ok b)
    × (read_swap_data toy (b ++ (1 ∷ [])) ≡ ok (busy_swap, 1 ∷ []))
read_swap_data-write_swap_data_example =
    read_swap_data-write_swap_data toy toy_ser busy_swap busy_swap-IsSwap (1 ∷ [])

abbrev coinbase_node : GrinNode toy
coinbase_node = record {
  get_utxo = λ c. ok (some (coinbase, c, some 1));
  get_chain_height = ok 10;
  post_tx = λ _. ok tt;
}

is_spendable-coinbase_example :
    is_spendable toy coinbase_node 100 2000 ≡ ok (not (mature 1440 1 2000))
is_spendable-coinbase_example =
    is_spendable-coinbase toy coinbase_node 100 (coinbase, 100, some 1) 1 2000 refl refl refl
      (omega arith) (λ e. absurd (omega arith))

load_config-write_config_example :
    load_config toy toy_files toy_toml tt
      (8 ∷ [])
      (write_config toy toy_files toy_toml tt config (8 ∷ []) (9 ∷ []) nonce none).1
    ≡ ok config
load_config-write_config_example =
    load_config-write_config toy toy_files toy_toml toy-FileLaws tt config (8 ∷ []) (9 ∷ []) nonce
      none refl refl written

abbrev pub two_hops : List (Hop toy)
two_hops =
    record { pubkey = 5; payload = payload }
    ∷ record { pubkey = 6; payload = record { excess = 8; fee = 10; rangeproof = none } }
    ∷ []

abbrev pub two_layers : Onion toy
two_layers = record {
  ephemeral_pubkey = 2;
  commit = 100;
  enc_payloads = (0 ∷ 7 ∷ 60 ∷ 1 ∷ 47 ∷ []) ∷ (0 ∷ 8 ∷ 10 ∷ 0 ∷ []) ∷ [];
}

pub created : create_onion toy 100 two_hops 2 ≡ ok two_layers
unfolding create_onion mwixnet.Onion.Peel.calc_blinding_factor payload_serialize
    mwixnet.Types.write_payload mwixnet.Onion.Peel.new_stream_cipher mwixnet.Onion.Peel.apply_all
created = refl
