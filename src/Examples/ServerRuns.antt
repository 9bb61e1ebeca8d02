-- ===== src/Examples/ServerRuns.antt =====
-- The theorems on requests and rounds at the request and the stores of the toy crates.
use mwixnet.Base.{
  ℕ, ◌≡◌, ◌≢◌, ◌↔◌, ◌⊎◌, ◌≤◌, ◌<◌, ◌+◌, ◌*◌, inl, inr, refl, [], ◌∷◌, List, length, All, In, Option,
  none, some, Bool, true, false, Result, ok, err, is_some, arith, add_u64,
}
use mwixnet.Onion.{Onion}
use mwixnet.Types.{Payload}
use mwixnet.Store.Data.{SwapData}
use mwixnet.Store.Ops.{swaps_iter}
use mwixnet.Store.Save.{entry}
use mwixnet.Store.View.{Holds}
use mwixnet.Wallet.{Draft, assemble_tx}
use mwixnet.Wallet.Fees.{assemble_tx_fees, Pays, Kept, Collected}
use mwixnet.Node.{is_spendable, is_unspent}
use mwixnet.Server.Swap.{swap, already_swapped, get_minimum_swap_fee}
use mwixnet.Server.Round.{World, select, execute_round}
use mwixnet.Server.Rounded.{Sent}
use mwixnet.Server.Accept.{Checked, swap_of}
use mwixnet.Server.Submit.{swap-Holds, swap_unchanged, swap-fresh}
use mwixnet.Server.Select.{DistinctOutputs, select-DistinctOutputs}
use mwixnet.Server.Mark.{IsLedger, mark}
use mwixnet.Server.Mixed.{execute_round-Holds, execute_round_unposted}
use mwixnet.Server.Reach.{start, next, round, Reach-IsLedger, Reach-keeps}
use mwixnet.Examples.Toy.{toy}
use mwixnet.Examples.ToyLaws.{toy_ser, toy_values, toy_db, toy_reliable}
use mwixnet.Examples.Data.{
  node, wallet, onion, peeled, payload, comsig, node-IsHonest, accepted, fresh_swap, busy_swap,
  fresh_db, busy_db, fresh-IsLedger, busy-IsLedger, busy_held, world, tx, mixed,
}

swap-Holds_example :
    (p : Payload toy) × (o : Onion toy) × (i : ℕ) × Checked toy 5 node onion comsig p o i
    × (i ≡ 100)
    × Holds toy toy_ser toy_db (swap toy 5 node onion comsig []).1 100 (swap_of toy p o i)
swap-Holds_example =
    swap-Holds toy toy_ser toy_values toy_db 5 node onion comsig [] node-IsHonest accepted

abbrev two_layers : Onion toy
two_layers = record onion { enc_payloads = [] ∷ [] ∷ [] }

refused : (swap toy 5 node two_layers comsig busy_db).0 ≢ ok tt
unfolding swap
refused h = cc h

swap_unchanged_example : (swap toy 5 node two_layers comsig busy_db).1 ≡ busy_db
swap_unchanged_example =
    swap_unchanged toy toy_ser toy_values toy_db 5 node two_layers comsig busy_db refused

passes : Checked toy 5 node onion comsig payload peeled 100
unfolding swap mwixnet.Onion.Peel.onion_serialize mwixnet.Onion.write_onion
    mwixnet.Onion.write_payloads mwixnet.Secp.Sign.verify mwixnet.Base.ℕ_discrete
    mwixnet.Node.build_input mwixnet.Onion.Peel.peel_layer mwixnet.Types.payload_deserialize
    mwixnet.Types.read_payload mwixnet.Secp.read_secret_key mwixnet.Secp.Commit.add_excess
    mwixnet.Secp.Commit.sub_value get_minimum_swap_fee mwixnet.Base.mul_u64
passes = record {
  one_layer = refl;
  bytes = 2 ∷ 100 ∷ 1 ∷ 5 ∷ 0 ∷ 7 ∷ 60 ∷ 1 ∷ 47 ∷ [];
  bytes_lem = refl;
  signed = refl;
  unspent = refl;
  peels = refl;
  fee_lem = omega arith;
  proof = 47;
  proof_lem = refl;
  verified = refl;
}

swap-fresh_example :
    (swap toy 5 node onion comsig busy_db ≡ (err (already_swapped 100), busy_db))
      × (is_some (entry toy toy_ser toy_db busy_db 100) ≡ true)
    ⊎ ((swap toy 5 node onion comsig busy_db).0 ≡ ok tt)
      × (entry toy toy_ser toy_db busy_db 100 ≡ none)
swap-fresh_example =
    swap-fresh toy toy_ser toy_values toy_db 5 node onion comsig busy_db toy_reliable node-IsHonest
      payload peeled 100 passes

execute_round-Holds_example :
    (height : ℕ) × (l : List (SwapData toy)) × (kernel : ℕ) × (node.get_chain_height ≡ ok height)
    × (swaps_iter toy fresh_db ≡ ok l)
    × Sent toy wallet node 3 world (select toy node (add_u64 height 1) l) tx kernel
    × ((execute_round toy wallet node 3 world).1.posted ≡ tx ∷ [])
    × All
        (λ (s : SwapData toy).
          Holds toy toy_ser toy_db
            (execute_round toy wallet node 3 world).1.db
            s.input
            (mark toy toy_ser toy_db (kernel + 1000) s))
        (select toy node (add_u64 height 1) l)
execute_round-Holds_example =
    execute_round-Holds toy toy_ser toy_db wallet node 3 world tx fresh-IsLedger.store mixed

abbrev later : World toy
later = (execute_round toy wallet node 3 world).1

Reach-IsLedger_example : IsLedger toy toy_ser toy_db later.db
Reach-IsLedger_example =
    Reach-IsLedger toy toy_ser toy_values toy_db 5 {w = world} {v = later}
      (next start (round wallet node 3)) fresh-IsLedger

abbrev busy_world : World toy
busy_world = record { db = busy_db; posted = [] }

Reach-keeps_example :
    Holds toy toy_ser toy_db (execute_round toy wallet node 3 busy_world).1.db 100 busy_swap
Reach-keeps_example =
    Reach-keeps toy toy_ser toy_values toy_db 5 {w = busy_world}
      {v = (execute_round toy wallet node 3 busy_world).1} 100 busy_swap
      (next start (round wallet node 3)) busy-IsLedger (λ e. cc e) busy_held

select-DistinctOutputs_example :
    DistinctOutputs toy (select toy node 11 (fresh_swap ∷ fresh_swap ∷ []))
select-DistinctOutputs_example = select-DistinctOutputs toy node 11 (fresh_swap ∷ fresh_swap ∷ [])

assembled : assemble_tx toy wallet 3 (100 ∷ []) ((47, 47) ∷ []) 2 60 (7 ∷ []) ≡ ok tx
unfolding assemble_tx add_u64 mwixnet.Base.mul_u64 mwixnet.Secp.Commit.commit
    mwixnet.Secp.Commit.sign
assembled = refl

assemble_tx_fees_example :
    (draft : Draft toy) × (fee : ℕ) × (kernel : ℕ) × (tx
      ≡ toy.transaction_with_offset (toy.transaction_new (100 ∷ []) draft.outputs (kernel ∷ [])) 3)
    × (toy.fee_fields_new 0 draft.kernel_fee ≡ ok fee)
    × Pays toy wallet fee kernel
    × (toy.weight_by_iok 1 (length draft.outputs) 1 * 2 ≤ draft.kernel_fee)
    × (Kept toy wallet 60 ((47, 47) ∷ []) (7 ∷ []) draft
        ⊎ Collected toy wallet
            (toy.weight_by_iok 1 2 1 * 2)
            (toy.weight_by_iok 1 0 0 * 2)
            60
            ((47, 47) ∷ [])
            (7 ∷ [])
            draft)
assemble_tx_fees_example =
    assemble_tx_fees toy wallet 3 (100 ∷ []) ((47, 47) ∷ []) 2 60 (7 ∷ []) tx (omega arith)
      (omega arith) (omega arith) assembled

abbrev empty_world : World toy
empty_world = record { db = []; posted = [] }

nothing_posted : (execute_round toy wallet node 3 empty_world).1.posted ≡ []
unfolding execute_round swaps_iter
nothing_posted = refl

execute_round_unposted_example : (execute_round toy wallet node 3 empty_world).1 ≡ empty_world
execute_round_unposted_example =
    execute_round_unposted toy toy_ser toy_db wallet node 3 empty_world nothing_posted
