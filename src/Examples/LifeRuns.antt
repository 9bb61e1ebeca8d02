-- ===== src/Examples/LifeRuns.antt =====
-- The theorems on routes, refusals and the life of a swap, over the toy crates.
use mwixnet.Base.{
  ◌≢◌, ◌==◌, In, inl, ℕ, ◌≡◌, ◌↔◌, ◌<◌, ◌+◌, refl, sym, ap, subst, [], ◌∷◌, List, none, some, ok,
  err, arith, add_u64,
}
use mwixnet.Types.{Payload}
use mwixnet.Node.{GrinNode}
use mwixnet.Onion.{Onion}
use mwixnet.Onion.Route.{Stop, route_fee, add_excesses, peel_all, peel_all-create_onion}
use mwixnet.Store.Data.{SwapData, unprocessed, in_process}
use mwixnet.Store.Ops.{swaps_iter}
use mwixnet.Store.View.{Holds}
use mwixnet.Server.Swap.{SwapError, coin_not_found, missing_rangeproof, swap}
use mwixnet.Server.Round.{World, select, first_kernel, execute_round}
use mwixnet.Server.Accept.{swap_of}
use mwixnet.Server.Mark.{mark}
use mwixnet.Server.Reach
use mwixnet.Server.Reach.{start, next}
use mwixnet.Server.Once.{select-execute_round}
use mwixnet.Server.Refuse.{Refusal}
use mwixnet.Server.Refused.{swap-Refusal}
use mwixnet.Server.Attempt.{Attempt, swap_expected}
use mwixnet.Server.Lifecycle.{Requests, no_more, requested}
use mwixnet.Server.Mixing.{Request-mixes}
use mwixnet.Examples.Toy.{toy}
use mwixnet.Examples.ToyLaws.{toy_ser, toy_values, toy_db, toy_reliable, toy_onions}
use mwixnet.Examples.ToyUp.{toy_commit, toy_weights, toy_kernels, toy_shift}
use mwixnet.Examples.Data.{
  node, wallet, onion, payload, comsig, node-IsHonest, empty-IsLedger, fresh-IsLedger, fresh_swap,
  world, tx, mixed, one_utxo,
}
use mwixnet.Examples.ClientRuns.{
  node-NeverPanics, signature, request, payload-IsPayload, no_entry, fresh_listed, fits, some_fee,
  small_fee, spendable, off_chain, alone,
}
use mwixnet.Examples.PartRuns.{two_layers, created}

abbrev route : List (Stop toy)
route =
    (5, record { pubkey = 5; payload = payload })
    ∷ (6, record { pubkey = 6; payload = record { excess = 8; fee = 10; rangeproof = none } })
    ∷ []

fees : route_fee toy route ≡ 70
unfolding route_fee
fees = refl

excesses : add_excesses toy 20 route ≡ ok 35
unfolding add_excesses
excesses = refl

peel_all-create_onion_example :
    (o : Onion toy) × (peel_all toy two_layers (5 ∷ 6 ∷ [])
      ≡ ok (payload ∷ record { excess = 8; fee = 10; rangeproof = none } ∷ [], o))
    × (o.enc_payloads ≡ [])
    × (toy.commit 10 35 ≡ ok o.commit)
peel_all-create_onion_example =
    peel_all-create_onion toy toy_ser toy_onions toy_shift route 10 20 35 2 100 two_layers
      (
        (refl, (refl, (refl, omega arith)), omega arith),
        ((refl, (refl, (refl, omega arith)), omega arith), tt),
      )
      (omega arith) (rw fees (omega arith)) (rw fees refl) excesses created

swap-Refusal_example :
    ((swap toy 5 node onion comsig []).0 ≡ err missing_rangeproof)
    ↔ Refusal toy 5 node onion comsig missing_rangeproof
swap-Refusal_example = swap-Refusal toy 5 node onion comsig [] missing_rangeproof refl

-- A node for which no output is unspent, and the client's request as an attempt.
abbrev pub empty_node : GrinNode toy
empty_node = record node { get_utxo = λ _. ok none }

abbrev pub attempt : Attempt toy (λ v. v ∷ []) 5
attempt = record {
  amount = request.amount;
  blind = request.blind;
  commit = request.commit;
  commit_lem = request.commit_lem;
  payload = request.payload;
  shifted = request.shifted;
  shifted_lem = request.shifted_lem;
  output = request.output;
  output_lem = request.output_lem;
  pubkey = request.pubkey;
  pubkey_lem = request.pubkey_lem;
  behind = [];
  session_key = request.session_key;
  onion = request.onion;
  onion_lem = request.onion_lem;
  bytes = request.bytes;
  bytes_lem = request.bytes_lem;
  k_1 = request.k_1;
  k_2 = request.k_2;
  comsig = request.comsig;
  comsig_lem = request.comsig_lem;
}

swap_expected_example : swap toy 5 empty_node onion signature [] ≡ (err (coin_not_found 100), [])
swap_expected_example =
    swap_expected toy (λ v. v ∷ []) toy_ser toy_onions toy_commit 5 attempt empty_node [] none
      (coin_not_found 100) payload-IsPayload refl refl

abbrev empty_world : World toy
empty_world = record { db = []; posted = [] }

requested_lem : requested toy 5 node onion signature empty_world ≡ world
unfolding swap mwixnet.Secp.Sign.verify mwixnet.Onion.Peel.onion_serialize
    mwixnet.Onion.Peel.peel_layer mwixnet.Onion.write_onion mwixnet.Onion.write_payloads
    mwixnet.Base.ℕ_discrete mwixnet.Node.build_input mwixnet.Types.payload_deserialize
    mwixnet.Types.read_payload mwixnet.Types.read_optional mwixnet.Secp.read_secret_key
    mwixnet.Secp.Commit.add_excess mwixnet.Secp.Commit.sub_value
    mwixnet.Server.Swap.get_minimum_swap_fee mwixnet.Base.mul_u64 mwixnet.Store.Ops.save_swap
    mwixnet.Store.Data.write_swap_data mwixnet.Types.write_optional mwixnet.Store.Data.write_status
    mwixnet.Store.Ops.commit_batch
requested_lem = refl

Request-mixes_example :
    (tx : toy.Transaction) × (kernel : ℕ) × (peeled : Onion toy) × (input : ℕ) × ((execute_round toy
        wallet node 3 world).0
      ≡ ok (some tx))
    × (first_kernel toy (toy.transaction_kernels tx) ≡ ok kernel)
    × (peeled.commit ≡ 47)
    × Holds toy toy_ser toy_db
        (execute_round toy wallet node 3 world).1.db
        100
        (mark toy toy_ser toy_db (kernel + 1000) (swap_of toy payload peeled input))
Request-mixes_example =
    Request-mixes toy (λ v. v ∷ []) toy_ser toy_values toy_onions toy_commit toy_db toy_weights
      toy_kernels 5 node request empty_world world (execute_round toy wallet node 3 world).1 wallet
      node 3 10 (fresh_swap ∷ []) payload-IsPayload toy_reliable node-IsHonest empty-IsLedger
      no_entry
      (subst (Requests toy 5 (requested toy 5 node onion signature empty_world)) requested_lem
        no_more)
      (λ t h e. ap (λ s. s.input) (alone t h e)) refl node-NeverPanics (λ t. refl) spendable
      off_chain fresh_listed (λ amount. (amount, (amount, amount), amount, refl, refl)) some_fee
      small_fee fits start

-- A second client with the output 200, after the round that mixes the first one's swap.
abbrev second_onion : Onion toy
second_onion = record {
  ephemeral_pubkey = 2;
  commit = 200;
  enc_payloads = (0 ∷ 7 ∷ 60 ∷ 1 ∷ 147 ∷ []) ∷ [];
}

abbrev second_swap : SwapData toy
second_swap = record {
  excess = 7;
  output_commit = 147;
  rangeproof = some 147;
  input = 200;
  fee = 60;
  onion = record { ephemeral_pubkey = 2; commit = 147; enc_payloads = [] };
  status = unprocessed;
}

abbrev second_node : GrinNode toy
second_node = record node { get_utxo = λ c. one_utxo c (c == 200) }

abbrev second_world : World toy
second_world =
    requested toy 5 second_node second_onion (record { pub_nonce = 4; s = 481; t = 123 })
      (execute_round toy wallet node 3 world).1

abbrev second_swaps : List (SwapData toy)
second_swaps = second_swap ∷ record fresh_swap { status = in_process 1060 } ∷ []

second_listed : swaps_iter toy second_world.db ≡ ok second_swaps
unfolding execute_round swap swaps_iter mwixnet.Store.Ops.save_swap
    mwixnet.Store.Data.write_swap_data mwixnet.Types.write_optional mwixnet.Onion.write_onion
    mwixnet.Onion.write_payloads mwixnet.Store.Data.write_status mwixnet.Store.Ops.commit_batch
    mwixnet.Store.Data.read_swap_data mwixnet.Secp.read_secret_key mwixnet.Types.read_optional
    mwixnet.Onion.read_onion mwixnet.Onion.read_payloads mwixnet.Store.Data.read_status
    mwixnet.Node.is_spendable mwixnet.Node.is_unspent mwixnet.Wallet.assemble_tx
    mwixnet.Secp.Commit.commit mwixnet.Secp.Commit.sign mwixnet.Base.add_u64 mwixnet.Base.mul_u64
    mwixnet.Secp.Sign.verify mwixnet.Onion.Peel.onion_serialize mwixnet.Onion.Peel.peel_layer
    mwixnet.Base.ℕ_discrete mwixnet.Node.build_input mwixnet.Types.payload_deserialize
    mwixnet.Types.read_payload mwixnet.Secp.Commit.add_excess mwixnet.Secp.Commit.sub_value
    mwixnet.Server.Swap.get_minimum_swap_fee
second_listed = refl

first_chosen : In fresh_swap (select toy node (add_u64 10 1) (fresh_swap ∷ []))
unfolding select add_u64 mwixnet.Node.is_spendable mwixnet.Node.is_unspent
first_chosen = inl refl

second_chosen : In second_swap (select toy second_node 11 second_swaps)
unfolding select mwixnet.Node.is_spendable mwixnet.Node.is_unspent
second_chosen = inl refl

select-execute_round_example : ◌≢◌ {A = ℕ} 200 100
select-execute_round_example =
    select-execute_round toy toy_ser toy_values toy_db 5 wallet node second_node 3 world
      second_world tx 10 11 (fresh_swap ∷ []) second_swaps fresh_swap second_swap fresh-IsLedger
      mixed refl fresh_listed first_chosen
      (next start
        (Reach.request second_node second_onion (record { pub_nonce = 4; s = 481; t = 123 })))
      second_listed second_chosen
