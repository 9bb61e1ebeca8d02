-- ===== src/Examples/MockRuns.antt =====
-- The life of a swap over the node and the wallet of the tests, and the toy crates.
use mwixnet.Base.{
  ℕ, ◌+◌, ◌<◌, ◌^◌, ◌≡◌, refl, sym, ap, subst, [], ◌∷◌, ◌++◌, List, Option, none, some, false, ok,
  arith, add_u64, length,
}
use mwixnet.Ext.Grin.{OutputType, transaction}
use mwixnet.Node.Mock.{
  get_posted_txns, after_posts, with_utxos, member, mock_node, mock_get_utxo, with_utxos-IsHonest,
}
use mwixnet.Node.{GrinNode, IsHonest, is_spendable, is_unspent}
use mwixnet.Wallet.Mock.{Drawn, mock_wallet}
use mwixnet.Onion.{Onion}
use mwixnet.Store.Data.{SwapData}
use mwixnet.Store.Ops.{swaps_iter}
use mwixnet.Store.View.{Holds}
use mwixnet.Server.Round.{World, select, first_kernel, execute_round}
use mwixnet.Server.Accept.{swap_of}
use mwixnet.Server.Mark.{mark}
use mwixnet.Server.Fees.{Fits, total_fee}
use mwixnet.Server.Client.{Request}
use mwixnet.Server.Lifecycle.{requested}
use mwixnet.Server.Mocked.{swap_lifecycle}
use mwixnet.Examples.Toy.{toy}
use mwixnet.Examples.ToyLaws.{toy_ser, toy_values, toy_db, toy_reliable, toy_onions}
use mwixnet.Examples.ToyUp.{toy_commit, toy_weights, toy_kernels}
use mwixnet.Examples.Data.{onion, payload, empty-IsLedger, fresh_swap, world}
use mwixnet.Examples.ClientRuns
use mwixnet.Examples.ClientRuns.{signature, payload-IsPayload, no_entry, some_fee, fresh_listed}

abbrev default_utxo : ℕ → OutputType × ℕ × Option ℕ
default_utxo c = (transaction, c, none)

abbrev tested : GrinNode toy
tested = mock_node toy (with_utxos toy default_utxo (100 ∷ []))

found : tested.get_utxo 100 ≡ ok (some (transaction, 100, none))
unfolding mock_get_utxo with_utxos mwixnet.Node.Mock.find_utxo mwixnet.Base.ℕ_discrete
found = refl

abbrev asked : Request toy (λ v. v ∷ []) 5 tested
asked = record {
  amount = 60;
  blind = 40;
  commit = 100;
  commit_lem = refl;
  utxo = (transaction, 100, none);
  utxo_lem = found;
  payload = payload;
  proof = 47;
  proof_lem = refl;
  fee_lem = ClientRuns.enough_fee;
  shifted = 107;
  shifted_lem = ClientRuns.added;
  output = 47;
  output_lem = ClientRuns.subtracted;
  proved = refl;
  pubkey = 5;
  pubkey_lem = refl;
  session_key = 2;
  onion = onion;
  onion_lem = ClientRuns.created;
  bytes = ClientRuns.message;
  bytes_lem = ClientRuns.serialized;
  k_1 = 1;
  k_2 = 3;
  comsig = signature;
  comsig_lem = ClientRuns.signed;
}

abbrev drawn : ℕ → Drawn toy
drawn amount = record { blind = 8; rewind_nonce = 1; private_nonce = 2 }

abbrev bullet_proof : ℕ → ℕ → ℕ → ℕ → ℕ
bullet_proof amount blind n m = amount + blind

abbrev empty_world : World toy
empty_world = record { db = []; posted = [] }

abbrev served : World toy
served = requested toy 5 tested onion signature empty_world

served_lem : served ≡ world
unfolding mwixnet.Server.Swap.swap mock_get_utxo with_utxos mwixnet.Node.Mock.find_utxo
    mwixnet.Secp.Sign.verify mwixnet.Onion.Peel.onion_serialize mwixnet.Onion.Peel.peel_layer
    mwixnet.Onion.write_onion mwixnet.Onion.write_payloads mwixnet.Base.ℕ_discrete
    mwixnet.Node.build_input mwixnet.Types.payload_deserialize mwixnet.Types.read_payload
    mwixnet.Types.read_optional mwixnet.Secp.read_secret_key mwixnet.Secp.Commit.add_excess
    mwixnet.Secp.Commit.sub_value mwixnet.Server.Swap.get_minimum_swap_fee mwixnet.Base.mul_u64
    mwixnet.Store.Ops.save_swap mwixnet.Store.Data.write_swap_data mwixnet.Types.write_optional
    mwixnet.Store.Data.write_status mwixnet.Store.Ops.commit_batch
served_lem = refl

off_list : member toy default_utxo 47 (100 ∷ []) ≡ false
unfolding member mwixnet.Base.ℕ_discrete
off_list = refl

abbrev chosen : List (SwapData toy)
chosen = select toy tested (add_u64 100 1) (fresh_swap ∷ [])

chosen_lem : chosen ≡ fresh_swap ∷ []
unfolding select add_u64 is_spendable is_unspent mock_get_utxo with_utxos
    mwixnet.Node.Mock.find_utxo mwixnet.Base.ℕ_discrete
chosen_lem = refl

fits : Fits toy toy_weights (length chosen) (total_fee toy chosen)
fits =
    subst (λ (l : List (SwapData toy)). Fits toy toy_weights (length l) (total_fee toy l))
      (sym chosen_lem)
      (record { total_lem = omega arith; weight_lem = omega arith; fee_lem = omega arith })

swap_lifecycle_example :
    (tx : toy.Transaction) × (kernel : ℕ) × (peeled : Onion toy) × (input : ℕ) × ((execute_round toy
        (mock_wallet toy bullet_proof drawn)
        tested
        3
        served).0
      ≡ ok (some tx))
    × (first_kernel toy (toy.transaction_kernels tx) ≡ ok kernel)
    × (peeled.commit ≡ 47)
    × Holds toy toy_ser toy_db
        (execute_round toy (mock_wallet toy bullet_proof drawn) tested 3 served).1.db
        100
        (mark toy toy_ser toy_db (kernel + 1000) (swap_of toy payload peeled input))
    × (get_posted_txns toy (
          after_posts toy
            (execute_round toy (mock_wallet toy bullet_proof drawn) tested 3 served).1.posted
            (with_utxos toy default_utxo (100 ∷ [])))
        ≡ get_posted_txns toy (after_posts toy [] (with_utxos toy default_utxo (100 ∷ [])))
          ++ (tx ∷ []))
swap_lifecycle_example =
    swap_lifecycle toy (λ v. v ∷ []) toy_ser toy_values toy_onions toy_commit toy_db toy_weights
      toy_kernels default_utxo (λ c. refl) (λ c. refl) bullet_proof drawn 5 (100 ∷ []) asked
      empty_world 3 (fresh_swap ∷ []) payload-IsPayload toy_reliable empty-IsLedger no_entry
      off_list
      (λ t h e.
        ap (λ s. s.input)
          (ClientRuns.alone t
            (subst (λ (u : World toy). Holds toy toy_ser toy_db u.db t.input t) served_lem h) e))
      (subst (λ (u : World toy). swaps_iter toy u.db ≡ ok (fresh_swap ∷ [])) (sym served_lem)
        fresh_listed)
      (λ amount. (_, refl)) (λ k. refl) some_fee (rw chosen_lem (omega arith)) fits
