-- ===== src/Examples/PromiseRuns.antt =====
-- The theorems on a client of the running program, over the toy crates.
use mwixnet.Base.{
  ℕ, ◌+◌, ◌≡◌, ◌≢◌, refl, sym, ap, ◌∙◌, subst, [], ◌∷◌, List, some, true, false, Result, ok, err,
  none, arith,
}
use mwixnet.Onion.{Onion}
use mwixnet.Store.View.{Holds}
use mwixnet.Server.Round.{first_kernel, execute_round}
use mwixnet.Server.Accept.{swap_of}
use mwixnet.Server.Mark.{mark}
use mwixnet.Rpc.Loop.{next_secs}
use mwixnet.Rpc.Listen.{testing, sleeping, Listener, answered, request, stop, handle, step, play}
use mwixnet.Rpc.Between.{Between, at_once, later}
use mwixnet.Rpc.Promised.{listen-mixes}
use mwixnet.Rpc.Refused.{handle_expected}
use mwixnet.Rpc.{invalid_params}
use mwixnet.Server.Swap.{coin_not_found}
use mwixnet.Examples.LifeRuns.{empty_node, attempt}
use mwixnet.Examples.Toy.{toy}
use mwixnet.Examples.ToyLaws.{toy_ser, toy_values, toy_db, toy_reliable, toy_onions}
use mwixnet.Examples.ToyUp.{toy_commit, toy_weights, toy_kernels}
use mwixnet.Examples.ToyFiles.{toy_files}
use mwixnet.Examples.Data.{
  node, wallet, onion, payload, node-IsHonest, empty-IsLedger, fresh_swap, world,
}
use mwixnet.Examples.ClientRuns
use mwixnet.Examples.ClientRuns.{signature, payload-IsPayload, no_entry, idle}
use mwixnet.Examples.ListenRuns.{toy_http, calm, wake}

-- Before the request, and after the request and the test of the stop state.
abbrev begun : Listener toy
begun = record { shared = idle; rounds = testing 1; stopped = false; accepting = true }

abbrev quiet : Listener toy
quiet = record {
  shared = record { world = world; poisoned = false };
  rounds = sleeping 1;
  stopped = false;
  accepting = true;
}

quiet_lem :
    step toy toy_files toy_http 2 5 wake
      (step toy toy_files toy_http 2 5 (request tt node onion signature) begun)
    ≡ quiet
unfolding step mwixnet.Server.Swap.swap mwixnet.Secp.Sign.verify mwixnet.Onion.Peel.onion_serialize
    mwixnet.Onion.Peel.peel_layer mwixnet.Onion.write_onion mwixnet.Onion.write_payloads
    mwixnet.Base.ℕ_discrete mwixnet.Node.build_input mwixnet.Types.payload_deserialize
    mwixnet.Types.read_payload mwixnet.Types.read_optional mwixnet.Secp.read_secret_key
    mwixnet.Secp.Commit.add_excess mwixnet.Secp.Commit.sub_value
    mwixnet.Server.Swap.get_minimum_swap_fee mwixnet.Base.mul_u64 mwixnet.Store.Ops.save_swap
    mwixnet.Store.Data.write_swap_data mwixnet.Types.write_optional mwixnet.Store.Data.write_status
    mwixnet.Store.Ops.commit_batch
quiet_lem = refl

still_testing :
    (secs : ℕ)
    → (step toy toy_files toy_http 2 5 (request tt node onion signature) begun).rounds
      ≡ sleeping secs
    → ◌≢◌ {A = Result (Unit {0}) ℕ} (next_secs 2 secs) (ok 0)
unfolding step
still_testing secs e z = absurd (cc e)

between :
    Between toy toy_files toy_http 2 5
      (step toy toy_files toy_http 2 5 (request tt node onion signature) begun)
      quiet
between =
    subst
      (Between toy toy_files toy_http 2 5
        (step toy toy_files toy_http 2 5 (request tt node onion signature) begun))
      quiet_lem (later at_once wake still_testing)

due_now : ◌≡◌ {A = Result (Unit {0}) ℕ} (next_secs 2 1) (ok 0)
unfolding next_secs
due_now = refl

listen-mixes_example :
    ((handle toy toy_files toy_http 5 tt node onion signature idle).0 ≡ answered (ok tt))
    × (tx : toy.Transaction) × (kernel : ℕ) × (peeled : Onion toy) × (input : ℕ) × ((execute_round
          toy wallet node 3 world).0
        ≡ ok (some tx))
    × (first_kernel toy (toy.transaction_kernels tx) ≡ ok kernel)
    × (peeled.commit ≡ 47)
    × Holds toy toy_ser toy_db
        (play toy toy_files toy_http 2 5
          (wake ∷ stop ∷ wake ∷ [])
          (step toy toy_files toy_http 2 5 wake quiet)).shared.world.db
        100
        (mark toy toy_ser toy_db (kernel + 1000) (swap_of toy payload peeled input))
listen-mixes_example =
    listen-mixes toy toy_files toy_http 2 5 (λ v. v ∷ []) toy_ser toy_values toy_onions toy_commit
      toy_db toy_weights toy_kernels tt node ClientRuns.request begun quiet calm 1 10
      (fresh_swap ∷ []) (wake ∷ stop ∷ wake ∷ []) payload-IsPayload toy_reliable node-IsHonest refl
      refl refl empty-IsLedger no_entry between refl refl due_now
      (λ t h e. ap (λ s. s.input) (ClientRuns.alone t h e)) refl ClientRuns.node-NeverPanics
      (λ t. refl) ClientRuns.spendable ClientRuns.off_chain ClientRuns.fresh_listed
      (λ amount. (amount, (amount, amount), amount, refl, refl)) ClientRuns.some_fee
      ClientRuns.small_fee ClientRuns.fits

handle_expected_example :
    handle toy toy_files toy_http 5 tt empty_node onion signature idle
    ≡ (answered (err (invalid_params (coin_not_found 100))), idle)
handle_expected_example =
    handle_expected toy toy_files toy_http (λ v. v ∷ []) toy_ser toy_onions toy_commit 5 tt attempt
      empty_node idle none (coin_not_found 100) payload-IsPayload refl refl refl refl
