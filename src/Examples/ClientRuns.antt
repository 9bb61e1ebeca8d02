-- ===== src/Examples/ClientRuns.antt =====
-- The theorems on honest clients, and on the fees and the success of rounds, over the toy crates.
use mwixnet.Base.{
  Bool, true, false, panic, ◌≢◌, ◌==◌, ok-panic, ℕ, ◌≡◌, ◌<◌, ◌≤◌, ◌^◌, ◌+◌, refl, [], ◌∷◌, List,
  Option, none, some, true, false, inl, inr, true, false, Result, ok, arith, add_u64, length,
}
use mwixnet.Onion.{Onion}
use mwixnet.Ext.Grin.{transaction}
use mwixnet.Onion.Peel.{onion_serialize}
use mwixnet.Onion.Create.{create_onion}
use mwixnet.Types.RoundTrip.{IsPayload}
use mwixnet.Store.Save.{entry}
use mwixnet.Secp.Commit.{add_excess, sub_value}
use mwixnet.Secp.{ComSignature}
use mwixnet.Secp.Sign.{sign, verify}
use mwixnet.Secp.Verify.{verify-sign}
use mwixnet.Store.Data.{SwapData}
use mwixnet.Store.Ops.{swaps_iter}
use mwixnet.Store.View.{Holds}
use mwixnet.Server.Swap.{get_minimum_swap_fee}
use mwixnet.Server.Accept.{swap_of}
use mwixnet.Server.Client.{Request}
use mwixnet.Server.Mark.{mark}
use mwixnet.Server.Complete.{execute_round-marks}
use mwixnet.Rpc.{Shared, api_swap}
use mwixnet.Rpc.Request.{SwapReq, Params, request_serialize, request_deserialize}
use mwixnet.Rpc.Served.{api_swap-Request}
use mwixnet.Store.View.{swaps_iter-Holds}
use mwixnet.Node.{NeverPanics, is_spendable, is_unspent}
use mwixnet.Server.Round.{answer, first_kernel}
use mwixnet.Examples.ToyFiles.{toy_files}
use mwixnet.Examples.ToyNet.{toy_net, toy_forms}
use mwixnet.Server.Round.{select, execute_round}
use mwixnet.Server.Fees.{Fits, Covered, total_fee, execute_round_fees}
use mwixnet.Server.Live.{execute_round-mixes}
use mwixnet.Examples.Toy.{toy}
use mwixnet.Examples.ToyLaws.{toy_ser, toy_values, toy_db, toy_reliable, toy_onions}
use mwixnet.Examples.ToyUp.{toy_commit, toy_weights, toy_kernels}
use mwixnet.Examples.Data.{
  one_utxo, node, wallet, onion, payload, node-IsHonest, fresh_swap, fresh_held, fresh-IsLedger,
  world, tx, mixed,
}

-- Signed with the nonces 1 and 3 for the amount 60 with the blinding factor 40.
abbrev pub signature : ComSignature toy
signature = record { pub_nonce = 4; s = 181; t = 123 }

abbrev pub message : List ℕ
message = 2 ∷ 100 ∷ 1 ∷ 5 ∷ 0 ∷ 7 ∷ 60 ∷ 1 ∷ 47 ∷ []

pub signed : sign toy (λ v. v ∷ []) 1 3 60 40 message ≡ ok signature
unfolding sign
signed = refl

verify-sign_example : (c : ℕ) × (toy.commit 60 40 ≡ ok c) × (verify toy signature c message ≡ ok tt)
verify-sign_example = verify-sign toy (λ v. v ∷ []) toy_commit 1 3 60 40 message signature signed

pub enough_fee : get_minimum_swap_fee toy ≤ 60
unfolding get_minimum_swap_fee mwixnet.Base.mul_u64
enough_fee = omega arith

pub added : add_excess toy 100 7 ≡ ok 107
unfolding add_excess
added = refl

pub subtracted : sub_value toy 107 60 ≡ ok 47
unfolding sub_value
subtracted = refl

pub created : create_onion toy 100 (record { pubkey = 5; payload = payload } ∷ []) 2 ≡ ok onion
unfolding create_onion mwixnet.Onion.Peel.calc_blinding_factor mwixnet.Types.payload_serialize
    mwixnet.Types.write_payload mwixnet.Types.write_optional mwixnet.Onion.Peel.new_stream_cipher
    mwixnet.Onion.Peel.apply_all
created = refl

pub serialized : onion_serialize toy onion ≡ ok message
unfolding onion_serialize mwixnet.Onion.write_onion mwixnet.Onion.write_payloads
serialized = refl

abbrev pub request : Request toy (λ v. v ∷ []) 5 node
request = record {
  amount = 60;
  blind = 40;
  commit = 100;
  commit_lem = refl;
  utxo = (transaction, 100, none);
  utxo_lem = refl;
  payload = payload;
  proof = 47;
  proof_lem = refl;
  fee_lem = enough_fee;
  shifted = 107;
  shifted_lem = added;
  output = 47;
  output_lem = subtracted;
  proved = refl;
  pubkey = 5;
  pubkey_lem = refl;
  session_key = 2;
  onion = onion;
  onion_lem = created;
  bytes = message;
  bytes_lem = serialized;
  k_1 = 1;
  k_2 = 3;
  comsig = signature;
  comsig_lem = signed;
}

pub payload-IsPayload : IsPayload toy toy_ser payload
payload-IsPayload = (refl, (refl, omega arith))

pub no_entry : entry toy toy_ser toy_db [] 100 ≡ none
unfolding toy_db
no_entry = refl

abbrev pub idle : Shared toy
idle = record { world = record { db = []; posted = [] }; poisoned = false }

api_swap-Request_example :
    (params : Params toy toy_files toy_net) × (req : SwapReq toy toy_files toy_net)
    × (request_serialize toy toy_files toy_net (record { onion = onion; comsig = signature })
        ≡ ok params)
    × (request_deserialize toy toy_files toy_net params ≡ ok req)
    × ((api_swap toy 5 node req.onion req.comsig idle).0 ≡ ok tt)
    × (peeled : Onion toy) × (input : ℕ) × (peeled.commit ≡ 47)
    × Holds toy toy_ser toy_db
        (api_swap toy 5 node req.onion req.comsig idle).1.world.db
        100
        (swap_of toy payload peeled input)
api_swap-Request_example =
    api_swap-Request toy toy_files toy_net toy_forms (λ v. v ∷ []) toy_ser toy_values toy_onions
      toy_commit toy_db 5 node request idle payload-IsPayload (refl, refl) toy_reliable
      node-IsHonest refl no_entry

pub fresh_listed : swaps_iter toy world.db ≡ ok (fresh_swap ∷ [])
unfolding swaps_iter mwixnet.Store.Ops.save_swap mwixnet.Store.Data.write_swap_data
    mwixnet.Types.write_optional mwixnet.Onion.write_onion mwixnet.Onion.write_payloads
    mwixnet.Store.Data.write_status mwixnet.Store.Ops.commit_batch mwixnet.Store.Data.read_swap_data
    mwixnet.Secp.read_secret_key mwixnet.Types.read_optional mwixnet.Onion.read_onion
    mwixnet.Onion.read_payloads mwixnet.Store.Data.read_status
fresh_listed = refl

abbrev pub chosen : List (SwapData toy)
chosen = select toy node (add_u64 10 1) (fresh_swap ∷ [])

chosen_lem : chosen ≡ fresh_swap ∷ []
unfolding select add_u64 mwixnet.Node.is_spendable mwixnet.Node.is_unspent
chosen_lem = refl

pub fits : Fits toy toy_weights (length chosen) (total_fee toy chosen)
unfolding select add_u64 mwixnet.Node.is_spendable mwixnet.Node.is_unspent
fits = record { total_lem = omega arith; weight_lem = omega arith; fee_lem = omega arith }

execute_round_fees_example : Covered toy toy_ser toy_values toy_db toy_weights wallet 3 chosen tx
execute_round_fees_example =
    execute_round_fees toy toy_ser toy_values toy_db toy_weights wallet node 3 world 10
      (fresh_swap ∷ []) tx fresh-IsLedger refl fresh_listed fits mixed

pub one_chosen : 0 < length chosen
one_chosen = rw chosen_lem (omega arith)

pub some_fee : 0 < get_minimum_swap_fee toy
unfolding get_minimum_swap_fee mwixnet.Base.mul_u64
some_fee = omega arith

pub small_fee : total_fee toy chosen < 2 ^ 40
small_fee = rw chosen_lem (omega arith)

pub node-NeverPanics : NeverPanics toy node
node-NeverPanics c = ended_well (c == 100)
  where
    ended_well : (b : Bool) → one_utxo c b ≢ panic
    ended_well true = ok-panic _
    ended_well false = ok-panic _

execute_round-mixes_example :
    (t : toy.Transaction) × ((execute_round toy wallet node 3 world).0 ≡ ok (some t))
execute_round-mixes_example =
    execute_round-mixes toy toy_ser toy_values toy_db toy_reliable toy_weights toy_kernels wallet
      node 3 world (λ amount. (amount, (amount, amount), amount, refl, refl)) node-NeverPanics
      (λ t. refl) 10 (fresh_swap ∷ []) fresh-IsLedger refl fresh_listed one_chosen some_fee
      small_fee fits

pub spendable : answer toy false (is_spendable toy node 100 (add_u64 10 1)) ≡ true
unfolding is_spendable add_u64
spendable = refl

pub off_chain : answer toy true (is_unspent toy node 47) ≡ false
unfolding is_unspent
off_chain = refl

pub alone :
    (t : SwapData toy)
    → Holds toy toy_ser toy_db world.db t.input t
    → t.output_commit ≡ 47
    → t ≡ fresh_swap
alone t h e =
    elim ((swaps_iter-Holds toy toy_ser toy_db world.db (fresh_swap ∷ []) fresh-IsLedger.store
        fresh_listed t).1
      h) [ inl same ↦ same | inr m ↦ absurd m ]

execute_round-marks_example :
    (kernel : ℕ) × (first_kernel toy (toy.transaction_kernels tx) ≡ ok kernel)
    × Holds toy toy_ser toy_db
        (execute_round toy wallet node 3 world).1.db
        100
        (mark toy toy_ser toy_db (kernel + 1000) fresh_swap)
execute_round-marks_example =
    execute_round-marks toy toy_ser toy_db wallet node 3 world 10 fresh_swap tx fresh-IsLedger.store
      fresh_held refl alone refl spendable off_chain mixed
