-- ===== src/Examples/Data.antt =====
-- A request and a store over the toy crates: the key 5, an onion for the commitment 100 with one
-- payload of excess 7 and fee 60, and a node for which 100 is the one unspent output.
use mwixnet.Base.{
  ℕ, ◌≡◌, ◌≢◌, ◌≤◌, ◌<◌, ◌⊎◌, inl, inr, refl, [], ◌∷◌, List, Option, none, some, Bool, true, false,
  Result, ok, err, panic, ◌==◌, ==_iff, if◌then◌else◌, arith, Bool-cases, ok-injective,
  some-injective, sym, ap, ◌∙◌,
}
use mwixnet.Ext.Grin.{OutputType, transaction}
use mwixnet.Secp.{ComSignature}
use mwixnet.Secp.Sign.{verify}
use mwixnet.Types.{Payload, payload_deserialize, read_payload, read_optional}
use mwixnet.Node.{IsHonest, GrinNode, NodeError, build_input}
use mwixnet.Wallet.{Wallet}
use mwixnet.Onion.{Onion}
use mwixnet.Onion.Peel.{onion_serialize, peel_layer}
use mwixnet.Store.Data.{SwapData, unprocessed, in_process}
use mwixnet.Store.Ops.{save_swap, swaps_iter}
use mwixnet.Store.RoundTrip.{IsSwap}
use mwixnet.Server.Swap.{swap, get_minimum_swap_fee}
use mwixnet.Server.Round.{World, execute_round}
use mwixnet.Store.View.{Holds}
use mwixnet.Store.Refinement.{save_swap-Holds}
use mwixnet.Server.Mark.{IsSound, IsLedger, save_swap-IsLedger}
use mwixnet.Examples.Toy.{toy}
use mwixnet.Examples.ToyLaws.{toy_ser, toy_db}

abbrev pub one_utxo : ℕ → Bool → Result (NodeError toy) (Option (OutputType × ℕ × Option ℕ))
one_utxo c true = ok (some (transaction, c, none))
one_utxo c false = ok none

abbrev pub node : GrinNode toy
node = record {
  get_utxo = λ c. one_utxo c (c == 100);
  get_chain_height = ok 10;
  post_tx = λ _. ok tt;
}

abbrev pub wallet : Wallet toy
wallet = record { build_output = λ amount. ok (amount, (amount, amount)) }

abbrev pub onion : Onion toy
onion = record {
  ephemeral_pubkey = 2;
  commit = 100;
  enc_payloads = (0 ∷ 7 ∷ 60 ∷ 1 ∷ 47 ∷ []) ∷ [];
}

abbrev pub peeled : Onion toy
peeled = record { ephemeral_pubkey = 2; commit = 47; enc_payloads = [] }

abbrev pub payload : Payload toy
payload = record { excess = 7; fee = 60; rangeproof = some 47 }

abbrev pub comsig : ComSignature toy
comsig = record { pub_nonce = 4; s = 300; t = 4 }

pub node-IsHonest : IsHonest toy node
node-IsHonest c out e = go c out (c == 100) refl e
  where
    go :
        (c : ℕ) (out : OutputType × ℕ × Option ℕ) (b : Bool)
        → (c == 100) ≡ b
        → one_utxo c b ≡ ok (some out)
        → out.1 ≡ c
    go c out true h k =
        sym (ap (λ o. o.1) (some-injective _ _ (ok-injective {E = NodeError toy} _ _ k)))
    go c out false h k = cc

pub accepted : (swap toy 5 node onion comsig []).0 ≡ ok tt
unfolding swap verify onion_serialize peel_layer mwixnet.Onion.write_onion
    mwixnet.Onion.write_payloads mwixnet.Base.ℕ_discrete build_input payload_deserialize
    read_payload mwixnet.Secp.read_secret_key mwixnet.Secp.Commit.add_excess
    mwixnet.Secp.Commit.sub_value get_minimum_swap_fee mwixnet.Base.mul_u64 save_swap
    mwixnet.Store.Data.write_swap_data mwixnet.Types.write_optional mwixnet.Store.Data.write_status
    mwixnet.Store.Ops.commit_batch
accepted = refl

-- The swap of the request, unprocessed and in process.
abbrev pub fresh_swap : SwapData toy
fresh_swap = record {
  excess = 7;
  output_commit = 47;
  rangeproof = some 47;
  input = 100;
  fee = 60;
  onion = peeled;
  status = unprocessed;
}

abbrev pub busy_swap : SwapData toy
busy_swap = record fresh_swap { status = in_process 1000 }

pub fresh_swap-IsSwap : IsSwap toy toy_ser fresh_swap
fresh_swap-IsSwap = record { key = refl; fee = omega arith; onion = (omega arith, tt) }

pub busy_swap-IsSwap : IsSwap toy toy_ser busy_swap
busy_swap-IsSwap = record { key = refl; fee = omega arith; onion = (omega arith, tt) }

-- Stores with that swap.
abbrev pub fresh_db : toy.Db
fresh_db = (save_swap toy fresh_swap false []).1

abbrev pub busy_db : toy.Db
busy_db = (save_swap toy busy_swap false []).1

pub fresh_saved : (save_swap toy fresh_swap false []).0 ≡ ok tt
unfolding save_swap mwixnet.Store.Data.write_swap_data mwixnet.Types.write_optional
    mwixnet.Onion.write_onion mwixnet.Onion.write_payloads mwixnet.Store.Data.write_status
    mwixnet.Store.Ops.commit_batch
fresh_saved = refl

pub busy_saved : (save_swap toy busy_swap false []).0 ≡ ok tt
unfolding save_swap mwixnet.Store.Data.write_swap_data mwixnet.Types.write_optional
    mwixnet.Onion.write_onion mwixnet.Onion.write_payloads mwixnet.Store.Data.write_status
    mwixnet.Store.Ops.commit_batch
busy_saved = refl

pub fresh-IsSound : IsSound toy toy_ser toy_db fresh_swap
unfolding get_minimum_swap_fee mwixnet.Base.mul_u64
fresh-IsSound = record { fee_lem = omega arith; proof = 47; proof_lem = refl; verified = refl }

pub busy-IsSound : IsSound toy toy_ser toy_db busy_swap
unfolding get_minimum_swap_fee mwixnet.Base.mul_u64
busy-IsSound = record { fee_lem = omega arith; proof = 47; proof_lem = refl; verified = refl }

nothing : {A C : Type 0} {a : A} → ◌≡◌ {A = Option A} none (some a) → C
nothing h = absurd (cc h)

pub empty-IsLedger : IsLedger toy toy_ser toy_db []
unfolding toy_db
empty-IsLedger = record {
  store = record { owns = λ k v h. nothing h };
  sound = λ c s h. nothing h.stored;
}

pub fresh-IsLedger : IsLedger toy toy_ser toy_db fresh_db
fresh-IsLedger =
    save_swap-IsLedger toy toy_ser toy_db [] fresh_swap fresh_swap-IsSwap false fresh-IsSound
      empty-IsLedger

pub busy-IsLedger : IsLedger toy toy_ser toy_db busy_db
busy-IsLedger =
    save_swap-IsLedger toy toy_ser toy_db [] busy_swap busy_swap-IsSwap false busy-IsSound
      empty-IsLedger

pub fresh_held : Holds toy toy_ser toy_db fresh_db 100 fresh_swap
fresh_held = save_swap-Holds toy toy_ser toy_db [] fresh_swap fresh_swap-IsSwap false fresh_saved

pub busy_held : Holds toy toy_ser toy_db busy_db 100 busy_swap
busy_held = save_swap-Holds toy toy_ser toy_db [] busy_swap busy_swap-IsSwap false busy_saved

-- A world with the fresh swap, and the transaction of a round on it.
abbrev pub world : World toy
world = record { db = fresh_db; posted = [] }

abbrev pub tx : toy.Transaction
tx = (100 ∷ [], (47, 47) ∷ [], 60 ∷ [], 3)

pub mixed : (execute_round toy wallet node 3 world).0 ≡ ok (some tx)
unfolding execute_round swaps_iter save_swap mwixnet.Store.Data.write_swap_data
    mwixnet.Types.write_optional mwixnet.Onion.write_onion mwixnet.Onion.write_payloads
    mwixnet.Store.Data.write_status mwixnet.Store.Ops.commit_batch mwixnet.Store.Data.read_swap_data
    mwixnet.Secp.read_secret_key read_optional mwixnet.Onion.read_onion mwixnet.Onion.read_payloads
    mwixnet.Store.Data.read_status mwixnet.Node.is_spendable mwixnet.Node.is_unspent
    mwixnet.Wallet.assemble_tx mwixnet.Secp.Commit.commit mwixnet.Secp.Commit.sign
    mwixnet.Base.add_u64 mwixnet.Base.mul_u64
mixed = refl
