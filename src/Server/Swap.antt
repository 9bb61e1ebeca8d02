-- ===== src/Server/Swap.antt =====
-- `SwapError`, the fees and `ServerImpl::swap` of src/server.rs. The state is the database.
use mwixnet.Base.{
  ℕ, ◌⊎◌, inl, inr, Option, none, some, length, Bool, true, false, not, Result, err, map_err, ok_or,
  ltb, ◌==◌, mul_u64,
}
use mwixnet.Base.Exec.{Exec, pure, raise, lift, ◌>>=◌, ◌>>◌}
use mwixnet.Ext.{Crates}
use mwixnet.Secp.{ComSignature}
use mwixnet.Secp.Sign.{verify}
use mwixnet.Node.{GrinNode, NodeError, build_input}
use mwixnet.Onion.{Onion}
use mwixnet.Onion.Peel.{OnionError, onion_serialize, peel_layer}
use mwixnet.Store.Data.{SwapData, unprocessed}
use mwixnet.Store.Ops.{StoreError, already_exists, save_swap}

module _ (x : Crates) where
  -- The text of `UnknownError` is the display of the error that it holds here.
  pub data SwapError : Type 0 where
    invalid_payload_length : ℕ → ℕ → SwapError
    invalid_com_signature invalid_rangeproof missing_rangeproof : SwapError
    coin_not_found already_swapped : x.Commitment → SwapError
    peel_onion_failure : OnionError x → SwapError
    fee_too_low : ℕ → ℕ → SwapError
    store_error : StoreError x → SwapError
    unknown_error : x.SerError ⊎ NodeError x → SwapError

  -- `get_fee_base` and `get_minimum_swap_fee`
  abbrev pub get_fee_base : ℕ
  get_fee_base = x.default_accept_fee_base

  unfoldable pub get_minimum_swap_fee : ℕ
  get_minimum_swap_fee = mul_u64 (x.weight_by_iok 1 1 1) get_fee_base

  -- `if !test { return Err(e) }`
  abbrev pub require : Bool → SwapError → Exec x.Db SwapError (Unit {0})
  require true e = pure tt
  require false e = raise e

  -- The part that verifies the range proof.
  unfoldable pub check_rangeproof : x.Commitment → Option x.RangeProof → Result SwapError (Unit {0})
  check_rangeproof commit none = err missing_rangeproof
  check_rangeproof commit (some r) =
      map_err (λ _. invalid_rangeproof) (x.verify_bullet_proof commit r)

  -- The error that a failed `save_swap` becomes.
  abbrev pub save_error : x.Commitment → StoreError x → SwapError
  save_error commit (already_exists _) = already_swapped commit
  save_error commit e = store_error e

  unfoldable pub save : x.Commitment → SwapData x → Exec x.Db SwapError (Unit {0})
  save commit s db = let (r, db') = save_swap x s false db in (map_err (save_error commit) r, db')

  -- `ServerImpl::swap`, with the key of the server's configuration.
  unfoldable pub swap :
      x.SecretKey → GrinNode x → Onion x → ComSignature x → Exec x.Db SwapError (Unit {0})
  unfolding check_rangeproof save
  swap key node onion comsig = do
    require (length onion.enc_payloads == 1) (invalid_payload_length 1 (length onion.enc_payloads))
    serialized_onion ← lift (map_err (λ e. unknown_error (inl e)) (onion_serialize x onion))
    lift (map_err (λ _. invalid_com_signature) (verify x comsig onion.commit serialized_onion))
    found ← lift (map_err (λ e. unknown_error (inr e)) (build_input x node onion.commit))
    input ← lift (ok_or (coin_not_found onion.commit) found)
    (payload, peeled) ← lift (map_err peel_onion_failure (peel_layer x onion key))
    let fee = x.fee_fields_into payload.fee
    require (not (ltb fee get_minimum_swap_fee)) (fee_too_low get_minimum_swap_fee fee)
    lift (check_rangeproof peeled.commit payload.rangeproof)
    save onion.commit (record {
      excess = payload.excess;
      output_commit = peeled.commit;
      rangeproof = payload.rangeproof;
      input = input;
      fee = fee;
      onion = peeled;
      status = unprocessed;
    })
