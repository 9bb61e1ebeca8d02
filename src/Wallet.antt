-- ===== src/Wallet.antt =====
-- src/wallet.rs: assembling the transaction of a round. The wallet is a parameter, a value of
-- `Wallet`.
pub mod Fees
pub mod Live
pub mod Mock
pub mod Http
pub mod HttpLaws
use mwixnet.Base.{
  ℕ, ◌+◌, ◌-◌, ◌<◌, ◌%◌, [], ◌∷◌, ◌++◌, List, length, Result, ok, map_err, ◌>>=◌, if◌then◌else◌,
  ltb, add_u64, mul_u64, u64_mod,
}
use mwixnet.Ext.{Crates}
use mwixnet.Secp.Commit.{commit, sign}

-- `a - b` on `u64`, which wraps in a release build.
unfoldable pub sub_u64 : ℕ → ℕ → ℕ
sub_u64 a b = (a + u64_mod - b) % u64_mod

module _ (x : Crates) where
  pub data WalletError : Type 0 where
    kernel_fee_error kernel_sig_message_error kernel_verify_error : x.TxError → WalletError
    kernel_excess_error kernel_sig_error output_blind_error : x.SecpError → WalletError
    encrypt_request_error decrypt_response_error : x.LibwalletError → WalletError
    decode_response_error : x.JsonError → WalletError
    api_comm_error : x.ApiError → WalletError
    response_parse_error : x.RpcError → WalletError

  -- The trait `Wallet`.
  pub record Wallet : Type 0 where
    pub build_output : ℕ → Result WalletError (x.BlindingFactor × x.Output)

  -- What `if total_fee > fee_required + fee_to_spend { … }` leaves in the mutable variables.
  pub record Draft : Type 0 where
    pub kernel_fee : ℕ
    pub outputs : List x.Output
    pub excesses : List x.SecretKey

  unfoldable pub fee_required : ℕ → ℕ → ℕ → ℕ
  fee_required inputs outputs fee_base = mul_u64 (x.weight_by_iok inputs (outputs + 1) 1) fee_base

  unfoldable pub fee_to_spend : ℕ → ℕ
  fee_to_spend fee_base = mul_u64 (x.weight_by_iok 1 0 0) fee_base

  -- "collect any leftover fees"
  unfoldable pub collect_fees :
      Wallet → ℕ → ℕ → ℕ → List x.Output → List x.SecretKey → Result WalletError Draft
  collect_fees wallet required to_spend total_fee outputs excesses =
      if ltb (add_u64 required to_spend) total_fee
      then (do
        let amount = sub_u64 total_fee required
        (blind, output) ← wallet.build_output amount
        output_excess ← map_err output_blind_error (x.secret_from_slice (x.blinding_bytes blind))
        ok (record {
          kernel_fee = sub_u64 total_fee amount;
          outputs = outputs ++ (output ∷ []);
          excesses = excesses ++ (output_excess ∷ []);
        }))
      else ok (record { kernel_fee = total_fee; outputs = outputs; excesses = excesses })

  -- "build and verify kernel"
  unfoldable pub build_kernel : ℕ → x.SecretKey → Result WalletError x.TxKernel
  build_kernel kernel_fee kern_excess = do
    fee ← map_err kernel_fee_error (x.fee_fields_new 0 kernel_fee)
    let kernel = x.kernel_with_plain_features fee
    msg ← map_err kernel_sig_message_error (x.kernel_msg_to_sign kernel)
    excess ← map_err kernel_excess_error (commit x 0 kern_excess)
    let kernel' = x.kernel_set_excess kernel excess
    excess_sig ← map_err kernel_sig_error (sign x kern_excess msg)
    let kernel'' = x.kernel_set_excess_sig kernel' excess_sig
    _ ← map_err kernel_verify_error (x.kernel_verify kernel'')
    ok kernel''

  -- `assemble_tx`. The offset, which the code draws at random, is an argument.
  unfoldable pub assemble_tx :
      Wallet
      → x.SecretKey
      → List x.Input
      → List x.Output
      → ℕ
      → ℕ
      → List x.SecretKey
      → Result WalletError x.Transaction
  unfolding fee_required fee_to_spend collect_fees build_kernel
  assemble_tx wallet offset inputs outputs fee_base total_fee excesses = do
    draft ←
        collect_fees wallet (fee_required (length inputs) (length outputs) fee_base)
          (fee_to_spend fee_base) total_fee outputs excesses
    kern_excess ← map_err kernel_excess_error (x.blind_sum draft.excesses (offset ∷ []))
    kernel ← build_kernel draft.kernel_fee kern_excess
    ok (
        x.transaction_with_offset (x.transaction_new inputs draft.outputs (kernel ∷ []))
          (x.blinding_from_secret offset))
