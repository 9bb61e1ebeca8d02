-- ===== src/Wallet/Live.antt =====
-- `assemble_tx` succeeds where the wallet and the other crates answer.
use mwixnet.Base.{
  ℕ, ◌+◌, ◌*◌, ◌<◌, ◌^◌, ◌≡◌, refl, inl, inr, [], ◌∷◌, List, length, ok, arith, u64_mod,
  mul_u64-eq_of_lt, Bool-cases, ltb, add_u64,
}
use mwixnet.Ext.{Crates}
use mwixnet.Ext.Laws.{KernelUp}
use mwixnet.Secp.Commit.{commit, sign}
use mwixnet.Wallet.{
  Wallet, Draft, fee_required, fee_to_spend, collect_fees, build_kernel, assemble_tx,
}
use mwixnet.Wallet.Fees.{collect_fees-lem}

module _ (x : Crates) (K : KernelUp x) (wallet : Wallet x) where
  -- The wallet builds an output for every amount, with a usable key.
  abbrev pub BuildsOutputs : Type 0
  BuildsOutputs =
      (amount : ℕ)
      → (blind : x.BlindingFactor) × (output : x.Output) × (key : x.SecretKey)
        × (wallet.build_output amount ≡ ok (blind, output))
        × (x.secret_from_slice (x.blinding_bytes blind) ≡ ok key)

  build_kernel_up :
      (fee : ℕ) (key : x.SecretKey)
      → 0 < fee
      → fee < 2 ^ 40
      → (kernel : x.TxKernel) × (build_kernel x fee key ≡ ok kernel)
  unfolding build_kernel commit sign
  build_kernel_up fee key pos small =
      let (f, ef) = K.fee_up fee pos small in
      let (m, em) = K.msg_up (x.kernel_with_plain_features f) in
      let (c, ec) = K.commit_up key in
      let (p, ep) = K.key_up key in
      let (s, es) = K.sign_up m key p in
      let ev = K.verify_up f m key p c s em ec ep es in rw (ef, em, ec, ep, es, ev) (_, refl)

  collect_fees_up :
      BuildsOutputs
      → (required to_spend total : ℕ) (outputs : List x.Output) (excesses : List x.SecretKey)
      → (draft : Draft x) × (collect_fees x wallet required to_spend total outputs excesses
          ≡ ok draft)
  unfolding collect_fees
  collect_fees_up up required to_spend total outputs excesses =
      elim (Bool-cases (ltb (add_u64 required to_spend) total)) [
        | inr few ↦ rw few (_, refl)
        | inl more ↦
            let (b, o, k, eb, ek) = up (mwixnet.Wallet.sub_u64 total required) in
            rw (more, eb, ek) (_, refl)
      ]

  pub assemble_tx_up :
      BuildsOutputs
      → (offset : x.SecretKey) (inputs : List x.Input) (outputs : List x.Output)
        (fee_base total : ℕ) (excesses : List x.SecretKey)
      → total < 2 ^ 40
      → 0 < total
      → 0 < x.weight_by_iok (length inputs) (length outputs + 1) 1 * fee_base
      → x.weight_by_iok (length inputs) (length outputs + 1) 1 * fee_base
          + x.weight_by_iok 1 0 0 * fee_base
        < u64_mod
      → (kernel : x.TxKernel) × (os : List x.Output) × (assemble_tx x wallet offset inputs outputs
            fee_base total excesses
          ≡ ok (
              x.transaction_with_offset
                (x.transaction_new inputs os (kernel ∷ []))
                (x.blinding_from_secret offset)))
  unfolding assemble_tx
  assemble_tx_up up offset inputs outputs fee_base total excesses small pos rpos fits =
      let required = fee_required x (length inputs) (length outputs) fee_base in
      let spend = fee_to_spend x fee_base in
      let r : required ≡ x.weight_by_iok (length inputs) (length outputs + 1) 1 * fee_base =
        unfold fee_required in mul_u64-eq_of_lt _ _ (omega arith) in
      let t : spend ≡ x.weight_by_iok 1 0 0 * fee_base =
        unfold fee_to_spend in mul_u64-eq_of_lt _ _ (omega arith) in
      let (draft, ed) = collect_fees_up up required spend total outputs excesses in
      let (key, ek) = K.blind_up draft.excesses (offset ∷ []) in
      let range : (0 < draft.kernel_fee) × (draft.kernel_fee < 2 ^ 40) =
        elim (collect_fees-lem x wallet required spend total outputs excesses draft (omega arith)
          (omega (arith, r, t)) ed) [
            | inl k ↦ (omega (arith, k.1.0), omega (arith, k.1.0))
            | inr c ↦ (omega (arith, c.6, r), omega (arith, c.6, c.3))
          ] in
      let (kernel, en) = build_kernel_up draft.kernel_fee key range.0 range.1 in
      (kernel, draft.outputs, rw (ed, ek, en) refl)
