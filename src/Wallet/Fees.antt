-- ===== src/Wallet/Fees.antt =====
-- What `assemble_tx` does with the fees: none is lost, and the kernel's fee is enough.
use mwixnet.Base.{
  ℕ, ◌+◌, ◌-◌, ◌*◌, ◌≤◌, ◌<◌, ◌≡◌, refl, ◌∙◌, ◌>>=◌, ◌⊎◌, inl, inr, true, false, [], ◌∷◌, ◌++◌,
  List, length, length-append, Result, ok, map_err, map_err-eq-ok, >>=-eq-ok, arith, ltb, add_u64,
  u64_mod, mul_u64-eq_of_lt, Bool-cases, add_u64-eq_of_lt,
}
use mwixnet.Ext.{Crates}
use mwixnet.Secp.Commit.{commit, sign}
use mwixnet.Wallet.{
  Wallet, WalletError, Draft, sub_u64, fee_required, fee_to_spend, collect_fees, build_kernel,
  assemble_tx, output_blind_error, kernel_fee_error, kernel_excess_error, kernel_sig_message_error,
  kernel_sig_error, kernel_verify_error,
}

module _ (x : Crates) (wallet : Wallet x) where
  -- A draft that adds nothing, or one that adds an output of the wallet for what the kernel does
  -- not need.
  abbrev pub Kept : ℕ → List x.Output → List x.SecretKey → Draft x → Type 0
  Kept total outputs excesses draft =
      (draft.kernel_fee ≡ total) × (draft.outputs ≡ outputs) × (draft.excesses ≡ excesses)

  abbrev pub Collected : ℕ → ℕ → ℕ → List x.Output → List x.SecretKey → Draft x → Type 0
  Collected required to_spend total outputs excesses draft =
      (blind : x.BlindingFactor) × (output : x.Output) × (key : x.SecretKey) × (required + to_spend
        < total)
      × (wallet.build_output (total - required) ≡ ok (blind, output))
      × (x.secret_from_slice (x.blinding_bytes blind) ≡ ok key)
      × (draft.kernel_fee ≡ required)
      × (draft.outputs ≡ outputs ++ (output ∷ []))
      × (draft.excesses ≡ excesses ++ (key ∷ []))

  sub_u64-eq_of_le : (a b : ℕ) → a < u64_mod → b ≤ a → sub_u64 a b ≡ a - b
  unfolding sub_u64
  sub_u64-eq_of_le a b h le = omega arith

  pub collect_fees-lem :
      (required to_spend total : ℕ) (outputs : List x.Output) (excesses : List x.SecretKey)
      (draft : Draft x)
      → total < u64_mod
      → required + to_spend < u64_mod
      → collect_fees x wallet required to_spend total outputs excesses ≡ ok draft
      → ((total ≤ required + to_spend) × Kept total outputs excesses draft)
        ⊎ Collected required to_spend total outputs excesses draft
  unfolding collect_fees
  collect_fees-lem required to_spend total outputs excesses draft ht hr e =
      elim (Bool-cases (ltb (add_u64 required to_spend) total)) [
        | inr no_more ↦ inl (few no_more, kept (rw no_more at e))
        | inl more ↦ inr (gathered more (rw more at e))
      ]
    where
      few : ltb (add_u64 required to_spend) total ≡ false → total ≤ required + to_spend
      few no_more = ground (arith, add_u64-eq_of_lt required to_spend hr)

      kept :
          ◌≡◌ {A = Result (WalletError x) (Draft x)}
            (ok (record { kernel_fee = total; outputs = outputs; excesses = excesses }))
            (ok draft)
          → Kept total outputs excesses draft
      kept same = ground arith

      amount : ℕ
      amount = sub_u64 total required

      gathered :
          ltb (add_u64 required to_spend) total ≡ true
          → (do
            (blind, output) ← wallet.build_output amount
            output_excess ←
                map_err output_blind_error (x.secret_from_slice (x.blinding_bytes blind))
            ok (record {
              kernel_fee = sub_u64 total amount;
              outputs = outputs ++ (output ∷ []);
              excesses = excesses ++ (output_excess ∷ []);
            }))
            ≡ ok draft
          → Collected required to_spend total outputs excesses draft
      gathered more e' =
          let over : required + to_spend < total =
            ground (arith, add_u64-eq_of_lt required to_spend hr) in
          let exact : amount ≡ total - required =
            sub_u64-eq_of_le total required ht (omega arith) in
          let back : sub_u64 total amount ≡ required =
            sub_u64-eq_of_le total amount ht (omega (arith, exact)) ∙ omega (arith, exact) in
          let (built, eb, e1) = >>=-eq-ok (wallet.build_output amount) _ e' in
          let (key, ek, e2) =
            >>=-eq-ok (map_err output_blind_error (x.secret_from_slice (x.blinding_bytes built.0)))
              _ e1 in
          (
            built.0,
            built.1,
            key,
            over,
            rw exact at eb,
            map_err-eq-ok output_blind_error _ ek,
            ground (arith, back),
            ground arith,
            ground arith,
          )

  -- A kernel that pays `fee`, with some excess and signature.
  abbrev pub Pays : x.FeeFields → x.TxKernel → Type 0
  Pays fee kernel =
      (excess : x.Commitment) × (sig : x.Signature) × (kernel
        ≡ x.kernel_set_excess_sig (x.kernel_set_excess (x.kernel_with_plain_features fee) excess)
            sig)

  build_kernel-Pays :
      (kernel_fee : ℕ) (key : x.SecretKey) (kernel : x.TxKernel)
      → build_kernel x kernel_fee key ≡ ok kernel
      → (fee : x.FeeFields) × (x.fee_fields_new 0 kernel_fee ≡ ok fee) × Pays fee kernel
  unfolding build_kernel
  build_kernel-Pays kernel_fee key kernel e =
      let (fee, ef, e1) =
        >>=-eq-ok (map_err kernel_fee_error (x.fee_fields_new 0 kernel_fee)) _ e in
      let (msg, em, e2) =
        >>=-eq-ok
          (map_err kernel_sig_message_error
            (x.kernel_msg_to_sign (x.kernel_with_plain_features fee)))
          _ e1 in
      let (excess, ee, e3) = >>=-eq-ok (map_err kernel_excess_error (commit x 0 key)) _ e2 in
      let (sig, es, e4) = >>=-eq-ok (map_err kernel_sig_error (sign x key msg)) _ e3 in
      let signed =
        x.kernel_set_excess_sig (x.kernel_set_excess (x.kernel_with_plain_features fee) excess)
          sig in
      let (_, ev, e5) = >>=-eq-ok (map_err kernel_verify_error (x.kernel_verify signed)) _ e4 in
      (fee, map_err-eq-ok kernel_fee_error _ ef, (excess, sig, cc e5))

  -- The fee of the draft is enough for the weight with the outputs of the draft.
  kernel_fee-ge :
      (inputs fee_base required to_spend total : ℕ) (outputs : List x.Output)
      (excesses : List x.SecretKey) (draft : Draft x)
      → required ≡ x.weight_by_iok inputs (length outputs + 1) 1 * fee_base
      → x.weight_by_iok inputs (length outputs) 1 * fee_base ≤ total
      → ((total ≤ required + to_spend) × Kept total outputs excesses draft)
        ⊎ Collected required to_spend total outputs excesses draft
      → x.weight_by_iok inputs (length draft.outputs) 1 * fee_base ≤ draft.kernel_fee
  kernel_fee-ge inputs fee_base required to_spend total outputs excesses draft r enough (inl k) =
      rw (k.1.1, k.1.0) enough
  kernel_fee-ge inputs fee_base required to_spend total outputs excesses draft r enough (inr c) =
      rw (c.7, c.6, length-append outputs (c.1 ∷ []), r) (omega arith)

  -- The transaction that `assemble_tx` returns spends the inputs and has one kernel, whose fee is
  -- at least the weight of the transaction times the fee base, if the total fee is at least that of
  -- a transaction with the given outputs alone. The outputs are the given ones and the kernel's fee
  -- is the total fee, or the wallet's output for exactly the rest of the total fee is added.
  -- This is where the total fee and the fees of a transaction with one output more and of one more
  -- input fit 64 bits.
  pub assemble_tx_fees :
      (offset : x.SecretKey) (inputs : List x.Input) (outputs : List x.Output) (fee_base total : ℕ)
      (excesses : List x.SecretKey) (tx : x.Transaction)
      → total < u64_mod
      → x.weight_by_iok (length inputs) (length outputs + 1) 1 * fee_base
          + x.weight_by_iok 1 0 0 * fee_base
        < u64_mod
      → x.weight_by_iok (length inputs) (length outputs) 1 * fee_base ≤ total
      → assemble_tx x wallet offset inputs outputs fee_base total excesses ≡ ok tx
      → (draft : Draft x) × (fee : x.FeeFields) × (kernel : x.TxKernel) × (tx
          ≡ x.transaction_with_offset
              (x.transaction_new inputs draft.outputs (kernel ∷ []))
              (x.blinding_from_secret offset))
        × (x.fee_fields_new 0 draft.kernel_fee ≡ ok fee)
        × Pays fee kernel
        × (x.weight_by_iok (length inputs) (length draft.outputs) 1 * fee_base ≤ draft.kernel_fee)
        × (Kept total outputs excesses draft
            ⊎ Collected
                (x.weight_by_iok (length inputs) (length outputs + 1) 1 * fee_base)
                (x.weight_by_iok 1 0 0 * fee_base)
                total
                outputs
                excesses
                draft)
  unfolding assemble_tx
  assemble_tx_fees offset inputs outputs fee_base total excesses tx ht hr enough e =
      let required = fee_required x (length inputs) (length outputs) fee_base in
      let spend = fee_to_spend x fee_base in
      let (draft, ed, e1) =
        >>=-eq-ok (collect_fees x wallet required spend total outputs excesses) _ e in
      let (key, ek, e2) =
        >>=-eq-ok (map_err kernel_excess_error (x.blind_sum draft.excesses (offset ∷ []))) _ e1 in
      let (kernel, en, e3) = >>=-eq-ok (build_kernel x draft.kernel_fee key) _ e2 in
      let (fee, ef, pays) = build_kernel-Pays draft.kernel_fee key kernel en in
      let r : required ≡ x.weight_by_iok (length inputs) (length outputs + 1) 1 * fee_base =
        unfold fee_required in mul_u64-eq_of_lt _ _ (omega arith) in
      let t : spend ≡ x.weight_by_iok 1 0 0 * fee_base =
        unfold fee_to_spend in mul_u64-eq_of_lt _ _ (omega arith) in
      let how = collect_fees-lem _ _ total outputs excesses draft ht hr (rw (r, t) at ed) in
      (
        draft,
        fee,
        kernel,
        cc e3,
        ef,
        pays,
        kernel_fee-ge (length inputs) fee_base _ _ total outputs excesses draft refl enough how,
        elim how [ inl k ↦ inl k.1 | inr c ↦ inr c ],
      )
