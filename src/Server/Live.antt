-- ===== src/Server/Live.antt =====
-- A round that has a swap to mix mixes it, where the other parts answer.
use mwixnet.Base.Exec.{Exec, pure, lift_ok, if_no}
use mwixnet.Base.{
  filter, Option, if◌then◌else◌, none, map_err, ℕ, ◌≡◌, ◌≤◌, ◌<◌, ◌*◌, ◌^◌, refl, sym, ap, ◌∙◌,
  subst, some, [], ◌∷◌, List, map, length, All, ok, ◌==◌, ==_no, arith, add_u64,
}
use mwixnet.Ext.{Crates}
use mwixnet.Ext.Laws.{SerLaws, ValueLaws, WeightLaws, KernelUp}
use mwixnet.Ext.DbLaws.{DbLaws, IsReliable}
use mwixnet.Node.{NeverPanics, GrinNode}
use mwixnet.Wallet.{Wallet, assemble_tx}
use mwixnet.Wallet.Live.{BuildsOutputs, assemble_tx_up}
use mwixnet.Store.Data.{SwapData}
use mwixnet.Store.Ops.{swaps_iter}
use mwixnet.Store.Refinement.{save_swap-overwrites}
use mwixnet.Server.Swap.{get_minimum_swap_fee, get_fee_base}
use mwixnet.Server.Asked.{ask_node-ok}
use mwixnet.Server.Round.{
  ask_node, is_unprocessed, unique_from, RoundError, World, select, sum_fees, build_outputs,
  first_kernel, node_error, store_error, save_all, post_tx, mix, execute_round,
}
use mwixnet.Server.Rounded.{sent}
use mwixnet.Server.Mark.{IsLedger, Ready, mark, mark-IsSwap, saved, save_all-step}
use mwixnet.Server.Ledger.{select-Ready, build_outputs_lem}
use mwixnet.Server.Fees.{
  Fits, total_fee, total_fee-ge, sum_fees-total, bounded, positive, length-map, fees_of,
}

at_least : (n m t : ℕ) → 0 < n → 0 < m → n * m ≤ t → 0 < t
at_least n m t h k l = grind arith

module _ (x : Crates) (S : SerLaws x) (V : ValueLaws x) (D : DbLaws x) (R : IsReliable x)
    (L : WeightLaws x) (K : KernelUp x) where
  save_all_up :
      (k : x.Hash) (ss : List (SwapData x)) (w : World x)
      → All (Ready x S D) ss
      → (save_all x k ss w).0 ≡ ok tt
  unfolding save_all
  save_all_up k [] w r = refl
  save_all_up k (s ∷ ss) w r =
      let here = save_swap-overwrites x S D R w.db (mark x S D k s) (mark-IsSwap x S D k s r.0.0) in
      ap (λ o. o.0) (save_all-step x S D k s ss w here) ∙ save_all_up k ss (saved x S D k s w) r.1

  module _ (wallet : Wallet x) (node : GrinNode x) (offset : x.SecretKey) (w : World x) where
    mix_steps :
        (sel : List (SwapData x)) (outputs : List x.Output) (tx : x.Transaction) (k : x.TxKernel)
        → build_outputs x sel ≡ ok outputs
        → assemble_tx x wallet offset
            (map (λ s. s.input) sel)
            outputs
            (get_fee_base x)
            (sum_fees x 0 sel)
            (map (λ s. s.excess) sel)
          ≡ ok tx
        → node.post_tx tx ≡ ok tt
        → first_kernel x (x.transaction_kernels tx) ≡ ok k
        → (save_all x (x.kernel_hash k) sel (sent x wallet node offset w tx)).0 ≡ ok tt
        → (mix x wallet node offset sel w).0 ≡ ok (some tx)
    unfolding mix post_tx
    mix_steps sel outputs tx k eo et ep ek em = rw (eo, et, ep, post_tx, ek, em) refl

    mix_up :
        BuildsOutputs x K wallet
        → ((tx : x.Transaction) → node.post_tx tx ≡ ok tt)
        → (sel : List (SwapData x)) → All (Ready x S D) sel
        → 0 < length sel
        → 0 < get_minimum_swap_fee x
        → total_fee x sel < 2 ^ 40
        → Fits x L (length sel) (total_fee x sel)
        → (tx : x.Transaction) × ((mix x wallet node offset sel w).0 ≡ ok (some tx))
    mix_up up posts sel ready pos min small fits =
        let (outputs, eo, en) = build_outputs_lem x S V D sel ready in
        let nin = length-map (λ (s : SwapData x). s.input) sel in
        let fee_sum : sum_fees x 0 sel ≡ total_fee x sel =
          sum_fees-total x 0 sel (omega (arith, fits.total_lem)) ∙ omega arith in
        let minimum = total_fee-ge x (get_minimum_swap_fee x) sel (fees_of x S V D L sel ready) in
        let (kernel, os, et) =
          assemble_tx_up x K wallet up offset (map (λ s. s.input) sel) outputs (get_fee_base x)
            (total_fee x sel) (map (λ s. s.excess) sel) small (at_least _ _ _ pos min minimum)
            (rw (nin, en) (positive x L (length sel) (total_fee x sel) pos fits min))
            (rw (nin, en) (bounded x L (length sel) (total_fee x sel) pos fits)) in
        let os' = x.transaction_new (map (λ s. s.input) sel) os (kernel ∷ []) in
        let tx = x.transaction_with_offset os' (x.blinding_from_secret offset) in
        (
          tx,
          mix_steps sel outputs tx kernel eo
              (subst
                (λ f.
                  assemble_tx x wallet offset (map (λ s. s.input) sel) outputs (get_fee_base x) f
                    (map (λ s. s.excess) sel)
                  ≡ ok tx)
                (sym fee_sum) et)
              (posts tx)
              (ap (first_kernel x)
                (K.kernels_lem (map (λ s. s.input) sel) os kernel (x.blinding_from_secret offset)))
              (save_all_up (x.kernel_hash kernel) sel (sent x wallet node offset w tx) ready),
        )

    -- Let a store hold swaps that passed the checks, on a reliable database, let the node not
    -- panic, give its height and take every transaction, let the wallet and the building of kernels
    -- not fail, let the sums and products of the fees fit 64 bits and the total fee the 40 bits of
    -- fee fields, and let the minimum fee not be zero. Then a round with at least one selected swap
    -- returns a transaction, without error or panic.
    pub execute_round-mixes :
        BuildsOutputs x K wallet
        → NeverPanics x node
        → ((tx : x.Transaction) → node.post_tx tx ≡ ok tt)
        → (height : ℕ) (l : List (SwapData x)) → IsLedger x S D w.db
        → node.get_chain_height ≡ ok height
        → swaps_iter x w.db ≡ ok l
        → 0 < length (select x node (add_u64 height 1) l)
        → 0 < get_minimum_swap_fee x
        → total_fee x (select x node (add_u64 height 1) l) < 2 ^ 40
        → Fits x L
            (length (select x node (add_u64 height 1) l))
            (total_fee x (select x node (add_u64 height 1) l))
        → (tx : x.Transaction) × ((execute_round x wallet node offset w).0 ≡ ok (some tx))
    unfolding execute_round
    execute_round-mixes up quiet posts height l I eh el pos min small fits =
        let sel = select x node (add_u64 height 1) l in
        let (tx, e) =
          mix_up up posts sel (select-Ready x S V D node (add_u64 height 1) w.db l I el) pos min
            small fits in
        let fresh = filter (λ s. is_unprocessed x s.status) (unique_from x [] l) in
        let mixing : Exec (World x) (RoundError x) (Option x.Transaction) =
          if length sel == 0 then pure none else mix x wallet node offset sel in
        let go =
          lift_ok (map_err node_error node.get_chain_height) _ w height (ap (map_err node_error) eh)
          ∙ lift_ok (map_err store_error (swaps_iter x w.db)) _ w l (ap (map_err store_error) el)
          ∙ lift_ok (ask_node x node (add_u64 height 1) fresh) (λ _. mixing) w tt
              (ask_node-ok x node (add_u64 height 1) quiet fresh)
          ∙ ap (λ f. f w)
              (if_no (length sel == 0) (pure none) (mix x wallet node offset sel)
                (==_no (length sel) 0 (λ z. absurd (omega arith)))) in
        (tx, ap (λ o. o.0) go ∙ e)
