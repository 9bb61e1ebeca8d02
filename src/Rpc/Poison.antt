-- ===== src/Rpc/Poison.antt =====
-- A panic of a round, and what is left of the server after it.
use mwixnet.Base.{
  filter, [], inl, inr, ℕ, ◌≡◌, ◌<◌, ◌+◌, ◌*◌, refl, sym, ap, ◌∙◌, subst, true, false, List, map,
  length, none, ok, panic, map_err, ltb, ◌==◌, ==_no, arith, add_u64, u64_mod, mul_u64-eq_of_lt,
  add_u64-eq_of_lt,
}
use mwixnet.Base.Exec.{pure, lift_ok, if_no}
use mwixnet.Ext.{Crates}
use mwixnet.Ext.Files.{Files}
use mwixnet.Ext.Net.{Net}
use mwixnet.Ext.Laws.{SerLaws, ValueLaws, WeightLaws}
use mwixnet.Ext.DbLaws.{DbLaws}
use mwixnet.Secp.{ComSignature}
use mwixnet.Node.{GrinNode}
use mwixnet.Onion.{Onion}
use mwixnet.Wallet.{Wallet, fee_required, fee_to_spend, collect_fees, assemble_tx}
use mwixnet.Wallet.Http.{HttpWallet, http_wallet}
use mwixnet.Wallet.HttpLaws.{Refused, http_build_output-Refused}
use mwixnet.Store.Data.{SwapData}
use mwixnet.Store.Ops.{swaps_iter}
use mwixnet.Server.Swap.{get_fee_base}
use mwixnet.Server.Asked.{ask_node-ends}
use mwixnet.Server.Round.{
  ask_node, unique_from, is_unprocessed, World, select, sum_fees, node_error, store_error, mix,
  execute_round,
}
use mwixnet.Server.Mark.{IsLedger}
use mwixnet.Server.Ledger.{select-Ready, build_outputs_lem}
use mwixnet.Server.Fees.{Fits, total_fee, sum_fees-total, bounded, length-map}
use mwixnet.Rpc.{Shared, locked, api_swap}
use mwixnet.Rpc.Loop.{Second, run_round}

module _ (x : Crates) where
  -- A round that panics under the mutex leaves it poisoned, and then every call of the API panics
  -- and changes nothing.
  pub api_swap-run_round :
      (key : x.SecretKey) (second : Second x) (secs : ℕ) (s : Shared x) (node : GrinNode x)
      (onion : Onion x) (comsig : ComSignature x)
      → s.poisoned ≡ false
      → (execute_round x second.wallet second.node second.offset s.world).0 ≡ panic
      → api_swap x key node onion comsig (run_round x second secs s).1
        ≡ (panic, (run_round x second secs s).1)
  unfolding run_round api_swap locked
  api_swap-run_round key second secs s node onion comsig good dead = rw (good, dead) refl

  collect_fees_dead :
      (wallet : Wallet x) (required to_spend total : ℕ) (outputs : List x.Output)
      (excesses : List x.SecretKey)
      → ((amount : ℕ) → wallet.build_output amount ≡ panic)
      → required + to_spend < u64_mod
      → required + to_spend < total
      → collect_fees x wallet required to_spend total outputs excesses ≡ panic
  unfolding collect_fees
  collect_fees_dead wallet required to_spend total outputs excesses dead fits more =
      rw (add_u64-eq_of_lt required to_spend fits, yes_lt _ _ more, dead) refl
    where
      yes_lt : (a b : ℕ) → a < b → ltb a b ≡ true
      yes_lt a b h = ground arith

  assemble_tx_dead :
      (wallet : Wallet x) (offset : x.SecretKey) (inputs : List x.Input) (outputs : List x.Output)
      (base total : ℕ) (excesses : List x.SecretKey)
      → ((amount : ℕ) → wallet.build_output amount ≡ panic)
      → x.weight_by_iok (length inputs) (length outputs + 1) 1 * base + x.weight_by_iok 1 0 0 * base
        < u64_mod
      → x.weight_by_iok (length inputs) (length outputs + 1) 1 * base + x.weight_by_iok 1 0 0 * base
        < total
      → assemble_tx x wallet offset inputs outputs base total excesses ≡ panic
  unfolding assemble_tx
  assemble_tx_dead wallet offset inputs outputs base total excesses dead fits more =
      let required = fee_required x (length inputs) (length outputs) base in
      let spend = fee_to_spend x base in
      let r : required ≡ x.weight_by_iok (length inputs) (length outputs + 1) 1 * base =
        unfold fee_required in mul_u64-eq_of_lt _ _ (omega arith) in
      let t : spend ≡ x.weight_by_iok 1 0 0 * base =
        unfold fee_to_spend in mul_u64-eq_of_lt _ _ (omega arith) in
      rw
        (collect_fees_dead wallet required spend total outputs excesses dead (omega (arith, r, t))
          (omega (arith, r, t)))
        refl

  mix_dead :
      (wallet : Wallet x) (node : GrinNode x) (offset : x.SecretKey) (w : World x)
      (sel : List (SwapData x)) (outputs : List x.Output)
      → mwixnet.Server.Round.build_outputs x sel ≡ ok outputs
      → assemble_tx x wallet offset
          (map (λ s. s.input) sel)
          outputs
          (get_fee_base x)
          (sum_fees x 0 sel)
          (map (λ s. s.excess) sel)
        ≡ panic
      → mix x wallet node offset sel w ≡ (panic, w)
  unfolding mix
  mix_dead wallet node offset w sel outputs eo et = rw (eo, et) refl

module _ (x : Crates) (f : Files) (n : Net x f) (S : SerLaws x) (V : ValueLaws x) (D : DbLaws x)
    (L : WeightLaws x) where
  pub round_dead :
      (wallet : Wallet x) (node : GrinNode x) (offset : x.SecretKey) (w : World x) (height : ℕ)
      (l : List (SwapData x))
      → ((amount : ℕ) → wallet.build_output amount ≡ panic)
      → IsLedger x S D w.db
      → node.get_chain_height ≡ ok height
      → swaps_iter x w.db ≡ ok l
      → 0 < length (select x node (add_u64 height 1) l)
      → Fits x L
          (length (select x node (add_u64 height 1) l))
          (total_fee x (select x node (add_u64 height 1) l))
      → x.weight_by_iok
              (length (select x node (add_u64 height 1) l))
              (length (select x node (add_u64 height 1) l) + 1)
              1
            * get_fee_base x
          + x.weight_by_iok 1 0 0 * get_fee_base x
        < total_fee x (select x node (add_u64 height 1) l)
      → execute_round x wallet node offset w ≡ (panic, w)
  unfolding execute_round
  round_dead wallet node offset w height l dead I eh el pos fits more =
      let sel = select x node (add_u64 height 1) l in
      let (outputs, eo, en) =
        build_outputs_lem x S V D sel (select-Ready x S V D node (add_u64 height 1) w.db l I el) in
      let nin = length-map (λ (s : SwapData x). s.input) sel in
      let fee_sum : sum_fees x 0 sel ≡ total_fee x sel =
        sum_fees-total x 0 sel (omega (arith, fits.total_lem)) ∙ omega arith in
      let et =
        assemble_tx_dead x wallet offset (map (λ s. s.input) sel) outputs (get_fee_base x)
          (total_fee x sel) (map (λ s. s.excess) sel) dead
          (rw (nin, en) (bounded x L (length sel) (total_fee x sel) pos fits))
          (rw (nin, en) more) in
      lift_ok (map_err node_error node.get_chain_height) _ w height (ap (map_err node_error) eh)
      ∙ lift_ok (map_err store_error (swaps_iter x w.db)) _ w l (ap (map_err store_error) el)
      ∙ elim (ask_node-ends x node (add_u64 height 1)
          (filter (λ s. is_unprocessed x s.status) (unique_from x [] l))) [
            | inr dies ↦ rw dies refl
            | inl passes ↦
                lift_ok (ask_node x node (add_u64 height 1) _) _ w tt passes
                ∙ ap (λ g. g w)
                    (if_no (length sel == 0) (pure none) (mix x wallet node offset sel)
                      (==_no (length sel) 0 (λ z. absurd (omega arith))))
                ∙ mix_dead x wallet node offset w sel outputs eo (
                    subst
                      (λ g.
                        assemble_tx x wallet offset (map (λ s. s.input) sel) outputs
                          (get_fee_base x) g (map (λ s. s.excess) sel)
                        ≡ panic)
                      (sym fee_sum) et)
          ]

  -- Let a server over an HTTP wallet hold swaps that passed the checks, let its mutex not be
  -- poisoned, let the sums and products of the fees fit 64 bits, and let a round with at least one
  -- selected swap have more fees than it needs, so that the wallet is asked for an output. If the
  -- wallet refuses, the round panics, and every call of the API after it panics and changes
  -- nothing.
  pub api_swap-Refused :
      (key : x.SecretKey) (wallet : HttpWallet x f n) (node : GrinNode x) (offset : x.SecretKey)
      (secs : ℕ) (s : Shared x) (height : ℕ) (l : List (SwapData x)) (later : GrinNode x)
      (onion : Onion x) (comsig : ComSignature x)
      → ((amount : ℕ) → Refused x f n wallet amount)
      → s.poisoned ≡ false
      → IsLedger x S D s.world.db
      → node.get_chain_height ≡ ok height
      → swaps_iter x s.world.db ≡ ok l
      → 0 < length (select x node (add_u64 height 1) l)
      → Fits x L
          (length (select x node (add_u64 height 1) l))
          (total_fee x (select x node (add_u64 height 1) l))
      → x.weight_by_iok
              (length (select x node (add_u64 height 1) l))
              (length (select x node (add_u64 height 1) l) + 1)
              1
            * get_fee_base x
          + x.weight_by_iok 1 0 0 * get_fee_base x
        < total_fee x (select x node (add_u64 height 1) l)
      → api_swap x key later onion comsig
          (run_round x
            (record { wallet = http_wallet x f n wallet; node = node; offset = offset })
            secs
            s).1
        ≡ (
          panic,
          (run_round x
              (record { wallet = http_wallet x f n wallet; node = node; offset = offset })
              secs
              s).1,
        )
  api_swap-Refused key wallet node offset secs s height l later onion comsig refuses good I eh el
        pos fits more =
      api_swap-run_round x key
        (record { wallet = http_wallet x f n wallet; node = node; offset = offset }) secs s later
        onion comsig good
        (ap (λ o. o.0)
          (round_dead (http_wallet x f n wallet) node offset s.world height l
            (λ amount. http_build_output-Refused x f n wallet amount (refuses amount)) I eh el pos
            fits more))
