-- ===== src/Server/Round.antt =====
-- `ServerImpl::execute_round` of src/server.rs. The state is the database with the transactions
-- that were posted, the last one first.
use mwixnet.Base.{
  ℕ, ◌+◌, [], ◌∷◌, List, map, filter, Option, none, some, Bool, true, false, not, Result, ok, err,
  panic, map_err, unwrap, unwrap_or, if◌then◌else◌, ◌==◌, length, add_u64, dite, ite,
}
use mwixnet.Base
use mwixnet.Base.Exec.{Exec, pure, lift, asks, ◌>>=◌, ◌>>◌}
use mwixnet.Ext.{Crates}
use mwixnet.Node.{GrinNode, NodeError, is_spendable, is_unspent}
use mwixnet.Wallet.{Wallet, WalletError, assemble_tx}
use mwixnet.Store.Data.{SwapData, SwapStatus, unprocessed, in_process}
use mwixnet.Store.Ops.{StoreError, save_swap, swaps_iter}
use mwixnet.Server.Swap.{get_fee_base}

module _ (x : Crates) where
  -- The errors that `execute_round` boxes.
  pub data RoundError : Type 0 where
    store_error : StoreError x → RoundError
    node_error : NodeError x → RoundError
    wallet_error : WalletError x → RoundError

  pub record World : Type 0 where
    pub db : x.Db
    pub posted : List x.Transaction

  -- `.unique_by(|s| s.output_commit)`: the first swap for each output commitment
  unfoldable pub occurs : x.Commitment → List x.Commitment → Bool
  occurs c [] = false
  occurs c (d ∷ ds) = let rest = occurs c ds in ite (x.commitment_dec c d) true rest

  unfoldable pub unique_from : List x.Commitment → List (SwapData x) → List (SwapData x)
  unfolding occurs
  unique_from seen [] = []
  unique_from seen (s ∷ ss) =
      let rest = unique_from seen ss in
      let more = unique_from (s.output_commit ∷ seen) ss in
      if occurs s.output_commit seen then rest else s ∷ more

  abbrev pub is_unprocessed : SwapStatus x → Bool
  is_unprocessed unprocessed = true
  is_unprocessed _ = false

  -- What `unwrap_or` makes of a call to the node that does not panic. Where one panics, `ask_node`
  -- has ended the round.
  abbrev pub answer : Bool → Result (NodeError x) Bool → Bool
  answer d (ok b) = b
  answer d (err e) = d
  answer d panic = d

  abbrev pub not_panicked : Result (NodeError x) Bool → Result RoundError (Unit {0})
  not_panicked (ok b) = ok tt
  not_panicked (err e) = ok tt
  not_panicked panic = panic

  -- The calls to the node of the two filters behind the one on the status. `unwrap_or` does not
  -- catch a panic, which ends the round; the second call is made for what the first one keeps.
  unfoldable pub ask_node : GrinNode x → ℕ → List (SwapData x) → Result RoundError (Unit {0})
  ask_node node next_block_height [] = ok tt
  ask_node node next_block_height (s ∷ ss) =
      let spendable = is_spendable x node (x.input_commit s.input) next_block_height in
      let unspent = not_panicked (is_unspent x node s.output_commit) in
      let rest = ask_node node next_block_height ss in
      Base.◌>>=◌ (not_panicked spendable)
        λ _. Base.◌>>=◌ (if answer false spendable then unspent else ok tt) λ _. rest

  unfoldable pub select : GrinNode x → ℕ → List (SwapData x) → List (SwapData x)
  unfolding unique_from filter
  select node next_block_height swaps =
      filter (λ s. not (answer true (is_unspent x node s.output_commit)))
        (filter (λ s. answer false (is_spendable x node (x.input_commit s.input) next_block_height))
          (filter (λ s. is_unprocessed s.status) (unique_from [] swaps)))

  -- `.sum()` of the fees, and the outputs, where `s.rangeproof.unwrap()` may panic
  unfoldable pub sum_fees : ℕ → List (SwapData x) → ℕ
  sum_fees acc [] = acc
  sum_fees acc (s ∷ ss) = sum_fees (add_u64 acc s.fee) ss

  unfoldable pub build_outputs : List (SwapData x) → Result RoundError (List x.Output)
  build_outputs [] = ok []
  build_outputs (s ∷ ss) = Base.◌>>=◌ (unwrap s.rangeproof) λ proof.
      Base.◌>>=◌ (build_outputs ss)
        λ rest. ok (x.output_new x.plain_features s.output_commit proof ∷ rest)

  abbrev pub first_kernel : List x.TxKernel → Result RoundError x.TxKernel
  first_kernel [] = panic
  first_kernel (k ∷ _) = ok k

  -- `self.node.post_tx(&tx)?`
  unfoldable pub post_tx : GrinNode x → x.Transaction → Exec World RoundError (Unit {0})
  post_tx node tx w = elim (node.post_tx tx) [
    | ok _ ↦ (ok tt, record w { posted = tx ∷ w.posted })
    | err e ↦ (err (node_error e), w)
    | panic ↦ (panic, w)
  ]

  unfoldable pub save_status : SwapData x → Exec World RoundError (Unit {0})
  save_status s w =
      let (r, db') = save_swap x s true w.db in (map_err store_error r, record w { db = db' })

  -- "Update status to in process"
  unfoldable pub save_all : x.Hash → List (SwapData x) → Exec World RoundError (Unit {0})
  unfolding save_status
  save_all kernel_hash [] = pure tt
  save_all kernel_hash (s ∷ ss) = do
    save_status (record s { status = in_process kernel_hash })
    save_all kernel_hash ss

  -- The part of `execute_round` behind the return for no spendable swap.
  unfoldable pub mix :
      Wallet x
      → GrinNode x
      → x.SecretKey
      → List (SwapData x)
      → Exec World RoundError (Option x.Transaction)
  unfolding sum_fees build_outputs post_tx save_all
  mix wallet node offset spendable = do
    outputs ← lift (build_outputs spendable)
    tx ← lift (
        map_err wallet_error (
          assemble_tx x wallet offset (map (λ s. s.input) spendable) outputs (get_fee_base x)
            (sum_fees 0 spendable) (map (λ s. s.excess) spendable)))
    post_tx node tx
    kernel ← lift (first_kernel (x.transaction_kernels tx))
    save_all (x.kernel_hash kernel) spendable
    pure (some tx)

  -- `ServerImpl::execute_round`. The offset is the one that `assemble_tx` draws.
  unfoldable pub execute_round :
      Wallet x → GrinNode x → x.SecretKey → Exec World RoundError (Option x.Transaction)
  unfolding ask_node select mix
  execute_round wallet node offset = do
    height ← lift (map_err node_error node.get_chain_height)
    swaps ← asks (λ w. map_err store_error (swaps_iter x w.db))
    lift (
        ask_node node (add_u64 height 1)
          (filter (λ s. is_unprocessed s.status) (unique_from [] swaps)))
    let spendable = select node (add_u64 height 1) swaps
    if length spendable == 0 then pure none else mix wallet node offset spendable
