-- ===== src/Server/Mixing.antt =====
-- An honest client's swap is mixed by the next round, where the other parts answer.
use mwixnet.Base.{ℕ, ◌≡◌, refl, sym, ◌∙◌, subst, true, false, none, some, ok, add_u64}
use mwixnet.Base.Codec.{Bytes}
use mwixnet.Ext.{Crates}
use mwixnet.Ext.Laws.{SerLaws, ValueLaws, OnionLaws, CommitLaws}
use mwixnet.Ext.DbLaws.{DbLaws, IsReliable}
use mwixnet.Types.RoundTrip.{IsPayload}
use mwixnet.Node.{NeverPanics, IsHonest, GrinNode, is_spendable, is_unspent}
use mwixnet.Wallet.{Wallet}
use mwixnet.Onion.{Onion}
use mwixnet.Store.Data.{SwapData}
use mwixnet.Store.Save.{entry}
use mwixnet.Store.View.{Holds, Holds-functional}
use mwixnet.Server.Round.{World, answer, first_kernel, execute_round}
use mwixnet.Server.Accept.{swap_of}
use mwixnet.Server.Mark.{IsLedger, mark}
use mwixnet.Server.Reach.{Reach, start, next, request, Reach-IsLedger}
use mwixnet.Server.Client.{Request, swap-accepts}
use mwixnet.Server.Lifecycle.{
  Requests, requested, Requests-Reach, Requests-keep, Request-execute_round,
}
use mwixnet.Server.Complete.{select_complete}
use mwixnet.Server.Live.{execute_round-mixes}
use mwixnet.Server.Fees.{Fits, total_fee}
use mwixnet.Server.Round.{select}
use mwixnet.Server.Swap.{get_minimum_swap_fee}
use mwixnet.Wallet.Live.{BuildsOutputs}
use mwixnet.Store.Ops.{swaps_iter}
use mwixnet.Store.View.{swaps_iter-Holds}
use mwixnet.Ext.Laws.{WeightLaws, KernelUp}
use mwixnet.Base.{List, [], ◌∷◌, In, length, ◌<◌, ◌^◌, arith}

some_In : {A : Type 0} (a : A) (l : List A) → In a l → 0 < length l
some_In a [] m = elim m [ ]
some_In a (b ∷ l) m = omega arith

module _ (x : Crates) (amount_bytes : ℕ → Bytes) (S : SerLaws x) (V : ValueLaws x) (O : OnionLaws x)
    (C : CommitLaws x amount_bytes) (D : DbLaws x) (L : WeightLaws x) (K : KernelUp x) where
  -- Let an honest client with a valid payload send its request to a server with a store of checked
  -- swaps, a reliable database, no entry for the client's output and a node that answers for the
  -- output that it is asked about, and let any requests follow. Let no swap with another input make
  -- the client's new output, let the node not panic, give its height, take every transaction,
  -- report the client's output spendable and the new one not on the chain, let the swaps be read,
  -- let the wallet and the building of kernels not fail, and let the fees of the selected swaps fit
  -- their machine words and the minimum fee not be zero. Then the next round returns a transaction,
  -- and the store holds the client's swap, for the output that it made its range proof for, as in
  -- process with the hash of the first kernel of that transaction, whatever requests and rounds
  -- follow that round.
  pub Request-mixes :
      (key : x.SecretKey) (node : GrinNode x) (r : Request x amount_bytes key node)
      (w v u : World x) (wallet : Wallet x) (later : GrinNode x) (offset : x.SecretKey) (height : ℕ)
      (l : List (SwapData x))
      → IsPayload x S r.payload
      → IsReliable x
      → IsHonest x node
      → IsLedger x S D w.db
      → entry x S D w.db r.commit ≡ none
      → Requests x key (requested x key node r.onion r.comsig w) v
      → ((t : SwapData x)
          → Holds x S D v.db (x.input_commit t.input) t
          → t.output_commit ≡ r.output
          → x.input_commit t.input ≡ r.commit)
      → later.get_chain_height ≡ ok height
      → NeverPanics x later
      → ((tx : x.Transaction) → later.post_tx tx ≡ ok tt)
      → answer x false (is_spendable x later r.commit (add_u64 height 1)) ≡ true
      → answer x true (is_unspent x later r.output) ≡ false
      → swaps_iter x v.db ≡ ok l
      → BuildsOutputs x K wallet
      → 0 < get_minimum_swap_fee x
      → total_fee x (select x later (add_u64 height 1) l) < 2 ^ 40
      → Fits x L
          (length (select x later (add_u64 height 1) l))
          (total_fee x (select x later (add_u64 height 1) l))
      → Reach x key (execute_round x wallet later offset v).1 u
      → (tx : x.Transaction) × (kernel : x.TxKernel) × (peeled : Onion x) × (input : x.Input)
        × ((execute_round x wallet later offset v).0 ≡ ok (some tx))
        × (first_kernel x (x.transaction_kernels tx) ≡ ok kernel)
        × (peeled.commit ≡ r.output)
        × Holds x S D u.db r.commit
            (mark x S D (x.kernel_hash kernel) (swap_of x r.payload peeled input))
  Request-mixes key node r w v u wallet later offset height l valid R honest I free others alone eh
        quiet posts sp un el up min small fits after =
      let (_, peeled, input, made, own, held) =
        swap-accepts x amount_bytes S V O C D key node r valid w.db R honest free in
      let s = swap_of x r.payload peeled input in
      let first_step : Reach x key w (requested x key node r.onion r.comsig w) =
        next start (request node r.onion r.comsig) in
      let I2 =
        Reach-IsLedger x S V D key (Requests-Reach x others)
          (Reach-IsLedger x S V D key first_step I) in
      let kept = Requests-keep x amount_bytes S V O C D r.commit s others held in
      let yields = swaps_iter-Holds x S D v.db l I2.store el in
      let chosen =
        select_complete x later (add_u64 height 1) l s
          ((yields s).1 (subst (λ c. Holds x S D v.db c s) (sym own) kept)) refl
          (λ t m q.
            let here = (yields t).0 m in
            Holds-functional x S D v.db r.commit s t kept
              (subst (λ c. Holds x S D v.db c t) (alone t here (q ∙ made)) here))
          (subst (λ c. answer x false (is_spendable x later c (add_u64 height 1)) ≡ true) (sym own)
            sp)
          (subst (λ c. answer x true (is_unspent x later c) ≡ false) (sym made) un) in
      let (tx, e) =
        execute_round-mixes x S V D R L K wallet later offset v up quiet posts height l I2 eh el
          (some_In s _ chosen) min small fits in
      let (kernel, peeled', input', first, made', held') =
        Request-execute_round x amount_bytes S V O C D key node r w v u wallet later offset height
          tx valid R honest I free others alone eh sp un e after in
      (tx, kernel, peeled', input', e, first, made', held')
