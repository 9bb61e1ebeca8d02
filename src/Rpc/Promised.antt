-- ===== src/Rpc/Promised.antt =====
-- What the running program promises a client: a request that it should accept is answered with
-- success, and the next round mixes it, in whatever order the other events come.
use mwixnet.Base.{
  ℕ, ◌≡◌, ◌<◌, ◌^◌, ap, ◌∙◌, subst, true, false, none, some, List, length, Result, ok, map_err,
  add_u64,
}
use mwixnet.Base.Codec.{Bytes}
use mwixnet.Ext.{Crates}
use mwixnet.Ext.Files.{Files}
use mwixnet.Ext.Http.{Http}
use mwixnet.Ext.Laws.{SerLaws, ValueLaws, OnionLaws, CommitLaws, WeightLaws, KernelUp}
use mwixnet.Ext.DbLaws.{DbLaws, IsReliable}
use mwixnet.Types.RoundTrip.{IsPayload}
use mwixnet.Node.{NeverPanics, IsHonest, GrinNode, is_spendable, is_unspent}
use mwixnet.Wallet.Live.{BuildsOutputs}
use mwixnet.Onion.{Onion}
use mwixnet.Store.Data.{SwapData}
use mwixnet.Store.Ops.{swaps_iter}
use mwixnet.Store.Save.{entry}
use mwixnet.Store.View.{Holds}
use mwixnet.Server.Swap.{get_minimum_swap_fee}
use mwixnet.Server.Round.{answer, select, first_kernel, execute_round}
use mwixnet.Server.Accept.{swap_of}
use mwixnet.Server.Mark.{IsLedger, mark}
use mwixnet.Server.Fees.{Fits, total_fee}
use mwixnet.Server.Reach.{Reach}
use mwixnet.Server.Client.{Request, swap-accepts}
use mwixnet.Server.Lifecycle.{Requests, requested}
use mwixnet.Server.Mixing.{Request-mixes}
use mwixnet.Rpc.{Shared, from_swap_error}
use mwixnet.Rpc.Loop.{Second, next_secs}
use mwixnet.Rpc.Served.{api_swap-swap}
use mwixnet.Rpc.Listen.{sleeping, Listener, answered, Event, request, move, handle, step, play}
use mwixnet.Rpc.Ordered.{play-Reach}
use mwixnet.Rpc.Between.{Between, Between-Requests, handle_v1, wake_due}

module _ (x : Crates) (f : Files) (h : Http f) (k : ℕ) (key : x.SecretKey)
    (amount_bytes : ℕ → Bytes) (S : SerLaws x) (V : ValueLaws x) (O : OnionLaws x)
    (C : CommitLaws x amount_bytes) (D : DbLaws x) where
  request_step :
      (uri : h.Uri) (node : GrinNode x) (r : Request x amount_bytes key node) (l : Listener x)
      → l.accepting ≡ true
      → l.shared.poisoned ≡ false
      → h.is_v1 uri ≡ true
      → (step x f h k key (request uri node r.onion r.comsig) l).shared.world
        ≡ requested x key node r.onion r.comsig l.shared.world
  unfolding step
  request_step uri node r l up good v1 =
      rw up (handle_v1 x f h k key uri node r.onion r.comsig l.shared v1 good)

  handle_answered :
      (uri : h.Uri) (node : GrinNode x) (r : Request x amount_bytes key node) (s : Shared x)
      → IsPayload x S r.payload
      → IsReliable x
      → IsHonest x node
      → s.poisoned ≡ false
      → h.is_v1 uri ≡ true
      → entry x S D s.world.db r.commit ≡ none
      → (handle x f h key uri node r.onion r.comsig s).0 ≡ answered (ok tt)
  unfolding handle
  handle_answered uri node r s valid R honest good v1 free =
      let (done, _, _, _, _, _) =
        swap-accepts x amount_bytes S V O C D key node r valid s.world.db R honest free in
      let outcome = (api_swap-swap x key node r.onion r.comsig s good).0 in
      rw v1 (ap answered (outcome ∙ ap (map_err (from_swap_error x)) done))

  -- Let the server listen, with a reliable store of checked swaps and before any panic, and let an
  -- honest client, with a valid payload and an output that has no entry in the store, send its
  -- request to the path "/v1", with a node that answers for the output that it is asked about. Let
  -- any requests, wake-ups and stop signals follow before the next round, without a panic, and then
  -- the wake-up at which a round is due, when no swap with another input makes the client's new
  -- output, the node of the round does not panic, gives its height, takes every transaction,
  -- reports the client's output spendable and the new one not on the chain, the swaps can be read,
  -- the wallet and the building of kernels do not fail, the fees fit their machine words, and the
  -- minimum fee is not zero. Then the client is answered with success, the round returns a
  -- transaction, and, whatever events follow, the store holds the client's swap, for the output of
  -- its range proof, as in process with the hash of the first kernel of that transaction.
  pub listen-mixes :
      (L : WeightLaws x) (K : KernelUp x) (uri : h.Uri) (node : GrinNode x)
      (r : Request x amount_bytes key node) (l m : Listener x) (second : Second x) (secs height : ℕ)
      (swaps : List (SwapData x)) (es : List (Event x f h))
      → IsPayload x S r.payload
      → IsReliable x
      → IsHonest x node
      → l.accepting ≡ true
      → l.shared.poisoned ≡ false
      → h.is_v1 uri ≡ true
      → IsLedger x S D l.shared.world.db
      → entry x S D l.shared.world.db r.commit ≡ none
      → Between x f h k key (step x f h k key (request uri node r.onion r.comsig) l) m
      → m.shared.poisoned ≡ false
      → m.rounds ≡ sleeping secs
      → ◌≡◌ {A = Result (Unit {0}) ℕ} (next_secs k secs) (ok 0)
      → ((t : SwapData x)
          → Holds x S D m.shared.world.db (x.input_commit t.input) t
          → t.output_commit ≡ r.output
          → x.input_commit t.input ≡ r.commit)
      → second.node.get_chain_height ≡ ok height
      → NeverPanics x second.node
      → ((tx : x.Transaction) → second.node.post_tx tx ≡ ok tt)
      → answer x false (is_spendable x second.node r.commit (add_u64 height 1)) ≡ true
      → answer x true (is_unspent x second.node r.output) ≡ false
      → swaps_iter x m.shared.world.db ≡ ok swaps
      → BuildsOutputs x K second.wallet
      → 0 < get_minimum_swap_fee x
      → total_fee x (select x second.node (add_u64 height 1) swaps) < 2 ^ 40
      → Fits x L
          (length (select x second.node (add_u64 height 1) swaps))
          (total_fee x (select x second.node (add_u64 height 1) swaps))
      → ((handle x f h key uri node r.onion r.comsig l.shared).0 ≡ answered (ok tt))
        × (tx : x.Transaction) × (kernel : x.TxKernel) × (peeled : Onion x) × (input : x.Input)
        × ((execute_round x second.wallet second.node second.offset m.shared.world).0
            ≡ ok (some tx))
        × (first_kernel x (x.transaction_kernels tx) ≡ ok kernel)
        × (peeled.commit ≡ r.output)
        × Holds x S D
            (play x f h k key es (step x f h k key (move second) m)).shared.world.db
            r.commit
            (mark x S D (x.kernel_hash kernel) (swap_of x r.payload peeled input))
  listen-mixes L K uri node r l m second secs height swaps es valid R honest up good v1 I free
        between fine asleep due alone eh quiet posts sp un el builds min small fits =
      let others =
        subst (λ w. Requests x key w m.shared.world) (request_step uri node r l up good v1)
          (Between-Requests x f h k key _ m between fine) in
      let after =
        subst
          (λ w. Reach x key w (play x f h k key es (step x f h k key (move second) m)).shared.world)
          (wake_due x f h k key second secs m asleep fine due)
          (play-Reach x f h k key es (step x f h k key (move second) m)) in
      let (tx, kernel, peeled, input, mixed, first, made, held) =
        Request-mixes x amount_bytes S V O C D L K key node r l.shared.world m.shared.world
          (play x f h k key es (step x f h k key (move second) m)).shared.world second.wallet
          second.node second.offset height swaps valid R honest I free others alone eh quiet posts
          sp un el builds min small fits after in
      (
        handle_answered uri node r l.shared valid R honest good v1 free,
        tx,
        kernel,
        peeled,
        input,
        mixed,
        first,
        made,
        held,
      )
