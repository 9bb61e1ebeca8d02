-- ===== src/Server/Lifecycle.antt =====
-- The whole life of an honest client's swap: its request, the requests of others, the round that
-- mixes it, and whatever follows.
use mwixnet.Base.{ℕ, ◌≡◌, ◌≢◌, refl, sym, ◌∙◌, subst, true, false, none, some, ok, add_u64}
use mwixnet.Base.Codec.{Bytes}
use mwixnet.Ext.{Crates}
use mwixnet.Ext.Laws.{SerLaws, ValueLaws, OnionLaws, CommitLaws}
use mwixnet.Ext.DbLaws.{DbLaws, IsReliable}
use mwixnet.Secp.{ComSignature}
use mwixnet.Types.RoundTrip.{IsPayload}
use mwixnet.Node.{IsHonest, GrinNode, is_spendable, is_unspent}
use mwixnet.Wallet.{Wallet}
use mwixnet.Onion.{Onion}
use mwixnet.Store.Data.{SwapData, SwapStatus, unprocessed, in_process}
use mwixnet.Store.Save.{entry}
use mwixnet.Store.View.{Holds, Holds-functional}
use mwixnet.Server.Swap.{swap}
use mwixnet.Server.Round.{World, answer, first_kernel, execute_round}
use mwixnet.Server.Accept.{swap_of}
use mwixnet.Server.Mark.{IsLedger, mark}
use mwixnet.Server.Complete.{execute_round-marks}
use mwixnet.Server.Reach.{
  Reach, start, next, request, round, swap-keeps, Reach-IsLedger, Reach-keeps,
}
use mwixnet.Server.Client.{Request, swap-accepts}

module _ (x : Crates) where
  -- The world after a request.
  abbrev pub requested : x.SecretKey → GrinNode x → Onion x → ComSignature x → World x → World x
  requested key node onion comsig w = record w { db = (swap x key node onion comsig w.db).1 }

  -- The worlds that requests lead to, with no round between.
  pub data Requests (key : x.SecretKey) (w : World x) : World x → Type 0 where
    no_more : Requests key w w
    one_more :
        {v : World x}
        → Requests key w v
        → (node : GrinNode x) (onion : Onion x) (comsig : ComSignature x)
        → Requests key w (requested key node onion comsig v)

  pub Requests-Reach : {key : x.SecretKey} {w v : World x} → Requests key w v → Reach x key w v
  Requests-Reach no_more = start
  Requests-Reach (one_more r node onion comsig) =
      next (Requests-Reach r) (request node onion comsig)

module _ (x : Crates) (amount_bytes : ℕ → Bytes) (S : SerLaws x) (V : ValueLaws x) (O : OnionLaws x)
    (C : CommitLaws x amount_bytes) (D : DbLaws x) where
  pub Requests-keep :
      {key : x.SecretKey} {w v : World x} (c : x.Commitment) (t : SwapData x)
      → Requests x key w v
      → Holds x S D w.db c t
      → Holds x S D v.db c t
  Requests-keep c t no_more held = held
  Requests-keep {key = key} c t (one_more {v = v} r node onion comsig) held =
      swap-keeps x S V D key node onion comsig v.db c t (Requests-keep c t r held)

  -- What the round does to the swap that it finds.
  round_marks :
      (w : World x) (commit : x.Commitment) (s : SwapData x) (wallet : Wallet x) (node : GrinNode x)
      (offset : x.SecretKey) (height : ℕ) (tx : x.Transaction)
      → IsLedger x S D w.db
      → x.input_commit s.input ≡ commit
      → s.status ≡ unprocessed
      → Holds x S D w.db commit s
      → ((t : SwapData x)
          → Holds x S D w.db (x.input_commit t.input) t
          → t.output_commit ≡ s.output_commit
          → x.input_commit t.input ≡ commit)
      → node.get_chain_height ≡ ok height
      → answer x false (is_spendable x node commit (add_u64 height 1)) ≡ true
      → answer x true (is_unspent x node s.output_commit) ≡ false
      → (execute_round x wallet node offset w).0 ≡ ok (some tx)
      → (kernel : x.TxKernel) × (first_kernel x (x.transaction_kernels tx) ≡ ok kernel)
        × Holds x S D
            (execute_round x wallet node offset w).1.db
            commit
            (mark x S D (x.kernel_hash kernel) s)
  round_marks w commit s wallet node offset height tx I own fresh held alone eh sp un e =
      let (kernel, first, marked) =
        execute_round-marks x S D wallet node offset w height s tx I.store
          (subst (λ c. Holds x S D w.db c s) (sym own) held) fresh
          (λ t h q.
            Holds-functional x S D w.db commit s t held
              (subst (λ c. Holds x S D w.db c t) (alone t h q) h))
          eh
          (subst (λ c. answer x false (is_spendable x node c (add_u64 height 1)) ≡ true) (sym own)
            sp)
          un e in
      (
        kernel,
        first,
        subst
            (λ c.
              Holds x S D (execute_round x wallet node offset w).1.db c
                (mark x S D (x.kernel_hash kernel) s))
            own marked,
      )

  in_process-ne : (h : x.Hash) → ◌≢◌ {A = SwapStatus x} (in_process h) unprocessed
  in_process-ne h e = absurd (cc e)

  -- Let an honest client send its request to a server with a store of checked swaps, a reliable
  -- database, no entry for the client's output and an honest node. Let any requests follow, and
  -- then a round that returns a transaction, when no swap with another input makes the client's new
  -- output, and the node reports the client's output spendable and the new one not on the chain.
  -- Then, whatever requests and rounds follow that round, the store holds the client's swap, for
  -- the output that it made its range proof for, as in process with the hash of the first kernel of
  -- that transaction.
  pub Request-execute_round :
      (key : x.SecretKey) (node : GrinNode x) (r : Request x amount_bytes key node)
      (w v u : World x) (wallet : Wallet x) (later : GrinNode x) (offset : x.SecretKey) (height : ℕ)
      (tx : x.Transaction)
      → IsPayload x S r.payload
      → IsReliable x
      → IsHonest x node
      → IsLedger x S D w.db
      → entry x S D w.db r.commit ≡ none
      → Requests x key (requested x key node r.onion r.comsig w) v
      → ((t : SwapData x)
          → Holds x S D v.db (x.input_commit t.input) t
          → t.output_commit ≡ r.output
          → x.input_commit t.input ≡ r.commit)
      → later.get_chain_height ≡ ok height
      → answer x false (is_spendable x later r.commit (add_u64 height 1)) ≡ true
      → answer x true (is_unspent x later r.output) ≡ false
      → (execute_round x wallet later offset v).0 ≡ ok (some tx)
      → Reach x key (execute_round x wallet later offset v).1 u
      → (kernel : x.TxKernel) × (peeled : Onion x) × (input : x.Input) × (first_kernel x
            (x.transaction_kernels tx)
          ≡ ok kernel)
        × (peeled.commit ≡ r.output)
        × Holds x S D u.db r.commit
            (mark x S D (x.kernel_hash kernel) (swap_of x r.payload peeled input))
  Request-execute_round key node r w v u wallet later offset height tx valid R honest I free others
        alone eh sp un e after =
      let (done, peeled, input, made, own, held) =
        swap-accepts x amount_bytes S V O C D key node r valid w.db R honest free in
      let s = swap_of x r.payload peeled input in
      let before : Reach x key w (requested x key node r.onion r.comsig w) =
        next start (request node r.onion r.comsig) in
      let I1 = Reach-IsLedger x S V D key before I in
      let I2 = Reach-IsLedger x S V D key (Requests-Reach x others) I1 in
      let (kernel, first, marked) =
        round_marks v r.commit s wallet later offset height tx I2 own refl
          (Requests-keep r.commit s others held) (λ t h q. alone t h (q ∙ made)) eh sp
          (subst (λ c. answer x true (is_unspent x later c) ≡ false) (sym made) un) e in
      let mixed : Reach x key v (execute_round x wallet later offset v).1 =
        next start (round wallet later offset) in
      let I3 = Reach-IsLedger x S V D key mixed I2 in
      (
        kernel,
        peeled,
        input,
        first,
        made,
        Reach-keeps x S V D key r.commit (mark x S D (x.kernel_hash kernel) s) after I3
            (in_process-ne _) marked,
      )
