-- ===== src/Server/Mocked.antt =====
-- The test `swap_lifecycle` of src/server.rs, over the node and the wallet of the tests, for all
-- values.
use mwixnet.Base.{
  ok-panic, ℕ, ◌≡◌, ◌<◌, ◌^◌, refl, sym, ap, ◌∙◌, Bool-cases, inl, inr, true, false, none, some,
  List, length, ok, ok-injective, add_u64, ◌++◌, ◌∷◌, [],
}
use mwixnet.Base.Codec.{Bytes}
use mwixnet.Ext.{Crates}
use mwixnet.Ext.Grin.{transaction}
use mwixnet.Ext.Laws.{SerLaws, ValueLaws, OnionLaws, CommitLaws, WeightLaws, KernelUp}
use mwixnet.Ext.DbLaws.{DbLaws, IsReliable}
use mwixnet.Types.RoundTrip.{IsPayload}
use mwixnet.Node.{NeverPanics, NodeError, is_spendable, is_unspent}
use mwixnet.Node.Mock.{
  mock_node, mock_get_utxo, mock_post_tx, get_posted_txns, after_posts, get_posted_txns-after_posts,
  with_utxos, member, find-member, with_utxos-IsHonest,
}
use mwixnet.Wallet.Mock.{Drawn, mock_wallet, mock_wallet-BuildsOutputs}
use mwixnet.Onion.{Onion}
use mwixnet.Store.Data.{SwapData}
use mwixnet.Store.Ops.{swaps_iter}
use mwixnet.Store.Save.{entry}
use mwixnet.Store.View.{Holds}
use mwixnet.Server.Swap.{get_minimum_swap_fee}
use mwixnet.Server.Round.{World, answer, select, first_kernel, execute_round}
use mwixnet.Server.Accept.{swap_of}
use mwixnet.Server.Mark.{IsLedger, mark}
use mwixnet.Server.Fees.{Fits, total_fee}
use mwixnet.Server.Reach.{start, next, request, Reach-IsLedger}
use mwixnet.Server.Mixed.{execute_round-Holds}
use mwixnet.Server.Client.{Request}
use mwixnet.Server.Lifecycle.{no_more, requested}
use mwixnet.Server.Mixing.{Request-mixes}

module _ (x : Crates) (amount_bytes : ℕ → Bytes) (S : SerLaws x) (V : ValueLaws x) (O : OnionLaws x)
    (C : CommitLaws x amount_bytes) (D : DbLaws x) (L : WeightLaws x) (K : KernelUp x)
    (default_utxo : x.Commitment → x.OutputPrintable)
    (plain : (c : x.Commitment) → x.output_type (default_utxo c) ≡ transaction)
    (own : (c : x.Commitment) → x.printable_commit (default_utxo c) ≡ c)
    (bullet_proof : ℕ → x.SecretKey → x.SecretKey → x.SecretKey → x.RangeProof)
    (drawn : ℕ → Drawn x) where
  abbrev pub test_node : List x.Commitment → mwixnet.Node.GrinNode x
  test_node cs = mock_node x (with_utxos x default_utxo cs)

  -- What the node answers for is among its outputs.
  found-member :
      (cs : List x.Commitment) (c : x.Commitment) (utxo : x.OutputPrintable)
      → (test_node cs).get_utxo c ≡ ok (some utxo)
      → member x default_utxo c cs ≡ true
  unfolding mock_get_utxo
  found-member cs c utxo h = elim (Bool-cases (member x default_utxo c cs)) [
    | inl there ↦ there
    | inr gone ↦
        let found = ok-injective {E = NodeError x} _ _ h in
        absurd (cc (sym (rw gone at (find-member x default_utxo cs c)) ∙ found))
  ]

  posts : (cs : List x.Commitment) (tx : x.Transaction) → (test_node cs).post_tx tx ≡ ok tt
  unfolding mock_post_tx
  posts cs tx = refl

  lookups : (cs : List x.Commitment) → NeverPanics x (test_node cs)
  unfolding mock_get_utxo
  lookups cs c = ok-panic _

  -- Let the outputs that `add_default_utxo` lists be transaction outputs with the commitments that
  -- they are listed under. Let an honest client with a valid payload, whose output the node of the
  -- tests has and whose new output it has not, send its request to a server with a reliable store
  -- of checked swaps and no entry for the output, when no swap with another input makes the new
  -- output, and let the swaps be read, the wallet of the tests draw keys that can be committed to,
  -- blinding factors read back as the keys that they are made of, the fees of the selected swaps
  -- fit their machine words, the minimum fee not be zero, and the building of kernels not fail.
  -- Then a round over this node and this wallet returns a transaction, and the store holds the
  -- client's swap as in process with the hash of the first kernel of that transaction. The posted
  -- transactions of the node are then those that it had and that transaction.
  pub swap_lifecycle :
      (key : x.SecretKey) (cs : List x.Commitment) (r : Request x amount_bytes key (test_node cs))
      (w : World x) (offset : x.SecretKey) (l : List (SwapData x))
      → IsPayload x S r.payload
      → IsReliable x
      → IsLedger x S D w.db
      → entry x S D w.db r.commit ≡ none
      → member x default_utxo r.output cs ≡ false
      → ((t : SwapData x)
          → Holds x S D
              (requested x key (test_node cs) r.onion r.comsig w).db
              (x.input_commit t.input)
              t
          → t.output_commit ≡ r.output
          → x.input_commit t.input ≡ r.commit)
      → swaps_iter x (requested x key (test_node cs) r.onion r.comsig w).db ≡ ok l
      → ((amount : ℕ) → (c : x.Commitment) × (x.commit amount (drawn amount).blind ≡ ok c))
      → ((k : x.SecretKey)
          → x.secret_from_slice (x.blinding_bytes (x.blinding_from_secret k)) ≡ ok k)
      → 0 < get_minimum_swap_fee x
      → total_fee x (select x (test_node cs) (add_u64 100 1) l) < 2 ^ 40
      → Fits x L
          (length (select x (test_node cs) (add_u64 100 1) l))
          (total_fee x (select x (test_node cs) (add_u64 100 1) l))
      → (tx : x.Transaction) × (kernel : x.TxKernel) × (peeled : Onion x) × (input : x.Input)
        × ((execute_round x
              (mock_wallet x bullet_proof drawn)
              (test_node cs)
              offset
              (requested x key (test_node cs) r.onion r.comsig w)).0
            ≡ ok (some tx))
        × (first_kernel x (x.transaction_kernels tx) ≡ ok kernel)
        × (peeled.commit ≡ r.output)
        × Holds x S D
            (execute_round x
              (mock_wallet x bullet_proof drawn)
              (test_node cs)
              offset
              (requested x key (test_node cs) r.onion r.comsig w)).1.db
            r.commit
            (mark x S D (x.kernel_hash kernel) (swap_of x r.payload peeled input))
        × (get_posted_txns x (
              after_posts x
                (execute_round x
                  (mock_wallet x bullet_proof drawn)
                  (test_node cs)
                  offset
                  (requested x key (test_node cs) r.onion r.comsig w)).1.posted
                (with_utxos x default_utxo cs))
            ≡ get_posted_txns x (after_posts x w.posted (with_utxos x default_utxo cs))
              ++ (tx ∷ []))
  swap_lifecycle key cs r w offset l valid R I free unmade alone el commits reads min small fits =
      let height = add_u64 100 1 in
      let wallet = mock_wallet x bullet_proof drawn in
      let here = with_utxos-IsHonest x default_utxo plain own cs r.commit height in
      let there = with_utxos-IsHonest x default_utxo plain own cs r.output height in
      let v = requested x key (test_node cs) r.onion r.comsig w in
      let checked =
        Reach-IsLedger x S V D key {w = w} (next start (request (test_node cs) r.onion r.comsig))
          I in
      let (tx, kernel, peeled, input, e, first, made, held) =
        Request-mixes x amount_bytes S V O C D L K key (test_node cs) r w v
          (execute_round x wallet (test_node cs) offset v).1 wallet (test_node cs) offset 100 l
          valid R here.0 I free no_more alone refl (lookups cs) (posts cs)
          (ap (answer x false) (here.2 ∙ ap ok (found-member cs r.commit r.utxo r.utxo_lem)))
          (ap (answer x true) (there.1 ∙ ap ok unmade)) el
          (mock_wallet-BuildsOutputs x bullet_proof drawn K commits reads) min small fits start in
      let (_, _, _, _, _, _, pushed, _) =
        execute_round-Holds x S D wallet (test_node cs) offset v tx checked.store e in
      (
        tx,
        kernel,
        peeled,
        input,
        e,
        first,
        made,
        held,
        ap (λ txs. get_posted_txns x (after_posts x txs (with_utxos x default_utxo cs))) pushed
            ∙ get_posted_txns-after_posts x tx w.posted (with_utxos x default_utxo cs),
      )
