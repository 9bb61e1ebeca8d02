-- ===== src/Server/Once.antt =====
-- No swap is mixed twice.
use mwixnet.Base.{
  ◌≡◌, ◌≢◌, sym, ap, ◌∙◌, subst, some, List, In, All-at, ok, ok-injective, ℕ, add_u64,
}
use mwixnet.Ext.{Crates}
use mwixnet.Ext.Laws.{SerLaws, ValueLaws}
use mwixnet.Ext.DbLaws.{DbLaws}
use mwixnet.Node.{GrinNode}
use mwixnet.Wallet.{Wallet}
use mwixnet.Store.Data.{SwapData, SwapStatus, unprocessed, in_process}
use mwixnet.Store.Ops.{swaps_iter}
use mwixnet.Store.View.{Holds, Holds-functional, swaps_iter-Holds}
use mwixnet.Server.Round.{World, select, execute_round}
use mwixnet.Server.Select.{select_sound}
use mwixnet.Server.Mark.{IsLedger, mark}
use mwixnet.Server.Mixed.{execute_round-Holds}
use mwixnet.Server.Reach.{Reach, start, next, round, Reach-IsLedger, Reach-keeps}

module _ (x : Crates) (S : SerLaws x) (V : ValueLaws x) (D : DbLaws x) (key : x.SecretKey) where
  busy-ne : (k : x.Hash) → ◌≢◌ {A = SwapStatus x} (in_process k) unprocessed
  busy-ne k e = absurd (cc e)

  -- Let a round return a transaction on a store of checked swaps, for the height that the node
  -- gives and the swaps that are read. Then, whatever requests and rounds follow it, no later
  -- round, of whatever node and height, selects a swap with the input of one that this round
  -- selected.
  pub select-execute_round :
      (wallet : Wallet x) (node later : GrinNode x) (offset : x.SecretKey) (w v : World x)
      (tx : x.Transaction) (height next_height : ℕ) (l l' : List (SwapData x)) (s t : SwapData x)
      → IsLedger x S D w.db
      → (execute_round x wallet node offset w).0 ≡ ok (some tx)
      → node.get_chain_height ≡ ok height
      → swaps_iter x w.db ≡ ok l
      → In s (select x node (add_u64 height 1) l)
      → Reach x key (execute_round x wallet node offset w).1 v
      → swaps_iter x v.db ≡ ok l'
      → In t (select x later next_height l')
      → x.input_commit t.input ≢ x.input_commit s.input
  select-execute_round wallet node later offset w v tx height next_height l l' s t I e eh el m r el'
        m' same =
      let (height', l1, kernel, eh', el1, _, _, marked) =
        execute_round-Holds x S D wallet node offset w tx I.store e in
      let here : In s (select x node (add_u64 height' 1) l1) =
        subst (λ n. In s (select x node (add_u64 n 1) l1)) (ok-injective _ _ (sym eh ∙ eh'))
          (subst (λ ss. In s (select x node (add_u64 height 1) ss))
            (ok-injective _ _ (sym el ∙ el1)) m) in
      let mixed : Reach x key w (execute_round x wallet node offset w).1 =
        next start (round wallet node offset) in
      let I1 = Reach-IsLedger x S V D key mixed I in
      let kept =
        Reach-keeps x S V D key (x.input_commit s.input) (mark x S D (x.kernel_hash kernel) s) r I1
          (busy-ne _) (All-at _ _ s marked here) in
      let (listed, fresh, _, _) = select_sound x later next_height l' t m' in
      let held =
        (swaps_iter-Holds x S D v.db l' (Reach-IsLedger x S V D key r I1).store el' t).0 listed in
      let again =
        Holds-functional x S D v.db (x.input_commit s.input) (mark x S D (x.kernel_hash kernel) s) t
          kept (subst (λ c. Holds x S D v.db c t) same held) in
      absurd (busy-ne (x.kernel_hash kernel) (sym (ap (λ u. u.status) again) ∙ fresh))
