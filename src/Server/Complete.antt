-- ===== src/Server/Complete.antt =====
-- A swap that can be mixed is selected by the next round, and mixed by it.
use mwixnet.Base.{
  All-at, ℕ, ◌≡◌, refl, sym, ap, ◌∙◌, subst, inl, inr, Bool, true, false, not, Bool-cases, some,
  List, [], ◌∷◌, In, filter, if_neg, ok, ok-injective, add_u64,
}
use mwixnet.Ext.{Crates}
use mwixnet.Ext.Laws.{SerLaws}
use mwixnet.Ext.DbLaws.{DbLaws}
use mwixnet.Node.{GrinNode, is_spendable, is_unspent}
use mwixnet.Wallet.{Wallet}
use mwixnet.Store.Data.{SwapData, unprocessed}
use mwixnet.Store.View.{Holds, IsStore, swaps_iter-Holds}
use mwixnet.Server.Round.{
  World, occurs, unique_from, is_unprocessed, answer, select, first_kernel, execute_round,
}
use mwixnet.Server.Mark.{mark}
use mwixnet.Server.Mixed.{execute_round-Holds}

-- A filter keeps the elements that pass its test.
filter-In :
    {A : Type 0} (p : A → Bool) (l : List A) (a : A) → In a l → p a ≡ true → In a (filter p l)
unfolding filter
filter-In p [] a m h = m
filter-In p (b ∷ l) a (inl e) h = rw (← e, h) (inl refl)
filter-In p (b ∷ l) a (inr m) h = elim (Bool-cases (p b)) [
  | inl e ↦ rw e (inr (filter-In p l a m h))
  | inr e ↦ rw e (filter-In p l a m h)
]

module _ (x : Crates) where
  -- A swap stays where no other one makes its output.
  unique_from-In :
      (seen : List x.Commitment) (l : List (SwapData x)) (s : SwapData x)
      → In s l
      → ((t : SwapData x) → In t l → t.output_commit ≡ s.output_commit → t ≡ s)
      → occurs x s.output_commit seen ≡ false
      → In s (unique_from x seen l)
  unfolding unique_from occurs
  unique_from-In seen [] s m u h = m
  unique_from-In seen (t ∷ l) s m u h = elim (Bool-cases (occurs x t.output_commit seen)) [
    | inl e ↦ rw e (elim m [
      | inl same ↦ absurd (cc (sym e ∙ ap (λ r. occurs x r.output_commit seen) (sym same) ∙ h))
      | inr later ↦ unique_from-In seen l s later (λ r i. u r (inr i)) h
    ])
    | inr e ↦ rw e (elim (x.commitment_dec s.output_commit t.output_commit) [
      | yes q ↦ inl (sym (u t (inl refl) (sym q)))
      | no n ↦ elim m [
        | inl same ↦ inl same
        | inr later ↦ inr (
            unique_from-In (t.output_commit ∷ seen) l s later (λ r i. u r (inr i))
              (if_neg (x.commitment_dec s.output_commit t.output_commit) n _ _ ∙ h))
      ]
    ])
  ]

  module _ (node : GrinNode x) (height : ℕ) (swaps : List (SwapData x)) where
    -- An unprocessed swap of the list is selected, where no other one makes its output, the node
    -- reports its input spendable, and does not report its output to be on the chain.
    pub select_complete :
        (s : SwapData x)
        → In s swaps
        → s.status ≡ unprocessed
        → ((t : SwapData x) → In t swaps → t.output_commit ≡ s.output_commit → t ≡ s)
        → answer x false (is_spendable x node (x.input_commit s.input) height) ≡ true
        → answer x true (is_unspent x node s.output_commit) ≡ false
        → In s (select x node height swaps)
    unfolding select occurs
    select_complete s m p u spendable unspent =
        filter-In _ _ s
          (filter-In _ _ s
            (filter-In _ _ s (unique_from-In [] swaps s m u refl) (ap (is_unprocessed x) p))
            spendable)
          (ap not unspent)

module _ (x : Crates) (S : SerLaws x) (D : DbLaws x) where
  -- Let a store whose entries are swaps hold an unprocessed swap, let no other held swap make its
  -- output, and let the node give its height, report the swap's input spendable at the next one and
  -- its output not on the chain. If a round then returns a transaction, the store holds the swap
  -- after it as in process, with the hash of that transaction's first kernel.
  pub execute_round-marks :
      (wallet : Wallet x) (node : GrinNode x) (offset : x.SecretKey) (w : World x) (height : ℕ)
      (s : SwapData x) (tx : x.Transaction)
      → IsStore x S D w.db
      → Holds x S D w.db (x.input_commit s.input) s
      → s.status ≡ unprocessed
      → ((t : SwapData x)
          → Holds x S D w.db (x.input_commit t.input) t
          → t.output_commit ≡ s.output_commit
          → t ≡ s)
      → node.get_chain_height ≡ ok height
      → answer x false (is_spendable x node (x.input_commit s.input) (add_u64 height 1)) ≡ true
      → answer x true (is_unspent x node s.output_commit) ≡ false
      → (execute_round x wallet node offset w).0 ≡ ok (some tx)
      → (kernel : x.TxKernel) × (first_kernel x (x.transaction_kernels tx) ≡ ok kernel)
        × Holds x S D
            (execute_round x wallet node offset w).1.db
            (x.input_commit s.input)
            (mark x S D (x.kernel_hash kernel) s)
  execute_round-marks wallet node offset w height s tx I held fresh alone eh spendable unspent e =
      let (height', l, kernel, eh', el, built, _, marked) =
        execute_round-Holds x S D wallet node offset w tx I e in
      let same : height ≡ height' = ok-injective _ _ (sym eh ∙ eh') in
      let yields = swaps_iter-Holds x S D w.db l I el in
      let chosen =
        select_complete x node (add_u64 height' 1) l s ((yields s).1 held) fresh
          (λ t m. alone t ((yields t).0 m))
          (subst
            (λ h.
              answer x false (is_spendable x node (x.input_commit s.input) (add_u64 h 1)) ≡ true)
            same spendable)
          unspent in
      (kernel, built.kernel_lem, All-at _ _ s marked chosen)
