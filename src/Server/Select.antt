-- ===== src/Server/Select.antt =====
-- The swaps that a round selects.
use mwixnet.Base.{
  ℕ, ◌≡◌, ◌≢◌, refl, sym, ◌∙◌, ap, ◌⊎◌, inl, inr, Bool, true, false, not, Bool-cases, List, [], ◌∷◌,
  All, In, filter, if_pos, if_neg, arith,
}
use mwixnet.Ext.{Crates}
use mwixnet.Node.{GrinNode, is_spendable, is_unspent}
use mwixnet.Store.Data.{SwapStatus, SwapData, unprocessed, in_process, completed}
use mwixnet.Server.Round.{occurs, unique_from, is_unprocessed, answer, select}

In-filter :
    {A : Type 0} (p : A → Bool) (l : List A) (a : A) → In a (filter p l) → In a l × (p a ≡ true)
unfolding filter
In-filter p [] a m = elim m [ ]
In-filter p (b ∷ l) a m = elim (Bool-cases (p b)) [
  | inr e ↦ let (i, q) = In-filter p l a (rw e at m) in (inr i, q)
  | inl e ↦ go (In-filter p l a) (rw e at m) e
]
  where
    go :
        (In a (filter p l) → In a l × (p a ≡ true))
        → (a ≡ b) ⊎ In a (filter p l)
        → p b ≡ true
        → In a (b ∷ l) × (p a ≡ true)
    go ih (inl same) e = (inl same, ap p same ∙ e)
    go ih (inr i) e = let (j, q) = ih i in (inr j, q)

-- What holds of all elements holds of those that a filter keeps.
All-filter :
    {A : Type 0} (P : A → Type 0) (p : A → Bool) (l : List A) → All P l → All P (filter p l)
unfolding filter
All-filter P p [] h = h
All-filter P p (a ∷ l) h = elim (Bool-cases (p a)) [
  | inl e ↦ rw e (h.0, All-filter P p l h.1)
  | inr e ↦ rw e (All-filter P p l h.1)
]

module _ (x : Crates) where
  -- No two swaps of the list have one output commitment.
  abbrev pub DistinctOutputs : List (SwapData x) → Type 0
  DistinctOutputs [] = Unit
  DistinctOutputs (s ∷ ss) =
      All (λ (t : SwapData x). t.output_commit ≢ s.output_commit) ss × DistinctOutputs ss

  filter-DistinctOutputs :
      (p : SwapData x → Bool) (l : List (SwapData x))
      → DistinctOutputs l
      → DistinctOutputs (filter p l)
  unfolding filter
  filter-DistinctOutputs p [] h = h
  filter-DistinctOutputs p (s ∷ l) h = elim (Bool-cases (p s)) [
    | inl e ↦ rw e (All-filter _ p l h.0, filter-DistinctOutputs p l h.1)
    | inr e ↦ rw e (filter-DistinctOutputs p l h.1)
  ]

  occurs-here : (c : x.Commitment) (ds : List x.Commitment) → occurs x c (c ∷ ds) ≡ true
  unfolding occurs
  occurs-here c ds = rw (if_pos (x.commitment_dec c c) refl)

  occurs-later :
      (c d : x.Commitment) (ds : List x.Commitment)
      → occurs x c (d ∷ ds) ≡ false
      → (c ≢ d) × (occurs x c ds ≡ false)
  unfolding occurs
  occurs-later c d ds h = elim (x.commitment_dec c d) [
    | yes e ↦ absurd (cc (sym (if_pos (x.commitment_dec c d) e _ _) ∙ h))
    | no n ↦ (n, sym (if_neg (x.commitment_dec c d) n _ _) ∙ h)
  ]

  In-unique_from :
      (seen : List x.Commitment) (l : List (SwapData x)) (s : SwapData x)
      → In s (unique_from x seen l)
      → In s l
  unfolding unique_from
  In-unique_from seen [] s m = m
  In-unique_from seen (t ∷ l) s m = elim (Bool-cases (occurs x t.output_commit seen)) [
    | inl e ↦ inr (In-unique_from seen l s (rw e at m))
    | inr e ↦ go (In-unique_from (t.output_commit ∷ seen) l s) (rw e at m)
  ]
    where
      go :
          (In s (unique_from x (t.output_commit ∷ seen) l) → In s l)
          → (s ≡ t) ⊎ In s (unique_from x (t.output_commit ∷ seen) l)
          → In s (t ∷ l)
      go ih (inl same) = inl same
      go ih (inr i) = inr (ih i)

  -- `unique_from seen` yields distinct outputs, none of them in `seen`.
  unique_from-fresh :
      (seen : List x.Commitment) (l : List (SwapData x))
      → All (λ (t : SwapData x). occurs x t.output_commit seen ≡ false) (unique_from x seen l)
  unfolding unique_from
  unique_from-fresh seen [] = tt
  unique_from-fresh seen (t ∷ l) = elim (Bool-cases (occurs x t.output_commit seen)) [
    | inl e ↦ rw e (unique_from-fresh seen l)
    | inr e ↦ rw e (
      e,
      weaken (unique_from x (t.output_commit ∷ seen) l)
          (unique_from-fresh (t.output_commit ∷ seen) l),
    )
  ]
    where
      weaken :
          (k : List (SwapData x))
          → All (λ (u : SwapData x). occurs x u.output_commit (t.output_commit ∷ seen) ≡ false) k
          → All (λ (u : SwapData x). occurs x u.output_commit seen ≡ false) k
      weaken [] h = tt
      weaken (u ∷ k) h = ((occurs-later u.output_commit t.output_commit seen h.0).1, weaken k h.1)

  unique_from-DistinctOutputs :
      (seen : List x.Commitment) (l : List (SwapData x)) → DistinctOutputs (unique_from x seen l)
  unfolding unique_from
  unique_from-DistinctOutputs seen [] = tt
  unique_from-DistinctOutputs seen (t ∷ l) = elim (Bool-cases (occurs x t.output_commit seen)) [
    | inl e ↦ rw e (unique_from-DistinctOutputs seen l)
    | inr e ↦ rw e (
      apart (unique_from x (t.output_commit ∷ seen) l)
          (unique_from-fresh (t.output_commit ∷ seen) l),
      unique_from-DistinctOutputs (t.output_commit ∷ seen) l,
    )
  ]
    where
      apart :
          (k : List (SwapData x))
          → All (λ (u : SwapData x). occurs x u.output_commit (t.output_commit ∷ seen) ≡ false) k
          → All (λ (u : SwapData x). u.output_commit ≢ t.output_commit) k
      apart [] h = tt
      apart (u ∷ k) h = ((occurs-later u.output_commit t.output_commit seen h.0).0, apart k h.1)

  is_unprocessed-eq : (s : SwapStatus x) → is_unprocessed x s ≡ true → s ≡ unprocessed
  is_unprocessed-eq unprocessed h = refl
  is_unprocessed-eq (in_process k) h = cc
  is_unprocessed-eq (completed k b) h = cc

  module _ (node : GrinNode x) (height : ℕ) (swaps : List (SwapData x)) where
    -- Every selected swap is one of the swaps, is unprocessed, has an input that the node reports
    -- spendable, and an output that the node reports not to be on the chain.
    pub select_sound :
        (s : SwapData x)
        → In s (select x node height swaps)
        → In s swaps
          × (s.status ≡ unprocessed)
          × (answer x false (is_spendable x node (x.input_commit s.input) height) ≡ true)
          × (answer x true (is_unspent x node s.output_commit) ≡ false)
    unfolding select
    select_sound s m =
        let (m1, unspent) = In-filter _ _ s m in
        let (m2, spendable) = In-filter _ _ s m1 in
        let (m3, fresh) = In-filter _ _ s m2 in
        (
          In-unique_from [] swaps s m3,
          is_unprocessed-eq s.status fresh,
          spendable,
          not_true _ unspent,
        )
      where
        not_true : (b : Bool) → not b ≡ true → b ≡ false
        not_true b h = ground arith

    -- No two selected swaps make the same output.
    pub select-DistinctOutputs : DistinctOutputs (select x node height swaps)
    unfolding select
    select-DistinctOutputs = filter-DistinctOutputs _ _ (
        filter-DistinctOutputs _ _
          (filter-DistinctOutputs _ _ (unique_from-DistinctOutputs [] swaps)))
