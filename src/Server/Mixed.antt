-- ===== src/Server/Mixed.antt =====
-- What a round does to the map of held swaps.
use mwixnet.Base.{
  All-In, length, arith, ℕ, ◌≡◌, ◌≢◌, sym, ap, ◌∙◌, subst, some, List, [], ◌∷◌, All, In, ok,
  add_u64,
}
use mwixnet.Ext.{Crates}
use mwixnet.Ext.Laws.{SerLaws}
use mwixnet.Ext.DbLaws.{DbLaws}
use mwixnet.Node.{GrinNode}
use mwixnet.Wallet.{Wallet}
use mwixnet.Store.Data.{SwapData, unprocessed}
use mwixnet.Store.RoundTrip.{IsSwap}
use mwixnet.Store.Ops.{swaps_iter}
use mwixnet.Store.View.{Holds, Holds-functional, IsStore, swaps_iter-Holds}
use mwixnet.Server.Round.{World, select, save_all, execute_round}
use mwixnet.Server.Rounded.{
  idle, stopped, no_kernel, mixed, after_state, execute_round-Rounded, sent, Sent, round_invariant,
  execute_round-Mixed,
}
use mwixnet.Server.Select.{DistinctOutputs, select_sound, select-DistinctOutputs}
use mwixnet.Server.Mark.{mark, DistinctInputs, save_all-Holds, save_all-Holds_ne, save_all-posted}

All-map : {A : Type 0} (P Q : A → Type 0) (l : List A) → ((a : A) → P a → Q a) → All P l → All Q l
All-map P Q [] f h = tt
All-map P Q (a ∷ l) f h = (f a h.0, All-map P Q l f h.1)

All-zip :
    {A : Type 0} (P Q R : A → Type 0) (l : List A)
    → ((a : A) → P a → Q a → R a)
    → All P l
    → All Q l
    → All R l
All-zip P Q R [] f h k = tt
All-zip P Q R (a ∷ l) f h k = (f a h.0 k.0, All-zip P Q R l f h.1 k.1)

longer : {A C : Type 0} (a : A) (l : List A) → a ∷ l ≡ l → C
longer a l h = absurd (omega (arith, ap length h))

module _ (x : Crates) (S : SerLaws x) (D : DbLaws x) where
  abbrev HeldIn : x.Db → SwapData x → Type 0
  HeldIn d s = Holds x S D d (x.input_commit s.input) s

  -- Swaps with distinct outputs that one store holds have distinct inputs.
  held-DistinctInputs :
      (d : x.Db) (l : List (SwapData x))
      → All (HeldIn d) l
      → DistinctOutputs x l
      → DistinctInputs x S D l
  held-DistinctInputs d [] h n = tt
  held-DistinctInputs d (s ∷ ss) h n = (
    All-zip _ _ _ ss
        (λ t differ held e. differ (
          ap (λ u. u.output_commit)
            (Holds-functional x S D d (x.input_commit s.input) s t h.0
              (subst (λ c. Holds x S D d c t) (sym e) held))))
        n.0 h.1,
    held-DistinctInputs d ss h.1 n.1,
  )

  module _ (node : GrinNode x) (d : x.Db) (I : IsStore x S D d) (height : ℕ) (l : List (SwapData x))
      (listed : swaps_iter x d ≡ ok l) where
    -- What is selected, the store holds.
    selected_held : (s : SwapData x) → In s (select x node height l) → HeldIn d s
    selected_held s m =
        (swaps_iter-Holds x S D d l I listed s).0 (select_sound x node height l s m).0

    selected_IsSwap : All (λ (s : SwapData x). IsSwap x S s) (select x node height l)
    selected_IsSwap = All-In _ _ λ s m. (selected_held s m).valid

    -- A held swap that is not unprocessed has another input than every selected swap.
    selected_apart :
        (c : x.Commitment) (t : SwapData x)
        → Holds x S D d c t
        → t.status ≢ unprocessed
        → All (λ (s : SwapData x). c ≢ x.input_commit s.input) (select x node height l)
    selected_apart c t held n = All-In _ _ λ s m e. n (
        ap (λ u. u.status)
          (Holds-functional x S D d (x.input_commit s.input) s t (selected_held s m)
            (subst (λ k. Holds x S D d k t) e held))
        ∙ (select_sound x node height l s m).1)

  module _ (wallet : Wallet x) (node : GrinNode x) (offset : x.SecretKey) (w : World x) where
    -- On a store whose entries are swaps, what the store holds with another status than unprocessed
    -- it still holds after a round, however the round ends.
    pub execute_round-keeps :
        (c : x.Commitment) (t : SwapData x)
        → IsStore x S D w.db
        → Holds x S D w.db c t
        → t.status ≢ unprocessed
        → Holds x S D (execute_round x wallet node offset w).1.db c t
    execute_round-keeps c t I held n =
        round_invariant x wallet node offset w (λ v. Holds x S D v.db c t) held (λ _. held)
          λ height l tx k el.
            (save_all-Holds_ne x S D k (select x node height l) (sent x wallet node offset w tx) c t
                (selected_IsSwap node w.db I height l el)
                (selected_apart node w.db I height l el c t held n)).1
              held

    -- A round that returns a transaction, on a store whose entries are swaps, has posted exactly
    -- that transaction, built of the selected swaps, and the store then holds each selected swap as
    -- in process with the hash of the transaction's first kernel.
    pub execute_round-Holds :
        (tx : x.Transaction)
        → IsStore x S D w.db
        → (execute_round x wallet node offset w).0 ≡ ok (some tx)
        → (height : ℕ) × (l : List (SwapData x)) × (kernel : x.TxKernel) × (node.get_chain_height
            ≡ ok height)
          × (swaps_iter x w.db ≡ ok l)
          × Sent x wallet node offset w (select x node (add_u64 height 1) l) tx kernel
          × ((execute_round x wallet node offset w).1.posted ≡ tx ∷ w.posted)
          × All
              (λ (s : SwapData x).
                Holds x S D
                  (execute_round x wallet node offset w).1.db
                  (x.input_commit s.input)
                  (mark x S D (x.kernel_hash kernel) s))
              (select x node (add_u64 height 1) l)
    execute_round-Holds tx I e =
        let (height, l, kernel, eh, el, built, em, eo) =
          execute_round-Mixed x wallet node offset w tx e in
        let sel = select x node (add_u64 height 1) l in
        let held = selected_held node w.db I (add_u64 height 1) l el in
        let inputs =
          held-DistinctInputs w.db sel (All-In (HeldIn w.db) sel held)
            (select-DistinctOutputs x node _ l) in
        (
          height,
          l,
          kernel,
          eh,
          el,
          built,
          ap (λ v. v.posted) eo
              ∙ save_all-posted x S D (x.kernel_hash kernel) sel (sent x wallet node offset w tx),
          subst
              (λ v.
                All
                  (λ (s : SwapData x).
                    Holds x S D v.db (x.input_commit s.input) (mark x S D (x.kernel_hash kernel) s))
                  sel)
              (sym eo)
              (save_all-Holds x S D (x.kernel_hash kernel) sel (sent x wallet node offset w tx)
                (selected_IsSwap node w.db I _ l el) inputs em),
        )

    -- A round that posts nothing changes nothing: where the posted transactions are what they were,
    -- the whole world is.
    pub execute_round_unposted :
        (execute_round x wallet node offset w).1.posted ≡ w.posted
        → (execute_round x wallet node offset w).1 ≡ w
    execute_round_unposted e = elim (execute_round-Rounded x wallet node offset w) [
      | idle _ _ _ _ _ o ↦ ap (λ p. p.1) o
      | stopped _ _ o ↦ ap (λ p. p.1) o
      | no_kernel tx o ↦ longer tx w.posted (sym (ap (λ p. p.1.posted) o) ∙ e)
      | mixed height l tx k _ _ _ o ↦
          let sel = select x node (add_u64 height 1) l in
          let done = save_all x (x.kernel_hash k) sel (sent x wallet node offset w tx) in
          longer tx w.posted (
            sym (save_all-posted x S D (x.kernel_hash k) sel (sent x wallet node offset w tx))
            ∙ sym (ap (λ v. v.posted) (after_state x wallet node offset w done.0 (some tx) done.1))
            ∙ sym (ap (λ p. p.1.posted) o)
            ∙ e)
    ]
