-- ===== src/Server/Mark.antt =====
-- What marking the selected swaps as in process does to the store.
use mwixnet.Base.{
  ◌≡◌, ◌≢◌, ◌↔◌, refl, sym, ap, ◌∙◌, subst, some, Bool, true, List, [], ◌∷◌, All, ok, returned,
  failed, panicked, ended, ◌≤◌,
}
use mwixnet.Ext.{Crates}
use mwixnet.Ext.Laws.{SerLaws}
use mwixnet.Ext.DbLaws.{DbLaws}
use mwixnet.Store.Data.{SwapData, in_process}
use mwixnet.Store.RoundTrip.{IsSwap}
use mwixnet.Store.Ops.{save_swap}
use mwixnet.Store.View.{Holds, Holds-functional, IsStore}
use mwixnet.Store.Refinement.{
  save_swap-Holds, save_swap-Holds_ne, save_swap_unchanged, save_swap-IsStore,
}
use mwixnet.Server.Swap.{get_minimum_swap_fee}
use mwixnet.Server.Round.{World, save_all}

module _ (x : Crates) (S : SerLaws x) (D : DbLaws x) where
  -- The swap with the status that a round gives it.
  abbrev pub mark : x.Hash → SwapData x → SwapData x
  mark kernel_hash s = record s { status = in_process kernel_hash }

  pub mark-IsSwap : (k : x.Hash) (s : SwapData x) → IsSwap x S s → IsSwap x S (mark k s)
  mark-IsSwap k s h = record { key = h.key; fee = h.fee; onion = h.onion }

  -- A swap that passed the checks of `swap`.
  pub record IsSound (s : SwapData x) : Type 0 where
    pub fee_lem : get_minimum_swap_fee x ≤ s.fee
    pub proof : x.RangeProof
    pub proof_lem : s.rangeproof ≡ some proof
    pub verified : x.verify_bullet_proof s.output_commit proof ≡ ok tt

  -- A store whose entries are swaps that passed the checks.
  pub record IsLedger (d : x.Db) : Type 0 where
    pub store : IsStore x S D d
    pub sound : (c : x.Commitment) (s : SwapData x) → Holds x S D d c s → IsSound s

  pub save_swap-IsLedger :
      (d : x.Db) (s : SwapData x) (h : IsSwap x S s) (overwrite : Bool)
      → IsSound s
      → IsLedger d
      → IsLedger (save_swap x s overwrite d).1
  save_swap-IsLedger d s h overwrite good I = elim (ended (save_swap x s overwrite d).0) [
    | returned _ e ↦ record {
      store = save_swap-IsStore x S D d s h overwrite I.store;
      sound = held e;
    }
    | failed _ e ↦ subst IsLedger (sym (save_swap_unchanged x S D d s h overwrite (λ o. cc))) I
    | panicked e ↦ subst IsLedger (sym (save_swap_unchanged x S D d s h overwrite (λ o. cc))) I
  ]
    where
      held :
          (save_swap x s overwrite d).0 ≡ ok tt
          → (c : x.Commitment) (t : SwapData x) → Holds x S D (save_swap x s overwrite d).1 c t
          → IsSound t
      held e c t a =
          let own = save_swap-Holds x S D d s h overwrite e in
          elim (x.commitment_dec c (x.input_commit s.input)) [
            | yes q ↦
                subst IsSound
                  (sym (
                    Holds-functional x S D _ _ s t own
                      (subst (λ u. Holds x S D (save_swap x s overwrite d).1 u t) q a)))
                  good
            | no n ↦ I.sound c t ((save_swap-Holds_ne x S D d s h overwrite c t n).0 a)
          ]

  -- A swap of the list that the store may be asked to mark.
  abbrev pub Ready : SwapData x → Type 0
  Ready s = IsSwap x S s × IsSound s

  abbrev pub saved : x.Hash → SwapData x → World x → World x
  saved k s w = record w { db = (save_swap x (mark k s) true w.db).1 }

  -- However marking ends, the store stays a ledger, and the posted transactions stay.
  pub save_all-IsLedger :
      (k : x.Hash) (ss : List (SwapData x)) (w : World x)
      → All Ready ss
      → IsLedger w.db
      → IsLedger (save_all x k ss w).1.db
  unfolding save_all
  save_all-IsLedger k [] w r I = I
  save_all-IsLedger k (s ∷ ss) w r I = elim (ended (save_swap x (mark k s) true w.db).0) [
    | returned _ e ↦ rw e (save_all-IsLedger k ss (saved k s w) r.1 next)
    | failed _ e ↦ rw e next
    | panicked e ↦ rw e next
  ]
    where
      next : IsLedger (save_swap x (mark k s) true w.db).1
      next =
          save_swap-IsLedger w.db (mark k s) (mark-IsSwap k s r.0.0) true
            (record {
              fee_lem = r.0.1.fee_lem;
              proof = r.0.1.proof;
              proof_lem = r.0.1.proof_lem;
              verified = r.0.1.verified;
            })
            I

  pub save_all-posted :
      (k : x.Hash) (ss : List (SwapData x)) (w : World x) → (save_all x k ss w).1.posted ≡ w.posted
  unfolding save_all
  save_all-posted k [] w = refl
  save_all-posted k (s ∷ ss) w = elim (ended (save_swap x (mark k s) true w.db).0) [
    | returned _ e ↦ rw e (save_all-posted k ss (saved k s w))
    | failed _ e ↦ rw e refl
    | panicked e ↦ rw e refl
  ]

  -- No two swaps of the list spend one input.
  abbrev pub DistinctInputs : List (SwapData x) → Type 0
  DistinctInputs [] = Unit
  DistinctInputs (s ∷ ss) =
      All (λ (t : SwapData x). x.input_commit s.input ≢ x.input_commit t.input) ss
      × DistinctInputs ss

  pub save_all-step :
      (k : x.Hash) (s : SwapData x) (ss : List (SwapData x)) (w : World x)
      → (save_swap x (mark k s) true w.db).0 ≡ ok tt
      → save_all x k (s ∷ ss) w ≡ save_all x k ss (saved k s w)
  unfolding save_all
  save_all-step k s ss w e = rw e

  save_all-failed :
      (k : x.Hash) (s : SwapData x) (ss : List (SwapData x)) (w : World x)
      → (save_swap x (mark k s) true w.db).0 ≢ ok tt
      → ((save_all x k (s ∷ ss) w).0 ≢ ok tt) × ((save_all x k (s ∷ ss) w).1 ≡ saved k s w)
  unfolding save_all
  save_all-failed k s ss w n = elim (ended (save_swap x (mark k s) true w.db).0) [
    | returned _ e ↦ absurd (n e)
    | failed _ e ↦ rw e (λ o. cc, refl)
    | panicked e ↦ rw e (λ o. cc, refl)
  ]

  -- However marking ends, for an input that no swap of the list spends the store holds what it
  -- held before.
  pub save_all-Holds_ne :
      (k : x.Hash) (ss : List (SwapData x)) (w : World x) (c : x.Commitment) (t : SwapData x)
      → All (λ (s : SwapData x). IsSwap x S s) ss
      → All (λ (s : SwapData x). c ≢ x.input_commit s.input) ss
      → Holds x S D (save_all x k ss w).1.db c t ↔ Holds x S D w.db c t
  unfolding save_all
  save_all-Holds_ne k [] w c t h n = (λ y. y, λ y. y)
  save_all-Holds_ne k (s ∷ ss) w c t h n =
      let own = save_swap-Holds_ne x S D w.db (mark k s) (mark-IsSwap k s h.0) true c t n.0 in
      elim (ended (save_swap x (mark k s) true w.db).0) [
        | returned _ e ↦
            let rest = save_all-Holds_ne k ss (saved k s w) c t h.1 n.1 in
            subst (λ o. Holds x S D o.1.db c t ↔ Holds x S D w.db c t)
              (sym (save_all-step k s ss w e)) (λ y. own.0 (rest.0 y), λ y. rest.1 (own.1 y))
        | failed _ e ↦
            subst (λ v. Holds x S D v.db c t ↔ Holds x S D w.db c t)
              (sym (save_all-failed k s ss w (λ o. cc)).1) own
        | panicked e ↦
            subst (λ v. Holds x S D v.db c t ↔ Holds x S D w.db c t)
              (sym (save_all-failed k s ss w (λ o. cc)).1) own
      ]

  -- Where marking succeeds and no two swaps of the list spend one input, every swap of the list is
  -- held as in process.
  pub save_all-Holds :
      (k : x.Hash) (ss : List (SwapData x)) (w : World x)
      → All (λ (s : SwapData x). IsSwap x S s) ss
      → DistinctInputs ss
      → (save_all x k ss w).0 ≡ ok tt
      → All
          (λ (s : SwapData x).
            Holds x S D (save_all x k ss w).1.db (x.input_commit s.input) (mark k s))
          ss
  save_all-Holds k [] w h n e = tt
  save_all-Holds k (s ∷ ss) w h n e = elim (ended (save_swap x (mark k s) true w.db).0) [
    | failed _ q ↦ absurd ((save_all-failed k s ss w (λ o. cc)).0 e)
    | panicked q ↦ absurd ((save_all-failed k s ss w (λ o. cc)).0 e)
    | returned _ q ↦
        let own = save_swap-Holds x S D w.db (mark k s) (mark-IsSwap k s h.0) true q in
        let step = save_all-step k s ss w q in
        let rest = save_all-Holds k ss (saved k s w) h.1 n.1 (sym (ap (λ o. o.0) step) ∙ e) in
        let kept =
          save_all-Holds_ne k ss (saved k s w) (x.input_commit s.input) (mark k s) h.1 n.0 in
        subst
          (λ o.
            All (λ (t : SwapData x). Holds x S D o.1.db (x.input_commit t.input) (mark k t))
              (s ∷ ss))
          (sym step) (kept.1 own, rest)
  ]
