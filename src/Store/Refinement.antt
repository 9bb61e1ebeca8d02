-- ===== src/Store/Refinement.antt =====
-- `save_swap` as an update of a map from input commitments to swaps.
use mwixnet.Base.{
  ◌≡◌, ◌≢◌, ◌↔◌, ◌⊎◌, inl, inr, refl, sym, ap, ◌∙◌, Option, none, some, Bool, true, false, Result,
  ok, err, panic, is_some, subst, Bool-cases, ended, returned, failed, panicked,
}
use mwixnet.Ext.{Crates}
use mwixnet.Ext.Laws.{SerLaws}
use mwixnet.Ext.DbLaws.{DbLaws, IsReliable}
use mwixnet.Store.Data.{SwapData}
use mwixnet.Store.RoundTrip.{IsSwap, swap_encode}
use mwixnet.Store.Ops.{
  StoreError, already_exists, open_error, read_error, write_error, serialization_error, save_swap,
  commit_batch,
}
use mwixnet.Store.Save.{key_of, entry, Saved, serialized, absent, save_swap-Saved}
use mwixnet.Store.View.{Holds, IsStore, Updates, stored_self, stored_other, IsStore-saved}

none-some : {A : Type 0} (o : Option A) (a : A) → o ≡ none → o ≡ some a → ⊥
none-some o a h k = cc

committed :
    (x : Crates) (b : x.Batch) (d' : x.Db)
    → x.batch_commit b ≡ ok d'
    → (d : x.Db) → commit_batch x b d ≡ (ok tt, d')
unfolding commit_batch
committed x b d' e d = rw (e, commit_batch)

module _ (x : Crates) (S : SerLaws x) (D : DbLaws x) where
  module _ (d : x.Db) (s : SwapData x) (h : IsSwap x S s) (overwrite : Bool) where
    -- A success is an update.
    updates :
        (r : Result (StoreError x) (Unit {0})) (d' : x.Db)
        → Saved x S D d s h overwrite (r, d')
        → r ≡ ok tt
        → Updates x S D d d' s h
    updates (ok _) d' w e = w.1
    updates (err c) d' w e = cc
    updates panic d' w e = cc

    -- It overwrites only what it may.
    was_free :
        (r : Result (StoreError x) (Unit {0})) (d' : x.Db)
        → Saved x S D d s h overwrite (r, d')
        → r ≡ ok tt
        → (overwrite ≡ true) ⊎ (entry x S D d (x.input_commit s.input) ≡ none)
    was_free (ok _) d' w e = w.0
    was_free (err c) d' w e = cc
    was_free panic d' w e = cc

    -- Anything else changes nothing.
    unchanged :
        (r : Result (StoreError x) (Unit {0})) (d' : x.Db)
        → Saved x S D d s h overwrite (r, d')
        → r ≢ ok tt
        → d' ≡ d
    unchanged (ok _) d' w n = absurd (n refl)
    unchanged (err (already_exists _)) d' w n = w.3
    unchanged (err (open_error _)) d' w n = w
    unchanged (err (read_error _)) d' w n = w
    unchanged (err (write_error _)) d' w n = w
    unchanged (err (serialization_error _)) d' w n = w
    unchanged panic d' w n = absurd w

    -- When `save_swap` succeeds for a swap that fits its types (its key is valid, its fee a 64-bit
    -- number, and its onion within the limits of the reader), the store holds the swap for its
    -- input.
    pub save_swap-Holds :
        (save_swap x s overwrite d).0 ≡ ok tt
        → Holds x S D (save_swap x s overwrite d).1 (x.input_commit s.input) s
    save_swap-Holds e =
        stored_self x S D d _ s h (updates _ _ (save_swap-Saved x S D d s h overwrite) e)

    -- A `save_swap` that does not succeed leaves the database as it was.
    pub save_swap_unchanged :
        (save_swap x s overwrite d).0 ≢ ok tt → (save_swap x s overwrite d).1 ≡ d
    save_swap_unchanged = unchanged _ _ (save_swap-Saved x S D d s h overwrite)

    -- However `save_swap` ends for a swap that fits its types (its key is valid, its fee a 64-bit
    -- number, and its onion within the limits of the reader), for every other input the store holds
    -- what it held before.
    pub save_swap-Holds_ne :
        (c : x.Commitment) (t : SwapData x)
        → c ≢ x.input_commit s.input
        → Holds x S D (save_swap x s overwrite d).1 c t ↔ Holds x S D d c t
    save_swap-Holds_ne c t ne = elim (ended (save_swap x s overwrite d).0) [
      | returned _ e ↦
          let u = updates _ _ (save_swap-Saved x S D d s h overwrite) e in
          let same = stored_other x S D d _ s h u c ne in
          (
            λ a. record { valid = a.valid; stored = sym same ∙ a.stored },
            λ a. record { valid = a.valid; stored = same ∙ a.stored },
          )
      | failed _ e ↦ rw (save_swap_unchanged (λ o. cc)) (λ a. a, λ a. a)
      | panicked e ↦ rw (save_swap_unchanged (λ o. cc)) (λ a. a, λ a. a)
    ]

    kept :
        (r : Result (StoreError x) (Unit {0})) (d' : x.Db)
        → Saved x S D d s h overwrite (r, d')
        → IsStore x S D d
        → IsStore x S D d'
    kept (ok _) d' w I = IsStore-saved x S D d d' s h w.1 I
    kept (err e) d' w I = subst (IsStore x S D) (sym (unchanged (err e) d' w (cc))) I
    kept panic d' w I = absurd w

    -- However `save_swap` ends, every entry of the store stays a swap under its own input.
    pub save_swap-IsStore : IsStore x S D d → IsStore x S D (save_swap x s overwrite d).1
    save_swap-IsStore = kept _ _ (save_swap-Saved x S D d s h overwrite)

  -- However `save_swap` without `overwrite` ends, every swap that the store held it still holds.
  pub save_swap-keeps :
      (d : x.Db) (s : SwapData x) (h : IsSwap x S s) (c : x.Commitment) (t : SwapData x)
      → Holds x S D d c t
      → Holds x S D (save_swap x s false d).1 c t
  save_swap-keeps d s h c t a = elim (x.commitment_dec c (x.input_commit s.input)) [
    | no n ↦ (save_swap-Holds_ne d s h false c t n).1 a
    | yes same ↦ elim (ended (save_swap x s false d).0) [
      | failed _ e ↦ rw (save_swap_unchanged d s h false (λ o. cc)) a
      | panicked e ↦ rw (save_swap_unchanged d s h false (λ o. cc)) a
      | returned _ e ↦ elim (was_free d s h false _ _ (save_swap-Saved x S D d s h false) e) [
        | inl wrong ↦ absurd (cc wrong)
        | inr free ↦ absurd (none-some _ _ (ap (entry x S D d) same ∙ free) a.stored)
      ]
    ]
  ]

  module _ (R : IsReliable x) (d : x.Db) (s : SwapData x) (h : IsSwap x S s) where
    -- On a reliable database, `save_swap` without `overwrite` reports `AlreadyExists` with the
    -- swap's input, and changes nothing, if there is an entry for that input, and succeeds if not.
    pub save_swap-fresh :
        (save_swap x s false d ≡ (err (already_exists (x.input_commit s.input)), d))
          × (is_some (entry x S D d (x.input_commit s.input)) ≡ true)
        ⊎ ((save_swap x s false d).0 ≡ ok tt) × (entry x S D d (x.input_commit s.input) ≡ none)
    unfolding save_swap
    save_swap-fresh =
        let (b, eb) = R.batch_up d in
        let (t, et) = R.exists_up b (key_of x S D (x.input_commit s.input)) in
        let (c, ec) = R.put_up b (key_of x S D (x.input_commit s.input)) (swap_encode x S s h) in
        let (d', ed) = R.commit_up c in
        let seen : t ≡ is_some (entry x S D d (x.input_commit s.input)) =
          D.exists_lem b _ t et ∙ ap is_some (D.batch_lem d b eb _) in
        elim (Bool-cases t) [
          | inl taken ↦ inl (rw (serialized x S D s h, eb, et, taken) refl, sym seen ∙ taken)
          | inr free ↦ inr (
            rw (serialized x S D s h, eb, et, free, ec, committed x c d' ed d) refl,
            absent _ (sym seen ∙ free),
          )
        ]

    -- On a reliable database, `save_swap` with `overwrite` succeeds.
    pub save_swap-overwrites : (save_swap x s true d).0 ≡ ok tt
    unfolding save_swap
    save_swap-overwrites =
        let (b, eb) = R.batch_up d in
        let (c, ec) = R.put_up b (key_of x S D (x.input_commit s.input)) (swap_encode x S s h) in
        let (d', ed) = R.commit_up c in
        rw (serialized x S D s h, eb, ec, committed x c d' ed d) refl
