-- ===== src/Store/Save.antt =====
-- `save_swap` against a map from input commitments to swaps.
use mwixnet.Base.{
  ℕ, ◌≡◌, refl, sym, ◌∙◌, ◌⊎◌, inl, inr, [], Option, none, some, Bool, true, false, ite, map_err,
  Result, ok, err, panic, returned, failed, panicked, ended, if◌then◌else◌, is_some,
}
use mwixnet.Base.Codec.{Bytes}
use mwixnet.Base.Exec.{pure, lift, raise, ◌>>=◌, ◌>>◌}
use mwixnet.Ext.{Crates}
use mwixnet.Ext.Laws.{SerLaws}
use mwixnet.Ext.DbLaws.{DbLaws, Bytes-discrete}
use mwixnet.Store.Data.{SwapData, swap_prefix, write_swap_data}
use mwixnet.Store.RoundTrip.{IsSwap, swap_encode, swap-Writes}
use mwixnet.Store.Ops.{
  StoreError, already_exists, write_error, save_swap, write, commit_batch, blocked,
}

pub absent : {A : Type 0} (o : Option A) → is_some o ≡ false → o ≡ none
absent none h = refl
absent (some a) h = cc

module _ (x : Crates) (S : SerLaws x) (D : DbLaws x) where
  -- The key of a swap, and the value that the database has for an input commitment.
  abbrev pub key_of : x.Commitment → Bytes
  key_of c = x.to_key swap_prefix (x.commit_bytes c)

  abbrev pub entry : x.Db → x.Commitment → Option Bytes
  entry d c = D.at d (key_of c)

  -- How a write of `v` at `k` that found the database `d` may end.
  abbrev pub Wrote : x.Db → Bytes → Bytes → Bool → Result x.LmdbError Bool × x.Db → Type 0
  Wrote d k v overwrite (ok true, d') =
      ((overwrite ≡ true) ⊎ (D.at d k ≡ none))
      × ((j : Bytes) → D.at d' j ≡ ite (Bytes-discrete j k) (some v) (D.at d j))
  Wrote d k v overwrite (ok false, d') =
      (overwrite ≡ false) × (is_some (D.at d k) ≡ true) × (d' ≡ d)
  Wrote d k v overwrite (err e, d') = d' ≡ d
  Wrote d k v overwrite (panic, d') = ⊥

  -- From the put on, where the batch sees the database and the key may be written.
  put-Wrote :
      (d : x.Db) (b : x.Batch) (k v : Bytes) (overwrite : Bool)
      → ((j : Bytes) → D.pending b j ≡ D.at d j)
      → (overwrite ≡ true) ⊎ (D.at d k ≡ none)
      → Wrote d k v overwrite ((do b' ← lift (x.batch_put b k v); commit_batch x b'; pure true) d)
  unfolding commit_batch
  put-Wrote d b k v overwrite sees may = elim (ended (x.batch_put b k v)) [
    | failed e p ↦ rw p refl
    | panicked p ↦ absurd (D.put_quiet b k v p)
    | returned b' p ↦ elim (ended (x.batch_commit b')) [
      | failed e q ↦ rw (p, q, commit_batch) refl
      | panicked q ↦ absurd (D.commit_quiet b' q)
      | returned d' q ↦
          rw (p, q, commit_batch)
            (may, λ j. D.commit_lem b' d' q j ∙ D.put_lem b b' k v p j ∙ rw (sees j))
    ]
  ]

  write-Wrote :
      (d : x.Db) (p : ℕ) (k v : Bytes) (overwrite : Bool)
      → Wrote d (x.to_key p k) v overwrite (write x p k v overwrite d)
  unfolding write
  write-Wrote d p k v overwrite = elim (ended (x.db_batch d)) [
    | failed e q ↦ rw q refl
    | panicked q ↦ absurd (D.batch_quiet d q)
    | returned b q ↦ rw q (go b (D.batch_lem d b q) overwrite)
  ]
    where
      go :
          (b : x.Batch)
          → ((j : Bytes) → D.pending b j ≡ D.at d j)
          → (overwrite : Bool)
          → Wrote d (x.to_key p k) v overwrite (
              (do
                taken ← lift (blocked x overwrite b (x.to_key p k))
                if taken then pure false else (do
                  b' ← lift (x.batch_put b (x.to_key p k) v)
                  commit_batch x b'
                  pure true))
                d)
      go b sees true = put-Wrote d b (x.to_key p k) v true sees (inl refl)
      go b sees false = elim (ended (x.batch_exists b (x.to_key p k))) [
        | failed e r ↦ rw r refl
        | panicked r ↦ absurd (D.exists_quiet b _ r)
        | returned true r ↦ rw r (refl, rw sees at (sym (D.exists_lem b _ true r)), refl)
        | returned false r ↦ rw r (
            put-Wrote d b (x.to_key p k) v false sees
              (inr (absent _ (rw sees at (sym (D.exists_lem b _ false r))))))
      ]

  -- How saving `s` into the database `d` may end. It succeeds only if it may overwrite or the input
  -- has no entry yet, and then the one entry that changes is that of the input.
  abbrev pub Saved :
      x.Db
      → (s : SwapData x) → IsSwap x S s
      → Bool
      → Result (StoreError x) (Unit {0}) × x.Db
      → Type 0
  Saved d s h overwrite (ok _, d') =
      ((overwrite ≡ true) ⊎ (entry d (x.input_commit s.input) ≡ none))
      × ((j : Bytes)
          → D.at d' j
            ≡ ite (Bytes-discrete j (key_of (x.input_commit s.input))) (some (swap_encode x S s h))
                (D.at d j))
  Saved d s h overwrite (err (already_exists c), d') =
      (c ≡ x.input_commit s.input)
      × (overwrite ≡ false)
      × (is_some (entry d (x.input_commit s.input)) ≡ true)
      × (d' ≡ d)
  Saved d s h overwrite (err e, d') = d' ≡ d
  Saved d s h overwrite (panic, d') = ⊥

  pub serialized :
      (s : SwapData x) (h : IsSwap x S s)
      → x.ser_vec (write_swap_data x s) ≡ ok (swap_encode x S s h)
  serialized s h = S.ser_vec_lem _ ∙ (swap-Writes x S s h).run []

  -- Saving a swap that its types can hold ends in one of these ways, and never panics.
  pub save_swap-Saved :
      (d : x.Db) (s : SwapData x) (h : IsSwap x S s) (overwrite : Bool)
      → Saved d s h overwrite (save_swap x s overwrite d)
  unfolding save_swap
  save_swap-Saved d s h overwrite = rw (serialized s h) (
      go (write x swap_prefix c (swap_encode x S s h) overwrite d)
        (write-Wrote d swap_prefix c (swap_encode x S s h) overwrite))
    where
      c : Bytes
      c = x.commit_bytes (x.input_commit s.input)

      go :
          (r : Result x.LmdbError Bool × x.Db)
          → Wrote d (x.to_key swap_prefix c) (swap_encode x S s h) overwrite r
          → Saved d s h overwrite (
              (do
                saved ← (λ (_ : x.Db). (map_err write_error r.0, r.1))
                if saved then pure tt else raise (already_exists (x.input_commit s.input)))
                d)
      go (ok true, d') w = w
      go (ok false, d') w = (refl, w.0, w.1, w.2)
      go (err e, d') w = w
      go (panic, d') w = w
