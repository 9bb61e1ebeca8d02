-- ===== src/Store/View.antt =====
-- The store as a map from input commitments to swaps: what it holds, and what reading it returns.
use mwixnet.Base.{
  ◌≡◌, ◌≢◌, ◌↔◌, append-nil, refl, sym, ap, subst, ◌∙◌, [], ◌++◌, ◌∷◌, Option, some, ite, List, ok,
  map_err-eq-ok, In,
}
use mwixnet.Base.Codec.{Bytes}
use mwixnet.Ext.{Crates}
use mwixnet.Ext.Laws.{SerLaws}
use mwixnet.Ext.DbLaws.{DbLaws, Bytes-discrete, update_self, update_ne}
use mwixnet.Store.Data.{SwapData, swap_prefix, read_swap_data}
use mwixnet.Store.RoundTrip.{IsSwap, swap_encode, swap-Reads}
use mwixnet.Store.Ops.{read_error, swaps_iter, get_swap}
use mwixnet.Store.Save.{key_of, entry}

append-cancel : (p a b : Bytes) → p ++ a ≡ p ++ b → a ≡ b
append-cancel [] a b h = h
append-cancel (y ∷ p) a b h = append-cancel p a b (cc h)

module _ (x : Crates) (S : SerLaws x) (D : DbLaws x) where
  pub key_of-injective : (a b : x.Commitment) → key_of x S D a ≡ key_of x S D b → a ≡ b
  key_of-injective a b h =
      D.commit_bytes-injective a b (
        append-cancel (x.to_key swap_prefix []) _ _ (sym (D.to_key_lem _ _) ∙ h ∙ D.to_key_lem _ _))

  -- The store holds the swap `s` for the input commitment `c`.
  pub record Holds (d : x.Db) (c : x.Commitment) (s : SwapData x) : Type 0 where
    pub valid : IsSwap x S s
    pub stored : entry x S D d c ≡ some (swap_encode x S s valid)

  -- Every entry under the prefix of the swaps is a swap, stored under its own input commitment.
  pub record IsStore (d : x.Db) : Type 0 where
    pub owns :
        (k v : Bytes)
        → D.at d (x.to_key swap_prefix [] ++ k) ≡ some v
        → (s : SwapData x) × (h : IsSwap x S s) × (x.to_key swap_prefix [] ++ k
            ≡ key_of x S D (x.input_commit s.input))
          × (v ≡ swap_encode x S s h)

  whole : (s : SwapData x) (h : IsSwap x S s) → read_swap_data x (swap_encode x S s h) ≡ ok (s, [])
  whole s h = rw append-nil at ((swap-Reads x S s h).run [])

  -- Bytes that hold a swap are read as that swap.
  decodes :
      (s t : SwapData x) (h : IsSwap x S s) (v rest : Bytes)
      → v ≡ swap_encode x S s h
      → read_swap_data x v ≡ ok (t, rest)
      → t ≡ s
  decodes s t h v rest e r = cc (whole s h)

  stored-injective : {v w : Bytes} (o : Option Bytes) → o ≡ some v → o ≡ some w → v ≡ w
  stored-injective o p q = cc

  -- A store holds at most one swap for each input commitment.
  pub Holds-functional :
      (d : x.Db) (c : x.Commitment) (s t : SwapData x) → Holds d c s → Holds d c t → t ≡ s
  Holds-functional d c s t hs ht =
      decodes s t hs.valid (swap_encode x S t ht.valid) []
        (stored-injective (entry x S D d c) ht.stored hs.stored) (whole t ht.valid)

  -- What `get_swap` returns is the swap that the store holds.
  pub get_swap-Holds :
      (d : x.Db) (c : x.Commitment) (s t : SwapData x) → Holds d c s → get_swap x c d ≡ ok t → t ≡ s
  unfolding get_swap
  get_swap-Holds d c s t hs g =
      let (v, rest, found, r) = D.get_ser_lem _ _ _ _ t (map_err-eq-ok read_error _ g) in
      decodes s t hs.valid v rest (stored-injective (entry x S D d c) found hs.stored) r

  -- In a store where every entry is a swap, `swaps_iter` yields exactly the swaps that it holds.
  pub swaps_iter-Holds :
      (d : x.Db) (l : List (SwapData x))
      → IsStore d
      → swaps_iter x d ≡ ok l
      → (s : SwapData x) → In s l ↔ Holds d (x.input_commit s.input) s
  unfolding swaps_iter
  swaps_iter-Holds d l I e s = (listed, yielded)
    where
      listed : In s l → Holds d (x.input_commit s.input) s
      listed m =
          let (k, v, rest, found, r) = D.iter_sound _ _ _ _ l s (map_err-eq-ok read_error _ e) m in
          let (t, h, own, enc) = I.owns k v found in
          let same : s ≡ t = decodes t s h v rest enc r in
          subst (λ u. Holds d (x.input_commit u.input) u) (sym same)
            (record {
              valid = h;
              stored = subst (λ j. D.at d j ≡ some (swap_encode x S t h)) own (found ∙ ap some enc);
            })

      yielded : Holds d (x.input_commit s.input) s → In s l
      yielded h =
          D.iter_complete _ (read_swap_data x) d (x.to_key swap_prefix []) l
            (map_err-eq-ok read_error _ e)
            (λ k v found. let (t, ht, own, enc) = I.owns k v found in (t, [], rw enc (whole t ht)))
            (x.commit_bytes (x.input_commit s.input)) (swap_encode x S s h.valid) [] s
            (rw (← D.to_key_lem swap_prefix (x.commit_bytes (x.input_commit s.input))) h.stored)
            (whole s h.valid)

  -- The entries that saving `s` in `d` leaves in `d'`.
  abbrev pub Updates : x.Db → x.Db → (s : SwapData x) → IsSwap x S s → Type 0
  Updates d d' s h =
      (j : Bytes)
      → D.at d' j
        ≡ ite (Bytes-discrete j (key_of x S D (x.input_commit s.input)))
            (some (swap_encode x S s h)) (D.at d j)

  module _ (d d' : x.Db) (s : SwapData x) (h : IsSwap x S s) (changed : Updates d d' s h) where
    pub stored_self : Holds d' (x.input_commit s.input) s
    stored_self = record { valid = h; stored = changed _ ∙ update_self _ _ _ _ refl }

    pub stored_other :
        (c : x.Commitment) → c ≢ x.input_commit s.input → entry x S D d' c ≡ entry x S D d c
    stored_other c ne = changed _ ∙ update_ne _ _ _ _ (λ e. ne (key_of-injective _ _ e))

    pub IsStore-saved : IsStore d → IsStore d'
    IsStore-saved I = record { owns = own }
      where
        own :
            (k v : Bytes)
            → D.at d' (x.to_key swap_prefix [] ++ k) ≡ some v
            → (t : SwapData x) × (ht : IsSwap x S t) × (x.to_key swap_prefix [] ++ k
                ≡ key_of x S D (x.input_commit t.input))
              × (v ≡ swap_encode x S t ht)
        own k v found =
            elim (Bytes-discrete (x.to_key swap_prefix [] ++ k)
              (key_of x S D (x.input_commit s.input))) [
                | yes e ↦ (
                  s,
                  h,
                  e,
                  sym (
                      stored-injective (D.at d' (x.to_key swap_prefix [] ++ k))
                        (changed _ ∙ update_self _ _ _ _ e) found),
                )
                | no n ↦ I.owns k v (sym (changed _ ∙ update_ne _ _ _ _ n) ∙ found)
              ]
