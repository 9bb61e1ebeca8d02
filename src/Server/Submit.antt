-- ===== src/Server/Submit.antt =====
-- `swap` against the map of held swaps: what an accepted request adds, that a refused one changes
-- nothing, and that an output is taken once.
use mwixnet.Base.{
  ℕ, ◌≡◌, ◌≢◌, ◌↔◌, ◌⊎◌, inl, inr, refl, sym, ap, ◌∙◌, subst, Option, none, some, true, false, List,
  [], ◌∷◌, length, ok, err, map_err-eq-ok, >>=-eq-ok, ok-injective, arith, is_some, some-injective,
}
use mwixnet.Ext.{Crates}
use mwixnet.Ext.Laws.{SerLaws, ValueLaws}
use mwixnet.Ext.DbLaws.{DbLaws, IsReliable}
use mwixnet.Secp.{ComSignature}
use mwixnet.Types.{Payload}
use mwixnet.Types.Valid.{payload_deserialize-IsKey}
use mwixnet.Node.{IsHonest, GrinNode, build_input, input_features}
use mwixnet.Onion.{Onion}
use mwixnet.Onion.Peel.{apply_all}
use mwixnet.Onion.PeelLaws.{Peeled, peel_layer-Peeled}
use mwixnet.Store.Data.{SwapData}
use mwixnet.Store.RoundTrip.{IsSwap}
use mwixnet.Store.Ops.{save_swap}
use mwixnet.Store.Save.{entry}
use mwixnet.Store.View.{Holds, IsStore}
use mwixnet.Store.Refinement.{
  save_swap-Holds, save_swap-Holds_ne, save_swap_unchanged, save_swap-IsStore, save_swap-fresh,
}
use mwixnet.Server.Swap.{already_swapped, save_error, save, swap}
use mwixnet.Server.Accept.{Checked, swap_of, swap-Handled, swap-Checked}

module _ (x : Crates) (S : SerLaws x) (V : ValueLaws x) (D : DbLaws x) where
  input_commit-build_input :
      (node : GrinNode x) (c : x.Commitment) (input : x.Input)
      → IsHonest x node
      → build_input x node c ≡ ok (some input)
      → x.input_commit input ≡ c
  unfolding build_input
  input_commit-build_input node c input honest e =
      let (found, e1, e2) = >>=-eq-ok (node.get_utxo c) _ e in go found e1 (ok-injective _ _ e2)
    where
      go :
          (found : Option x.OutputPrintable)
          → node.get_utxo c ≡ ok found
          → (elim found as (λ _. Option x.Input) [
            | some out ↦
                some (x.input_new (input_features x (x.output_type out)) (x.printable_commit out))
            | none ↦ none
          ])
            ≡ some input
          → x.input_commit input ≡ c
      go none h k = cc
      go (some out) h k =
          ap x.input_commit (sym (some-injective _ _ k)) ∙ V.input_commit-new _ _ ∙ honest c out h

  apply_all-nil : (c : x.ChaCha20) (ps : List (List ℕ)) → length ps ≡ 0 → apply_all x c ps ≡ []
  unfolding apply_all
  apply_all-nil c [] h = refl
  apply_all-nil c (p ∷ ps) h = absurd (omega arith)

  module _ (key : x.SecretKey) (node : GrinNode x) (onion : Onion x) (comsig : ComSignature x) where
    pub swap_of-IsSwap :
        (payload : Payload x) (peeled : Onion x) (input : x.Input)
        → Checked x key node onion comsig payload peeled input
        → IsSwap x S (swap_of x payload peeled input)
    swap_of-IsSwap payload peeled input k = record {
      key = payload_deserialize-IsKey x V _ payload done.payload_lem;
      fee = V.fee_range payload.fee;
      onion = rw (done.others_lem, apply_all-nil _ done.others one) (omega arith, tt);
    }
      where
        done : Peeled x onion key payload peeled
        done = peel_layer-Peeled x onion key payload peeled k.peels

        one : length done.others ≡ 0
        one = omega (arith, k.one_layer, ap length done.layers)

    module _ (d : x.Db) where
      -- `save` succeeds if `save_swap` does, and leaves the same database.
      save-ok :
          (s : SwapData x) → (save x onion.commit s d).0 ≡ ok tt → (save_swap x s false d).0 ≡ ok tt
      unfolding save
      save-ok s e = map_err-eq-ok (save_error x onion.commit) (save_swap x s false d).0 e

      save-db : (s : SwapData x) → (save x onion.commit s d).1 ≡ (save_swap x s false d).1
      unfolding save
      save-db s = refl

      save-not_ok :
          (s : SwapData x) → (save x onion.commit s d).0 ≢ ok tt → (save_swap x s false d).0 ≢ ok tt
      unfolding save
      save-not_ok s n e = n (rw e)

      -- Where the node answers for the output that it is asked about, a request that succeeds has
      -- passed every check of `Checked`. The store then holds, under the onion's commitment, the
      -- unprocessed swap with the payload's excess, fee and range proof and the peeled onion's
      -- commitment, and its input has the onion's commitment.
      pub swap-Holds :
          IsHonest x node
          → (swap x key node onion comsig d).0 ≡ ok tt
          → (payload : Payload x) × (peeled : Onion x) × (input : x.Input) × Checked x key node
              onion comsig payload peeled input
            × (x.input_commit input ≡ onion.commit)
            × Holds x S D
                (swap x key node onion comsig d).1
                onion.commit
                (swap_of x payload peeled input)
      swap-Holds honest e = elim (swap-Handled x key node onion comsig d).how [
        | inr (n, _) ↦ absurd (n e)
        | inl (payload, peeled, input, k, o) ↦
            let s = swap_of x payload peeled input in
            let own = input_commit-build_input node onion.commit input honest k.unspent in
            let held =
              save_swap-Holds x S D d s (swap_of-IsSwap payload peeled input k) false
                (save-ok s (rw o at e)) in
            rw (o, save-db s)
              (
                payload,
                peeled,
                input,
                k,
                own,
                subst (λ c. Holds x S D (save_swap x s false d).1 c s) own held,
              )
      ]

      -- However a request ends, for every commitment but the onion's the store holds what it held
      -- before, if the node answers for the output that it is asked about.
      pub swap-Holds_ne :
          IsHonest x node
          → (c : x.Commitment) (t : SwapData x) → c ≢ onion.commit
          → Holds x S D (swap x key node onion comsig d).1 c t ↔ Holds x S D d c t
      swap-Holds_ne honest c t ne = elim (swap-Handled x key node onion comsig d).how [
        | inr (_, same) ↦ rw same (λ a. a, λ a. a)
        | inl (payload, peeled, input, k, o) ↦
            let s = swap_of x payload peeled input in
            let own = input_commit-build_input node onion.commit input honest k.unspent in
            rw (o, save-db s)
              (save_swap-Holds_ne x S D d s (swap_of-IsSwap payload peeled input k) false c t
                (λ same. ne (same ∙ own)))
      ]

      -- A request that does not succeed leaves the database as it was.
      pub swap_unchanged :
          (swap x key node onion comsig d).0 ≢ ok tt → (swap x key node onion comsig d).1 ≡ d
      swap_unchanged n = elim (swap-Handled x key node onion comsig d).how [
        | inr (_, same) ↦ same
        | inl (payload, peeled, input, k, o) ↦
            let s = swap_of x payload peeled input in
            rw (o, save-db s)
              (save_swap_unchanged x S D d s (swap_of-IsSwap payload peeled input k) false
                (save-not_ok s (rw o at n)))
      ]

      -- However a request ends, every entry of the store stays a swap under its own input.
      pub swap-IsStore : IsStore x S D d → IsStore x S D (swap x key node onion comsig d).1
      swap-IsStore I = elim (swap-Handled x key node onion comsig d).how [
        | inr (_, same) ↦ rw same I
        | inl (payload, peeled, input, k, o) ↦
            let s = swap_of x payload peeled input in
            rw (o, save-db s)
              (save_swap-IsStore x S D d s (swap_of-IsSwap payload peeled input k) false I)
      ]

      -- On a reliable database, and with a node that answers for the output that it is asked about,
      -- a request that passes every check is refused with `AlreadySwapped`, and changes nothing, if
      -- the store has an entry for the onion's commitment, and succeeds if it has none.
      pub swap-fresh :
          IsReliable x
          → IsHonest x node
          → (payload : Payload x) (peeled : Onion x) (input : x.Input)
          → Checked x key node onion comsig payload peeled input
          → (swap x key node onion comsig d ≡ (err (already_swapped onion.commit), d))
              × (is_some (entry x S D d onion.commit) ≡ true)
            ⊎ ((swap x key node onion comsig d).0 ≡ ok tt) × (entry x S D d onion.commit ≡ none)
      unfolding save
      swap-fresh R honest payload peeled input k =
          let s = swap_of x payload peeled input in
          let own = input_commit-build_input node onion.commit input honest k.unspent in
          rw (swap-Checked x key node onion comsig d payload peeled input k, ← own)
            (elim (save_swap-fresh x S D R d s (swap_of-IsSwap payload peeled input k)) [
              | inl (e, taken) ↦ inl (rw e refl, taken)
              | inr (e, free) ↦ inr (rw e refl, free)
            ])
