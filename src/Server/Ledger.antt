-- ===== src/Server/Ledger.antt =====
-- What a request and a round do to a store of checked swaps, and what a round mixes.
use mwixnet.Base.{All-In, ℕ, ◌≡◌, inl, inr, refl, false, List, [], ◌∷◌, All, ok, length, arith}
use mwixnet.Ext.{Crates}
use mwixnet.Ext.Laws.{SerLaws, ValueLaws}
use mwixnet.Ext.DbLaws.{DbLaws}
use mwixnet.Secp.{ComSignature}
use mwixnet.Node.{GrinNode}
use mwixnet.Wallet.{Wallet}
use mwixnet.Onion.{Onion}
use mwixnet.Store.Data.{SwapData}
use mwixnet.Store.Ops.{swaps_iter}
use mwixnet.Store.View.{swaps_iter-Holds}
use mwixnet.Server.Swap.{save, swap}
use mwixnet.Server.Round.{World, select, build_outputs, execute_round}
use mwixnet.Server.Rounded.{sent, round_invariant}
use mwixnet.Server.Accept.{swap-Handled, swap_of}
use mwixnet.Server.Submit.{swap_of-IsSwap}
use mwixnet.Server.Select.{select_sound}
use mwixnet.Server.Mark.{IsLedger, Ready, save_swap-IsLedger, save_all-IsLedger}

module _ (x : Crates) (S : SerLaws x) (V : ValueLaws x) (D : DbLaws x) where
  -- A request on a store whose entries are swaps that passed the checks leaves such a store,
  -- however the request ends.
  pub swap-IsLedger :
      (key : x.SecretKey) (node : GrinNode x) (onion : Onion x) (comsig : ComSignature x) (d : x.Db)
      → IsLedger x S D d
      → IsLedger x S D (swap x key node onion comsig d).1
  unfolding save
  swap-IsLedger key node onion comsig d I = elim (swap-Handled x key node onion comsig d).how [
    | inr (_, same) ↦ rw same I
    | inl (payload, peeled, input, k, o) ↦ rw o (
        save_swap-IsLedger x S D d (swap_of x payload peeled input)
          (swap_of-IsSwap x S V D key node onion comsig payload peeled input k) false
          (record {
            fee_lem = k.fee_lem;
            proof = k.proof;
            proof_lem = k.proof_lem;
            verified = k.verified;
          })
          I)
  ]

  -- What is selected from a ledger may be marked.
  pub select-Ready :
      (node : GrinNode x) (height : ℕ) (d : x.Db) (l : List (SwapData x))
      → IsLedger x S D d
      → swaps_iter x d ≡ ok l
      → All (Ready x S D) (select x node height l)
  select-Ready node height d l I e = All-In (Ready x S D) _ λ s m.
      let listed = (select_sound x node height l s m).0 in
      let held = (swaps_iter-Holds x S D d l I.store e s).0 listed in
      (held.valid, I.sound (x.input_commit s.input) s held)

  -- A round on a store whose entries are swaps that passed the checks leaves such a store, however
  -- the round ends.
  pub execute_round-IsLedger :
      (wallet : Wallet x) (node : GrinNode x) (offset : x.SecretKey) (w : World x)
      → IsLedger x S D w.db
      → IsLedger x S D (execute_round x wallet node offset w).1.db
  execute_round-IsLedger wallet node offset w I =
      round_invariant x wallet node offset w (λ v. IsLedger x S D v.db) I (λ _. I)
        λ height l tx k el.
          save_all-IsLedger x S D k (select x node height l) (sent x wallet node offset w tx)
            (select-Ready node height w.db l I el) I

  pub build_outputs_lem :
      (ss : List (SwapData x))
      → All (Ready x S D) ss
      → (outputs : List x.Output) × (build_outputs x ss ≡ ok outputs) × (length outputs ≡ length ss)
  unfolding build_outputs
  build_outputs_lem [] r = ([], refl, refl)
  build_outputs_lem (s ∷ ss) r =
      let (rest, e, n) = build_outputs_lem ss r.1 in
      (
        x.output_new x.plain_features s.output_commit r.0.1.proof ∷ rest,
        rw (r.0.1.proof_lem, e) refl,
        omega (arith, n),
      )

  -- For the swaps that a round selects from a store whose entries passed the checks, the outputs
  -- are built without error or panic, one for each swap: the `unwrap` of a range proof never meets
  -- `None`.
  pub build_outputs-select :
      (node : GrinNode x) (height : ℕ) (d : x.Db) (l : List (SwapData x))
      → IsLedger x S D d
      → swaps_iter x d ≡ ok l
      → (outputs : List x.Output) × (build_outputs x (select x node height l) ≡ ok outputs)
        × (length outputs ≡ length (select x node height l))
  build_outputs-select node height d l I e =
      build_outputs_lem (select x node height l) (select-Ready node height d l I e)
