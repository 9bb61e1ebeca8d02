-- ===== src/Server/Asked.antt =====
-- The calls to the node of a round's selection, `ask_node` of Server/Round: how they end.
use mwixnet.Base.{
  panic-bind, ok-panic, ℕ, ◌≡◌, ◌≢◌, refl, ◌⊎◌, inl, inr, Bool, true, false, List, [], ◌∷◌, Result,
  ok, err, panic, if◌then◌else◌,
}
use mwixnet.Base
use mwixnet.Ext.{Crates}
use mwixnet.Node.{GrinNode, NodeError, NeverPanics, is_spendable, is_unspent}
use mwixnet.Store.Data.{SwapData}
use mwixnet.Server.Round.{RoundError, answer, not_panicked, ask_node}

module _ (x : Crates) where
  -- How one swap is asked for, before the others.
  step_ends :
      (spendable : Result (NodeError x) Bool) (unspent : Result (NodeError x) Bool)
      (rest : Result (RoundError x) (Unit {0}))
      → (rest ≡ ok tt) ⊎ (rest ≡ panic)
      → ((Base.◌>>=◌ (not_panicked x spendable) λ _.
            Base.◌>>=◌
              (if answer x false spendable then not_panicked x unspent else ok tt)
              λ _. rest)
          ≡ ok tt)
        ⊎ ((Base.◌>>=◌ (not_panicked x spendable) λ _.
              Base.◌>>=◌
                (if answer x false spendable then not_panicked x unspent else ok tt)
                λ _. rest)
            ≡ panic)
  step_ends panic u rest h = inr refl
  step_ends (err e) u rest h = h
  step_ends (ok false) u rest h = h
  step_ends (ok true) (ok b) rest h = h
  step_ends (ok true) (err e) rest h = h
  step_ends (ok true) panic rest h = inr refl

  step_quiet :
      (spendable : Result (NodeError x) Bool) (unspent : Result (NodeError x) Bool)
      (rest : Result (RoundError x) (Unit {0}))
      → spendable ≢ panic
      → unspent ≢ panic
      → rest ≡ ok tt
      → (Base.◌>>=◌ (not_panicked x spendable) λ _.
          Base.◌>>=◌ (if answer x false spendable then not_panicked x unspent else ok tt) λ _. rest)
        ≡ ok tt
  step_quiet panic u rest n m h = absurd (n refl)
  step_quiet (err e) u rest n m h = h
  step_quiet (ok false) u rest n m h = h
  step_quiet (ok true) (ok b) rest n m h = h
  step_quiet (ok true) (err e) rest n m h = h
  step_quiet (ok true) panic rest n m h = absurd (m refl)

  module _ (node : GrinNode x) (height : ℕ) where
    -- The calls end without error: they pass, or one panics.
    pub ask_node-ends :
        (l : List (SwapData x))
        → (ask_node x node height l ≡ ok tt) ⊎ (ask_node x node height l ≡ panic)
    unfolding ask_node
    ask_node-ends [] = inl refl
    ask_node-ends (s ∷ l) =
        step_ends (is_spendable x node (x.input_commit s.input) height)
          (is_unspent x node s.output_commit) (ask_node x node height l) (ask_node-ends l)

    is_spendable_quiet :
        NeverPanics x node → (c : x.Commitment) → is_spendable x node c height ≢ panic
    unfolding is_spendable
    is_spendable_quiet quiet c = panic-bind _ _ (quiet c) λ out. ok-panic _

    is_unspent_quiet : NeverPanics x node → (c : x.Commitment) → is_unspent x node c ≢ panic
    unfolding is_unspent
    is_unspent_quiet quiet c = panic-bind _ _ (quiet c) λ out. ok-panic _

    -- With a node that does not panic they pass.
    pub ask_node-ok :
        NeverPanics x node → (l : List (SwapData x)) → ask_node x node height l ≡ ok tt
    unfolding ask_node
    ask_node-ok quiet [] = refl
    ask_node-ok quiet (s ∷ l) =
        step_quiet (is_spendable x node (x.input_commit s.input) height)
          (is_unspent x node s.output_commit) (ask_node x node height l)
          (is_spendable_quiet quiet (x.input_commit s.input))
          (is_unspent_quiet quiet s.output_commit) (ask_node-ok quiet l)
