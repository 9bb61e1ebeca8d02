-- ===== src/Server/Rounded.antt =====
-- How a round ends: what `execute_round` builds, posts and marks.
use mwixnet.Base.{
  filter, false, ℕ, ◌≡◌, ◌≢◌, inl, inr, refl, sym, ap, ◌∙◌, subst, Option, none, some, List, [],
  ◌∷◌, length, Result, ok, err, panic, ok-injective, some-injective, map, map_err, map_err-eq-ok,
  ended, returned, failed, panicked, ◌==◌, ==_iff, Bool-cases, add_u64,
}
use mwixnet.Base.Exec.{Exec, lift, after, ◌>>=◌}
use mwixnet.Ext.{Crates}
use mwixnet.Node.{GrinNode}
use mwixnet.Wallet.{Wallet, assemble_tx}
use mwixnet.Store.Data.{SwapData}
use mwixnet.Store.Ops.{swaps_iter}
use mwixnet.Server.Swap.{get_fee_base}
use mwixnet.Server.Round.{
  World, RoundError, store_error, node_error, wallet_error, select, sum_fees, build_outputs,
  first_kernel, post_tx, save_all, mix, execute_round, ask_node, unique_from, is_unprocessed,
}

module _ (x : Crates) (wallet : Wallet x) (node : GrinNode x) (offset : x.SecretKey)
    (w : World x) where
  abbrev Outcome : Type 0
  Outcome = Result (RoundError x) (Option x.Transaction) × World x

  -- The world after `tx` was posted.
  abbrev pub sent : x.Transaction → World x
  sent tx = record w { posted = tx ∷ w.posted }

  -- A transaction that was built of the swaps of `sel` and posted, with its first kernel.
  pub record Sent (sel : List (SwapData x)) (tx : x.Transaction) (kernel : x.TxKernel)
      : Type 0 where
    pub some_lem : (length sel == 0) ≡ false
    pub outputs : List x.Output
    pub outputs_lem : build_outputs x sel ≡ ok outputs
    pub built :
        assemble_tx x wallet offset
          (map (λ s. s.input) sel)
          outputs
          (get_fee_base x)
          (sum_fees x 0 sel)
          (map (λ s. s.excess) sel)
        ≡ ok tx
    pub posted : node.post_tx tx ≡ ok tt
    pub kernel_lem : first_kernel x (x.transaction_kernels tx) ≡ ok kernel

  pub data Rounded (o : Outcome) : Type 0 where
    -- no swap can be mixed
    idle :
        (height : ℕ) (l : List (SwapData x))
        → node.get_chain_height ≡ ok height
        → swaps_iter x w.db ≡ ok l
        → length (select x node (add_u64 height 1) l) ≡ 0
        → o ≡ (ok none, w)
        → Rounded o
    -- the round stops before a transaction is posted
    stopped :
        (r : Result (RoundError x) (Option x.Transaction))
        → ((a : Option x.Transaction) → r ≢ ok a)
        → o ≡ (r, w)
        → Rounded o
    -- the posted transaction has no kernel
    no_kernel : (tx : x.Transaction) → o ≡ (panic, sent tx) → Rounded o
    -- the selected swaps are marked
    mixed :
        (height : ℕ) (l : List (SwapData x)) (tx : x.Transaction) (kernel : x.TxKernel)
        → node.get_chain_height ≡ ok height
        → swaps_iter x w.db ≡ ok l
        → Sent (select x node (add_u64 height 1) l) tx kernel
        → o ≡ (
            let (r, w') =
              save_all x (x.kernel_hash kernel) (select x node (add_u64 height 1) l) (sent tx) in
            after r (λ _ v. (ok (some tx), v)) w')
        → Rounded o

  -- A step under `?` that does not touch the world.
  lift_rule :
      {E A B : Type 0} (r : Result E A) (f : A → Exec (World x) E B)
      (P : Result E B × World x → Type 0)
      → ((e : E) → P (err e, w))
      → P (panic, w)
      → ((a : A) → r ≡ ok a → P (f a w))
      → P ((lift r >>= f) w)
  lift_rule (ok a) f P he hp hk = hk a refl
  lift_rule (err e) f P he hp hk = he e
  lift_rule panic f P he hp hk = hp

  refused : (e : RoundError x) → Rounded (err e, w)
  refused e = stopped (err e) (λ a. λ h. cc h) refl

  died : Rounded (panic, w)
  died = stopped panic (λ a. λ h. cc h) refl

  kernels_rule :
      (tx : x.Transaction) (kernels : List x.TxKernel)
      (f : x.TxKernel → Exec (World x) (RoundError x) (Option x.Transaction))
      → ((k : x.TxKernel) → first_kernel x kernels ≡ ok k → Rounded (f k (sent tx)))
      → Rounded ((lift (first_kernel x kernels) >>= f) (sent tx))
  kernels_rule tx [] f hk = no_kernel tx refl
  kernels_rule tx (k ∷ ks) f hk = hk k refl

  post_rule :
      (tx : x.Transaction) (f : Unit {0} → Exec (World x) (RoundError x) (Option x.Transaction))
      → (node.post_tx tx ≡ ok tt → Rounded (f tt (sent tx)))
      → Rounded ((post_tx x node tx >>= f) w)
  unfolding post_tx
  post_rule tx f hk = elim (ended (node.post_tx tx)) [
    | returned _ e ↦ rw (e, post_tx) (hk e)
    | failed c e ↦ rw (e, post_tx) (refused _)
    | panicked e ↦ rw (e, post_tx) died
  ]

  -- How a round ends.
  pub execute_round-Rounded : Rounded (execute_round x wallet node offset w)
  unfolding execute_round mix
  execute_round-Rounded =
      lift_rule (map_err node_error node.get_chain_height) _ Rounded refused died λ height eh.
        lift_rule (map_err store_error (swaps_iter x w.db)) _ Rounded refused died λ l el.
          lift_rule
            (ask_node x node (add_u64 height 1)
              (filter (λ s. is_unprocessed x s.status) (unique_from x [] l)))
            _ Rounded refused died
            λ _ _.
              let sel = select x node (add_u64 height 1) l in
              elim (Bool-cases (length sel == 0)) [
                | inl none_left ↦ rw none_left (
                    idle height l (map_err-eq-ok node_error _ eh) (map_err-eq-ok store_error _ el)
                      ((==_iff _ _).0 none_left) refl)
                | inr some_left ↦ rw some_left (
                    lift_rule (build_outputs x sel) _ Rounded refused died λ outputs eo.
                      lift_rule
                        (map_err wallet_error (
                          assemble_tx x wallet offset (map (λ s. s.input) sel) outputs
                            (get_fee_base x) (sum_fees x 0 sel) (map (λ s. s.excess) sel)))
                        _ Rounded refused died
                        λ tx et. post_rule tx _ λ ep.
                          kernels_rule tx (x.transaction_kernels tx) _ λ k ek.
                            mixed height l tx k (map_err-eq-ok node_error _ eh)
                              (map_err-eq-ok store_error _ el)
                              (record {
                                some_lem = some_left;
                                outputs = outputs;
                                outputs_lem = eo;
                                built = map_err-eq-ok wallet_error _ et;
                                posted = ep;
                                kernel_lem = ek;
                              })
                              refl)
              ]

  pub after_state :
      {E A B : Type 0} (r : Result E A) (b : B) (v : World x)
      → (after {E = E} r (λ _ u. (ok b, u)) v).1 ≡ v
  after_state (ok a) b v = refl
  after_state (err e) b v = refl
  after_state panic b v = refl

  after_ok :
      {E A B : Type 0} (r : Result E A) (b c : B) (v : World x)
      → (after {E = E} r (λ _ u. (ok b, u)) v).0 ≡ ok c
      → (a : A) × (r ≡ ok a) × (b ≡ c)
  after_ok (ok a) b c v h = (a, refl, ok-injective _ _ h)
  after_ok (err e) b c v h = cc
  after_ok panic b c v h = cc

  -- What a property of the world has to withstand, to hold after a round as well.
  pub round_invariant :
      (P : World x → Type 0)
      → P w
      → ((tx : x.Transaction) → P (sent tx))
      → ((height : ℕ) (l : List (SwapData x)) (tx : x.Transaction) (k : x.Hash)
          → swaps_iter x w.db ≡ ok l
          → P (save_all x k (select x node height l) (sent tx)).1)
      → P (execute_round x wallet node offset w).1
  round_invariant P same posted marked = elim execute_round-Rounded [
    | idle _ _ _ _ _ o ↦ rw o same
    | stopped _ _ o ↦ rw o same
    | no_kernel tx o ↦ rw o (posted tx)
    | mixed height l tx k _ el _ o ↦
        rw
          (
            o,
            after_state
                (save_all x (x.kernel_hash k) (select x node (add_u64 height 1) l) (sent tx)).0
                (some tx) _,
          )
          (marked _ l tx _ el)
  ]

  -- What a round that returns `tx` has done: `tx` was built of the selected swaps and posted, and
  -- marking them succeeded.
  abbrev pub Mixed : x.Transaction → Type 0
  Mixed tx =
      (height : ℕ) × (l : List (SwapData x)) × (kernel : x.TxKernel) × (node.get_chain_height
        ≡ ok height)
      × (swaps_iter x w.db ≡ ok l)
      × Sent (select x node (add_u64 height 1) l) tx kernel
      × ((save_all x (x.kernel_hash kernel) (select x node (add_u64 height 1) l) (sent tx)).0
          ≡ ok tt)
      × ((execute_round x wallet node offset w).1
          ≡ (save_all x (x.kernel_hash kernel) (select x node (add_u64 height 1) l) (sent tx)).1)

  pub execute_round-Mixed :
      (tx : x.Transaction) → (execute_round x wallet node offset w).0 ≡ ok (some tx) → Mixed tx
  execute_round-Mixed tx e = elim execute_round-Rounded [
    | idle _ _ _ _ _ o ↦ absurd (cc (rw o at e))
    | stopped r n o ↦ absurd (n (some tx) (rw o at e))
    | no_kernel _ o ↦ absurd (cc (rw o at e))
    | mixed height l built_tx k eh el built o ↦
        let out =
          save_all x (x.kernel_hash k) (select x node (add_u64 height 1) l) (sent built_tx) in
        let (_, er, same) =
          after_ok out.0 (some built_tx) (some tx) out.1 (sym (ap (λ p. p.0) o) ∙ e) in
        subst Mixed (some-injective _ _ same) (
          height,
          l,
          k,
          eh,
          el,
          built,
          er,
          ap (λ p. p.1) o ∙ after_state out.0 (some built_tx) out.1,
        )
  ]
