-- ===== src/Node/Mock.antt =====
-- `MockGrinNode` of src/node.rs, the node of the tests, as a value of the trait. The output that
-- `add_default_utxo` writes down is a parameter, since its type is another crate's.
use mwixnet.Base.{
  ℕ, Bool, Bool-cases, if◌then◌else◌, ◌≡◌, refl, sym, ap, ◌∙◌, true, false, Option, none, some,
  some-injective, List, [], ◌∷◌, ◌++◌, inl, inr, ite, Result, ok, ok-injective,
}
use mwixnet.Base.Exec.{Exec}
use mwixnet.Ext.{Crates}
use mwixnet.Ext.Grin.{transaction}
use mwixnet.Node.{GrinNode, NodeError, IsHonest, is_spendable, is_unspent}

module _ (x : Crates) where
  -- The hash map is a list, in which the first entry of a commitment counts.
  pub record MockGrinNode : Type 0 where
    pub utxos : List (x.Commitment × x.OutputPrintable)
    pub txns_posted : List x.Transaction

  -- `MockGrinNode::new`
  abbrev pub new_mock : MockGrinNode
  new_mock = record { utxos = []; txns_posted = [] }

  abbrev pub add_utxo : x.Commitment → x.OutputPrintable → MockGrinNode → MockGrinNode
  add_utxo output_commit utxo node = record node { utxos = (output_commit, utxo) ∷ node.utxos }

  -- `self.utxos.get(&output_commit)`
  unfoldable pub find_utxo :
      x.Commitment → List (x.Commitment × x.OutputPrintable) → Option x.OutputPrintable
  find_utxo c [] = none
  find_utxo c ((d, utxo) ∷ rest) =
      let more = find_utxo c rest in ite (x.commitment_dec c d) (some utxo) more

  unfoldable pub mock_get_utxo :
      MockGrinNode → x.Commitment → Result (NodeError x) (Option x.OutputPrintable)
  unfolding find_utxo
  mock_get_utxo node output_commit = ok (find_utxo output_commit node.utxos)

  -- `post_tx`, which pushes the transaction
  unfoldable pub mock_post_tx : x.Transaction → Exec MockGrinNode (NodeError x) (Unit {0})
  mock_post_tx tx node = (ok tt, record node { txns_posted = node.txns_posted ++ (tx ∷ []) })

  -- `get_posted_txns`
  abbrev pub get_posted_txns : MockGrinNode → List x.Transaction
  get_posted_txns node = node.txns_posted

  -- The mock that posting leaves, for posted transactions that are listed with the last one first.
  unfoldable pub after_posts : List x.Transaction → MockGrinNode → MockGrinNode
  unfolding mock_post_tx
  after_posts [] node = node
  after_posts (tx ∷ before) node = (mock_post_tx tx (after_posts before node)).1

  pub get_posted_txns-after_posts :
      (tx : x.Transaction) (before : List x.Transaction) (node : MockGrinNode)
      → get_posted_txns (after_posts (tx ∷ before) node)
        ≡ get_posted_txns (after_posts before node) ++ (tx ∷ [])
  unfolding after_posts mock_post_tx
  get_posted_txns-after_posts tx before node = refl

  -- The trait, by the answers of the mock, which no posted transaction changes. A value of the
  -- trait has answers only: what a run pushes is in the `posted` of its world, and `after_posts` of
  -- that is the mock that the run leaves.
  abbrev pub mock_node : MockGrinNode → GrinNode x
  mock_node node = record {
    get_utxo = mock_get_utxo node;
    get_chain_height = ok 100;
    post_tx = λ tx. (mock_post_tx tx node).0;
  }

  module _ (default_utxo : x.Commitment → x.OutputPrintable) where
    abbrev pub add_default_utxo : x.Commitment → MockGrinNode → MockGrinNode
    add_default_utxo output_commit = add_utxo output_commit (default_utxo output_commit)

    -- The node that `new_server` of the tests makes.
    unfoldable pub with_utxos : List x.Commitment → MockGrinNode
    with_utxos [] = new_mock
    with_utxos (c ∷ cs) = add_default_utxo c (with_utxos cs)

    find-with_utxos :
        (cs : List x.Commitment) (c : x.Commitment) (out : x.OutputPrintable)
        → find_utxo c (with_utxos cs).utxos ≡ some out
        → out ≡ default_utxo c
    unfolding find_utxo with_utxos
    find-with_utxos [] c out h = cc
    find-with_utxos (d ∷ cs) c out h =
        elim (x.commitment_dec c d)
            as (λ q.
              ite q (some (default_utxo d)) (find_utxo c (with_utxos cs).utxos) ≡ some out
              → out ≡ default_utxo c) [
                | yes e ↦ λ k. sym (some-injective _ _ k) ∙ ap default_utxo (sym e)
                | no n ↦ λ k. find-with_utxos cs c out k
              ]
          h

    -- Whether a commitment is among those that the node was given.
    unfoldable pub member : x.Commitment → List x.Commitment → Bool
    member c [] = false
    member c (d ∷ ds) = let rest = member c ds in ite (x.commitment_dec c d) true rest

    pub find-member :
        (cs : List x.Commitment) (c : x.Commitment)
        → find_utxo c (with_utxos cs).utxos ≡ (if member c cs then some (default_utxo c) else none)
    unfolding find_utxo with_utxos member
    find-member [] c = refl
    find-member (d ∷ cs) c =
        elim (x.commitment_dec c d)
          as (λ q.
            ite q (some (default_utxo d)) (find_utxo c (with_utxos cs).utxos)
            ≡ (if ite q true (member c cs) then some (default_utxo c) else none)) [
              | yes e ↦ ap (λ u. some (default_utxo u)) (sym e)
              | no n ↦ find-member cs c
            ]

    module _ (plain : (c : x.Commitment) → x.output_type (default_utxo c) ≡ transaction)
        (own : (c : x.Commitment) → x.printable_commit (default_utxo c) ≡ c) where
      -- The node of the tests answers for the output that it is asked about, and reports an output
      -- unspent, and spendable at every height, exactly where it was given.
      pub with_utxos-IsHonest :
          (cs : List x.Commitment) (c : x.Commitment) (height : ℕ)
          → IsHonest x (mock_node (with_utxos cs))
            × (is_unspent x (mock_node (with_utxos cs)) c ≡ ok (member c cs))
            × (is_spendable x (mock_node (with_utxos cs)) c height ≡ ok (member c cs))
      unfolding mock_get_utxo is_unspent is_spendable
      with_utxos-IsHonest cs c height = (honest, unspent, spendable)
        where
          honest : IsHonest x (mock_node (with_utxos cs))
          honest d out e =
              ap x.printable_commit
                (find-with_utxos cs d out (ok-injective {E = NodeError x} _ _ e))
              ∙ own d

          unspent : is_unspent x (mock_node (with_utxos cs)) c ≡ ok (member c cs)
          unspent = elim (Bool-cases (member c cs)) [
            | inl yes_there ↦ rw (find-member cs c, yes_there) refl
            | inr not_there ↦ rw (find-member cs c, not_there) refl
          ]

          spendable : is_spendable x (mock_node (with_utxos cs)) c height ≡ ok (member c cs)
          spendable = elim (Bool-cases (member c cs)) [
            | inl yes_there ↦ rw (find-member cs c, yes_there, plain c) refl
            | inr not_there ↦ rw (find-member cs c, not_there) refl
          ]
