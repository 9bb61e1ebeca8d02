-- ===== src/Node.antt =====
-- src/node.rs: what the server asks of a grin node. The node is a parameter, a value of `GrinNode`,
-- with the answers that it gives during one call of the server.
pub mod Maturity
pub mod Http
pub mod HttpLaws
pub mod Mock
use mwixnet.Base.{
  ◌≡◌, ◌≢◌, panic, ℕ, Bool, true, false, Option, none, some, Result, ok, ◌>>=◌, is_some,
  if◌then◌else◌, ltb, add_u64,
}
use mwixnet.Ext.{Crates}
use mwixnet.Ext.Grin.{OutputType, coinbase, transaction}

module _ (x : Crates) where
  pub data NodeError : Type 0 where
    decode_response_error : x.JsonError → NodeError
    api_comm_error : x.ApiError → NodeError
    response_parse_error : x.RpcError → NodeError

  -- The trait `GrinNode`.
  pub record GrinNode : Type 0 where
    pub get_utxo : x.Commitment → Result NodeError (Option x.OutputPrintable)
    pub get_chain_height : Result NodeError ℕ
    pub post_tx : x.Transaction → Result NodeError (Unit {0})

  unfoldable pub is_unspent : GrinNode → x.Commitment → Result NodeError Bool
  is_unspent node commit = do utxo ← node.get_utxo commit; ok (is_some utxo)

  -- The test of `is_spendable` on an output of type `Coinbase`, by its `block_height`.
  unfoldable pub coinbase_spendable : Option ℕ → ℕ → Bool
  coinbase_spendable none next_block_height = false
  coinbase_spendable (some h) next_block_height =
      if ltb (add_u64 h x.coinbase_maturity) next_block_height then false else true

  abbrev pub utxo_spendable : OutputType → Option ℕ → ℕ → Bool
  utxo_spendable coinbase height next_block_height = coinbase_spendable height next_block_height
  utxo_spendable transaction height next_block_height = true

  unfoldable pub is_spendable : GrinNode → x.Commitment → ℕ → Result NodeError Bool
  unfolding coinbase_spendable
  is_spendable node output_commit next_block_height = do
    output ← node.get_utxo output_commit
    ok (elim output [
      | some out ↦ utxo_spendable (x.output_type out) (x.block_height out) next_block_height
      | none ↦ false
    ])

  abbrev pub input_features : OutputType → x.OutputFeatures
  input_features coinbase = x.coinbase_features
  input_features transaction = x.plain_features

  unfoldable pub build_input : GrinNode → x.Commitment → Result NodeError (Option x.Input)
  build_input node output_commit = do
    output ← node.get_utxo output_commit
    ok (elim output [
      | some out ↦ some (x.input_new (input_features (x.output_type out)) (x.printable_commit out))
      | none ↦ none
    ])

-- A node that answers for the output that it was asked about.
abbrev pub IsHonest : (x : Crates) → GrinNode x → Type 0
IsHonest x node =
    (c : x.Commitment) (out : x.OutputPrintable)
    → node.get_utxo c ≡ ok (some out)
    → x.printable_commit out ≡ c

-- A node whose lookups end with a value or an error.
abbrev pub NeverPanics : (x : Crates) → GrinNode x → Type 0
NeverPanics x node = (c : x.Commitment) → node.get_utxo c ≢ panic
