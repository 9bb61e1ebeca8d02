-- ===== src/Node/Maturity.antt =====
-- `is_spendable` beside the consensus rule for coinbase outputs, and `build_input` beside
-- `is_unspent`.
use mwixnet.Base.{
  ℕ, ◌+◌, ◌<◌, ◌≡◌, ◌≢◌, Bool, not, some, ok, arith, leb, add_u64, u64_mod, ◌>>=◌, is_some,
}
use mwixnet.Ext.{Crates}
use mwixnet.Ext.Grin.{coinbase}
use mwixnet.Node.{GrinNode, is_spendable, build_input, is_unspent}

-- The consensus rule: an output of the coinbase at height `h` can be spent in the block at
-- `next` once `maturity` blocks lie between them.
abbrev pub mature : ℕ → ℕ → ℕ → Bool
mature maturity h next = leb (h + maturity) next

module _ (x : Crates) (node : GrinNode x) (c : x.Commitment) where
  -- For an unspent coinbase output at height `h`, where `h` plus the maturity does not wrap and is
  -- not the next height itself, `is_spendable` answers the opposite of the consensus rule: `true`
  -- while the output is immature and `false` once it is mature.
  pub is_spendable-coinbase :
      (out : x.OutputPrintable) (h next : ℕ)
      → node.get_utxo c ≡ ok (some out)
      → x.output_type out ≡ coinbase
      → x.block_height out ≡ some h
      → h + x.coinbase_maturity < u64_mod
      → h + x.coinbase_maturity ≢ next
      → is_spendable x node c next ≡ ok (not (mature x.coinbase_maturity h next))
  unfolding is_spendable add_u64
  is_spendable-coinbase out h next found type height fits off =
      rw (found, type, height) (ground arith)

  -- `is_unspent` answers whether `build_input` has an input, and an error or a panic of one is that
  -- of the other.
  pub build_input-is_unspent :
      is_unspent x node c ≡ (◌>>=◌ (build_input x node c) λ i. ok (is_some i))
  unfolding is_unspent build_input
  build_input-is_unspent = ground arith
