-- ===== src/Secp/Commit.antt =====
-- The helpers over commitments and keys of src/secp.rs.
use mwixnet.Base.{ℕ, [], ◌∷◌, Result, ◌>>=◌}
use mwixnet.Ext.{Crates}

module _ (x : Crates) where
  -- `secp::commit`
  unfoldable pub commit : ℕ → x.SecretKey → Result x.SecpError x.Commitment
  commit value blind = x.commit value blind

  -- `secp::add_excess`
  unfoldable pub add_excess : x.Commitment → x.SecretKey → Result x.SecpError x.Commitment
  add_excess commitment excess = do
    excess_commit ← x.commit 0 excess
    x.commit_sum (commitment ∷ excess_commit ∷ []) []

  -- `secp::sub_value`
  unfoldable pub sub_value : x.Commitment → ℕ → Result x.SecpError x.Commitment
  sub_value commitment value = do
    neg_commit ← x.commit value x.zero_key
    x.commit_sum (commitment ∷ []) (neg_commit ∷ [])

  -- `secp::sign`
  unfoldable pub sign : x.SecretKey → x.Message → Result x.SecpError x.Signature
  sign sk msg = do pubkey ← x.public_from_secret sk; x.sign_single msg sk pubkey
