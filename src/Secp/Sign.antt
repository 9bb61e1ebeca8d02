-- ===== src/Secp/Sign.antt =====
-- `ComSignature::{sign, verify}` of src/secp.rs.
use mwixnet.Base.{ℕ, [], ◌∷◌, ◌++◌, ite, Result, ok, err, map_err, ◌>>=◌}
use mwixnet.Base.Codec.{Bytes}
use mwixnet.Ext.{Crates}
use mwixnet.Secp.{ComSignature, new_comsig}

module _ (x : Crates) where
  pub data ComSigError : Type 0 where
    invalid_sig : ComSigError
    secp256k1zkp : x.SecpError → ComSigError

  -- `?` of a `Result<_, secp256k1zkp::Error>`, by the instance of `From`
  abbrev pub try : {A : Type 0} → Result x.SecpError A → Result ComSigError A
  try = map_err secp256k1zkp

  unfoldable pub calc_challenge :
      x.Commitment → x.Commitment → Bytes → Result ComSigError x.SecretKey
  calc_challenge commit nonce_commit msg = try (
      x.secret_from_slice
        (x.blake2b (x.commit_bytes commit ++ (x.commit_bytes nonce_commit ++ msg))))

  -- The nonces `k_1` and `k_2`, which the code draws at random, are arguments. `amount_bytes` are
  -- the 32 bytes with the amount in big-endian order at the end.
  unfoldable pub sign :
      (ℕ → Bytes)
      → x.SecretKey
      → x.SecretKey
      → ℕ
      → x.SecretKey
      → Bytes
      → Result ComSigError (ComSignature x)
  unfolding calc_challenge
  sign amount_bytes k_1 k_2 amount blind msg = do
    k_amt ← try (x.secret_from_slice (amount_bytes amount))
    commitment ← try (x.commit amount blind)
    nonce_commitment ← try (x.commit_blind k_1 k_2)
    e ← calc_challenge commitment nonce_commitment msg
    s ← try (x.secret_mul k_amt e)
    s' ← try (x.secret_add s k_1)
    t ← try (x.secret_mul blind e)
    t' ← try (x.secret_add t k_2)
    ok (new_comsig x nonce_commitment s' t')

  unfoldable pub verify : ComSignature x → x.Commitment → Bytes → Result ComSigError (Unit {0})
  unfolding calc_challenge
  verify sig commit msg = do
    s1 ← try (x.commit_blind sig.s sig.t)
    ce ← try (x.commit_to_pubkey commit)
    e ← calc_challenge commit sig.pub_nonce msg
    ce' ← try (x.public_mul ce e)
    c ← try (x.commit_from_pubkey ce')
    s2 ← try (x.commit_sum (c ∷ sig.pub_nonce ∷ []) [])
    ite (x.commitment_dec s1 s2) (ok tt) (err invalid_sig)
