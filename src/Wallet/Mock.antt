-- ===== src/Wallet/Mock.antt =====
-- `MockWallet` of src/wallet.rs, the wallet of the tests, as a value of the trait. The keys that it
-- draws for an amount, and the range proof that libsecp256k1 makes with them, are parameters.
use mwixnet.Base.{ℕ, ◌≡◌, refl, Result, ok, err, panic, ◌>>=◌}
use mwixnet.Ext.{Crates}
use mwixnet.Ext.Laws.{KernelUp}
use mwixnet.Secp.Commit.{commit}
use mwixnet.Wallet.{Wallet, WalletError}
use mwixnet.Wallet.Live.{BuildsOutputs}

module _ (x : Crates) where
  -- The blinding factor and the two nonces that are drawn for one output.
  pub record Drawn : Type 0 where
    pub blind : x.SecretKey
    pub rewind_nonce : x.SecretKey
    pub private_nonce : x.SecretKey

  -- `Result::unwrap`
  abbrev pub unwrapped : {A : Type 0} → Result x.SecpError A → Result (WalletError x) A
  unwrapped (ok a) = ok a
  unwrapped (err _) = panic
  unwrapped panic = panic

  module _ (bullet_proof : ℕ → x.SecretKey → x.SecretKey → x.SecretKey → x.RangeProof)
      (drawn : ℕ → Drawn) where
    unfoldable pub mock_build_output : ℕ → Result (WalletError x) (x.BlindingFactor × x.Output)
    unfolding commit
    mock_build_output amount = do
      c ← unwrapped (commit x amount (drawn amount).blind)
      ok (
        x.blinding_from_secret (drawn amount).blind,
        x.output_new x.plain_features c (
            bullet_proof amount (drawn amount).blind (drawn amount).rewind_nonce
              (drawn amount).private_nonce),
      )

    abbrev pub mock_wallet : Wallet x
    mock_wallet = record { build_output = mock_build_output }

    -- The wallet of the tests builds an output for every amount that its blinding factor can commit
    -- to, with a blinding factor that is read back as the key that it is made of.
    pub mock_wallet-BuildsOutputs :
        (K : KernelUp x)
        → ((amount : ℕ) → (c : x.Commitment) × (x.commit amount (drawn amount).blind ≡ ok c))
        → ((key : x.SecretKey)
            → x.secret_from_slice (x.blinding_bytes (x.blinding_from_secret key)) ≡ ok key)
        → BuildsOutputs x K mock_wallet
    unfolding mock_build_output
    mock_wallet-BuildsOutputs K commits reads amount =
        let (c, e) = commits amount in
        let d = drawn amount in
        (
          x.blinding_from_secret d.blind,
          x.output_new x.plain_features c
              (bullet_proof amount d.blind d.rewind_nonce d.private_nonce),
          d.blind,
          rw e refl,
          reads d.blind,
        )
