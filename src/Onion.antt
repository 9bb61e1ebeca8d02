-- ===== src/Onion.antt =====
-- src/onion.rs: the onion, its serialization, and peeling one layer off.
pub mod RoundTrip
pub mod Peel
pub mod PeelLaws
pub mod Create
pub mod CreateLaws
pub mod Shape
pub mod Route
pub mod Json
pub mod JsonLaws
use mwixnet.Base.{ℕ, zero, suc, [], ◌∷◌, ◌++◌, List, length}
use mwixnet.Base.Codec.{Bytes, Writer, Reader, ◌>>◌, ◌>>=◌, done, skip}
use mwixnet.Ext.{Crates}

module _ (x : Crates) where
  pub record Onion : Type 0 where
    pub ephemeral_pubkey : x.PublicKey
    pub commit : x.Commitment
    pub enc_payloads : List Bytes

  -- The loop of `Onion::write`.
  unfoldable pub write_payloads : List Bytes → Writer x.SerError
  write_payloads [] = skip
  write_payloads (p ∷ ps) = do x.write_u64 (length p); x.write_bytes p; write_payloads ps

  -- `Writeable for Onion`
  unfoldable pub write_onion : Onion → Writer x.SerError
  write_onion o = do
    x.write_pubkey o.ephemeral_pubkey
    x.write_fixed_bytes (x.commit_bytes o.commit)
    x.write_u64 (length o.enc_payloads)
    write_payloads o.enc_payloads

  -- The loop of `Onion::read`, by the rounds left. The second argument is `enc_payloads`.
  unfoldable pub read_payloads : ℕ → List Bytes → Reader x.SerError (List Bytes)
  read_payloads zero acc = done acc
  read_payloads (suc n) acc = do
    size ← x.read_u64
    bytes ← x.read_fixed_bytes size
    read_payloads n (acc ++ (bytes ∷ []))

  -- `Readable for Onion`
  unfoldable pub read_onion : Reader x.SerError Onion
  read_onion = do
    ephemeral_pubkey ← x.read_pubkey
    commit ← x.read_commitment
    len ← x.read_u64
    enc_payloads ← read_payloads len []
    done (record {
      ephemeral_pubkey = ephemeral_pubkey;
      commit = commit;
      enc_payloads = enc_payloads;
    })
