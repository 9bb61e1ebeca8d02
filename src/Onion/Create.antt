-- ===== src/Onion/Create.antt =====
-- `create_onion` of the test utilities of src/onion.rs, which is the client's side. The session key
-- that it draws is an argument.
use mwixnet.Base.{[], ◌∷◌, List, Result, ok, map_err, ◌>>=◌}
use mwixnet.Base.Codec.{Bytes}
use mwixnet.Ext.{Crates}
use mwixnet.Types.{Payload, payload_serialize}
use mwixnet.Onion.{Onion}
use mwixnet.Onion.Peel.{
  OnionError, serialization_error, calc_pub_key_error, calc_blinding_factor, new_stream_cipher,
  apply_all,
}

module _ (x : Crates) where
  pub record Hop : Type 0 where
    pub pubkey : x.PublicKey
    pub payload : Payload x

  -- The first loop: the shared secret and the serialized payload of each hop.
  unfoldable pub hop_layers :
      x.SecretKey → List Hop → Result (OnionError x) (List (x.SharedSecret × Bytes))
  hop_layers ephemeral_key [] = ok []
  hop_layers ephemeral_key (hop ∷ hops) = do
    let shared_secret = x.shared_secret hop.pubkey ephemeral_key
    ephemeral_pubkey ← map_err calc_pub_key_error (x.public_from_secret ephemeral_key)
    blinding_factor ← calc_blinding_factor x shared_secret ephemeral_pubkey
    payload_bytes ← map_err serialization_error (payload_serialize x hop.payload)
    ephemeral_key' ← map_err calc_pub_key_error (x.secret_mul ephemeral_key blinding_factor)
    rest ← hop_layers ephemeral_key' hops
    ok ((shared_secret, payload_bytes) ∷ rest)

  -- The second loop, from the last secret to the first: each encrypts its payload and all behind
  -- it.
  unfoldable pub encrypt_layers : List (x.SharedSecret × Bytes) → Result (OnionError x) (List Bytes)
  encrypt_layers [] = ok []
  encrypt_layers ((shared_secret, payload_bytes) ∷ layers) = do
    inner ← encrypt_layers layers
    cipher ← new_stream_cipher x shared_secret
    ok (apply_all x cipher (payload_bytes ∷ inner))

  unfoldable pub create_onion :
      x.Commitment → List Hop → x.SecretKey → Result (OnionError x) (Onion x)
  unfolding hop_layers encrypt_layers
  create_onion commitment hops session_key = do
    layers ← hop_layers session_key hops
    enc_payloads ← encrypt_layers layers
    ephemeral_pubkey ← map_err calc_pub_key_error (x.public_from_secret session_key)
    ok (record {
      ephemeral_pubkey = ephemeral_pubkey;
      commit = commitment;
      enc_payloads = enc_payloads;
    })
