-- ===== src/Onion/Peel.antt =====
-- `Onion::{serialize, peel_layer}` of src/onion.rs, with the blinding factor and the stream cipher.
use mwixnet.Base.{[], ◌∷◌, ◌++◌, List, Result, ok, panic, map_err, ok_or, ◌>>=◌}
use mwixnet.Base.Codec.{Bytes}
use mwixnet.Ext.{Crates}
use mwixnet.Secp.Commit.{add_excess, sub_value}
use mwixnet.Types.{Payload, payload_deserialize}
use mwixnet.Onion.{Onion, write_onion}

-- The keys `b"MWIXNET"` and `b"NONCE1234567"`.
abbrev pub mac_key : Bytes
mac_key = b'M' ∷ b'W' ∷ b'I' ∷ b'X' ∷ b'N' ∷ b'E' ∷ b'T' ∷ []

abbrev pub cipher_nonce : Bytes
cipher_nonce =
    b'N' ∷ b'O' ∷ b'N' ∷ b'C' ∷ b'E' ∷ b'1' ∷ b'2' ∷ b'3' ∷ b'4' ∷ b'5' ∷ b'6' ∷ b'7' ∷ []

module _ (x : Crates) where
  pub data OnionError : Type 0 where
    invalid_key_length : OnionError
    serialization_error deserialization_error : x.SerError → OnionError
    calc_blind_error calc_pub_key_error calc_commit_error : x.SecpError → OnionError

  -- `Onion::serialize`, which runs `serialize_default` on an empty vector
  unfoldable pub onion_serialize : Onion x → Result x.SerError Bytes
  onion_serialize o = x.ser_vec (write_onion x o)

  unfoldable pub calc_blinding_factor : x.SharedSecret → x.PublicKey → Result OnionError x.SecretKey
  calc_blinding_factor shared_secret ephemeral_pubkey = do
    serialized_pubkey ← map_err serialization_error (x.ser_vec (x.write_pubkey ephemeral_pubkey))
    map_err calc_blind_error
        (x.secret_from_slice (x.sha256 (serialized_pubkey ++ x.shared_bytes shared_secret)))

  unfoldable pub new_stream_cipher : x.SharedSecret → Result OnionError x.ChaCha20
  new_stream_cipher shared_secret = do
    mukey ← ok_or invalid_key_length (x.hmac_sha256 mac_key (x.shared_bytes shared_secret))
    ok (x.chacha20_new mukey cipher_nonce)

  -- The closure of `map` that decrypts the payloads behind the first, with one moving cipher.
  unfoldable pub apply_all : x.ChaCha20 → List Bytes → List Bytes
  apply_all cipher [] = []
  apply_all cipher (p ∷ ps) =
      let (p', cipher') = x.apply_keystream cipher p in p' ∷ apply_all cipher' ps

  -- `self.enc_payloads[0]` and the payloads behind it; with no payload the index panics.
  abbrev pub first_payload : List Bytes → Result OnionError (Bytes × List Bytes)
  first_payload [] = panic
  first_payload (p ∷ ps) = ok (p, ps)

  -- `Onion::peel_layer`
  unfoldable pub peel_layer : Onion x → x.SecretKey → Result OnionError (Payload x × Onion x)
  unfolding calc_blinding_factor new_stream_cipher apply_all
  peel_layer o secret_key = do
    let shared_secret = x.shared_secret o.ephemeral_pubkey secret_key
    cipher ← new_stream_cipher shared_secret
    (first, others) ← first_payload o.enc_payloads
    let (decrypted_bytes, cipher') = x.apply_keystream cipher first
    decrypted_payload ← map_err deserialization_error (payload_deserialize x decrypted_bytes)
    let enc_payloads = apply_all cipher' others
    blinding_factor ← calc_blinding_factor shared_secret o.ephemeral_pubkey
    ephemeral_pubkey ← map_err calc_pub_key_error (x.public_mul o.ephemeral_pubkey blinding_factor)
    commitment ← map_err calc_commit_error (add_excess x o.commit decrypted_payload.excess)
    commitment' ←
        map_err calc_commit_error (sub_value x commitment (x.fee_fields_into decrypted_payload.fee))
    ok (
      decrypted_payload,
      record {
        ephemeral_pubkey = ephemeral_pubkey;
        commit = commitment';
        enc_payloads = enc_payloads;
      },
    )
