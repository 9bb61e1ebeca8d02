-- ===== src/Onion/PeelLaws.antt =====
-- What a successful `peel_layer` has done.
use mwixnet.Base.{
  ◌≡◌, refl, [], ◌∷◌, List, ok, map_err, map_err-eq-ok, >>=-eq-ok, ok-injective, subst,
}
use mwixnet.Base.Codec.{Bytes}
use mwixnet.Ext.{Crates}
use mwixnet.Secp.Commit.{add_excess, sub_value}
use mwixnet.Types.{Payload, payload_deserialize}
use mwixnet.Onion.{Onion}
use mwixnet.Onion.Peel.{
  deserialization_error, calc_pub_key_error, calc_commit_error, new_stream_cipher,
  calc_blinding_factor, apply_all, first_payload, peel_layer,
}

module _ (x : Crates) where
  first_payload-eq-ok :
      (ps : List Bytes) (p : Bytes) (qs : List Bytes)
      → first_payload x ps ≡ ok (p, qs)
      → ps ≡ p ∷ qs
  first_payload-eq-ok [] p qs e = cc
  first_payload-eq-ok (r ∷ rs) p qs e = cc

  -- The payload is decrypted from the first layer, the other layers move up behind it under the
  -- same running cipher, the key is blinded, and the commitment is shifted by the excess and the
  -- fee of the payload.
  pub record Peeled (o : Onion x) (key : x.SecretKey) (p : Payload x) (o' : Onion x) : Type 0 where
    pub cipher : x.ChaCha20
    pub cipher_lem : new_stream_cipher x (x.shared_secret o.ephemeral_pubkey key) ≡ ok cipher
    pub first : Bytes
    pub others : List Bytes
    pub layers : o.enc_payloads ≡ first ∷ others
    pub payload_lem : payload_deserialize x (x.apply_keystream cipher first).0 ≡ ok p
    pub others_lem : o'.enc_payloads ≡ apply_all x (x.apply_keystream cipher first).1 others
    pub blinding : x.SecretKey
    pub blinding_lem :
        calc_blinding_factor x (x.shared_secret o.ephemeral_pubkey key) o.ephemeral_pubkey
        ≡ ok blinding
    pub pubkey_lem : x.public_mul o.ephemeral_pubkey blinding ≡ ok o'.ephemeral_pubkey
    pub shifted : x.Commitment
    pub excess_lem : add_excess x o.commit p.excess ≡ ok shifted
    pub fee_lem : sub_value x shifted (x.fee_fields_into p.fee) ≡ ok o'.commit

  -- Where `peel_layer` succeeds, its payload was decrypted from the first layer under the cipher of
  -- the shared secret, the other layers moved up behind it under the same running cipher, the
  -- ephemeral key was blinded, and the commitment was shifted by the payload's excess and fee.
  pub peel_layer-Peeled :
      (o : Onion x) (key : x.SecretKey) (p : Payload x) (o' : Onion x)
      → peel_layer x o key ≡ ok (p, o')
      → Peeled o key p o'
  unfolding peel_layer
  peel_layer-Peeled o key p o' e =
      let secret = x.shared_secret o.ephemeral_pubkey key in
      let (cipher, e1, k1) = >>=-eq-ok (new_stream_cipher x secret) _ e in
      let (parts, e2, k2) = >>=-eq-ok (first_payload x o.enc_payloads) _ k1 in
      let (run, cipher') = x.apply_keystream cipher parts.0 in
      let (q, e3, k3) =
        >>=-eq-ok (map_err deserialization_error (payload_deserialize x run)) _ k2 in
      let (blinding, e4, k4) = >>=-eq-ok (calc_blinding_factor x secret o.ephemeral_pubkey) _ k3 in
      let (pubkey, e5, k5) =
        >>=-eq-ok (map_err calc_pub_key_error (x.public_mul o.ephemeral_pubkey blinding)) _ k4 in
      let (c1, e6, k6) =
        >>=-eq-ok (map_err calc_commit_error (add_excess x o.commit q.excess)) _ k5 in
      let (c2, e7, k7) =
        >>=-eq-ok (map_err calc_commit_error (sub_value x c1 (x.fee_fields_into q.fee))) _ k6 in
      subst (λ r. Peeled o key r.0 r.1) (ok-injective _ (p, o') k7)
        (record {
          cipher = cipher;
          cipher_lem = e1;
          first = parts.0;
          others = parts.1;
          layers = first_payload-eq-ok o.enc_payloads parts.0 parts.1 e2;
          payload_lem = map_err-eq-ok deserialization_error _ e3;
          others_lem = refl;
          blinding = blinding;
          blinding_lem = e4;
          pubkey_lem = map_err-eq-ok calc_pub_key_error _ e5;
          shifted = c1;
          excess_lem = map_err-eq-ok calc_commit_error _ e6;
          fee_lem = map_err-eq-ok calc_commit_error _ e7;
        })
