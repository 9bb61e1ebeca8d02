-- ===== src/Onion/Shape.antt =====
-- What an onion that `create_onion` makes looks like from outside.
use mwixnet.Base.{
  ◌≡◌, refl, sym, ap, ◌∙◌, [], ◌∷◌, List, length, suc, ok, map_err, >>=-eq-ok, ok-injective,
}
use mwixnet.Base.Codec.{Bytes}
use mwixnet.Ext.{Crates}
use mwixnet.Types.{payload_serialize}
use mwixnet.Onion.{Onion}
use mwixnet.Onion.Peel.{
  serialization_error, calc_pub_key_error, calc_blinding_factor, new_stream_cipher, apply_all,
}
use mwixnet.Onion.Create.{Hop, hop_layers, encrypt_layers, create_onion}

module _ (x : Crates) where
  length-apply_all : (c : x.ChaCha20) (ps : List Bytes) → length (apply_all x c ps) ≡ length ps
  unfolding apply_all
  length-apply_all c [] = refl
  length-apply_all c (p ∷ ps) = ap suc (length-apply_all (x.apply_keystream c p).1 ps)

  length-hop_layers :
      (e : x.SecretKey) (hops : List (Hop x)) (layers : List (x.SharedSecret × Bytes))
      → hop_layers x e hops ≡ ok layers
      → length layers ≡ length hops
  unfolding hop_layers
  length-hop_layers e [] layers h = ap length (sym (ok-injective _ _ h))
  length-hop_layers e (hop ∷ hops) layers h =
      let (q, _, h1) = >>=-eq-ok (map_err calc_pub_key_error (x.public_from_secret e)) _ h in
      let (b, _, h2) = >>=-eq-ok (calc_blinding_factor x (x.shared_secret hop.pubkey e) q) _ h1 in
      let (bytes, _, h3) =
        >>=-eq-ok (map_err serialization_error (payload_serialize x hop.payload)) _ h2 in
      let (e', _, h4) = >>=-eq-ok (map_err calc_pub_key_error (x.secret_mul e b)) _ h3 in
      let (rest, er, h5) = >>=-eq-ok (hop_layers x e' hops) _ h4 in
      ap length (sym (ok-injective _ _ h5)) ∙ ap suc (length-hop_layers e' hops rest er)

  length-encrypt_layers :
      (layers : List (x.SharedSecret × Bytes)) (ps : List Bytes)
      → encrypt_layers x layers ≡ ok ps
      → length ps ≡ length layers
  unfolding encrypt_layers
  length-encrypt_layers [] ps h = ap length (sym (ok-injective _ _ h))
  length-encrypt_layers ((s, bytes) ∷ layers) ps h =
      let (inner, ei, h1) = >>=-eq-ok (encrypt_layers x layers) _ h in
      let (cipher, _, h2) = >>=-eq-ok (new_stream_cipher x s) _ h1 in
      ap length (sym (ok-injective _ _ h2))
      ∙ length-apply_all cipher (bytes ∷ inner)
      ∙ ap suc (length-encrypt_layers layers inner ei)

  -- A created onion has the given commitment and one payload for each hop.
  pub create_onion-shape :
      (commit : x.Commitment) (hops : List (Hop x)) (e : x.SecretKey) (o : Onion x)
      → create_onion x commit hops e ≡ ok o
      → (o.commit ≡ commit) × (length o.enc_payloads ≡ length hops)
  unfolding create_onion
  create_onion-shape commit hops e o h =
      let (layers, el, h1) = >>=-eq-ok (hop_layers x e hops) _ h in
      let (ps, ep, h2) = >>=-eq-ok (encrypt_layers x layers) _ h1 in
      let (q, _, h3) = >>=-eq-ok (map_err calc_pub_key_error (x.public_from_secret e)) _ h2 in
      (
        ap (λ u. u.commit) (sym (ok-injective _ _ h3)),
        ap (λ u. length u.enc_payloads) (sym (ok-injective _ _ h3))
            ∙ length-encrypt_layers layers ps ep
            ∙ length-hop_layers e hops layers el,
      )
