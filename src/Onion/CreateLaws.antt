-- ===== src/Onion/CreateLaws.antt =====
-- Peeling undoes wrapping.
use mwixnet.Base.{
  ◌≡◌, refl, sym, ap, ◌∙◌, [], ◌∷◌, List, ok, map_err, map_err-eq-ok, >>=-eq-ok, ok-injective,
  subst,
}
use mwixnet.Base.Codec.{Bytes}
use mwixnet.Ext.{Crates}
use mwixnet.Ext.Laws.{SerLaws, OnionLaws}
use mwixnet.Secp.Commit.{add_excess, sub_value}
use mwixnet.Types.{payload_serialize}
use mwixnet.Types.RoundTrip.{IsPayload, payload_deserialize-serialize}
use mwixnet.Onion.{Onion}
use mwixnet.Onion.Peel.{
  serialization_error, calc_pub_key_error, calc_blinding_factor, new_stream_cipher, apply_all,
  peel_layer,
}
use mwixnet.Onion.Create.{Hop, hop_layers, encrypt_layers, create_onion}

module _ (x : Crates) (S : SerLaws x) (O : OnionLaws x) where
  apply_all_twice : (c : x.ChaCha20) (ps : List Bytes) → apply_all x c (apply_all x c ps) ≡ ps
  unfolding apply_all
  apply_all_twice c [] = refl
  apply_all_twice c (p ∷ ps) =
      rw (O.keystream_lem c p) (ap (λ qs. p ∷ qs) (apply_all_twice (x.apply_keystream c p).1 ps))

  -- What the loops have made of the first hop.
  record Wrapped (commit : x.Commitment) (hop : Hop x) (hops : List (Hop x)) (e : x.SecretKey)
      (o : Onion x) : Type 0 where
    pubkey_lem : x.public_from_secret e ≡ ok o.ephemeral_pubkey
    commit_lem : o.commit ≡ commit
    blinding : x.SecretKey
    blinding_lem :
        calc_blinding_factor x (x.shared_secret hop.pubkey e) o.ephemeral_pubkey ≡ ok blinding
    bytes : Bytes
    bytes_lem : payload_serialize x hop.payload ≡ ok bytes
    next_key : x.SecretKey
    next_key_lem : x.secret_mul e blinding ≡ ok next_key
    rest : List (x.SharedSecret × Bytes)
    rest_lem : hop_layers x next_key hops ≡ ok rest
    inner : List Bytes
    inner_lem : encrypt_layers x rest ≡ ok inner
    cipher : x.ChaCha20
    cipher_lem : new_stream_cipher x (x.shared_secret hop.pubkey e) ≡ ok cipher
    layers_lem : o.enc_payloads ≡ apply_all x cipher (bytes ∷ inner)

  create_onion-Wrapped :
      (commit : x.Commitment) (hop : Hop x) (hops : List (Hop x)) (e : x.SecretKey) (o : Onion x)
      → create_onion x commit (hop ∷ hops) e ≡ ok o
      → Wrapped commit hop hops e o
  unfolding create_onion hop_layers encrypt_layers
  create_onion-Wrapped commit hop hops e o h =
      let (layers, e1, k1) = >>=-eq-ok (hop_layers x e (hop ∷ hops)) _ h in
      let (q, e2, k2) = >>=-eq-ok (map_err calc_pub_key_error (x.public_from_secret e)) _ e1 in
      let (b, e3, k3) = >>=-eq-ok (calc_blinding_factor x (x.shared_secret hop.pubkey e) q) _ k2 in
      let (bytes, e4, k4) =
        >>=-eq-ok (map_err serialization_error (payload_serialize x hop.payload)) _ k3 in
      let (e', e5, k5) = >>=-eq-ok (map_err calc_pub_key_error (x.secret_mul e b)) _ k4 in
      let (rest, e6, k6) = >>=-eq-ok (hop_layers x e' hops) _ k5 in
      let (enc, e7, k7) = >>=-eq-ok (encrypt_layers x layers) _ k1 in
      let (q2, e8, k8) = >>=-eq-ok (map_err calc_pub_key_error (x.public_from_secret e)) _ k7 in
      let same_key : q2 ≡ q = ok-injective _ _ (sym e8 ∙ e2) in
      let enc_eq = subst (λ ls. encrypt_layers x ls ≡ ok enc) (sym (ok-injective _ _ k6)) e7 in
      let (inner, e9, k9) = >>=-eq-ok (encrypt_layers x rest) _ enc_eq in
      let (cipher, e10, k10) =
        >>=-eq-ok (new_stream_cipher x (x.shared_secret hop.pubkey e)) _ k9 in
      subst (Wrapped commit hop hops e) (ok-injective _ _ k8) (record {
        pubkey_lem = map_err-eq-ok calc_pub_key_error _ e8;
        commit_lem = refl;
        blinding = b;
        blinding_lem =
            subst (λ u. calc_blinding_factor x (x.shared_secret hop.pubkey e) u ≡ ok b)
              (sym same_key) e3;
        bytes = bytes;
        bytes_lem = map_err-eq-ok serialization_error _ e4;
        next_key = e';
        next_key_lem = map_err-eq-ok calc_pub_key_error _ e5;
        rest = rest;
        rest_lem = e6;
        inner = inner;
        inner_lem = e9;
        cipher = cipher;
        cipher_lem = e10;
        layers_lem = sym (ok-injective _ _ k10);
      })

  -- Let an onion be created for a commitment and a list of hops, the first of which has the public
  -- key of the secret key `k` and a valid payload, and let the commitment be shifted by that
  -- payload's excess and fee without error. Then peeling with `k` succeeds with that payload, and
  -- what is left is the onion that is created for the shifted commitment and the other hops, under
  -- some session key.
  pub peel_layer-create_onion :
      (commit c1 c2 : x.Commitment) (hop : Hop x) (hops : List (Hop x)) (e k : x.SecretKey)
      (o : Onion x)
      → x.public_from_secret k ≡ ok hop.pubkey
      → IsPayload x S hop.payload
      → add_excess x commit hop.payload.excess ≡ ok c1
      → sub_value x c1 (x.fee_fields_into hop.payload.fee) ≡ ok c2
      → create_onion x commit (hop ∷ hops) e ≡ ok o
      → (o' : Onion x) × (e' : x.SecretKey) × (peel_layer x o k ≡ ok (hop.payload, o'))
        × (create_onion x c2 hops e' ≡ ok o')
  unfolding peel_layer create_onion apply_all
  peel_layer-create_onion commit c1 c2 hop hops e k o hk hp h1 h2 h =
      let w = create_onion-Wrapped commit hop hops e o h in
      let (b, sb, db) = payload_deserialize-serialize x S hop.payload hp in
      let same : w.bytes ≡ b = ok-injective _ _ (sym w.bytes_lem ∙ sb) in
      let shared = O.exchange_lem k e hop.pubkey o.ephemeral_pubkey hk w.pubkey_lem in
      let (q', eq', em) =
        O.product_lem e w.blinding w.next_key o.ephemeral_pubkey w.next_key_lem w.pubkey_lem in
      (
        record { ephemeral_pubkey = q'; commit = c2; enc_payloads = w.inner },
        w.next_key,
        rw
            (
              ← shared,
              w.cipher_lem,
              w.layers_lem,
              O.keystream_lem w.cipher w.bytes,
              same,
              db,
              apply_all_twice (x.apply_keystream w.cipher b).1 w.inner,
              w.blinding_lem,
              em,
              w.commit_lem,
              h1,
              h2,
            )
            refl,
        rw (w.rest_lem, w.inner_lem, eq') refl,
      )
