-- ===== src/Onion/Route.antt =====
-- An onion on its whole way: every server of the route peels its layer, as the test of src/onion.rs
-- does it.
use mwixnet.Base.{
  ℕ, ◌≡◌, refl, sym, ap, ◌∙◌, subst, ◌+◌, arith, [], ◌∷◌, List, map, length, All, ◌<◌, ◌^◌, Result,
  ok, map_err, ◌>>=◌, >>=-eq-ok, ok-injective,
}
use mwixnet.Ext.{Crates}
use mwixnet.Ext.Laws.{SerLaws, OnionLaws, ShiftLaws}
use mwixnet.Secp.Commit.{add_excess, sub_value}
use mwixnet.Types.{Payload}
use mwixnet.Types.RoundTrip.{IsPayload}
use mwixnet.Onion.{Onion}
use mwixnet.Onion.Peel.{OnionError, calc_pub_key_error, calc_blinding_factor, peel_layer}
use mwixnet.Onion.PeelLaws.{peel_layer-Peeled}
use mwixnet.Onion.Create.{Hop, create_onion}
use mwixnet.Onion.CreateLaws.{peel_layer-create_onion}
use mwixnet.Onion.Shape.{create_onion-shape}

module _ (x : Crates) where
  -- The servers peel one after the other, each with its key.
  unfoldable pub peel_all :
      Onion x → List x.SecretKey → Result (OnionError x) (List (Payload x) × Onion x)
  unfolding peel_layer
  peel_all o [] = ok ([], o)
  peel_all o (key ∷ keys) = do
    (payload, peeled) ← peel_layer x o key
    (payloads, last) ← peel_all peeled keys
    ok (payload ∷ payloads, last)

  -- `test_util::next_ephemeral_pubkey`
  unfoldable pub next_ephemeral_pubkey : Onion x → x.SecretKey → Result (OnionError x) x.PublicKey
  unfolding calc_blinding_factor
  next_ephemeral_pubkey o server_key = do
    let shared_secret = x.shared_secret o.ephemeral_pubkey server_key
    blinding_factor ← calc_blinding_factor x shared_secret o.ephemeral_pubkey
    map_err calc_pub_key_error (x.public_mul o.ephemeral_pubkey blinding_factor)

  -- Where a layer is peeled, the key of what is left is the one that the test utilities expect.
  pub peel_layer-next_ephemeral_pubkey :
      (o : Onion x) (key : x.SecretKey) (p : Payload x) (o' : Onion x)
      → peel_layer x o key ≡ ok (p, o')
      → next_ephemeral_pubkey o key ≡ ok o'.ephemeral_pubkey
  unfolding next_ephemeral_pubkey
  peel_layer-next_ephemeral_pubkey o key p o' e =
      let w = peel_layer-Peeled x o key p o' e in rw (w.blinding_lem, w.pubkey_lem) refl

  -- A stop of the route: the server's key, and what the client wraps for it.
  abbrev pub Stop : Type 0
  Stop = x.SecretKey × Hop x

  abbrev pub hops : List Stop → List (Hop x)
  hops = map (λ t. t.1)

  abbrev pub keys : List Stop → List x.SecretKey
  keys = map (λ t. t.0)

  abbrev pub payloads : List Stop → List (Payload x)
  payloads = map (λ t. t.1.payload)

  -- All the fees of the route, and all its excesses behind a first blinding factor.
  unfoldable pub route_fee : List Stop → ℕ
  route_fee [] = 0
  route_fee (t ∷ ts) = x.fee_fields_into t.1.payload.fee + route_fee ts

  unfoldable pub add_excesses : x.SecretKey → List Stop → Result x.SecpError x.SecretKey
  add_excesses blind [] = ok blind
  add_excesses blind (t ∷ ts) = do
    blind' ← x.secret_add blind t.1.payload.excess
    add_excesses blind' ts

module _ (x : Crates) (S : SerLaws x) (O : OnionLaws x) (C : ShiftLaws x) where
  -- The client knows the server's public key, and its payload can be written and pays a fee.
  abbrev pub IsStop : Stop x → Type 0
  IsStop t =
      (x.public_from_secret t.0 ≡ ok t.1.pubkey)
      × IsPayload x S t.1.payload
      × (0 < x.fee_fields_into t.1.payload.fee)

  add_excess-commit :
      (v : ℕ) (b e b' : x.SecretKey) (c : x.Commitment)
      → 0 < v
      → v < 2 ^ 64
      → x.commit v b ≡ ok c
      → x.secret_add b e ≡ ok b'
      → (r : x.Commitment) × (add_excess x c e ≡ ok r) × (x.commit v b' ≡ ok r)
  unfolding add_excess
  add_excess-commit v b e b' c pos fits h k =
      let (n, r, en, er, q) = C.excess_lem v b e b' c pos fits h k in (r, rw (en, er) refl, q)

  sub_value-commit :
      (v u : ℕ) (b : x.SecretKey) (c : x.Commitment)
      → 0 < v
      → 0 < u
      → v + u < 2 ^ 64
      → x.commit (v + u) b ≡ ok c
      → (r : x.Commitment) × (sub_value x c u ≡ ok r) × (x.commit v b ≡ ok r)
  unfolding sub_value
  sub_value-commit v u b c pos paid fits h =
      let (n, r, en, er, q) = C.value_lem v u b c pos paid fits h in (r, rw (en, er) refl, q)

  -- Let an onion be created for a commitment to a value of 64 bits that is the sum of a positive
  -- rest and all the fees, and for the servers of a route, whose payloads can be written and pay a
  -- fee, and let the excesses be added to the blinding factor without error. Then the servers, each
  -- with its key, peel all the layers without error and get their payloads in the order of the
  -- route, no layer is left, and what is left commits to the rest of the value under the sum of the
  -- blinding factors.
  pub peel_all-create_onion :
      (route : List (Stop x)) (value : ℕ) (blind last e : x.SecretKey) (c : x.Commitment)
      (o : Onion x)
      → All IsStop route
      → 0 < value
      → value + route_fee x route < 2 ^ 64
      → x.commit (value + route_fee x route) blind ≡ ok c
      → add_excesses x blind route ≡ ok last
      → create_onion x c (hops x route) e ≡ ok o
      → (o' : Onion x) × (peel_all x o (keys x route) ≡ ok (payloads x route, o'))
        × (o'.enc_payloads ≡ [])
        × (x.commit value last ≡ ok o'.commit)
  unfolding peel_all route_fee add_excesses
  peel_all-create_onion [] value blind last e c o all pos fits h k w =
      let (own, count) = create_onion-shape x c [] e o w in
      (
        o,
        refl,
        length-eq-zero o.enc_payloads count,
        subst (λ v. x.commit v last ≡ ok o.commit) (same_value value)
            (subst (λ b. x.commit (value + 0) b ≡ ok o.commit) (ok-injective _ _ k)
              (h ∙ ap ok (sym own))),
      )
    where
      same_value : (v : ℕ) → v + 0 ≡ v
      same_value v = omega arith

      length-eq-zero : {A : Type 0} (l : List A) → length l ≡ 0 → l ≡ []
      length-eq-zero [] h = refl
      length-eq-zero (a ∷ l) h = absurd (omega (arith, h))
  peel_all-create_onion (t ∷ ts) value blind last e c o all pos fits h k w =
      let (fresh, e1, k1) = >>=-eq-ok (x.secret_add blind t.1.payload.excess) _ k in
      let fee = x.fee_fields_into t.1.payload.fee in
      let (c1, add, h1) =
        add_excess-commit (value + (fee + route_fee x ts)) blind t.1.payload.excess fresh c
          (omega (arith, pos)) fits h e1 in
      let regroup : value + (fee + route_fee x ts) ≡ (value + route_fee x ts) + fee = omega arith in
      let (c2, sub, h2) =
        sub_value-commit (value + route_fee x ts) fee fresh c1 (omega (arith, pos)) all.0.2
          (omega (arith, fits)) (subst (λ v. x.commit v fresh ≡ ok c1) regroup h1) in
      let (o1, e', peel, rest) =
        peel_layer-create_onion x S O c c1 c2 t.1 (hops x ts) e t.0 o all.0.0 all.0.1 add sub w in
      let (o', peels, empty, own) =
        peel_all-create_onion ts value fresh last e' c2 o1 all.1 pos (omega (arith, fits)) h2 k1
          rest in
      (o', rw (peel, peels) refl, empty, own)
