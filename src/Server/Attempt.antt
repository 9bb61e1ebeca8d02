-- ===== src/Server/Attempt.antt =====
-- A client that makes its request as it should, but perhaps for too many servers, a spent output,
-- too low a fee, or without a valid range proof.
use mwixnet.Base.{
  ℕ, suc, ◌≡◌, ◌≢◌, ◌≤◌, refl, sym, ap, ◌∙◌, subst, Option, none, some, [], ◌∷◌, List, length, ok,
  err, panic, ok-injective, ltb, if◌then◌else◌, some-injective, false, Bool-cases, inl, inr, arith,
  ltb→lt, ended, returned, failed, panicked,
}
use mwixnet.Base.Codec.{Bytes}
use mwixnet.Ext.{Crates}
use mwixnet.Ext.Laws.{SerLaws, OnionLaws, CommitLaws}
use mwixnet.Secp.{ComSignature}
use mwixnet.Secp.Commit.{add_excess, sub_value}
use mwixnet.Secp.Sign.{sign, verify}
use mwixnet.Secp.Verify.{verify-sign}
use mwixnet.Types.{Payload}
use mwixnet.Types.RoundTrip.{IsPayload}
use mwixnet.Node.{GrinNode, build_input, input_features}
use mwixnet.Onion.{Onion}
use mwixnet.Onion.Peel.{onion_serialize, peel_layer}
use mwixnet.Onion.Create.{Hop, create_onion}
use mwixnet.Onion.CreateLaws.{peel_layer-create_onion}
use mwixnet.Onion.Shape.{create_onion-shape}
use mwixnet.Server.Swap.{
  SwapError, invalid_payload_length, invalid_rangeproof, missing_rangeproof, coin_not_found,
  fee_too_low, get_minimum_swap_fee, swap,
}
use mwixnet.Server.Refuse.{
  Signed, Opened, Refusal, other_count, spent, cheap, unproved, disproved, swap_refused,
}

module _ (x : Crates) (amount_bytes : ℕ → Bytes) where
  -- What a client has done for a server with the public key of `key`, and for those behind it.
  pub record Attempt (key : x.SecretKey) : Type 0 where
    -- the output to swap
    pub amount : ℕ
    pub blind : x.SecretKey
    pub commit : x.Commitment
    pub commit_lem : x.commit amount blind ≡ ok commit
    -- the payload for the server, and the output that it makes
    pub payload : Payload x
    pub shifted : x.Commitment
    pub shifted_lem : add_excess x commit payload.excess ≡ ok shifted
    pub output : x.Commitment
    pub output_lem : sub_value x shifted (x.fee_fields_into payload.fee) ≡ ok output
    -- the onion, and its signature
    pub pubkey : x.PublicKey
    pub pubkey_lem : x.public_from_secret key ≡ ok pubkey
    pub behind : List (Hop x)
    pub session_key : x.SecretKey
    pub onion : Onion x
    pub onion_lem :
        create_onion x commit (record { pubkey = pubkey; payload = payload } ∷ behind) session_key
        ≡ ok onion
    pub bytes : Bytes
    pub bytes_lem : onion_serialize x onion ≡ ok bytes
    pub k_1 : x.SecretKey
    pub k_2 : x.SecretKey
    pub comsig : ComSignature x
    pub comsig_lem : sign x amount_bytes k_1 k_2 amount blind bytes ≡ ok comsig

  -- The error of a range proof for an output.
  abbrev pub proof_error : x.Commitment → Option x.RangeProof → Option (SwapError x)
  proof_error output none = some missing_rangeproof
  proof_error output (some proof) = elim (x.verify_bullet_proof output proof) [
    | ok _ ↦ none
    | err _ ↦ some invalid_rangeproof
    | panic ↦ none
  ]

  -- The error that the client has to expect for what the node knows of its output, if any.
  abbrev pub expected_for :
      {key : x.SecretKey}
      → Attempt key
      → List (Hop x)
      → Option x.OutputPrintable
      → Option (SwapError x)
  expected_for a (_ ∷ behind) _ = some (invalid_payload_length 1 (suc (suc (length behind))))
  expected_for a [] none = some (coin_not_found a.commit)
  expected_for a [] (some _) =
      if ltb (x.fee_fields_into a.payload.fee) (get_minimum_swap_fee x)
      then some (fee_too_low (get_minimum_swap_fee x) (x.fee_fields_into a.payload.fee))
      else proof_error a.output a.payload.rangeproof

  module _ (S : SerLaws x) (O : OnionLaws x) (C : CommitLaws x amount_bytes) (key : x.SecretKey)
      (a : Attempt key) where
    pub attempt-shape :
        (a.onion.commit ≡ a.commit) × (length a.onion.enc_payloads ≡ suc (length a.behind))
    attempt-shape = create_onion-shape x a.commit _ a.session_key a.onion a.onion_lem

    pub attempt-verify : verify x a.comsig a.onion.commit a.bytes ≡ ok tt
    attempt-verify =
        let (c, ec, v) =
          verify-sign x amount_bytes C a.k_1 a.k_2 a.amount a.blind a.bytes a.comsig a.comsig_lem in
        let same : c ≡ a.onion.commit =
          ok-injective _ _ (sym ec ∙ a.commit_lem) ∙ sym attempt-shape.0 in
        subst (λ u. verify x a.comsig u a.bytes ≡ ok tt) same v

    pub attempt-peel_layer :
        IsPayload x S a.payload
        → (peeled : Onion x) × (peel_layer x a.onion key ≡ ok (a.payload, peeled))
          × (peeled.commit ≡ a.output)
    attempt-peel_layer valid =
        let (peeled, e', peel, rest) =
          peel_layer-create_onion x S O a.commit a.shifted a.output
            (record { pubkey = a.pubkey; payload = a.payload }) a.behind a.session_key key a.onion
            a.pubkey_lem valid a.shifted_lem a.output_lem a.onion_lem in
        (peeled, peel, (create_onion-shape x a.output a.behind e' peeled rest).0)

    module _ (node : GrinNode x) where
      attempt-Signed : a.behind ≡ [] → Signed x key node a.onion a.comsig
      attempt-Signed alone = record {
        one_layer = attempt-shape.1 ∙ ap (λ b. suc (length b)) alone;
        bytes = a.bytes;
        bytes_lem = a.bytes_lem;
        signed = attempt-verify;
      }

      proof_error-Refusal :
          (e : SwapError x) (o : Onion x) (proof : Option x.RangeProof)
          → Opened x key node a.onion a.comsig a.payload o
          → get_minimum_swap_fee x ≤ x.fee_fields_into a.payload.fee
          → a.payload.rangeproof ≡ proof
          → o.commit ≡ a.output
          → proof_error a.output proof ≡ some e
          → Refusal x key node a.onion a.comsig e
      proof_error-Refusal e o none w enough q same h =
          subst (Refusal x key node a.onion a.comsig) (some-injective _ _ h) (unproved w enough q)
      proof_error-Refusal e o (some proof) w enough q same h =
          elim (ended (x.verify_bullet_proof a.output proof)) [
            | returned _ v ↦ absurd (cc (rw (v, proof_error) at h))
            | panicked v ↦ absurd (cc (rw (v, proof_error) at h))
            | failed u v ↦
                subst (Refusal x key node a.onion a.comsig)
                  (some-injective _ _ (rw (v, proof_error) at h))
                  (disproved proof w enough q (ap (λ c. x.verify_bullet_proof c proof) same ∙ v))
          ]

      built :
          (utxo : x.OutputPrintable)
          → node.get_utxo a.commit ≡ ok (some utxo)
          → build_input x node a.onion.commit
            ≡ ok (
                some
                  (x.input_new (input_features x (x.output_type utxo)) (x.printable_commit utxo)))
      unfolding build_input
      built utxo u = rw (attempt-shape.0, u) refl

      gone : node.get_utxo a.commit ≡ ok none → build_input x node a.onion.commit ≡ ok none
      unfolding build_input
      gone u = rw (attempt-shape.0, u) refl

      two_not_one : (n m : ℕ) → n ≡ suc (suc m) → n ≢ 1
      two_not_one n m h k = absurd (omega (arith, h, k))

      pub expected-Refusal :
          (e : SwapError x) (behind : List (Hop x)) (utxo : Option x.OutputPrintable)
          → IsPayload x S a.payload
          → a.behind ≡ behind
          → node.get_utxo a.commit ≡ ok utxo
          → expected_for a behind utxo ≡ some e
          → Refusal x key node a.onion a.comsig e
      expected-Refusal e (hop ∷ behind) utxo valid q u h =
          let count : length a.onion.enc_payloads ≡ suc (suc (length behind)) =
            attempt-shape.1 ∙ ap (λ b. suc (length b)) q in
          subst (Refusal x key node a.onion a.comsig)
            (ap (invalid_payload_length 1) count ∙ some-injective _ _ h)
            (other_count (two_not_one _ _ count))
      expected-Refusal e [] none valid q u h =
          subst (Refusal x key node a.onion a.comsig)
            (ap coin_not_found attempt-shape.0 ∙ some-injective _ _ h)
            (spent (attempt-Signed q) (gone u))
      expected-Refusal e [] (some out) valid q u h =
          let (peeled, peels, own) = attempt-peel_layer valid in
          let opened : Opened x key node a.onion a.comsig a.payload peeled = record {
            sent = attempt-Signed q;
            input = x.input_new (input_features x (x.output_type out)) (x.printable_commit out);
            unspent = built out u;
            peels = peels;
          } in
          elim (Bool-cases (ltb (x.fee_fields_into a.payload.fee) (get_minimum_swap_fee x))) [
            | inl few ↦
                subst (Refusal x key node a.onion a.comsig)
                  (some-injective _ _ (rw (few, expected_for) at h)) (cheap opened (ltb→lt _ _ few))
            | inr enough ↦
                proof_error-Refusal e peeled a.payload.rangeproof opened (not_less _ _ enough) refl
                  own (rw (enough, expected_for) at h)
          ]
        where
          not_less : (n m : ℕ) → ltb n m ≡ false → m ≤ n
          not_less n m h = ground arith

      -- Let a client make its onion and signature as it should, with a payload that can be written,
      -- and let the node answer what it knows of the client's output. Where that answer and the
      -- client's own data call for an error (the onion is for more than one server, the output is
      -- not unspent, the fee is below the minimum, there is no range proof, or it is not one of the
      -- new output, in this order), `swap` returns exactly that error and changes nothing.
      pub swap_expected :
          (d : x.Db) (utxo : Option x.OutputPrintable) (e : SwapError x)
          → IsPayload x S a.payload
          → node.get_utxo a.commit ≡ ok utxo
          → expected_for a a.behind utxo ≡ some e
          → swap x key node a.onion a.comsig d ≡ (err e, d)
      swap_expected d utxo e valid u h =
          swap_refused x key node a.onion a.comsig d e
            (expected-Refusal e a.behind utxo valid refl u h)
