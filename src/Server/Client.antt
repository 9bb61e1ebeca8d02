-- ===== src/Server/Client.antt =====
-- An honest client's request: the onion of `create_onion`, signed by `ComSignature::sign`.
use mwixnet.Base.{
  ℕ, ◌≡◌, ◌≤◌, refl, sym, ap, ◌∙◌, subst, inl, inr, Option, none, some, [], ◌∷◌, length, ok,
  is_some, true, ok-injective,
}
use mwixnet.Base.Codec.{Bytes}
use mwixnet.Ext.{Crates}
use mwixnet.Ext.Laws.{SerLaws, ValueLaws, OnionLaws, CommitLaws}
use mwixnet.Ext.DbLaws.{DbLaws, IsReliable}
use mwixnet.Secp.{ComSignature}
use mwixnet.Secp.Commit.{add_excess, sub_value}
use mwixnet.Secp.Sign.{sign, verify}
use mwixnet.Types.{Payload}
use mwixnet.Types.RoundTrip.{IsPayload}
use mwixnet.Node.{IsHonest, GrinNode, build_input, input_features}
use mwixnet.Onion.{Onion}
use mwixnet.Onion.Peel.{onion_serialize, peel_layer}
use mwixnet.Onion.Create.{create_onion}
use mwixnet.Store.Save.{entry}
use mwixnet.Store.View.{Holds}
use mwixnet.Server.Swap.{swap, get_minimum_swap_fee}
use mwixnet.Server.Accept.{Checked, swap_of}
use mwixnet.Server.Attempt.{Attempt, attempt-shape, attempt-peel_layer, attempt-verify}
use mwixnet.Server.Submit.{swap-Holds, swap-fresh}

free_taken : {A : Type 0} (o : Option A) → o ≡ none → is_some o ≡ true → ⊥
free_taken none h k = cc
free_taken (some a) h k = cc

module _ (x : Crates) (amount_bytes : ℕ → Bytes) where
  -- What an honest client has done for a server with the public key of `key`.
  pub record Request (key : x.SecretKey) (node : GrinNode x) : Type 0 where
    -- the output to swap, which the node reports unspent
    pub amount : ℕ
    pub blind : x.SecretKey
    pub commit : x.Commitment
    pub commit_lem : x.commit amount blind ≡ ok commit
    pub utxo : x.OutputPrintable
    pub utxo_lem : node.get_utxo commit ≡ ok (some utxo)
    -- the payload, with a range proof for the new output
    pub payload : Payload x
    pub proof : x.RangeProof
    pub proof_lem : payload.rangeproof ≡ some proof
    pub fee_lem : get_minimum_swap_fee x ≤ x.fee_fields_into payload.fee
    pub shifted : x.Commitment
    pub shifted_lem : add_excess x commit payload.excess ≡ ok shifted
    pub output : x.Commitment
    pub output_lem : sub_value x shifted (x.fee_fields_into payload.fee) ≡ ok output
    pub proved : x.verify_bullet_proof output proof ≡ ok tt
    -- the onion, and its signature
    pub pubkey : x.PublicKey
    pub pubkey_lem : x.public_from_secret key ≡ ok pubkey
    pub session_key : x.SecretKey
    pub onion : Onion x
    pub onion_lem :
        create_onion x commit (record { pubkey = pubkey; payload = payload } ∷ []) session_key
        ≡ ok onion
    pub bytes : Bytes
    pub bytes_lem : onion_serialize x onion ≡ ok bytes
    pub k_1 : x.SecretKey
    pub k_2 : x.SecretKey
    pub comsig : ComSignature x
    pub comsig_lem : sign x amount_bytes k_1 k_2 amount blind bytes ≡ ok comsig

  module _ (S : SerLaws x) (V : ValueLaws x) (O : OnionLaws x) (C : CommitLaws x amount_bytes)
      (D : DbLaws x) (key : x.SecretKey) (node : GrinNode x) (r : Request key node)
      (valid : IsPayload x S r.payload) where
    attempt : Attempt x amount_bytes key
    attempt = record {
      amount = r.amount;
      blind = r.blind;
      commit = r.commit;
      commit_lem = r.commit_lem;
      payload = r.payload;
      shifted = r.shifted;
      shifted_lem = r.shifted_lem;
      output = r.output;
      output_lem = r.output_lem;
      pubkey = r.pubkey;
      pubkey_lem = r.pubkey_lem;
      behind = [];
      session_key = r.session_key;
      onion = r.onion;
      onion_lem = r.onion_lem;
      bytes = r.bytes;
      bytes_lem = r.bytes_lem;
      k_1 = r.k_1;
      k_2 = r.k_2;
      comsig = r.comsig;
      comsig_lem = r.comsig_lem;
    }

    input : x.Input
    input = x.input_new (input_features x (x.output_type r.utxo)) (x.printable_commit r.utxo)

    built : build_input x node r.commit ≡ ok (some input)
    unfolding build_input input
    built = rw r.utxo_lem refl

    shape : (r.onion.commit ≡ r.commit) × (length r.onion.enc_payloads ≡ 1)
    unfolding attempt
    shape = attempt-shape x amount_bytes S O C key attempt

    peels :
        (peeled : Onion x) × (peel_layer x r.onion key ≡ ok (r.payload, peeled))
        × (peeled.commit ≡ r.output)
    unfolding attempt
    peels = attempt-peel_layer x amount_bytes S O C key attempt valid

    signed : verify x r.comsig r.onion.commit r.bytes ≡ ok tt
    unfolding attempt
    signed = attempt-verify x amount_bytes S O C key attempt

    passes : Checked x key node r.onion r.comsig r.payload peels.0 input
    passes = record {
      one_layer = shape.1;
      bytes = r.bytes;
      bytes_lem = r.bytes_lem;
      signed = signed;
      unspent = subst (λ u. build_input x node u ≡ ok (some input)) (sym shape.0) built;
      peels = peels.1;
      fee_lem = r.fee_lem;
      proof = r.proof;
      proof_lem = r.proof_lem;
      verified = subst (λ u. x.verify_bullet_proof u r.proof ≡ ok tt) (sym peels.2) r.proved;
    }

    -- The request of an honest client with a valid payload, on a reliable database with no entry
    -- for its output and with a node that answers for the output that it is asked about, succeeds.
    -- The store then holds, under the client's output, a swap with the excess, fee and range proof
    -- of the client's payload, for the output that the client made the proof for.
    pub swap-accepts :
        (d : x.Db)
        → IsReliable x
        → IsHonest x node
        → entry x S D d r.commit ≡ none
        → ((swap x key node r.onion r.comsig d).0 ≡ ok tt)
          × (peeled : Onion x) × (input : x.Input) × (peeled.commit ≡ r.output)
          × (x.input_commit input ≡ r.commit)
          × Holds x S D
              (swap x key node r.onion r.comsig d).1
              r.commit
              (swap_of x r.payload peeled input)
    swap-accepts d R honest free =
        elim (swap-fresh x S V D key node r.onion r.comsig d R honest r.payload peels.0 input
          passes) [
            | inl (_, taken) ↦ absurd (free_taken _ (ap (entry x S D d) shape.0 ∙ free) taken)
            | inr (done, _) ↦
                let (p, o, i, k, own, held) =
                  swap-Holds x S V D key node r.onion r.comsig d honest done in
                let same = ok-injective _ _ (sym k.peels ∙ peels.1) in
                (
                  done,
                  o,
                  i,
                  ap (λ u. u.1.commit) same ∙ peels.2,
                  own ∙ shape.0,
                  subst
                      (λ u.
                        Holds x S D (swap x key node r.onion r.comsig d).1 r.commit
                          (swap_of x u o i))
                      (ap (λ u. u.0) same)
                      (subst
                        (λ c.
                          Holds x S D (swap x key node r.onion r.comsig d).1 c (swap_of x p o i))
                        shape.0 held),
                )
          ]
