-- ===== src/Server/Refuse.antt =====
-- Which requests `swap` refuses, with which error.
use mwixnet.Base.{
  ℕ, ◌≡◌, ◌≢◌, ◌≤◌, ◌<◌, refl, none, some, Bool, true, false, not, List, length, ok, err, ltb,
  ==_no, arith,
}
use mwixnet.Ext.{Crates}
use mwixnet.Secp.{ComSignature}
use mwixnet.Secp.Sign.{ComSigError, verify}
use mwixnet.Node.{GrinNode, build_input}
use mwixnet.Onion.{Onion}
use mwixnet.Onion.Peel.{OnionError, onion_serialize, peel_layer}
use mwixnet.Types.{Payload}
use mwixnet.Server.Swap.{
  SwapError, invalid_payload_length, invalid_com_signature, invalid_rangeproof, missing_rangeproof,
  coin_not_found, already_swapped, peel_onion_failure, fee_too_low, store_error, unknown_error,
  get_minimum_swap_fee, check_rangeproof, swap,
}
use mwixnet.Server.Accept.{lt_not}

module _ (x : Crates) where
  -- The errors that say what is wrong with a request, where the others come from the database, the
  -- node or the serialization.
  abbrev pub is_refusal : SwapError x → Bool
  is_refusal (already_swapped _) = false
  is_refusal (store_error _) = false
  is_refusal (unknown_error _) = false
  is_refusal _ = true

  module _ (key : x.SecretKey) (node : GrinNode x) (onion : Onion x) (comsig : ComSignature x) where
    -- The owner of the commitment has signed the onion, which has one layer.
    pub record Signed : Type 0 where
      pub one_layer : length onion.enc_payloads ≡ 1
      pub bytes : List ℕ
      pub bytes_lem : onion_serialize x onion ≡ ok bytes
      pub signed : verify x comsig onion.commit bytes ≡ ok tt

    -- The layer of a signed onion for an unspent output was peeled.
    pub record Opened (payload : Payload x) (peeled : Onion x) : Type 0 where
      pub sent : Signed
      pub input : x.Input
      pub unspent : build_input x node onion.commit ≡ ok (some input)
      pub peels : peel_layer x onion key ≡ ok (payload, peeled)

    -- What is wrong with a request, in the order of the checks.
    pub data Refusal : SwapError x → Type 0 where
      other_count :
          length onion.enc_payloads ≢ 1
          → Refusal (invalid_payload_length 1 (length onion.enc_payloads))
      forged :
          {e : ComSigError x} (bytes : List ℕ)
          → length onion.enc_payloads ≡ 1
          → onion_serialize x onion ≡ ok bytes
          → verify x comsig onion.commit bytes ≡ err e
          → Refusal invalid_com_signature
      spent :
          Signed → build_input x node onion.commit ≡ ok none → Refusal (coin_not_found onion.commit)
      sealed :
          {e : OnionError x} (input : x.Input)
          → Signed
          → build_input x node onion.commit ≡ ok (some input)
          → peel_layer x onion key ≡ err e
          → Refusal (peel_onion_failure e)
      cheap :
          {p : Payload x} {o : Onion x}
          → Opened p o
          → x.fee_fields_into p.fee < get_minimum_swap_fee x
          → Refusal (fee_too_low (get_minimum_swap_fee x) (x.fee_fields_into p.fee))
      unproved :
          {p : Payload x} {o : Onion x}
          → Opened p o
          → get_minimum_swap_fee x ≤ x.fee_fields_into p.fee
          → p.rangeproof ≡ none
          → Refusal missing_rangeproof
      disproved :
          {p : Payload x} {o : Onion x} {e : x.SecpError} (proof : x.RangeProof)
          → Opened p o
          → get_minimum_swap_fee x ≤ x.fee_fields_into p.fee
          → p.rangeproof ≡ some proof
          → x.verify_bullet_proof o.commit proof ≡ err e
          → Refusal invalid_rangeproof

    lt_yes : (a b : ℕ) → a < b → not (ltb a b) ≡ false
    lt_yes a b h = ground arith

    pub swap_refused :
        (d : x.Db) (e : SwapError x) → Refusal e → swap x key node onion comsig d ≡ (err e, d)
    unfolding swap check_rangeproof
    swap_refused d _ (other_count n) = rw (==_no _ _ n) refl
    swap_refused d _ (forged bytes one b v) = rw (one, b, v) refl
    swap_refused d _ (spent s u) = rw (s.one_layer, s.bytes_lem, s.signed, u) refl
    swap_refused d _ (sealed input s u p) = rw (s.one_layer, s.bytes_lem, s.signed, u, p) refl
    swap_refused d _ (cheap o l) =
        rw (o.sent.one_layer, o.sent.bytes_lem, o.sent.signed, o.unspent, o.peels, lt_yes _ _ l)
          refl
    swap_refused d _ (unproved o l n) =
        rw
          (o.sent.one_layer, o.sent.bytes_lem, o.sent.signed, o.unspent, o.peels, lt_not x _ _ l, n)
          refl
    swap_refused d _ (disproved proof o l n v) =
        rw
          (
            o.sent.one_layer,
            o.sent.bytes_lem,
            o.sent.signed,
            o.unspent,
            o.peels,
            lt_not x _ _ l,
            n,
            v,
          )
          refl
