-- ===== src/Server/Refused.antt =====
-- `swap` refuses no other requests than those with a defect, and each with the error of its defect.
use mwixnet.Base.{
  ℕ, ◌≡◌, ◌≢◌, ◌≤◌, ◌<◌, ◌↔◌, refl, ◌⊎◌, ap, ◌∙◌, inl, inr, Option, none, some, Bool, true, false,
  not, length, ok, err, map_err, map_err-eq-ok, ok_or, err-injective, map_err-eq-err, ok_or-eq-err,
  ltb, ◌==◌, ==_iff, arith, subst,
}
use mwixnet.Base.Exec.{Exec, ◌>>=◌, lift-eq-err}
use mwixnet.Ext.{Crates}
use mwixnet.Secp.{ComSignature}
use mwixnet.Secp.Sign.{verify}
use mwixnet.Node.{GrinNode, build_input}
use mwixnet.Onion.{Onion}
use mwixnet.Onion.Peel.{onion_serialize, peel_layer}
use mwixnet.Types.{Payload}
use mwixnet.Store.Data.{SwapData}
use mwixnet.Store.Ops.{
  StoreError, already_exists, open_error, read_error, write_error, serialization_error,
}
use mwixnet.Server.Swap.{
  SwapError, invalid_com_signature, invalid_rangeproof, coin_not_found, peel_onion_failure,
  unknown_error, get_minimum_swap_fee, require, check_rangeproof, save_error, save, swap,
}
use mwixnet.Server.Accept.{swap_of, not_lt, ok_or-eq-ok}
use mwixnet.Server.Refuse.{
  is_refusal, Signed, Opened, Refusal, other_count, forged, spent, sealed, cheap, unproved,
  disproved, swap_refused,
}

module _ (x : Crates) where
  not_one : (n : ℕ) → (n == 1) ≡ false → n ≢ 1
  not_one n h e = ground arith

  not_lt_no : (a b : ℕ) → not (ltb a b) ≡ false → a < b
  not_lt_no a b h = ground arith

  require-eq-err :
      {B : Type 0} (b : Bool) (u : SwapError x) (k : Exec x.Db (SwapError x) B) (d : x.Db)
      (e : SwapError x)
      → ((require x b u >>= λ _. k) d).0 ≡ err e
      → ((b ≡ false) × (u ≡ e)) ⊎ ((b ≡ true) × ((k d).0 ≡ err e))
  require-eq-err true u k d e h = inr (refl, h)
  require-eq-err false u k d e h = inl (refl, err-injective u e h)

  -- An error that is no refusal is not one that is.
  no_refusal :
      {C : Type 0} (u e : SwapError x) → u ≡ e → is_refusal x u ≡ false → is_refusal x e ≡ true → C
  no_refusal u e q n h = absurd (cc (ap (is_refusal x) q, n, h))

  save_error-is_refusal :
      (c : x.Commitment) (u : StoreError x) → is_refusal x (save_error x c u) ≡ false
  save_error-is_refusal c (already_exists _) = refl
  save_error-is_refusal c (open_error _) = refl
  save_error-is_refusal c (read_error _) = refl
  save_error-is_refusal c (write_error _) = refl
  save_error-is_refusal c (serialization_error _) = refl

  module _ (key : x.SecretKey) (node : GrinNode x) (onion : Onion x) (comsig : ComSignature x)
      (d : x.Db) (e : SwapError x) (h : is_refusal x e ≡ true) where
    check_rangeproof-eq-err :
        (p : Payload x) (o : Onion x)
        → Opened x key node onion comsig p o
        → get_minimum_swap_fee x ≤ x.fee_fields_into p.fee
        → check_rangeproof x o.commit p.rangeproof ≡ err e
        → Refusal x key node onion comsig e
    unfolding check_rangeproof
    check_rangeproof-eq-err p o w l k = go p.rangeproof refl k
      where
        go :
            (r : Option x.RangeProof)
            → p.rangeproof ≡ r
            → check_rangeproof x o.commit r ≡ err e
            → Refusal x key node onion comsig e
        go none q k = subst (Refusal x key node onion comsig) (err-injective _ _ k) (unproved w l q)
        go (some r) q k =
            let (u, v, same) = map_err-eq-err (λ _. invalid_rangeproof) _ e k in
            subst (Refusal x key node onion comsig) same (disproved r w l q v)

    save_never :
        (c : x.Commitment) (t : SwapData x)
        → (save x c t d).0 ≡ err e
        → Refusal x key node onion comsig e
    unfolding save
    save_never c t k =
        let (u, _, same) = map_err-eq-err (save_error x c) _ e k in
        no_refusal _ e same (save_error-is_refusal c u) h

    swap_after_peel :
        (p : Payload x) (o : Onion x)
        → Opened x key node onion comsig p o
        → (swap x key node onion comsig d).0 ≡ err e
        → Refusal x key node onion comsig e
    unfolding swap
    swap_after_peel p o w k =
        let late =
          rw (w.sent.one_layer, w.sent.bytes_lem, w.sent.signed, w.unspent, w.peels) at k in
        elim (require-eq-err (not (ltb (x.fee_fields_into p.fee) (get_minimum_swap_fee x))) _ _ d e
          late) [
            | inl (few, same) ↦
                subst (Refusal x key node onion comsig) same (cheap w (not_lt_no _ _ few))
            | inr (enough, rest) ↦
                elim (lift-eq-err (check_rangeproof x o.commit p.rangeproof) _ d e rest) [
                  | inl bad ↦ check_rangeproof-eq-err p o w (not_lt x _ _ enough) bad
                  | inr (_, _, end) ↦ save_never onion.commit (swap_of x p o w.input) end
                ]
          ]

    swap_after_input :
        (w : Signed x key node onion comsig) (input : x.Input)
        → build_input x node onion.commit ≡ ok (some input)
        → (swap x key node onion comsig d).0 ≡ err e
        → Refusal x key node onion comsig e
    unfolding swap
    swap_after_input w input utxo k =
        let late = rw (w.one_layer, w.bytes_lem, w.signed, utxo) at k in
        elim (lift-eq-err (map_err peel_onion_failure (peel_layer x onion key)) _ d e late) [
          | inl bad ↦
              let (u, p, same) = map_err-eq-err peel_onion_failure _ e bad in
              subst (Refusal x key node onion comsig) same (sealed input w utxo p)
          | inr ((p, o), opens, _) ↦
              swap_after_peel p o
                (record {
                  sent = w;
                  input = input;
                  unspent = utxo;
                  peels = map_err-eq-ok peel_onion_failure _ opens;
                })
                k
        ]

    swap_after_verify :
        Signed x key node onion comsig
        → (swap x key node onion comsig d).0 ≡ err e
        → Refusal x key node onion comsig e
    unfolding swap
    swap_after_verify w k =
        let late = rw (w.one_layer, w.bytes_lem, w.signed) at k in
        elim (lift-eq-err (map_err (λ u. unknown_error (inr u)) (build_input x node onion.commit)) _
          d e late) [
            | inl bad ↦
                let (u, _, same) = map_err-eq-err (λ u. unknown_error (inr u)) _ e bad in
                no_refusal _ e same refl h
            | inr (found, utxo, rest) ↦
                let unspent = map_err-eq-ok (λ u. unknown_error (inr u)) _ utxo in
                elim (lift-eq-err (ok_or (coin_not_found onion.commit) found) _ d e rest) [
                  | inl bad ↦
                      let (gone, same) = ok_or-eq-err (coin_not_found onion.commit) e found bad in
                      subst (Refusal x key node onion comsig) same (spent w (unspent ∙ ap ok gone))
                  | inr (input, there, _) ↦
                      let one = ok_or-eq-ok x (coin_not_found onion.commit) found input there in
                      swap_after_input w input (unspent ∙ ap ok one) k
                ]
          ]

    refuses : (swap x key node onion comsig d).0 ≡ err e → Refusal x key node onion comsig e
    unfolding swap
    refuses k = elim (require-eq-err (length onion.enc_payloads == 1) _ _ d e k) [
      | inl (n, same) ↦ subst (Refusal x key node onion comsig) same (other_count (not_one _ n))
      | inr (yes_one, rest) ↦
          let one = (==_iff _ _).0 yes_one in
          elim (lift-eq-err (map_err (λ u. unknown_error (inl u)) (onion_serialize x onion)) _ d e
            rest) [
              | inl bad ↦
                  let (u, _, same) = map_err-eq-err (λ u. unknown_error (inl u)) _ e bad in
                  no_refusal _ e same refl h
              | inr (bytes, serialized, more) ↦
                  let b = map_err-eq-ok (λ u. unknown_error (inl u)) _ serialized in
                  elim (lift-eq-err
                    (map_err (λ _. invalid_com_signature) (verify x comsig onion.commit bytes)) _ d
                    e more) [
                      | inl bad ↦
                          let (u, v, same) = map_err-eq-err (λ _. invalid_com_signature) _ e bad in
                          subst (Refusal x key node onion comsig) same (forged bytes one b v)
                      | inr (_, signed, _) ↦
                          swap_after_verify
                            (record {
                              one_layer = one;
                              bytes = bytes;
                              bytes_lem = b;
                              signed = map_err-eq-ok (λ _. invalid_com_signature) _ signed;
                            })
                            k
                    ]
            ]
    ]

    -- For an error that says what is wrong with a request, `swap` ends with it exactly where the
    -- request has that defect and none that an earlier check finds.
    pub swap-Refusal :
        ((swap x key node onion comsig d).0 ≡ err e) ↔ Refusal x key node onion comsig e
    swap-Refusal = (refuses, λ r. ap (λ o. o.0) (swap_refused x key node onion comsig d e r))
