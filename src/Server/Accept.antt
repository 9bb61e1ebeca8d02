-- ===== src/Server/Accept.antt =====
-- What `swap` accepts, and what it leaves in the store.
use mwixnet.Base.{
  ℕ, ◌≡◌, ◌≢◌, ◌≤◌, refl, ◌⊎◌, ap, ◌∙◌, inl, inr, Option, none, some, Bool, true, false, not, List,
  length, Result, ok, err, panic, map_err, map_err-eq-ok, ok_or, ltb, ◌==◌, ==_iff, arith,
}
use mwixnet.Base.Exec.{Exec, lift, ◌>>=◌}
use mwixnet.Ext.{Crates}
use mwixnet.Secp.{ComSignature}
use mwixnet.Secp.Sign.{verify}
use mwixnet.Node.{GrinNode, build_input}
use mwixnet.Onion.{Onion}
use mwixnet.Onion.Peel.{onion_serialize, peel_layer}
use mwixnet.Types.{Payload}
use mwixnet.Store.Data.{SwapData, unprocessed}
use mwixnet.Server.Swap.{
  SwapError, invalid_com_signature, invalid_rangeproof, unknown_error, peel_onion_failure,
  coin_not_found, get_minimum_swap_fee, require, check_rangeproof, save, swap,
}

module _ (x : Crates) where
  -- The swap that is stored for an accepted request.
  abbrev pub swap_of : Payload x → Onion x → x.Input → SwapData x
  swap_of payload peeled input = record {
    excess = payload.excess;
    output_commit = peeled.commit;
    rangeproof = payload.rangeproof;
    input = input;
    fee = x.fee_fields_into payload.fee;
    onion = peeled;
    status = unprocessed;
  }

  -- The checks that a request has passed before it is saved.
  pub record Checked (key : x.SecretKey) (node : GrinNode x) (onion : Onion x)
      (comsig : ComSignature x) (payload : Payload x) (peeled : Onion x) (input : x.Input)
      : Type 0 where
    pub one_layer : length onion.enc_payloads ≡ 1
    pub bytes : List ℕ
    pub bytes_lem : onion_serialize x onion ≡ ok bytes
    pub signed : verify x comsig onion.commit bytes ≡ ok tt
    pub unspent : build_input x node onion.commit ≡ ok (some input)
    pub peels : peel_layer x onion key ≡ ok (payload, peeled)
    pub fee_lem : get_minimum_swap_fee x ≤ x.fee_fields_into payload.fee
    pub proof : x.RangeProof
    pub proof_lem : payload.rangeproof ≡ some proof
    pub verified : x.verify_bullet_proof peeled.commit proof ≡ ok tt

  -- How a request ends: it passes every check and is saved as `save_swap` does it, or it does not
  -- succeed and leaves the database as it was.
  pub record Handled (key : x.SecretKey) (node : GrinNode x) (onion : Onion x)
      (comsig : ComSignature x) (d : x.Db) (o : Result (SwapError x) (Unit {0}) × x.Db)
      : Type 0 where
    pub how :
        ((payload : Payload x) × (peeled : Onion x) × (input : x.Input) × Checked key node onion
            comsig payload peeled input
          × (o ≡ save x onion.commit (swap_of payload peeled input) d))
        ⊎ ((o.0 ≢ ok tt) × (o.1 ≡ d))

  -- A step that does not touch the database, under `?`.
  pub lift_rule :
      {E A B : Type 0} (r : Result E A) (f : A → Exec x.Db E B) (d : x.Db)
      (P : Result E B × x.Db → Type 0)
      → ((e : E) → P (err e, d))
      → P (panic, d)
      → ((a : A) → r ≡ ok a → P (f a d))
      → P ((lift r >>= f) d)
  lift_rule (ok a) f d P he hp hk = hk a refl
  lift_rule (err e) f d P he hp hk = he e
  lift_rule panic f d P he hp hk = hp

  pub require_rule :
      {B : Type 0} (b : Bool) (e : SwapError x) (k : Exec x.Db (SwapError x) B) (d : x.Db)
      (P : Result (SwapError x) B × x.Db → Type 0)
      → P (err e, d)
      → (b ≡ true → P (k d))
      → P ((require x b e >>= λ _. k) d)
  require_rule true e k d P he hk = hk refl
  require_rule false e k d P he hk = he

  pub check_rangeproof-eq-ok :
      (c : x.Commitment) (o : Option x.RangeProof)
      → check_rangeproof x c o ≡ ok tt
      → (proof : x.RangeProof) × (o ≡ some proof) × (x.verify_bullet_proof c proof ≡ ok tt)
  unfolding check_rangeproof
  check_rangeproof-eq-ok c none e = cc
  check_rangeproof-eq-ok c (some r) e = (r, refl, map_err-eq-ok (λ _. invalid_rangeproof) _ e)

  pub ok_or-eq-ok : {E A : Type 0} (e : E) (o : Option A) (a : A) → ok_or e o ≡ ok a → o ≡ some a
  ok_or-eq-ok e none a h = cc
  ok_or-eq-ok e (some b) a h = cc

  pub not_lt : (a b : ℕ) → not (ltb a b) ≡ true → b ≤ a
  not_lt a b h = ground arith

  pub lt_not : (a b : ℕ) → b ≤ a → not (ltb a b) ≡ true
  lt_not a b h = ground arith

  module _ (key : x.SecretKey) (node : GrinNode x) (onion : Onion x) (comsig : ComSignature x)
      (d : x.Db) where
    abbrev P : Result (SwapError x) (Unit {0}) × x.Db → Type 0
    P o = Handled key node onion comsig d o

    refused : (e : SwapError x) → P (err e, d)
    refused e = record { how = inr (λ h. cc h, refl) }

    died : P (panic, d)
    died = record { how = inr (λ h. cc h, refl) }

    pub swap-Handled : Handled key node onion comsig d (swap x key node onion comsig d)
    unfolding swap
    swap-Handled = require_rule (length onion.enc_payloads == 1) _ _ d P (refused _) λ one.
        lift_rule (map_err (λ e. unknown_error (inl e)) (onion_serialize x onion)) _ d P refused
          died
          λ bytes serialized.
            lift_rule (map_err (λ _. invalid_com_signature) (verify x comsig onion.commit bytes)) _
              d P refused died
              λ _ signed.
                lift_rule (map_err (λ e. unknown_error (inr e)) (build_input x node onion.commit)) _
                  d P refused died
                  λ found utxo.
                    lift_rule (ok_or (coin_not_found onion.commit) found) _ d P refused died
                      λ input there.
                        lift_rule (map_err peel_onion_failure (peel_layer x onion key)) _ d P
                          refused died
                          λ peel peels.
                            require_rule
                              (not (ltb (x.fee_fields_into peel.0.fee) (get_minimum_swap_fee x))) _
                              _ d P (refused _)
                              λ enough.
                                lift_rule (check_rangeproof x peel.1.commit peel.0.rangeproof) _ d P
                                  refused died
                                  λ _ proved.
                                    let (proof, given, verified) =
                                      check_rangeproof-eq-ok peel.1.commit peel.0.rangeproof
                                        proved in
                                    record {
                                      how = inl (
                                        peel.0,
                                        peel.1,
                                        input,
                                        record {
                                          one_layer = (==_iff _ _).0 one;
                                          bytes = bytes;
                                          bytes_lem =
                                              map_err-eq-ok (λ e. unknown_error (inl e)) _
                                                serialized;
                                          signed =
                                              map_err-eq-ok (λ _. invalid_com_signature) _ signed;
                                          unspent =
                                              map_err-eq-ok (λ e. unknown_error (inr e)) _ utxo
                                              ∙ ap ok (
                                                  ok_or-eq-ok (coin_not_found onion.commit) found
                                                    input there);
                                          peels = map_err-eq-ok peel_onion_failure _ peels;
                                          fee_lem = not_lt _ _ enough;
                                          proof = proof;
                                          proof_lem = given;
                                          verified = verified;
                                        },
                                        refl,
                                      );
                                    }

    -- A request that passes the checks is saved as `save_swap` does it.
    pub swap-Checked :
        (payload : Payload x) (peeled : Onion x) (input : x.Input)
        → Checked key node onion comsig payload peeled input
        → swap x key node onion comsig d ≡ save x onion.commit (swap_of payload peeled input) d
    unfolding swap check_rangeproof
    swap-Checked payload peeled input k = rw (
      k.one_layer,
      k.bytes_lem,
      k.signed,
      k.unspent,
      k.peels,
      lt_not _ _ k.fee_lem,
      k.proof_lem,
      k.verified,
    )
