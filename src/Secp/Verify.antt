-- ===== src/Secp/Verify.antt =====
-- A commitment signature that `ComSignature::sign` makes is one that `ComSignature::verify`
-- accepts.
use mwixnet.Base.{ℕ, ◌≡◌, refl, ◌∙◌, ok, map_err-eq-ok, >>=-eq-ok, ok-injective, subst, if_pos}
use mwixnet.Base.Codec.{Bytes}
use mwixnet.Ext.{Crates}
use mwixnet.Ext.Laws.{CommitLaws}
use mwixnet.Secp.{ComSignature}
use mwixnet.Secp.Sign.{secp256k1zkp, try, calc_challenge, sign, verify}

module _ (x : Crates) (amount_bytes : ℕ → Bytes) (C : CommitLaws x amount_bytes) where
  -- What `sign` has computed.
  pub record Signed (k_1 k_2 : x.SecretKey) (amount : ℕ) (blind : x.SecretKey) (msg : Bytes)
      (sig : ComSignature x) : Type 0 where
    pub k_amt : x.SecretKey
    pub k_amt_lem : x.secret_from_slice (amount_bytes amount) ≡ ok k_amt
    pub commitment : x.Commitment
    pub commitment_lem : x.commit amount blind ≡ ok commitment
    pub nonce_lem : x.commit_blind k_1 k_2 ≡ ok sig.pub_nonce
    pub e : x.SecretKey
    pub e_lem : calc_challenge x commitment sig.pub_nonce msg ≡ ok e
    pub s : x.SecretKey
    pub s_lem : x.secret_mul k_amt e ≡ ok s
    pub s_sum : x.secret_add s k_1 ≡ ok sig.s
    pub t : x.SecretKey
    pub t_lem : x.secret_mul blind e ≡ ok t
    pub t_sum : x.secret_add t k_2 ≡ ok sig.t

  sign-Signed :
      (k_1 k_2 : x.SecretKey) (amount : ℕ) (blind : x.SecretKey) (msg : Bytes)
      (sig : ComSignature x)
      → sign x amount_bytes k_1 k_2 amount blind msg ≡ ok sig
      → Signed k_1 k_2 amount blind msg sig
  unfolding sign
  sign-Signed k_1 k_2 amount blind msg sig h =
      let (k_amt, e1, h1) = >>=-eq-ok (try x (x.secret_from_slice (amount_bytes amount))) _ h in
      let (c, e2, h2) = >>=-eq-ok (try x (x.commit amount blind)) _ h1 in
      let (n, e3, h3) = >>=-eq-ok (try x (x.commit_blind k_1 k_2)) _ h2 in
      let (e, e4, h4) = >>=-eq-ok (calc_challenge x c n msg) _ h3 in
      let (s, e5, h5) = >>=-eq-ok (try x (x.secret_mul k_amt e)) _ h4 in
      let (s', e6, h6) = >>=-eq-ok (try x (x.secret_add s k_1)) _ h5 in
      let (t, e7, h7) = >>=-eq-ok (try x (x.secret_mul blind e)) _ h6 in
      let (t', e8, h8) = >>=-eq-ok (try x (x.secret_add t k_2)) _ h7 in
      subst (Signed k_1 k_2 amount blind msg) (ok-injective _ _ h8) (record {
        k_amt = k_amt;
        k_amt_lem = map_err-eq-ok secp256k1zkp _ e1;
        commitment = c;
        commitment_lem = map_err-eq-ok secp256k1zkp _ e2;
        nonce_lem = map_err-eq-ok secp256k1zkp _ e3;
        e = e;
        e_lem = e4;
        s = s;
        s_lem = map_err-eq-ok secp256k1zkp _ e5;
        s_sum = map_err-eq-ok secp256k1zkp _ e6;
        t = t;
        t_lem = map_err-eq-ok secp256k1zkp _ e7;
        t_sum = map_err-eq-ok secp256k1zkp _ e8;
      })

  -- Where `sign` makes a signature of a message for an amount and a blinding factor, with whatever
  -- nonces, there is a commitment to that amount with that factor, and `verify` accepts the
  -- signature for it and for the message.
  pub verify-sign :
      (k_1 k_2 : x.SecretKey) (amount : ℕ) (blind : x.SecretKey) (msg : Bytes)
      (sig : ComSignature x)
      → sign x amount_bytes k_1 k_2 amount blind msg ≡ ok sig
      → (c : x.Commitment) × (x.commit amount blind ≡ ok c) × (verify x sig c msg ≡ ok tt)
  unfolding verify
  verify-sign k_1 k_2 amount blind msg sig h =
      let w = sign-Signed k_1 k_2 amount blind msg sig h in
      let (p, q, c', e1, e2, e3, e4) =
        C.scale_lem w.k_amt blind w.e w.s w.t w.commitment
          (C.amount_lem amount w.k_amt blind w.k_amt_lem ∙ w.commitment_lem) w.s_lem w.t_lem in
      let (r, e5, e6) =
        C.sum_lem w.s w.t k_1 k_2 sig.s sig.t c' sig.pub_nonce e4 w.nonce_lem w.s_sum w.t_sum in
      (
        w.commitment,
        w.commitment_lem,
        rw (e6, e1, w.e_lem, e2, e3, e5, if_pos (x.commitment_dec r r) refl) refl,
      )
