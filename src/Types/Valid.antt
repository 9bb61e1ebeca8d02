-- ===== src/Types/Valid.antt =====
-- A payload that was deserialized has a valid key.
use mwixnet.Base.{◌≡◌, ok, >>=-eq-ok, ok-injective, ap, subst, ◌==◌, Result, err, panic}
use mwixnet.Base.Codec.{Bytes, ensure}
use mwixnet.Ext.{Crates}
use mwixnet.Ext.Laws.{ValueLaws, IsKey}
use mwixnet.Secp.{read_secret_key, lift_or}
use mwixnet.Types.{Payload, current_version, read_payload, payload_deserialize, read_optional}

module _ (x : Crates) (V : ValueLaws x) where
  lift_or-eq-ok :
      {E A : Type 0} (e : x.SerError) (m : Result E A) (input rest : Bytes) (a : A)
      → lift_or x e m input ≡ ok (a, rest)
      → m ≡ ok a
  unfolding lift_or
  lift_or-eq-ok e (ok b) input rest a h = cc
  lift_or-eq-ok e (err _) input rest a h = cc
  lift_or-eq-ok e panic input rest a h = cc

  read_secret_key-IsKey :
      (input rest : Bytes) (k : x.SecretKey) → read_secret_key x input ≡ ok (k, rest) → IsKey x k
  unfolding read_secret_key
  read_secret_key-IsKey input rest k e =
      let (buf, _, e1) = >>=-eq-ok (x.read_fixed_bytes x.secret_key_size input) _ e in
      V.secret_range buf.0 k (lift_or-eq-ok x.corrupted_data _ buf.1 rest k e1)

  read_payload-IsKey :
      (input rest : Bytes) (p : Payload x) → read_payload x input ≡ ok (p, rest) → IsKey x p.excess
  unfolding read_payload
  read_payload-IsKey input rest p e =
      let (v, _, e1) = >>=-eq-ok (x.read_u8 input) _ e in
      let (u, _, e2) =
        >>=-eq-ok (ensure (v.0 == current_version) x.unsupported_protocol_version v.1) _ e1 in
      let (k, ek, e3) = >>=-eq-ok (read_secret_key x u.1) _ e2 in
      let (n, _, e4) = >>=-eq-ok (x.read_u64 k.1) _ e3 in
      let (f, _, e5) =
        >>=-eq-ok (lift_or x x.corrupted_data (x.fee_fields_try_from n.0) n.1) _ e4 in
      let (o, _, e6) = >>=-eq-ok (read_optional x x.read_rangeproof f.1) _ e5 in
      subst (IsKey x) (ap (λ r. r.0.excess) (ok-injective _ (p, rest) e6))
        (read_secret_key-IsKey u.1 k.1 k.0 ek)

  -- The excess of a payload that `Payload::deserialize` returns is a valid key.
  pub payload_deserialize-IsKey :
      (b : Bytes) (p : Payload x) → payload_deserialize x b ≡ ok p → IsKey x p.excess
  unfolding payload_deserialize
  payload_deserialize-IsKey b p e =
      let (rest, r) = V.deserialize_sound _ (read_payload x) b p e in read_payload-IsKey b rest p r
