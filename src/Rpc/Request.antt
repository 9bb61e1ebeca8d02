-- ===== src/Rpc/Request.antt =====
-- `SwapReq` of src/rpc.rs: the parameter of the call "swap", as the client serializes it and as the
-- server deserializes it. Its fields are the onion's object and the signature's text.
use mwixnet.Base.{◌≡◌, refl, inl, inr, List, Result, ok, ◌>>=◌}
use mwixnet.Ext.{Crates}
use mwixnet.Ext.Files.{Files}
use mwixnet.Ext.Laws.{SerLaws}
use mwixnet.Ext.Net.{Net, FormLaws}
use mwixnet.Ext.Serde.{Value, SerdeError}
use mwixnet.Secp.{ComSignature}
use mwixnet.Secp.Json as Comsig
use mwixnet.Secp.RoundTrip.{IsSig}
use mwixnet.Onion.{Onion}
use mwixnet.Onion.Json as OnionJson
use mwixnet.Onion.JsonLaws.{deserialize-serialize}

module _ (x : Crates) (f : Files) (n : Net x f) where
  pub record SwapReq : Type 0 where
    pub onion : Onion x
    pub comsig : ComSignature x

  -- The values of the two fields.
  pub record Params : Type 0 where
    pub onion : List (OnionJson.Entry x f n)
    pub comsig : Value f.Text

  unfoldable pub request_serialize : SwapReq → Result (SerdeError x f) Params
  request_serialize req = do
    comsig ← Comsig.serialize x f req.comsig
    ok (record { onion = OnionJson.serialize x f n req.onion; comsig = comsig })

  unfoldable pub request_deserialize : Params → Result (SerdeError x f) SwapReq
  request_deserialize params = do
    onion ← OnionJson.deserialize x f n params.onion
    comsig ← Comsig.deserialize x f params.comsig
    ok (record { onion = onion; comsig = comsig })

  -- A request whose signature has valid keys is serialized without error, to parameters that are
  -- deserialized as that request.
  pub request_deserialize-request_serialize :
      FormLaws x f n
      → (L : SerLaws x) → (req : SwapReq) → IsSig x L req.comsig
      → (params : Params) × (request_serialize req ≡ ok params)
        × (request_deserialize params ≡ ok req)
  unfolding request_serialize request_deserialize OnionJson.serialize
      mwixnet.Onion.JsonLaws.has_field mwixnet.Onion.JsonLaws.same_field
  request_deserialize-request_serialize F L req h =
      let (v, s, d) = Comsig.comsig_deserialize-serialize x f n F L req.comsig h in
      (
        record { onion = OnionJson.serialize x f n req.onion; comsig = v },
        rw s refl,
        rw
            (
              deserialize-serialize x f n F req.onion (OnionJson.serialize x f n req.onion)
                  (inl refl, (inr (inl refl), (inr (inr (inl refl)), tt))) refl refl refl,
              d,
            )
            refl,
      )
