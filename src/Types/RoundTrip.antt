-- ===== src/Types/RoundTrip.antt =====
-- Optional values and payloads are read back as they were written, and a payload of another version
-- is refused.
use mwixnet.Base.{◌≡◌, ◌++◌, ◌∙◌, [], append-nil, Option, none, some, ok, arith}
use mwixnet.Base.Codec.{
  Bytes, Writer, Reader, IsCodec, Writes, Reads, Writes-seq, Reads-bind, Reads-last, Reads-ensure,
  Reads-done,
}
use mwixnet.Ext.{Crates}
use mwixnet.Ext.Laws.{SerLaws, IsKey, IsFee, Anything}
use mwixnet.Secp.{lift_or}
use mwixnet.Secp.RoundTrip.{secret_IsCodec}
use mwixnet.Types.{
  Payload, current_version, write_optional, read_optional, write_payload, read_payload,
  payload_serialize, payload_deserialize,
}

abbrev pub IsOptional : {A : Type 0} → (A → Type 0) → Option A → Type 0
IsOptional P none = Unit
IsOptional P (some a) = P a

pub IsOptional-any : {A : Type 0} (o : Option A) → IsOptional Anything o
IsOptional-any none = tt
IsOptional-any (some a) = tt

module _ (x : Crates) (L : SerLaws x) where
  module _ {A : Type 0} {P : A → Type 0} {write : A → Writer x.SerError}
      {read : Reader x.SerError A} (c : IsCodec P write read) where
    abbrev optional_encode : Option A → Bytes
    optional_encode none = L.u8.encode 0 ++ []
    optional_encode (some a) = L.u8.encode 1 ++ c.encode a

    optional-Writes :
        (o : Option A) → IsOptional P o → Writes (write_optional x write o) (optional_encode o)
    unfolding write_optional
    optional-Writes none h = rw append-nil (L.u8.writes 0 (omega arith))
    optional-Writes (some a) h = Writes-seq (L.u8.writes 1 (omega arith)) (c.writes a h)

    optional-Reads :
        (o : Option A) → IsOptional P o → Reads (read_optional x read) (optional_encode o) o
    unfolding read_optional
    optional-Reads none h = Reads-bind _ (L.u8.reads 0 (omega arith)) (Reads-done none)
    optional-Reads (some a) h =
        Reads-bind _ (L.u8.reads 1 (omega arith)) (Reads-last some (c.reads a h))

    pub IsOptional-IsCodec : IsCodec (IsOptional P) (write_optional x write) (read_optional x read)
    IsOptional-IsCodec = record {
      encode = optional_encode;
      writes = optional-Writes;
      reads = optional-Reads;
    }

  -- A payload whose key and fee fields are ones that their types can hold.
  abbrev pub IsPayload : Payload x → Type 0
  IsPayload p = IsKey x p.excess × IsFee x p.fee

  fee-Reads :
      (f : x.FeeFields)
      → IsFee x f
      → Reads (lift_or x x.corrupted_data (x.fee_fields_try_from (x.fee_fields_into f))) [] f
  unfolding lift_or
  fee-Reads f h = rw h.0 (Reads-done f)

  pub IsPayload-IsCodec : IsCodec IsPayload (write_payload x) (read_payload x)
  unfolding write_payload read_payload
  IsPayload-IsCodec = record {
    encode = λ p.
        L.u8.encode current_version
        ++ ((secret_IsCodec x L).encode p.excess
            ++ (L.u64.encode (x.fee_fields_into p.fee)
                ++ (IsOptional-IsCodec L.rangeproof).encode p.rangeproof));
    writes = λ p h. Writes-seq (L.u8.writes current_version (omega arith)) (
        Writes-seq ((secret_IsCodec x L).writes p.excess h.0) (
          Writes-seq (L.u64.writes _ h.1.1)
            ((IsOptional-IsCodec L.rangeproof).writes p.rangeproof (IsOptional-any p.rangeproof))));
    reads = λ p h. Reads-bind _ (L.u8.reads current_version (omega arith)) (
        Reads-ensure x.unsupported_protocol_version (
          Reads-bind _ ((secret_IsCodec x L).reads p.excess h.0) (
            Reads-bind _ (L.u64.reads _ h.1.1) (
              Reads-bind _ (fee-Reads p.fee h.1) (
                Reads-last _ (
                  (IsOptional-IsCodec L.rangeproof).reads p.rangeproof
                    (IsOptional-any p.rangeproof)))))));
  }

  -- What `Payload::serialize` produces, `Payload::deserialize` reads back as it was, for every
  -- payload with a valid key and valid fee fields.
  pub payload_deserialize-serialize :
      (p : Payload x)
      → IsPayload p
      → (b : Bytes) × (payload_serialize x p ≡ ok b) × (payload_deserialize x b ≡ ok p)
  unfolding payload_serialize payload_deserialize
  payload_deserialize-serialize p h = (
    IsPayload-IsCodec.encode p,
    L.ser_vec_lem (write_payload x p) ∙ (IsPayload-IsCodec.writes p h).run [],
    L.deserialize_lem _ _ _ [] p
        (rw (← append-nil (IsPayload-IsCodec.encode p)) ((IsPayload-IsCodec.reads p h).run [])),
  )
