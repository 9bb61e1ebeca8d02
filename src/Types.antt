-- ===== src/Types.antt =====
-- src/types.rs: optional values on the wire, and the payload of one onion layer.
pub mod RoundTrip
pub mod Valid
use mwixnet.Base.{ℕ, Option, none, some, Result, if◌then◌else◌, ◌==◌}
use mwixnet.Base.Codec.{Bytes, Writer, Reader, ◌>>◌, ◌>>=◌, done, ensure}
use mwixnet.Ext.{Crates}
use mwixnet.Secp.{read_secret_key, lift_or}

-- `CURRENT_VERSION`
abbrev pub current_version : ℕ
current_version = 0

module _ (x : Crates) where
  unfoldable pub write_optional :
      {O : Type 0} → (O → Writer x.SerError) → Option O → Writer x.SerError
  write_optional write (some o) = do x.write_u8 1; write o
  write_optional write none = x.write_u8 0

  unfoldable pub read_optional : {O : Type 0} → Reader x.SerError O → Reader x.SerError (Option O)
  read_optional read = do
    tag ← x.read_u8
    if tag == 0 then done none else (do o ← read; done (some o))

  pub record Payload : Type 0 where
    pub excess : x.SecretKey
    pub fee : x.FeeFields
    pub rangeproof : Option x.RangeProof

  -- `Readable for Payload`
  unfoldable pub read_payload : Reader x.SerError Payload
  unfolding read_optional lift_or
  read_payload = do
    version ← x.read_u8
    _ ← ensure (version == current_version) x.unsupported_protocol_version
    excess ← read_secret_key x
    n ← x.read_u64
    fee ← lift_or x x.corrupted_data (x.fee_fields_try_from n)
    rangeproof ← read_optional x.read_rangeproof
    done (record { excess = excess; fee = fee; rangeproof = rangeproof })

  -- `Writeable for Payload`
  unfoldable pub write_payload : Payload → Writer x.SerError
  unfolding write_optional
  write_payload p = do
    x.write_u8 current_version
    x.write_fixed_bytes (x.secret_bytes p.excess)
    x.write_u64 (x.fee_fields_into p.fee)
    write_optional x.write_rangeproof p.rangeproof

  -- `Payload::deserialize`
  unfoldable pub payload_deserialize : Bytes → Result x.SerError Payload
  payload_deserialize bytes = x.deserialize Payload read_payload bytes

  -- `Payload::serialize`, which runs `serialize_default` on an empty vector
  unfoldable pub payload_serialize : Payload → Result x.SerError Bytes
  payload_serialize p = x.ser_vec (write_payload p)
