-- ===== src/Secp/RoundTrip.antt =====
-- Secret keys and commitment signatures are read back as they were written.
use mwixnet.Base.{◌≡◌, ok, [], ◌++◌}
use mwixnet.Base.Codec.{Bytes, Writer, IsCodec, Writes-seq, Reads-bind, Reads-last, read-write}
use mwixnet.Ext.{Crates}
use mwixnet.Ext.Laws.{SerLaws, IsKey}
use mwixnet.Secp.{ComSignature, lift_or, read_secret_key, write_comsig, read_comsig}

module _ (x : Crates) (L : SerLaws x) where
  abbrev pub write_secret : x.SecretKey → Writer x.SerError
  write_secret k = x.write_fixed_bytes (x.secret_bytes k)

  abbrev secret_encode : x.SecretKey → Bytes
  secret_encode k = (L.fixed x.secret_key_size L.key_size).encode (x.secret_bytes k)

  pub secret_IsCodec : IsCodec (IsKey x) write_secret (read_secret_key x)
  unfolding read_secret_key lift_or
  secret_IsCodec = record {
    encode = secret_encode;
    writes = λ k h. (L.fixed _ L.key_size).writes _ (L.length-secret_bytes k);
    reads = λ k h. record {
      run = λ rest. rw (((L.fixed _ L.key_size).reads _ (L.length-secret_bytes k)).run rest, h);
    };
  }

  abbrev pub IsSig : ComSignature x → Type 0
  IsSig c = IsKey x c.s × IsKey x c.t

  pub comsig_IsCodec : IsCodec IsSig (write_comsig x) (read_comsig x)
  unfolding write_comsig read_comsig
  comsig_IsCodec = record {
    encode = λ c.
        L.commitment.encode c.pub_nonce ++ (secret_IsCodec.encode c.s ++ secret_IsCodec.encode c.t);
    writes = λ c h.
        Writes-seq (L.commitment.writes c.pub_nonce tt)
          (Writes-seq (secret_IsCodec.writes c.s h.0) (secret_IsCodec.writes c.t h.1));
    reads = λ c h.
        Reads-bind _ (L.commitment.reads c.pub_nonce tt) (
          Reads-bind _ (secret_IsCodec.reads c.s h.0)
            (Reads-last _ (secret_IsCodec.reads c.t h.1)));
  }

  -- A commitment signature with valid keys is written without error, and what is written is read
  -- back as that signature, whatever follows it.
  pub read_comsig-write_comsig :
      (c : ComSignature x)
      → IsSig c
      → (rest : Bytes)
      → (b : Bytes) × (write_comsig x c [] ≡ ok b) × (read_comsig x (b ++ rest) ≡ ok (c, rest))
  read_comsig-write_comsig c h rest =
      read-write (comsig_IsCodec.writes c h) (comsig_IsCodec.reads c h) rest
