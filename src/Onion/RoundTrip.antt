-- ===== src/Onion/RoundTrip.antt =====
-- An onion is read back as it was written.
use mwixnet.Base.{refl, ◌≡◌, ok, ◌≤◌, ◌++◌, [], ◌∷◌, List, length, append-nil, append_assoc, All}
use mwixnet.Base.Codec.{
  Bytes, Writes, Reads, Writes-seq, Writes-skip, read-write, Reads-bind, Reads-last, Reads-done,
}
use mwixnet.Ext.{Crates}
use mwixnet.Ext.Laws.{SerLaws, IsU64}
use mwixnet.Onion.{Onion, write_payloads, write_onion, read_payloads, read_onion}

module _ (x : Crates) (L : SerLaws x) where
  -- A payload whose size fits its length prefix and what one read may take.
  abbrev pub IsChunk : Bytes → Type 0
  IsChunk b = IsU64 (length b) × (length b ≤ L.read_limit)

  abbrev chunk_encode : (b : Bytes) → IsChunk b → Bytes
  chunk_encode b h = (L.bytes (length b) h.1).encode b

  payloads_encode : (ps : List Bytes) → All IsChunk ps → Bytes
  payloads_encode [] h = []
  payloads_encode (p ∷ ps) h =
      L.u64.encode (length p) ++ (chunk_encode p h.0 ++ payloads_encode ps h.1)

  payloads-Writes :
      (ps : List Bytes) (h : All IsChunk ps) → Writes (write_payloads x ps) (payloads_encode ps h)
  unfolding write_payloads payloads_encode
  payloads-Writes [] h = Writes-skip
  payloads-Writes (p ∷ ps) h =
      Writes-seq (L.u64.writes (length p) h.0.0)
        (Writes-seq ((L.bytes (length p) h.0.1).writes p refl) (payloads-Writes ps h.1))

  payloads-Reads :
      (ps : List Bytes) (h : All IsChunk ps) (acc : List Bytes)
      → Reads (read_payloads x (length ps) acc) (payloads_encode ps h) (acc ++ ps)
  unfolding read_payloads payloads_encode
  payloads-Reads [] h acc = rw append-nil (Reads-done acc)
  payloads-Reads (p ∷ ps) h acc = Reads-bind _ (L.u64.reads (length p) h.0.0) (
      Reads-bind _ ((L.bytes (length p) h.0.1).reads p refl)
        (rw append_assoc at (payloads-Reads ps h.1 (acc ++ (p ∷ [])))))

  -- An onion whose payloads, and their number, fit the length prefixes.
  abbrev pub IsOnion : Onion x → Type 0
  IsOnion o = IsU64 (length o.enc_payloads) × All IsChunk o.enc_payloads

  pub onion_encode : (o : Onion x) → IsOnion o → Bytes
  onion_encode o h =
      L.pubkey.encode o.ephemeral_pubkey
      ++ (L.commitment.encode o.commit
          ++ (L.u64.encode (length o.enc_payloads) ++ payloads_encode o.enc_payloads h.1))

  pub onion-Writes : (o : Onion x) (h : IsOnion o) → Writes (write_onion x o) (onion_encode o h)
  unfolding write_onion onion_encode
  onion-Writes o h = Writes-seq (L.pubkey.writes o.ephemeral_pubkey tt) (
      Writes-seq (L.commitment.writes o.commit tt) (
        Writes-seq (L.u64.writes (length o.enc_payloads) h.0) (payloads-Writes o.enc_payloads h.1)))

  pub onion-Reads : (o : Onion x) (h : IsOnion o) → Reads (read_onion x) (onion_encode o h) o
  unfolding read_onion onion_encode
  onion-Reads o h = Reads-bind _ (L.pubkey.reads o.ephemeral_pubkey tt) (
      Reads-bind _ (L.commitment.reads o.commit tt) (
        Reads-bind _ (L.u64.reads (length o.enc_payloads) h.0)
          (Reads-last _ (payloads-Reads o.enc_payloads h.1 []))))

  -- An onion whose payloads, and their number, fit their length prefixes is written without error,
  -- and what is written is read back as that onion, whatever follows it.
  pub read_onion-write_onion :
      (o : Onion x)
      → IsOnion o
      → (rest : Bytes)
      → (b : Bytes) × (write_onion x o [] ≡ ok b) × (read_onion x (b ++ rest) ≡ ok (o, rest))
  read_onion-write_onion o h rest = read-write (onion-Writes o h) (onion-Reads o h) rest
