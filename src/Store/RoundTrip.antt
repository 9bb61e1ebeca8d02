-- ===== src/Store/RoundTrip.antt =====
-- Swap statuses and swaps are read back as they were written, and records with another version or
-- an unknown status are refused.
use mwixnet.Base.{ℕ, ◌≡◌, ◌≢◌, ◌<◌, refl, [], ◌++◌, arith, ok, err, if◌then◌else◌, ◌==◌, ==_no}
use mwixnet.Base.Codec.{
  Bytes, Writes, Reads, Writes-seq, Reads-bind, Reads-last, Reads-ensure, read-write,
}
use mwixnet.Ext.{Crates}
use mwixnet.Ext.Laws.{SerLaws, IsKey, IsU64, IsByte}
use mwixnet.Secp.RoundTrip.{secret_IsCodec}
use mwixnet.Types.RoundTrip.{IsOptional-IsCodec, IsOptional-any}
use mwixnet.Onion.RoundTrip.{IsOnion, onion_encode, onion-Writes, onion-Reads}
use mwixnet.Store.Data.{
  SwapStatus, unprocessed, in_process, completed, SwapData, current_version, write_status,
  read_status, write_swap_data, read_swap_data,
}

module _ (x : Crates) (L : SerLaws x) where
  status_encode : SwapStatus x → Bytes
  status_encode unprocessed = L.u8.encode 0
  status_encode (in_process k) = L.u8.encode 1 ++ L.hash.encode k
  status_encode (completed k b) = L.u8.encode 2 ++ (L.hash.encode k ++ L.hash.encode b)

  status-Writes : (s : SwapStatus x) → Writes (write_status x s) (status_encode s)
  unfolding write_status status_encode
  status-Writes unprocessed = L.u8.writes 0 (omega arith)
  status-Writes (in_process k) = Writes-seq (L.u8.writes 1 (omega arith)) (L.hash.writes k tt)
  status-Writes (completed k b) =
      Writes-seq (L.u8.writes 2 (omega arith))
        (Writes-seq (L.hash.writes k tt) (L.hash.writes b tt))

  status-Reads : (s : SwapStatus x) → Reads (read_status x) (status_encode s) s
  unfolding read_status status_encode
  status-Reads unprocessed = record { run = λ rest. rw ((L.u8.reads 0 (omega arith)).run rest) }
  status-Reads (in_process k) =
      Reads-bind _ (L.u8.reads 1 (omega arith)) (Reads-last in_process (L.hash.reads k tt))
  status-Reads (completed k b) =
      Reads-bind _ (L.u8.reads 2 (omega arith))
        (Reads-bind _ (L.hash.reads k tt) (Reads-last (completed k) (L.hash.reads b tt)))

  -- A swap whose key, fee and onion are ones that their types can hold.
  pub record IsSwap (s : SwapData x) : Type 0 where
    pub key : IsKey x s.excess
    pub fee : IsU64 s.fee
    pub onion : IsOnion x L s.onion

  pub swap_encode : (s : SwapData x) → IsSwap s → Bytes
  swap_encode s h =
      L.u8.encode current_version
      ++ ((secret_IsCodec x L).encode s.excess
          ++ (L.commitment.encode s.output_commit
              ++ ((IsOptional-IsCodec x L L.rangeproof).encode s.rangeproof
                  ++ (L.input.encode s.input
                      ++ (L.u64.encode s.fee
                          ++ (onion_encode x L s.onion h.onion ++ status_encode s.status))))))

  pub swap-Writes : (s : SwapData x) (h : IsSwap s) → Writes (write_swap_data x s) (swap_encode s h)
  unfolding write_swap_data swap_encode
  swap-Writes s h = Writes-seq (L.u8.writes current_version (omega arith)) (
      Writes-seq ((secret_IsCodec x L).writes s.excess h.key) (
        Writes-seq (L.commitment.writes s.output_commit tt) (
          Writes-seq
            ((IsOptional-IsCodec x L L.rangeproof).writes s.rangeproof
              (IsOptional-any s.rangeproof))
            (Writes-seq (L.input.writes s.input tt) (
              Writes-seq (L.u64.writes s.fee h.fee)
                (Writes-seq (onion-Writes x L s.onion h.onion) (status-Writes s.status)))))))

  -- A stored swap is read back as it was written, whatever follows it.
  pub swap-Reads : (s : SwapData x) (h : IsSwap s) → Reads (read_swap_data x) (swap_encode s h) s
  unfolding read_swap_data swap_encode
  swap-Reads s h = Reads-bind _ (L.u8.reads current_version (omega arith)) (
      Reads-ensure x.unsupported_protocol_version (
        Reads-bind _ ((secret_IsCodec x L).reads s.excess h.key) (
          Reads-bind _ (L.commitment.reads s.output_commit tt) (
            Reads-bind _
              ((IsOptional-IsCodec x L L.rangeproof).reads s.rangeproof
                (IsOptional-any s.rangeproof))
              (Reads-bind _ (L.input.reads s.input tt) (
                Reads-bind _ (L.u64.reads s.fee h.fee) (
                  Reads-bind _ (onion-Reads x L s.onion h.onion)
                    (Reads-last _ (status-Reads s.status)))))))))

  -- A swap whose key, fee and onion are ones that their types can hold is written without error,
  -- and what is written is read back as that swap, whatever follows it.
  pub read_swap_data-write_swap_data :
      (s : SwapData x)
      → IsSwap s
      → (rest : Bytes)
      → (b : Bytes) × (write_swap_data x s [] ≡ ok b)
        × (read_swap_data x (b ++ rest) ≡ ok (s, rest))
  read_swap_data-write_swap_data s h rest = read-write (swap-Writes s h) (swap-Reads s h) rest

  -- Bytes that begin with another version than the current one are refused as a swap with
  -- `UnsupportedProtocolVersion`.
  pub read_swap_data_version :
      (v : ℕ) (body : Bytes)
      → IsByte v
      → v ≢ current_version
      → read_swap_data x (L.u8.encode v ++ body) ≡ err x.unsupported_protocol_version
  unfolding read_swap_data
  read_swap_data_version v body h n = rw ((L.u8.reads v h).run body, ==_no v current_version n) refl

  no_tag :
      {A : Type 0} (v : ℕ) (a b c d : A)
      → 2 < v
      → (if v == 0 then a else if v == 1 then b else if v == 2 then c else d) ≡ d
  no_tag v a b c d n =
      rw (==_no v 0 (omega arith), ==_no v 1 (omega arith), ==_no v 2 (omega arith)) refl

  -- Bytes that begin with a status tag above 2 are refused as a status with `CorruptedData`.
  pub read_status_tag :
      (v : ℕ) (body : Bytes)
      → IsByte v
      → 2 < v
      → read_status x (L.u8.encode v ++ body) ≡ err x.corrupted_data
  unfolding read_status
  read_status_tag v body h n =
      rw
        (
          (L.u8.reads v h).run body,
          ==_no v 0 (omega arith),
          ==_no v 1 (omega arith),
          ==_no v 2 (omega arith),
        )
        refl
