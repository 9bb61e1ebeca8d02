-- ===== src/Store/Data.antt =====
-- `SwapStatus` and `SwapData` of src/store.rs, and their serialization.
use mwixnet.Base.{ℕ, Option, if◌then◌else◌, ◌==◌}
use mwixnet.Base.Codec.{Writer, Reader, ◌>>◌, ◌>>=◌, done, fail, ensure}
use mwixnet.Ext.{Crates}
use mwixnet.Secp.{read_secret_key}
use mwixnet.Types.{write_optional, read_optional}
use mwixnet.Onion.{Onion, write_onion, read_onion}

-- `CURRENT_VERSION` and `SWAP_PREFIX`
abbrev pub current_version : ℕ
current_version = 0

abbrev pub swap_prefix : ℕ
swap_prefix = b'S'

module _ (x : Crates) where
  pub data SwapStatus : Type 0 where
    unprocessed : SwapStatus
    in_process : x.Hash → SwapStatus
    completed : x.Hash → x.Hash → SwapStatus

  -- `Writeable for SwapStatus`
  unfoldable pub write_status : SwapStatus → Writer x.SerError
  write_status unprocessed = x.write_u8 0
  write_status (in_process kernel_hash) = do x.write_u8 1; x.write_hash kernel_hash
  write_status (completed kernel_hash block_hash) = do
    x.write_u8 2
    x.write_hash kernel_hash
    x.write_hash block_hash

  -- `Readable for SwapStatus`
  unfoldable pub read_status : Reader x.SerError SwapStatus
  read_status = do
    tag ← x.read_u8
    if tag == 0
        then done unprocessed
        else if tag == 1
        then (do kernel_hash ← x.read_hash; done (in_process kernel_hash))
        else if tag == 2
        then (do
          kernel_hash ← x.read_hash
          block_hash ← x.read_hash
          done (completed kernel_hash block_hash))
        else fail x.corrupted_data

  pub record SwapData : Type 0 where
    pub excess : x.SecretKey
    pub output_commit : x.Commitment
    pub rangeproof : Option x.RangeProof
    pub input : x.Input
    pub fee : ℕ
    pub onion : Onion x
    pub status : SwapStatus

  -- `Writeable for SwapData`
  unfoldable pub write_swap_data : SwapData → Writer x.SerError
  write_swap_data s = do
    x.write_u8 current_version
    x.write_fixed_bytes (x.secret_bytes s.excess)
    x.write_fixed_bytes (x.commit_bytes s.output_commit)
    write_optional x x.write_rangeproof s.rangeproof
    x.write_input s.input
    x.write_u64 s.fee
    write_onion x s.onion
    write_status s.status

  -- `Readable for SwapData`
  unfoldable pub read_swap_data : Reader x.SerError SwapData
  read_swap_data = do
    version ← x.read_u8
    _ ← ensure (version == current_version) x.unsupported_protocol_version
    excess ← read_secret_key x
    output_commit ← x.read_commitment
    rangeproof ← read_optional x x.read_rangeproof
    input ← x.read_input
    fee ← x.read_u64
    onion ← read_onion x
    status ← read_status
    done (record {
      excess = excess;
      output_commit = output_commit;
      rangeproof = rangeproof;
      input = input;
      fee = fee;
      onion = onion;
      status = status;
    })
