-- ===== src/Ext/Grin.antt =====
-- What the program uses of the `grin` crates: serialization, transaction building, the key-value
-- store over LMDB, and the answers of a node. Types are abstract, and functions are parameters.
use mwixnet.Base.{ℕ, Bool, Option, List, Result}
use mwixnet.Base.Codec.{Bytes, Reader, Writer}
use mwixnet.Ext.Secp.{Secp}

-- `grin_api::OutputType`: the two variants that the program matches.
pub data OutputType : Type 0 where
  coinbase transaction : OutputType

pub record Grin (s : Secp) : Type 1 where
  -- `grin_core::ser`
  pub SerError : Type 0
  pub corrupted_data : SerError
  pub unsupported_protocol_version : SerError
  pub write_u8 : ℕ → Writer SerError
  pub write_u64 : ℕ → Writer SerError
  pub write_fixed_bytes : Bytes → Writer SerError
  pub read_u8 : Reader SerError ℕ
  pub read_u64 : Reader SerError ℕ
  pub read_fixed_bytes : ℕ → Reader SerError Bytes
  -- `Vec<u8>::write`
  pub write_bytes : Bytes → Writer SerError
  pub write_pubkey : s.PublicKey → Writer SerError
  pub read_pubkey : Reader SerError s.PublicKey
  pub read_commitment : Reader SerError s.Commitment
  pub write_rangeproof : s.RangeProof → Writer SerError
  pub read_rangeproof : Reader SerError s.RangeProof
  pub Hash : Type 0
  pub write_hash : Hash → Writer SerError
  pub read_hash : Reader SerError Hash
  -- `ser_vec`, of a value's writer; `deserialize`, of a type's reader
  pub ser_vec : Writer SerError → Result SerError Bytes
  pub deserialize : (A : Type 0) → Reader SerError A → Bytes → Result SerError A
  -- `grin_core::core`
  pub TxError : Type 0
  pub FeeFields : Type 0
  pub fee_fields_new : ℕ → ℕ → Result TxError FeeFields
  pub fee_fields_try_from : ℕ → Result TxError FeeFields
  pub fee_fields_into : FeeFields → ℕ
  pub OutputFeatures : Type 0
  pub plain_features : OutputFeatures
  pub coinbase_features : OutputFeatures
  pub Input : Type 0
  pub input_new : OutputFeatures → s.Commitment → Input
  pub input_commit : Input → s.Commitment
  pub write_input : Input → Writer SerError
  pub read_input : Reader SerError Input
  pub Output : Type 0
  pub output_new : OutputFeatures → s.Commitment → s.RangeProof → Output
  pub TxKernel : Type 0
  -- `TxKernel::with_features(KernelFeatures::Plain { fee })`
  pub kernel_with_plain_features : FeeFields → TxKernel
  pub kernel_msg_to_sign : TxKernel → Result TxError s.Message
  -- the assignments to `kernel.excess` and `kernel.excess_sig`
  pub kernel_set_excess : TxKernel → s.Commitment → TxKernel
  pub kernel_set_excess_sig : TxKernel → s.Signature → TxKernel
  pub kernel_verify : TxKernel → Result TxError (Unit {0})
  pub kernel_hash : TxKernel → Hash
  pub BlindingFactor : Type 0
  pub blinding_bytes : BlindingFactor → Bytes
  pub blinding_from_secret : s.SecretKey → BlindingFactor
  pub Transaction : Type 0
  pub transaction_new : List Input → List Output → List TxKernel → Transaction
  pub transaction_with_offset : Transaction → BlindingFactor → Transaction
  pub transaction_kernels : Transaction → List TxKernel
  -- `TransactionBody::weight_by_iok`, `DEFAULT_ACCEPT_FEE_BASE`, `COINBASE_MATURITY`
  pub weight_by_iok : ℕ → ℕ → ℕ → ℕ
  pub default_accept_fee_base : ℕ
  pub coinbase_maturity : ℕ
  -- `grin_api::OutputPrintable`, by the fields that are read
  pub OutputPrintable : Type 0
  pub output_type : OutputPrintable → OutputType
  pub printable_commit : OutputPrintable → s.Commitment
  pub block_height : OutputPrintable → Option ℕ
  -- errors of calls over HTTP, of JSON and of the wallet's library
  pub ApiError : Type 0
  pub JsonError : Type 0
  pub RpcError : Type 0
  pub LibwalletError : Type 0
  -- `grin_store`: `Store::batch`, `Batch::{exists, put, commit}`, `Store::{get_ser, iter}`,
  -- `to_key`. A `Batch` that is not committed changes nothing.
  pub LmdbError : Type 0
  pub Db : Type 0
  pub Batch : Type 0
  pub to_key : ℕ → Bytes → Bytes
  pub db_batch : Db → Result LmdbError Batch
  pub batch_exists : Batch → Bytes → Result LmdbError Bool
  pub batch_put : Batch → Bytes → Bytes → Result LmdbError Batch
  pub batch_commit : Batch → Result LmdbError Db
  -- the value at a key through a reader, `option_to_not_found` included
  pub db_get_ser : (A : Type 0) → Reader SerError A → Db → Bytes → Result LmdbError A
  -- the values whose keys have a prefix, each through a reader
  pub db_iter : (A : Type 0) → Reader SerError A → Db → Bytes → Result LmdbError (List A)
