-- ===== src/Ext/Secp.antt =====
-- What the program uses of `secp256k1zkp`, `sha2`, `hmac`, `chacha20` and `blake2`: the types are
-- abstract, and every function is a parameter. The context argument `Secp256k1` is left out: each
-- operation is the one under the context that the program builds for it.
use mwixnet.Base.{ℕ, Option, List, Result}
use mwixnet.Base.Codec.{Bytes}

pub record Secp : Type 1 where
  pub SecretKey : Type 0
  pub PublicKey : Type 0
  pub Commitment : Type 0
  pub RangeProof : Type 0
  pub SharedSecret : Type 0
  pub Signature : Type 0
  pub Message : Type 0
  pub SecpError : Type 0
  -- `commitment == commitment`, `commitment` as a key of `HashMap` or of `unique_by`
  pub commitment_dec : Discrete Commitment
  -- the bytes of `SecretKey`, `Commitment` (`.0`, `as_ref`) and of `&shared_secret[0..32]`
  pub secret_bytes : SecretKey → Bytes
  pub commit_bytes : Commitment → Bytes
  pub shared_bytes : SharedSecret → Bytes
  pub secret_key_size : ℕ
  pub zero_key : SecretKey
  pub secret_from_slice : Bytes → Result SecpError SecretKey
  -- `SecretKey::{add_assign, mul_assign}` and `PublicKey::{from_secret_key, mul_assign}`
  pub secret_add : SecretKey → SecretKey → Result SecpError SecretKey
  pub secret_mul : SecretKey → SecretKey → Result SecpError SecretKey
  pub public_from_secret : SecretKey → Result SecpError PublicKey
  pub public_mul : PublicKey → SecretKey → Result SecpError PublicKey
  pub shared_secret : PublicKey → SecretKey → SharedSecret
  -- `commit`, `commit_blind`, `commit_sum`, `blind_sum`
  pub commit : ℕ → SecretKey → Result SecpError Commitment
  pub commit_blind : SecretKey → SecretKey → Result SecpError Commitment
  pub commit_sum : List Commitment → List Commitment → Result SecpError Commitment
  pub blind_sum : List SecretKey → List SecretKey → Result SecpError SecretKey
  pub commit_to_pubkey : Commitment → Result SecpError PublicKey
  pub commit_from_pubkey : PublicKey → Result SecpError Commitment
  pub verify_bullet_proof : Commitment → RangeProof → Result SecpError (Unit {0})
  -- `aggsig::sign_single` with no nonce and the signer's public key
  pub sign_single : Message → SecretKey → PublicKey → Result SecpError Signature
  -- SHA-256 and 32-byte Blake2b of the concatenated updates, HMAC-SHA256 (key, then message) with
  -- `None` for the error `InvalidLength`
  pub sha256 : Bytes → Bytes
  pub blake2b : Bytes → Bytes
  pub hmac_sha256 : Bytes → Bytes → Option Bytes
  -- `ChaCha20::new` (key, nonce) and `apply_keystream`, which moves the cipher on
  pub ChaCha20 : Type 0
  pub chacha20_new : Bytes → Bytes → ChaCha20
  pub apply_keystream : ChaCha20 → Bytes → Bytes × ChaCha20
