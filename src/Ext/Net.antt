-- ===== src/Ext/Net.antt =====
-- What the program uses of `serde_json`, `grin_api`, `grin_wallet_api` and of the hex and byte
-- forms of keys: JSON values, one HTTP request and its answer, and the encryption of the wallet's
-- API.
use mwixnet.Base.{ℕ, Bool, Option, List, Result, ok, ◌≡◌}
use mwixnet.Base.Codec.{Bytes}
use mwixnet.Ext.{Crates}
use mwixnet.Ext.Files.{Files}

-- The texts of the program that only the other side tells apart: `ENDPOINT` of the node and of the
-- wallet, and the methods of both.
pub data Endpoint : Type 0 where
  v2_foreign v3_owner : Endpoint

pub data Method : Type 0 where
  get_outputs get_tip push_transaction init_secure_api open_wallet build_output : Method

pub record Net (x : Crates) (f : Files) : Type 1 where
  -- `PublicKey::{serialize_vec, from_slice}` (compressed), `Commitment::from_vec`
  pub pubkey_serialize_vec : x.PublicKey → Bytes
  pub pubkey_from_slice : Bytes → Result x.SecpError x.PublicKey
  pub commitment_from_vec : Bytes → x.Commitment
  -- `serde_json::Value` as `json!` builds it
  pub Json : Type 0
  pub json_null : Json
  pub json_bool : Bool → Json
  pub json_number : ℕ → Json
  pub json_text : f.Text → Json
  pub json_array : List Json → Json
  pub json_tx : x.Transaction → Json
  -- `from_value` at `Vec<OutputPrintable>`, at the height of `Tip`, at `ECDHPubkey`, at `Token`,
  -- and at `OutputWithBlind`
  pub outputs_from_value : Json → Result x.JsonError (List x.OutputPrintable)
  pub tip_from_value : Json → Result x.JsonError ℕ
  pub pubkey_from_value : Json → Result x.JsonError x.PublicKey
  pub Token : Type 0
  pub token_from_value : Json → Result x.JsonError Token
  pub blind_output_from_value : Json → Result x.JsonError (x.BlindingFactor × x.Output)
  -- `value["Ok"]`, which is null where there is none, and `value.get("Ok")`
  pub index_ok : Json → Json
  pub get_ok : Json → Option Json
  -- `token.keychain_mask` with the bytes in it
  pub keychain_mask : Token → Option Bytes
  -- `json!({"name": null, "password": …})` and `json!({"token": …, "features": "Plain", "amount":
  -- …})`
  pub open_wallet_params : f.Text → Json
  pub init_params : f.Text → Json
  pub build_output_params : Bytes → ℕ → Json
  -- `grin_api::json_rpc`: `build_request`, and `into_result` at a type that is read from a value
  pub Request : Type 0
  pub Response : Type 0
  pub build_request : Method → Json → Request
  pub into_result : (A : Type 0) → (Json → Result x.JsonError A) → Response → Result x.RpcError A
  pub response_from_value : Json → Result x.JsonError Response
  pub response_result : Response → Option Json
  -- `client::post` to an address and an endpoint, with the API secret
  pub post : f.SocketAddr → Endpoint → Option f.Text → Request → Result x.ApiError Response
  -- `grin_wallet_api`: `EncryptedRequest::from_json`, of the request with a method and parameters,
  -- the post of it, and `EncryptedResponse::decrypt`
  pub EncryptedRequest : Type 0
  pub EncryptedResponse : Type 0
  pub encrypt_request : Method → Json → x.SecretKey → Result x.LibwalletError EncryptedRequest
  pub post_encrypted :
      f.SocketAddr
      → Endpoint
      → Option f.Text
      → EncryptedRequest
      → Result x.ApiError EncryptedResponse
  pub decrypt : EncryptedResponse → x.SecretKey → Result x.LibwalletError Json

-- What the proofs assume of the forms of bytes: hexadecimal text is read back, and so are the bytes
-- of a public key and of a commitment.
pub record FormLaws (x : Crates) (f : Files) (n : Net x f) : Type 0 where
  pub hex_lem : (b : Bytes) → f.from_hex (f.to_hex b) ≡ ok b
  pub pubkey_lem : (p : x.PublicKey) → n.pubkey_from_slice (n.pubkey_serialize_vec p) ≡ ok p
  pub commit_lem : (c : x.Commitment) → n.commitment_from_vec (x.commit_bytes c) ≡ c
