-- ===== src/Wallet/Http.antt =====
-- `HttpWallet` of src/wallet.rs: the wallet over its encrypted JSON-RPC, as a value of `Wallet`.
-- The ephemeral key of `init_secure_api` is an argument.
use mwixnet.Base.{ℕ, [], ◌∷◌, Option, Result, ok, err, panic, map_err, unwrap, ◌>>=◌}
use mwixnet.Base.Codec.{Bytes}
use mwixnet.Ext.{Crates}
use mwixnet.Ext.Files.{Files}
use mwixnet.Ext.Net.{Net, Method, v3_owner}
use mwixnet.Wallet.{
  Wallet, WalletError, api_comm_error, response_parse_error, decode_response_error,
  encrypt_request_error, decrypt_response_error,
}

module _ (x : Crates) (f : Files) (n : Net x f) where
  pub record HttpWallet : Type 0 where
    pub wallet_owner_url : f.SocketAddr
    pub wallet_owner_secret : Option f.Text
    pub shared_key : x.SecretKey
    pub token : n.Token

  -- `.unwrap()` of a result
  abbrev pub must : {E A : Type 0} → Result E A → Result (WalletError x) A
  must (ok a) = ok a
  must (err _) = panic
  must panic = panic

  -- `&x_coord[1..]`, which panics on an empty slice
  abbrev pub tail : Bytes → Result (WalletError x) Bytes
  tail [] = panic
  tail (_ ∷ bytes) = ok bytes

  -- `HttpWallet::send_json_request`, at the type that `decode` reads
  unfoldable pub send_json_request :
      {A : Type 0}
      → f.SocketAddr
      → Option f.Text
      → (n.Json → Result x.JsonError A)
      → Method
      → n.Json
      → Result (WalletError x) A
  send_json_request {A = A} url secret decode method params = do
    let req = n.build_request method params
    res ← map_err api_comm_error (n.post url v3_owner secret req)
    map_err response_parse_error (n.into_result A decode res)

  -- `HttpWallet::send_enc_request`, at the type that `decode` reads
  unfoldable pub send_enc_request :
      {A : Type 0}
      → f.SocketAddr
      → Option f.Text
      → (n.Json → Result x.JsonError A)
      → Method
      → n.Json
      → x.SecretKey
      → Result (WalletError x) A
  send_enc_request url secret decode method params shared_key = do
    enc_req ← map_err encrypt_request_error (n.encrypt_request method params shared_key)
    res ← map_err api_comm_error (n.post_encrypted url v3_owner secret enc_req)
    decrypted ← map_err decrypt_response_error (n.decrypt res shared_key)
    response ← map_err decode_response_error (n.response_from_value decrypted)
    result ← unwrap (n.response_result response)
    ok_value ← unwrap (n.get_ok result)
    map_err decode_response_error (decode ok_value)

  unfoldable pub init_secure_api :
      f.SocketAddr → Option f.Text → x.SecretKey → Result (WalletError x) x.SecretKey
  unfolding send_json_request
  init_secure_api url secret ephemeral_sk = do
    ephemeral_pk ← must (x.public_from_secret ephemeral_sk)
    let init_params = n.init_params (f.to_hex (n.pubkey_serialize_vec ephemeral_pk))
    response_pk ←
        send_json_request url secret n.pubkey_from_value Method.init_secure_api init_params
    shared_pubkey ← must (x.public_mul response_pk ephemeral_sk)
    x_coord ← tail (n.pubkey_serialize_vec shared_pubkey)
    must (x.secret_from_slice x_coord)

  -- `HttpWallet::open_wallet`
  unfoldable pub open_wallet :
      f.SocketAddr → Option f.Text → f.Text → x.SecretKey → Result (WalletError x) HttpWallet
  unfolding init_secure_api send_enc_request
  open_wallet url secret wallet_pass ephemeral_sk = do
    shared_key ← init_secure_api url secret ephemeral_sk
    token ←
        send_enc_request url secret n.token_from_value Method.open_wallet
          (n.open_wallet_params wallet_pass) shared_key
    ok (record {
      wallet_owner_url = url;
      wallet_owner_secret = secret;
      shared_key = shared_key;
      token = token;
    })

  unfoldable pub http_build_output :
      HttpWallet → ℕ → Result (WalletError x) (x.BlindingFactor × x.Output)
  unfolding send_enc_request
  http_build_output wallet amount = do
    mask ← unwrap (n.keychain_mask wallet.token)
    send_enc_request wallet.wallet_owner_url wallet.wallet_owner_secret n.blind_output_from_value
        Method.build_output (n.build_output_params mask amount) wallet.shared_key

  -- `impl Wallet for HttpWallet`
  unfoldable pub http_wallet : HttpWallet → Wallet x
  unfolding http_build_output
  http_wallet wallet = record { build_output = http_build_output wallet }
