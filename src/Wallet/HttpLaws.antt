-- ===== src/Wallet/HttpLaws.antt =====
-- What `HttpWallet` makes of an answer without "Ok".
use mwixnet.Base.{ℕ, ◌≡◌, refl, none, some, ok, panic}
use mwixnet.Base.Codec.{Bytes}
use mwixnet.Ext.{Crates}
use mwixnet.Ext.Files.{Files}
use mwixnet.Ext.Net.{Net, Method, v3_owner}
use mwixnet.Wallet.Http.{HttpWallet, send_enc_request, http_build_output, http_wallet}

module _ (x : Crates) (f : Files) (n : Net x f) where
  -- The wallet answers the request for an output of `amount`, and the answer decrypts to a JSON-RPC
  -- response whose result has no "Ok", as that of an error of the wallet.
  pub record Refused (wallet : HttpWallet x f n) (amount : ℕ) : Type 0 where
    pub mask : Bytes
    pub mask_lem : n.keychain_mask wallet.token ≡ some mask
    pub request : n.EncryptedRequest
    pub request_lem :
        n.encrypt_request Method.build_output (n.build_output_params mask amount) wallet.shared_key
        ≡ ok request
    pub answer : n.EncryptedResponse
    pub answer_lem :
        n.post_encrypted wallet.wallet_owner_url v3_owner wallet.wallet_owner_secret request
        ≡ ok answer
    pub decrypted : n.Json
    pub decrypted_lem : n.decrypt answer wallet.shared_key ≡ ok decrypted
    pub response : n.Response
    pub response_lem : n.response_from_value decrypted ≡ ok response
    pub result : n.Json
    pub result_lem : n.response_result response ≡ some result
    pub no_ok : n.get_ok result ≡ none

  -- Where the wallet refuses a request for an output, `build_output` panics.
  pub http_build_output-Refused :
      (wallet : HttpWallet x f n) (amount : ℕ)
      → Refused wallet amount
      → (http_wallet x f n wallet).build_output amount ≡ panic
  unfolding http_wallet http_build_output send_enc_request
  http_build_output-Refused wallet amount r =
      rw
        (
          r.mask_lem, r.request_lem, r.answer_lem, r.decrypted_lem, r.response_lem, r.result_lem,
          r.no_ok,
        )
        refl
