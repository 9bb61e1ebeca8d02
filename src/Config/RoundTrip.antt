-- ===== src/Config/RoundTrip.antt =====
-- The server key comes back from its encrypted form, and the configuration from its file.
use mwixnet.Base.{
  ℕ, ◌≡◌, ◌<◌, refl, ap, ◌∙◌, zero, suc, [], ◌∷◌, ◌++◌, length, append-nil, ok, panic, err_ok,
  panic_ok, ltb, true, arith, ended, returned, failed, panicked,
}
use mwixnet.Base.Codec.{Bytes}
use mwixnet.Ext.{Crates}
use mwixnet.Ext.Files.{Files}
use mwixnet.Ext.Laws.{IsKey}
use mwixnet.Config.Key.{
  EncryptedServerKey, from_secret_key, decrypt, pop, pop_times, take, nonce_of,
}
use mwixnet.Config.Save.{RawConfig, Toml, ServerConfig, write_config, load_config}

-- What the proofs assume: hexadecimal text is read back, a sealed buffer is opened, under the same
-- key and nonce, to the plain bytes with a tag behind them, a document is read back, and what a
-- file was created with and written is what is read from its path.
pub record FileLaws (f : Files) (toml : Toml f) : Type 0 where
  pub hex_lem : (b : Bytes) → f.from_hex (f.to_hex b) ≡ ok b
  pub seal_lem :
      (key nonce plain : Bytes)
      → length nonce ≡ 12
      → (sealed : Bytes) × (tag : Bytes) × (length tag ≡ f.tag_len)
        × (f.seal_in_place key nonce plain ≡ ok sealed)
        × (f.open_in_place key nonce sealed ≡ ok (plain ++ tag))
  pub toml_lem :
      (raw : RawConfig f.Text f.SocketAddr) (doc : f.Document)
      → toml.to_string raw ≡ ok doc
      → toml.from_str doc ≡ ok raw
  pub file_lem :
      (path : f.PathBuf) (file : f.File) (doc : f.Document) (fs : f.FileSystem)
      → (f.file_create path fs).0 ≡ ok file
      → (f.file_write_all file doc (f.file_create path fs).1).0 ≡ ok tt
      → f.read_to_string path (f.file_write_all file doc (f.file_create path fs).1).1 ≡ ok doc

module _ (x : Crates) (f : Files) where
  pop-append : (a : Bytes) (b : ℕ) (bs : Bytes) → pop x f (a ++ (b ∷ bs)) ≡ a ++ pop x f (b ∷ bs)
  unfolding pop
  pop-append [] b bs = refl
  pop-append (c ∷ []) b bs = refl
  pop-append (c ∷ d ∷ a) b bs = ap (λ t. c ∷ t) (pop-append (d ∷ a) b bs)

  length-pop : (b : ℕ) (bs : Bytes) → length (pop x f (b ∷ bs)) ≡ length bs
  unfolding pop
  length-pop b [] = refl
  length-pop b (c ∷ bs) = ap suc (length-pop c bs)

  pop_times-append : (n : ℕ) (a tag : Bytes) → length tag ≡ n → pop_times x f n (a ++ tag) ≡ a
  unfolding pop_times
  pop_times-append zero a [] h = append-nil a
  pop_times-append zero a (b ∷ tag) h = absurd (omega arith)
  pop_times-append (suc n) a [] h = absurd (omega arith)
  pop_times-append (suc n) a (b ∷ tag) h =
      rw (pop-append a b tag)
        (pop_times-append n a (pop x f (b ∷ tag)) (length-pop b tag ∙ omega arith))

  take_all : (n : ℕ) (b : Bytes) → length b ≡ n → take x f n b ≡ b
  unfolding take
  take_all zero [] h = refl
  take_all zero (c ∷ b) h = absurd (omega arith)
  take_all (suc n) [] h = refl
  take_all (suc n) (c ∷ b) h = ap (λ t. c ∷ t) (take_all n b (omega arith))

  nonce_of_all : (b : Bytes) → length b ≡ 12 → nonce_of x f b ≡ ok b
  unfolding nonce_of
  nonce_of_all b h = rw (h, take_all 12 b h) refl

  module _ (toml : Toml f) (L : FileLaws f toml) where
    -- A valid server key, encrypted under a password with any salt and a nonce of 12 bytes, is
    -- encrypted without error or panic, and is decrypted again under that password.
    pub decrypt-from_secret_key :
        (key : x.SecretKey) (password salt nonce : Bytes)
        → IsKey x key
        → length nonce ≡ 12
        → (e : EncryptedServerKey x f) × (from_secret_key x f key password salt nonce ≡ ok e)
          × (decrypt x f e password ≡ ok key)
    unfolding from_secret_key decrypt
    decrypt-from_secret_key key password salt nonce h n =
        let (sealed, tag, size, es, eo) =
          L.seal_lem (f.pbkdf2 100 salt password) nonce (x.secret_bytes key) n in
        (
          record { encrypted_key = f.to_hex sealed; salt = f.to_hex salt; nonce = f.to_hex nonce },
          rw es refl,
          rw
              (
                L.hex_lem sealed,
                L.hex_lem salt,
                L.hex_lem nonce,
                nonce_of_all nonce n,
                eo,
                pop_times-append f.tag_len (x.secret_bytes key) tag size,
                h,
              )
              refl,
        )

    -- A nonce of fewer than 12 bytes in the file makes `decrypt` panic, although its seed and salt
    -- are valid hex.
    pub decrypt_short_nonce :
        (key : EncryptedServerKey x f) (password sealed salt nonce : Bytes)
        → f.from_hex key.encrypted_key ≡ ok sealed
        → f.from_hex key.salt ≡ ok salt
        → f.from_hex key.nonce ≡ ok nonce
        → length nonce < 12
        → decrypt x f key password ≡ panic
    unfolding decrypt nonce_of
    decrypt_short_nonce key password sealed salt nonce es et en h =
        rw (es, et, en, lt_true (length nonce) h) refl
      where
        lt_true : (n : ℕ) → n < 12 → ltb n 12 ≡ true
        lt_true n k = ground arith

    -- What `write_config` wrote without error, with a valid server key and a nonce of 12 bytes,
    -- `load_config` reads back from the same path, under the same password, as the configuration
    -- that was written.
    pub load_config-write_config :
        (path : f.PathBuf) (config : ServerConfig x f) (password salt nonce : Bytes)
        (fs : f.FileSystem)
        → IsKey x config.key
        → length nonce ≡ 12
        → (write_config x f toml path config password salt nonce fs).0 ≡ ok tt
        → load_config x f toml path password
            (write_config x f toml path config password salt nonce fs).1
          ≡ ok config
    unfolding write_config load_config
    load_config-write_config path config password salt nonce fs h n e =
        let (key, ek, ed) = decrypt-from_secret_key config.key password salt nonce h n in
        elim (ended (toml.to_string (raw key))) [
          | failed _ q ↦ err_ok (rw (ek, q) at e)
          | panicked q ↦ panic_ok (rw (ek, q) at e)
          | returned doc q ↦ elim (ended (f.file_create path fs).0) [
            | failed _ r ↦ err_ok (rw (ek, q, r) at e)
            | panicked r ↦ panic_ok (rw (ek, q, r) at e)
            | returned file r ↦
                elim (ended (f.file_write_all file doc (f.file_create path fs).1).0) [
                  | failed _ s ↦ err_ok (rw (ek, q, r, s) at e)
                  | panicked s ↦ panic_ok (rw (ek, q, r, s) at e)
                  | returned _ s ↦
                      rw (ek, q, r, L.file_lem path file doc fs r s, L.toml_lem (raw key) doc q, ed)
                        refl
                ]
          ]
        ]
      where
        raw : EncryptedServerKey x f → RawConfig f.Text f.SocketAddr
        raw key = record {
          encrypted_key = key.encrypted_key;
          salt = key.salt;
          nonce = key.nonce;
          interval_s = config.interval_s;
          addr = config.addr;
          grin_node_url = config.grin_node_url;
          grin_node_secret_path = config.grin_node_secret_path;
          wallet_owner_url = config.wallet_owner_url;
          wallet_owner_secret_path = config.wallet_owner_secret_path;
        }
