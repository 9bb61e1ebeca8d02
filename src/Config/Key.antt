-- ===== src/Config/Key.antt =====
-- `EncryptedServerKey` of src/config.rs. The salt and the nonce that `from_secret_key` draws are
-- arguments, and a password is its bytes.
use mwixnet.Base.{
  ℕ, [], ◌∷◌, length, Result, ok, err, panic, map_err, ◌>>=◌, ltb, zero, suc, if◌then◌else◌,
}
use mwixnet.Base.Codec.{Bytes}
use mwixnet.Ext.{Crates}
use mwixnet.Ext.Files.{Files}

-- Which text was not valid hex: "Seed", "Salt" or "Nonce".
pub data HexPart : Type 0 where
  seed salt nonce : HexPart

module _ (x : Crates) (f : Files) where
  pub data ConfigError : Type 0 where
    file_write_error : f.IoError → ConfigError
    encoding_error : f.EncodeError → ConfigError
    decoding_error : f.DecodeError → ConfigError
    invalid_hex : HexPart → ConfigError
    decryption_error : f.Unspecified → ConfigError
    invalid_server_key : ConfigError
    read_config_error : f.IoError → ConfigError

  pub record EncryptedServerKey : Type 0 where
    pub encrypted_key : f.Text
    pub salt : f.Text
    pub nonce : f.Text

  -- `.unwrap()` of a result
  abbrev pub expect : {E A : Type 0} → Result E A → Result ConfigError A
  expect (ok a) = ok a
  expect (err _) = panic
  expect panic = panic

  unfoldable pub from_secret_key :
      x.SecretKey → Bytes → Bytes → Bytes → Result ConfigError EncryptedServerKey
  from_secret_key server_key password salt_bytes nonce_bytes = do
    enc_bytes ←
        expect (
          f.seal_in_place (f.pbkdf2 100 salt_bytes password) nonce_bytes
            (x.secret_bytes server_key))
    ok (record {
      encrypted_key = f.to_hex enc_bytes;
      salt = f.to_hex salt_bytes;
      nonce = f.to_hex nonce_bytes;
    })

  -- `Vec::pop`, and the loop that pops the tag
  unfoldable pub pop : Bytes → Bytes
  pop [] = []
  pop (b ∷ []) = []
  pop (b ∷ c ∷ bs) = b ∷ pop (c ∷ bs)

  unfoldable pub pop_times : ℕ → Bytes → Bytes
  unfolding pop
  pop_times zero bytes = bytes
  pop_times (suc n) bytes = pop_times n (pop bytes)

  unfoldable pub take : ℕ → Bytes → Bytes
  take zero bytes = []
  take (suc n) [] = []
  take (suc n) (b ∷ bs) = b ∷ take n bs

  -- `n.copy_from_slice(&nonce[0..12])`, where the slice panics on fewer bytes
  unfoldable pub nonce_of : Bytes → Result ConfigError Bytes
  unfolding take
  nonce_of bytes = if ltb (length bytes) 12 then panic else ok (take 12 bytes)

  unfoldable pub decrypt : EncryptedServerKey → Bytes → Result ConfigError x.SecretKey
  unfolding pop_times nonce_of
  decrypt key password = do
    encrypted_seed ← map_err (λ _. invalid_hex HexPart.seed) (f.from_hex key.encrypted_key)
    salt_bytes ← map_err (λ _. invalid_hex HexPart.salt) (f.from_hex key.salt)
    nonce_bytes ← map_err (λ _. invalid_hex HexPart.nonce) (f.from_hex key.nonce)
    n ← nonce_of nonce_bytes
    opened ←
        map_err decryption_error
          (f.open_in_place (f.pbkdf2 100 salt_bytes password) n encrypted_seed)
    map_err (λ _. invalid_server_key) (x.secret_from_slice (pop_times f.tag_len opened))
