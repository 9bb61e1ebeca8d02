-- ===== src/Ext/Files.antt =====
-- What the configuration uses of the standard library, `ring`, `toml` and `grin_util`: the file
-- system, key derivation, authenticated encryption, hexadecimal text and TOML documents.
use mwixnet.Base.{ℕ, Option, Result}
use mwixnet.Base.Codec.{Bytes}
use mwixnet.Base.Exec.{Exec}

pub record Files : Type 1 where
  -- `String`, the text of a TOML document, `PathBuf`, `SocketAddr`
  pub Text : Type 0
  pub Document : Type 0
  pub PathBuf : Type 0
  pub SocketAddr : Type 0
  pub IoError : Type 0
  pub EncodeError : Type 0
  pub DecodeError : Type 0
  pub HexError : Type 0
  -- `ring::error::Unspecified`
  pub Unspecified : Type 0
  -- `ToHex::to_hex` and `grin_util::from_hex`
  pub to_hex : Bytes → Text
  pub from_hex : Text → Result HexError Bytes
  -- `pbkdf2::derive` with HMAC-SHA512 into 32 bytes: iterations, salt, secret
  pub pbkdf2 : ℕ → Bytes → Bytes → Bytes
  -- ChaCha20-Poly1305 with no associated data (key, nonce, buffer): the buffer that
  -- `seal_in_place_append_tag` and `open_in_place` leave
  pub seal_in_place : Bytes → Bytes → Bytes → Result Unspecified Bytes
  pub open_in_place : Bytes → Bytes → Bytes → Result Unspecified Bytes
  -- `aead::AES_256_GCM.tag_len()`
  pub tag_len : ℕ
  -- `File::create`, `write_all` of a document's bytes, `read_to_string`
  pub FileSystem : Type 0
  pub File : Type 0
  pub file_create : PathBuf → Exec FileSystem IoError File
  pub file_write_all : File → Document → Exec FileSystem IoError (Unit {0})
  pub read_to_string : PathBuf → FileSystem → Result IoError Document
  -- `get_first_line` of `grin_util::file`
  pub get_first_line : Option Text → FileSystem → Option Text
