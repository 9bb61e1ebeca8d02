-- ===== src/Examples/ToyFiles.antt =====
-- Files over plain bytes that meet every assumption: text is bytes, sealing adds a tag of zeros, a
-- document is the configuration itself, and the file system is one file.
use mwixnet.Base.{ℕ, ◌≡◌, refl, [], ◌∷◌, ◌++◌, Option, none, some, Result, ok, err}
use mwixnet.Base.Codec.{Bytes}
use mwixnet.Ext.Files.{Files}
use mwixnet.Config.Save.{RawConfig, Toml, ServerConfig, write_config}
use mwixnet.Config.Key.{EncryptedServerKey}
use mwixnet.Config.RoundTrip.{FileLaws}
use mwixnet.Examples.Toy.{toy}

abbrev zeros : Bytes
zeros = 0 ∷ 0 ∷ 0 ∷ 0 ∷ 0 ∷ 0 ∷ 0 ∷ 0 ∷ 0 ∷ 0 ∷ 0 ∷ 0 ∷ 0 ∷ 0 ∷ 0 ∷ 0 ∷ []

abbrev found : Option (RawConfig Bytes ℕ) → Result (Unit {0}) (RawConfig Bytes ℕ)
found none = err tt
found (some raw) = ok raw

abbrev pub toy_files : Files
toy_files = record {
  Text = Bytes;
  Document = RawConfig Bytes ℕ;
  PathBuf = Unit {0};
  SocketAddr = ℕ;
  IoError = Unit {0};
  EncodeError = Unit {0};
  DecodeError = Unit {0};
  HexError = Unit {0};
  Unspecified = Unit {0};
  to_hex = λ b. b;
  from_hex = λ t. ok t;
  pbkdf2 = λ n salt secret. salt ++ secret;
  seal_in_place = λ key nonce plain. ok (plain ++ zeros);
  open_in_place = λ key nonce sealed. ok sealed;
  tag_len = 16;
  FileSystem = Option (RawConfig Bytes ℕ);
  File = Unit {0};
  file_create = λ path fs. (ok tt, none);
  file_write_all = λ file doc fs. (ok tt, some doc);
  read_to_string = λ path fs. found fs;
  get_first_line = λ path fs. none;
}

abbrev pub toy_toml : Toml toy_files
toy_toml = record { to_string = λ raw. ok raw; from_str = λ doc. ok doc }

pub toy-FileLaws : FileLaws toy_files toy_toml
toy-FileLaws = record {
  hex_lem = λ b. refl;
  seal_lem = λ key nonce plain h. (plain ++ zeros, zeros, refl, refl, refl);
  toml_lem = λ raw doc h. cc h;
  file_lem = λ path file doc fs h k. refl;
}

abbrev pub config : ServerConfig toy toy_files
config = record {
  key = 5;
  interval_s = 60;
  addr = 1;
  grin_node_url = 2;
  grin_node_secret_path = none;
  wallet_owner_url = 3;
  wallet_owner_secret_path = some (4 ∷ []);
}

abbrev pub nonce : Bytes
nonce = 1 ∷ 2 ∷ 3 ∷ 4 ∷ 5 ∷ 6 ∷ 7 ∷ 8 ∷ 9 ∷ 10 ∷ 11 ∷ 12 ∷ []

abbrev pub bad_key : EncryptedServerKey toy toy_files
bad_key = record { encrypted_key = []; salt = []; nonce = 1 ∷ [] }

pub written : (write_config toy toy_files toy_toml tt config (8 ∷ []) (9 ∷ []) nonce none).0 ≡ ok tt
unfolding write_config mwixnet.Config.Key.from_secret_key
written = refl
