-- ===== src/Examples/ToyNet.antt =====
-- A network over the toy crates: a JSON value is a number, the node reports every commitment that
-- it is asked about as unspent, and the wallet refuses to build outputs.
use mwixnet.Base.{
  ℕ, zero, suc, ◌≡◌, refl, [], ◌∷◌, List, Option, none, some, ok, err, panic, is_some, ap, arith,
  ℕ_discrete,
}
use mwixnet.Base.Codec.{Bytes}
use mwixnet.Ext.Grin.{transaction}
use mwixnet.Ext.Net.{Net, FormLaws}
use mwixnet.Ext.System.{System, SystemLaws, Literal}
use mwixnet.Examples.Toy.{toy}
use mwixnet.Examples.ToyFiles.{toy_files}

abbrev first : {A : Type 0} → A → List A → A
first d [] = d
first d (a ∷ _) = a

abbrev if_positive : ℕ → Option ℕ
if_positive zero = none
if_positive (suc n) = some n

abbrev pub toy_net : Net toy toy_files
toy_net = record {
  pubkey_serialize_vec = λ p. p ∷ [];
  pubkey_from_slice = λ b. ok (first 0 b);
  commitment_from_vec = first 0;
  Json = ℕ;
  json_null = 0;
  json_bool = λ b. 0;
  json_number = λ n. n;
  json_text = first 0;
  json_array = first 0;
  json_tx = λ tx. 0;
  outputs_from_value = λ v. ok ((transaction, v, none) ∷ []);
  tip_from_value = λ v. ok v;
  pubkey_from_value = λ v. ok v;
  Token = Bytes;
  token_from_value = λ v. ok (v ∷ []);
  blind_output_from_value = λ v. ok (v, (v, v));
  index_ok = λ v. v;
  get_ok = if_positive;
  keychain_mask = λ t. some t;
  open_wallet_params = λ t. 1;
  init_params = λ t. 1;
  build_output_params = λ mask amount. 0;
  Request = ℕ;
  Response = ℕ;
  build_request = λ m v. v;
  into_result = λ A decode r. elim (decode r) [ ok a ↦ ok a | err _ ↦ err tt | panic ↦ panic ];
  response_from_value = λ v. ok v;
  response_result = λ r. some r;
  post = λ url e secret r. ok r;
  EncryptedRequest = ℕ;
  EncryptedResponse = ℕ;
  encrypt_request = λ m v k. ok v;
  post_encrypted = λ url e secret r. ok r;
  decrypt = λ r k. ok r;
}

pub toy_forms : FormLaws toy toy_files toy_net
toy_forms = record { hex_lem = λ b. refl; pubkey_lem = λ p. refl; commit_lem = λ c. refl }

abbrev literal_text : Literal → Bytes
literal_text Literal.grin_home = 1 ∷ []
literal_text Literal.node_api_secret_file_name = 2 ∷ []
literal_text Literal.wallet_owner_api_secret_file_name = 3 ∷ []
literal_text Literal.config_file_name = 4 ∷ []
literal_text Literal.db_directory = 5 ∷ []
literal_text Literal.any_address = 6 ∷ []
literal_text Literal.testnet_node_address = 7 ∷ []
literal_text Literal.mainnet_node_address = 8 ∷ []
literal_text Literal.owner_address = 9 ∷ []
literal_text Literal.first_text = 10 ∷ []
literal_text Literal.second_text = 11 ∷ []

pub tail_eq : (a b : ℕ) (as' bs : Bytes) → ◌≡◌ {A = Bytes} (a ∷ as') (b ∷ bs) → as' ≡ bs
tail_eq a b as' bs h = cc h

abbrev pub text_dec : (a b : Bytes) → Dec (a ≡ b)
text_dec [] [] = yes refl
text_dec [] (b ∷ bs) = no λ h. cc h
text_dec (a ∷ as') [] = no λ h. cc h
text_dec (a ∷ as') (b ∷ bs) = elim (ℕ_discrete a b) [
  | no n ↦ no λ h. n (ap (first 0) h)
  | yes e ↦ elim (text_dec as' bs) [
    | no n ↦ no λ h. n (tail_eq a b as' bs h)
    | yes q ↦ yes (rw (e, q) refl)
  ]
]

abbrev pub toy_system : System toy toy_files
toy_system = record {
  literal = literal_text;
  text_dec = text_dec;
  as_bytes = λ t. t;
  shortname = λ c. [];
  home_dir = none;
  path_new = tt;
  path_from = λ t. tt;
  path_push = λ p t. tt;
  to_str = λ p. some [];
  exists = λ p fs. is_some fs;
  AddrError = Unit {0};
  IntError = Unit {0};
  parse_addr = λ t. ok (first 0 t);
  parse_u32 = λ t. ok (first 0 t);
  store_new = λ t fs. (ok [], fs);
  db_root_error = tt;
  RuntimeError = Unit {0};
  runtime_new = ok tt;
}

pub toy_system-SystemLaws : SystemLaws toy toy_files toy_system
toy_system-SystemLaws = record { first_second = λ h. absurd (differ h) }
  where
    differ : ◌≡◌ {A = Bytes} (10 ∷ []) (11 ∷ []) → ⊥
    differ h = absurd (omega (arith, ap (first 0) h))
