-- ===== src/Examples/Toy.antt =====
-- Crates over plain numbers that meet every assumption: a value is written as one number, keys and
-- commitments are numbers, the cipher changes nothing, and the database is a list of entries.
use mwixnet.Base.{
  ℕ, zero, suc, ◌+◌, ◌-◌, ◌*◌, ◌%◌, ◌^◌, [], ◌∷◌, ◌++◌, List, Option, none, some, Bool, true, false,
  ℕ_discrete, Result, ok, err, panic, is_some, if◌then◌else◌, ◌==◌,
}
use mwixnet.Base.Codec.{Bytes, Reader, Writer}
use mwixnet.Ext.{Crates}
use mwixnet.Ext.Secp.{Secp}
use mwixnet.Ext.Grin.{Grin, OutputType}

abbrev pub Db : Type 0
Db = List (Bytes × Bytes)

abbrev pub same : Bytes → Bytes → Bool
same [] [] = true
same [] (b ∷ bs) = false
same (a ∷ as') [] = false
same (a ∷ as') (b ∷ bs) = let rest = same as' bs in if a == b then rest else false

abbrev pub lookup : Db → Bytes → Option Bytes
lookup [] k = none
lookup ((j, v) ∷ d) k = if same k j then some v else lookup d k

-- What is left of a key behind a prefix.
abbrev pub strip : Bytes → Bytes → Option Bytes
strip [] k = some k
strip (a ∷ p) [] = none
strip (a ∷ p) (b ∷ k) = let rest = strip p k in if a == b then rest else none

abbrev pub put1 : {E : Type 0} → ℕ → Writer E
put1 n out = ok (out ++ (n ∷ []))

abbrev pub get1 : Reader (Unit {0}) ℕ
get1 [] = err tt
get1 (n ∷ rest) = ok (n, rest)

abbrev pub put_all : {E : Type 0} → Bytes → Writer E
put_all b out = ok (out ++ b)

abbrev pub get_all : ℕ → Reader (Unit {0}) Bytes
get_all zero input = ok ([], input)
get_all (suc n) [] = err tt
get_all (suc n) (b ∷ input) = elim (get_all n input) [
  | ok (bs, rest) ↦ ok (b ∷ bs, rest)
  | err e ↦ err e
  | panic ↦ panic
]

abbrev pub one : Bytes → Result (Unit {0}) ℕ
one (n ∷ []) = ok n
one _ = err tt

abbrev pub sum : List ℕ → ℕ
sum [] = 0
sum (n ∷ ns) = n + sum ns

abbrev pub toy_secp : Secp
toy_secp = record {
  SecretKey = ℕ;
  PublicKey = ℕ;
  Commitment = ℕ;
  RangeProof = ℕ;
  SharedSecret = ℕ;
  Signature = ℕ;
  Message = ℕ;
  SecpError = Unit {0};
  commitment_dec = ℕ_discrete;
  secret_bytes = λ k. k ∷ [];
  commit_bytes = λ c. c ∷ [];
  shared_bytes = λ s. s ∷ [];
  secret_key_size = 1;
  zero_key = 0;
  secret_from_slice = one;
  secret_add = λ a b. ok (a + b);
  secret_mul = λ a b. ok (a * b);
  public_from_secret = λ k. ok k;
  public_mul = λ p k. ok (p * k);
  shared_secret = λ p k. p * k;
  commit = λ v b. ok (v + b);
  commit_blind = λ a b. ok (a + b);
  commit_sum = λ ps ns. ok (sum ps - sum ns);
  blind_sum = λ ps ns. ok (sum ps - sum ns);
  commit_to_pubkey = λ c. ok c;
  commit_from_pubkey = λ p. ok p;
  verify_bullet_proof = λ c r. if c == r then ok tt else err tt;
  sign_single = λ m k p. ok (m + k);
  sha256 = λ b. 1 ∷ [];
  blake2b = λ b. 3 ∷ [];
  hmac_sha256 = λ k m. some (9 ∷ []);
  ChaCha20 = Unit {0};
  chacha20_new = λ k n. tt;
  apply_keystream = λ c b. (b, c);
}

abbrev pub decode : (A : Type 0) → Reader (Unit {0}) A → Bytes → Option A
decode A r v = elim (r v) [ ok (a, _) ↦ some a | err _ ↦ none | panic ↦ none ]

-- The value of an entry that lies under the prefix and is not shadowed by an earlier one.
abbrev pub pick : Db → Bytes → Bytes × Bytes → Option Bytes
pick d p (k, v) = elim (strip p k) [
  | none ↦ none
  | some j ↦ elim (lookup d k) [ none ↦ none | some w ↦ if same v w then some v else none ]
]

abbrev pub prepend : {A : Type 0} → Option A → List A → List A
prepend none rest = rest
prepend (some a) rest = a ∷ rest

abbrev pub bind : {A B : Type 0} → Option A → (A → Option B) → Option B
bind none f = none
bind (some a) f = f a

abbrev pub scan : (A : Type 0) → Reader (Unit {0}) A → Db → Bytes → Db → List A
scan A r d p [] = []
scan A r d p (e ∷ es) = prepend (bind (pick d p e) (decode A r)) (scan A r d p es)

-- A kernel is its fee, and a transaction is its inputs, outputs, kernels and offset.
abbrev pub Tx : Type 0
Tx = List ℕ × List (ℕ × ℕ) × List ℕ × ℕ

abbrev pub toy_grin : Grin toy_secp
toy_grin = record {
  SerError = Unit {0};
  corrupted_data = tt;
  unsupported_protocol_version = tt;
  write_u8 = put1;
  write_u64 = put1;
  write_fixed_bytes = put_all;
  read_u8 = get1;
  read_u64 = get1;
  read_fixed_bytes = get_all;
  write_bytes = put_all;
  write_pubkey = put1;
  read_pubkey = get1;
  read_commitment = get1;
  write_rangeproof = put1;
  read_rangeproof = get1;
  Hash = ℕ;
  write_hash = put1;
  read_hash = get1;
  ser_vec = λ w. w [];
  deserialize = λ A r b. elim (r b) [ ok (a, _) ↦ ok a | err e ↦ err e | panic ↦ panic ];
  TxError = Unit {0};
  FeeFields = ℕ;
  fee_fields_new = λ shift fee. ok fee;
  fee_fields_try_from = λ n. ok n;
  fee_fields_into = λ f. f % 2 ^ 64;
  OutputFeatures = Bool;
  plain_features = false;
  coinbase_features = true;
  Input = ℕ;
  input_new = λ f c. c;
  input_commit = λ i. i;
  write_input = put1;
  read_input = get1;
  Output = ℕ × ℕ;
  output_new = λ f c r. (c, r);
  TxKernel = ℕ;
  kernel_with_plain_features = λ f. f;
  kernel_msg_to_sign = λ k. ok k;
  kernel_set_excess = λ k c. k;
  kernel_set_excess_sig = λ k s. k;
  kernel_verify = λ k. ok tt;
  kernel_hash = λ k. k + 1000;
  BlindingFactor = ℕ;
  blinding_bytes = λ b. b ∷ [];
  blinding_from_secret = λ k. k;
  Transaction = Tx;
  transaction_new = λ is os ks. (is, os, ks, 0);
  transaction_with_offset = λ t o. (t.0, t.1, t.2, o);
  transaction_kernels = λ t. t.2;
  weight_by_iok = λ i o k. i + 21 * o + 3 * k;
  default_accept_fee_base = 2;
  coinbase_maturity = 1440;
  OutputPrintable = OutputType × ℕ × Option ℕ;
  output_type = λ o. o.0;
  printable_commit = λ o. o.1;
  block_height = λ o. o.2;
  ApiError = Unit {0};
  JsonError = Unit {0};
  RpcError = Unit {0};
  LibwalletError = Unit {0};
  LmdbError = Unit {0};
  Db = Db;
  Batch = Db;
  to_key = λ p k. p ∷ k;
  db_batch = λ d. ok d;
  batch_exists = λ b k. ok (is_some (lookup b k));
  batch_put = λ b k v. ok ((k, v) ∷ b);
  batch_commit = λ b. ok b;
  db_get_ser = λ A r d k. elim (lookup d k) [
    | none ↦ err tt
    | some v ↦ elim (r v) [ ok (a, _) ↦ ok a | err e ↦ err e | panic ↦ panic ]
  ];
  db_iter = λ A r d p. ok (scan A r d p d);
}

abbrev pub toy : Crates
toy = record { secp = toy_secp; grin = toy_grin }
