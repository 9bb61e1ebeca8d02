-- ===== src/Ext/Laws.antt =====
-- What the proofs assume of serialization in the `grin` crates: each value that is written is read
-- back, `ser_vec` runs a writer on an empty vector, and `deserialize` runs a reader.
use mwixnet.Base.{ℕ, ◌≡◌, ◌≤◌, ◌<◌, ◌+◌, ◌*◌, ◌^◌, length, List, [], ◌∷◌, ok}
use mwixnet.Base.Codec.{Bytes, Writer, Reader, IsCodec}
use mwixnet.Ext.{Crates}

abbrev pub Anything : {A : Type 0} → A → Type 0
Anything _ = Unit

abbrev pub IsByte : ℕ → Type 0
IsByte n = n < 256

abbrev pub IsU64 : ℕ → Type 0
IsU64 n = n < 2 ^ 64

module _ (x : Crates) where
  -- A secret key that `SecretKey::from_slice` accepts: not zero, and below the group's order.
  abbrev pub IsKey : x.SecretKey → Type 0
  IsKey k = x.secret_from_slice (x.secret_bytes k) ≡ ok k

  -- Fee fields that `FeeFields::try_from` accepts.
  abbrev pub IsFee : x.FeeFields → Type 0
  IsFee f = (x.fee_fields_try_from (x.fee_fields_into f) ≡ ok f) × IsU64 (x.fee_fields_into f)

  pub record SerLaws : Type 1 where
    -- `read_fixed_bytes` refuses more bytes than this at once
    pub read_limit : ℕ
    pub u8 : IsCodec IsByte x.write_u8 x.read_u8
    pub u64 : IsCodec IsU64 x.write_u64 x.read_u64
    pub fixed :
        (n : ℕ)
        → n ≤ read_limit
        → IsCodec (λ (b : Bytes). length b ≡ n) x.write_fixed_bytes (x.read_fixed_bytes n)
    pub bytes :
        (n : ℕ)
        → n ≤ read_limit
        → IsCodec (λ (b : Bytes). length b ≡ n) x.write_bytes (x.read_fixed_bytes n)
    pub pubkey : IsCodec Anything x.write_pubkey x.read_pubkey
    pub commitment :
        IsCodec Anything (λ c. x.write_fixed_bytes (x.commit_bytes c)) x.read_commitment
    pub rangeproof : IsCodec Anything x.write_rangeproof x.read_rangeproof
    pub hash : IsCodec Anything x.write_hash x.read_hash
    pub input : IsCodec Anything x.write_input x.read_input
    pub key_size : x.secret_key_size ≤ read_limit
    pub length-secret_bytes : (k : x.SecretKey) → length (x.secret_bytes k) ≡ x.secret_key_size
    pub ser_vec_lem : (w : Writer x.SerError) → x.ser_vec w ≡ w []
    pub deserialize_lem :
        (A : Type 0) (r : Reader x.SerError A) (b rest : Bytes) (a : A)
        → r b ≡ ok (a, rest)
        → x.deserialize A r b ≡ ok a

  -- What the types of the other crates hold: fee fields are 64 bits, `from_slice` returns only keys
  -- that it accepts again, `deserialize` returns only what its reader reads, and an input has the
  -- commitment that it was built from.
  pub record ValueLaws : Type 1 where
    pub fee_range : (f : x.FeeFields) → IsU64 (x.fee_fields_into f)
    pub secret_range : (b : Bytes) (k : x.SecretKey) → x.secret_from_slice b ≡ ok k → IsKey k
    pub deserialize_sound :
        (A : Type 0) (r : Reader x.SerError A) (b : Bytes) (a : A)
        → x.deserialize A r b ≡ ok a
        → (rest : Bytes) × (r b ≡ ok (a, rest))
    pub input_commit-new :
        (f : x.OutputFeatures) (c : x.Commitment) → x.input_commit (x.input_new f c) ≡ c

  -- What the onion relies on: a cipher that starts in one state twice restores what it changed,
  -- both ends of a key exchange get the same secret, and the public key of a product is the product
  -- of the public key.
  pub record OnionLaws : Type 0 where
    pub keystream_lem :
        (c : x.ChaCha20) (b : Bytes)
        → x.apply_keystream c (x.apply_keystream c b).0 ≡ (b, (x.apply_keystream c b).1)
    pub exchange_lem :
        (k e : x.SecretKey) (p q : x.PublicKey)
        → x.public_from_secret k ≡ ok p
        → x.public_from_secret e ≡ ok q
        → x.shared_secret p e ≡ x.shared_secret q k
    pub product_lem :
        (e b e' : x.SecretKey) (q : x.PublicKey)
        → x.secret_mul e b ≡ ok e'
        → x.public_from_secret e ≡ ok q
        → (q' : x.PublicKey) × (x.public_from_secret e' ≡ ok q') × (x.public_mul q b ≡ ok q')

  -- Pedersen commitments, with the value or a second blinding factor, are homomorphic: a value is a
  -- blinding factor for the other generator, scaling both factors scales the commitment's point,
  -- and adding both factors adds the commitments.
  pub record CommitLaws (amount_bytes : ℕ → Bytes) : Type 0 where
    pub amount_lem :
        (v : ℕ) (k b : x.SecretKey)
        → x.secret_from_slice (amount_bytes v) ≡ ok k
        → x.commit_blind k b ≡ x.commit v b
    pub scale_lem :
        (a b e a' b' : x.SecretKey) (c : x.Commitment)
        → x.commit_blind a b ≡ ok c
        → x.secret_mul a e ≡ ok a'
        → x.secret_mul b e ≡ ok b'
        → (p : x.PublicKey) × (q : x.PublicKey) × (c' : x.Commitment) × (x.commit_to_pubkey c
            ≡ ok p)
          × (x.public_mul p e ≡ ok q)
          × (x.commit_from_pubkey q ≡ ok c')
          × (x.commit_blind a' b' ≡ ok c')
    pub sum_lem :
        (a b k l s t : x.SecretKey) (c n : x.Commitment)
        → x.commit_blind a b ≡ ok c
        → x.commit_blind k l ≡ ok n
        → x.secret_add a k ≡ ok s
        → x.secret_add b l ≡ ok t
        → (r : x.Commitment) × (x.commit_sum (c ∷ n ∷ []) [] ≡ ok r) × (x.commit_blind s t ≡ ok r)

  -- On values of 64 bits: adding a commitment to no value to one to a positive value adds its
  -- blinding factor, and subtracting one to a positive value without a blinding factor subtracts
  -- its value, where a positive value is left.
  pub record ShiftLaws : Type 0 where
    pub excess_lem :
        (v : ℕ) (b e b' : x.SecretKey) (c : x.Commitment)
        → 0 < v
        → v < 2 ^ 64
        → x.commit v b ≡ ok c
        → x.secret_add b e ≡ ok b'
        → (n : x.Commitment) × (r : x.Commitment) × (x.commit 0 e ≡ ok n)
          × (x.commit_sum (c ∷ n ∷ []) [] ≡ ok r)
          × (x.commit v b' ≡ ok r)
    pub value_lem :
        (v u : ℕ) (b : x.SecretKey) (c : x.Commitment)
        → 0 < v
        → 0 < u
        → v + u < 2 ^ 64
        → x.commit (v + u) b ≡ ok c
        → (n : x.Commitment) × (r : x.Commitment) × (x.commit u x.zero_key ≡ ok n)
          × (x.commit_sum (c ∷ []) (n ∷ []) ≡ ok r)
          × (x.commit v b ≡ ok r)

  -- The weight of a transaction is linear in the numbers of inputs, outputs and kernels, where it
  -- does not leave 64 bits.
  pub record WeightLaws : Type 0 where
    pub input_weight : ℕ
    pub output_weight : ℕ
    pub kernel_weight : ℕ
    pub weight_lem :
        (i o k : ℕ)
        → i * input_weight + o * output_weight + k * kernel_weight < 2 ^ 64
        → x.weight_by_iok i o k ≡ i * input_weight + o * output_weight + k * kernel_weight

  -- Building and signing a kernel does not fail for a fee that fee fields can hold, the signature
  -- of a kernel under its own excess is accepted, and a transaction that is made of one kernel has
  -- that kernel.
  pub record KernelUp : Type 0 where
    pub blind_up : (ps ns : List x.SecretKey) → (k : x.SecretKey) × (x.blind_sum ps ns ≡ ok k)
    pub fee_up :
        (f : ℕ) → 0 < f → f < 2 ^ 40 → (fee : x.FeeFields) × (x.fee_fields_new 0 f ≡ ok fee)
    pub msg_up : (k : x.TxKernel) → (m : x.Message) × (x.kernel_msg_to_sign k ≡ ok m)
    pub commit_up : (k : x.SecretKey) → (c : x.Commitment) × (x.commit 0 k ≡ ok c)
    pub key_up : (k : x.SecretKey) → (p : x.PublicKey) × (x.public_from_secret k ≡ ok p)
    pub sign_up :
        (m : x.Message) (k : x.SecretKey) (p : x.PublicKey)
        → (sig : x.Signature) × (x.sign_single m k p ≡ ok sig)
    pub verify_up :
        (fee : x.FeeFields) (m : x.Message) (k : x.SecretKey) (p : x.PublicKey) (c : x.Commitment)
        (sig : x.Signature)
        → x.kernel_msg_to_sign (x.kernel_with_plain_features fee) ≡ ok m
        → x.commit 0 k ≡ ok c
        → x.public_from_secret k ≡ ok p
        → x.sign_single m k p ≡ ok sig
        → x.kernel_verify
            (x.kernel_set_excess_sig (x.kernel_set_excess (x.kernel_with_plain_features fee) c) sig)
          ≡ ok tt
    pub kernels_lem :
        (is : List x.Input) (os : List x.Output) (k : x.TxKernel) (o : x.BlindingFactor)
        → x.transaction_kernels (x.transaction_with_offset (x.transaction_new is os (k ∷ [])) o)
          ≡ k ∷ []
