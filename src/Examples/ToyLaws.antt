-- ===== src/Examples/ToyLaws.antt =====
-- The crates over plain numbers meet the assumptions of the proofs.
use mwixnet.Base.{
  ℕ, ◌*◌, ◌≡◌, ◌≤◌, refl, sym, ap, ◌∙◌, subst, ◌⊎◌, inl, inr, [], ◌∷◌, ◌++◌, List, length, Option,
  none, some, true, Bool-cases, ite, if_pos, if_neg, Result, ok, err, panic, ok-injective, is_some,
  if◌then◌else◌, arith, In,
}
use native.Mathlib.Nat.{mul_comm}
use mwixnet.Base.Codec.{Bytes, Reader, IsCodec}
use mwixnet.Ext.Laws.{SerLaws, ValueLaws, Anything, IsByte, IsU64, OnionLaws}
use mwixnet.Ext.DbLaws.{DbLaws, IsReliable, Bytes-discrete}
use mwixnet.Examples.Toy.{
  Db, same, lookup, strip, put1, get1, put_all, get_all, one, decode, pick, prepend, bind, scan,
  toy,
}

one-IsCodec : (P : ℕ → Type 0) → IsCodec P put1 get1
one-IsCodec P = record {
  encode = λ n. n ∷ [];
  writes = λ n h. record { run = λ out. refl };
  reads = λ n h. record { run = λ rest. refl };
}

get_all-append : (b rest : Bytes) → get_all (length b) (b ++ rest) ≡ ok (b, rest)
get_all-append [] rest = refl
get_all-append (a ∷ b) rest = rw (get_all-append b rest)

all-IsCodec : (n : ℕ) → IsCodec (λ (b : Bytes). length b ≡ n) put_all (get_all n)
all-IsCodec n = record {
  encode = λ b. b;
  writes = λ b h. record { run = λ out. refl };
  reads = λ b h. record { run = λ rest. rw (← h) (get_all-append b rest) };
}

pub toy_ser : SerLaws toy
toy_ser = record {
  read_limit = 100;
  u8 = one-IsCodec IsByte;
  u64 = one-IsCodec IsU64;
  fixed = λ n h. all-IsCodec n;
  bytes = λ n h. all-IsCodec n;
  pubkey = one-IsCodec Anything;
  commitment = record {
    encode = λ n. n ∷ [];
    writes = λ n h. record { run = λ out. refl };
    reads = λ n h. record { run = λ rest. refl };
  };
  rangeproof = one-IsCodec Anything;
  hash = one-IsCodec Anything;
  input = one-IsCodec Anything;
  key_size = omega arith;
  length-secret_bytes = λ k. refl;
  ser_vec_lem = λ w. refl;
  deserialize_lem = λ A r b rest a e. rw e;
}

one-eq-ok : (b : Bytes) (k : ℕ) → one b ≡ ok k → b ≡ k ∷ []
one-eq-ok [] k e = cc
one-eq-ok (n ∷ []) k e = cc
one-eq-ok (n ∷ m ∷ b) k e = cc

Read : {A : Type 0} → Result (Unit {0}) (A × Bytes) → A → Type 0
Read r a = (rest : Bytes) × (r ≡ ok (a, rest))

pub sound :
    (A : Type 0) (r : Result (Unit {0}) (A × Bytes)) (a : A)
    → (elim r as (λ _. Result (Unit {0}) A) [ ok (b, _) ↦ ok b | err e ↦ err e | panic ↦ panic ])
      ≡ ok a
    → (rest : Bytes) × (r ≡ ok (a, rest))
sound A (ok (b, rest)) a e = (rest, cc e)
sound A (err _) a e = cc
sound A panic a e = cc

pub toy_values : ValueLaws toy
toy_values = record {
  fee_range = λ f. omega arith;
  secret_range = λ b k e. refl;
  deserialize_sound = λ A r b a e. sound A (r b) a e;
  input_commit-new = λ f c. refl;
}

same_refl : (a : Bytes) → same a a ≡ true
same_refl [] = refl
same_refl (n ∷ a) = ground (arith, same_refl a)

same_sound : (a b : Bytes) → same a b ≡ true → a ≡ b
same_sound [] [] h = refl
same_sound [] (b ∷ bs) h = cc
same_sound (a ∷ as') [] h = cc
same_sound (a ∷ as') (b ∷ bs) h = ground (arith, same_sound as' bs)

strip-append : (p j : Bytes) → strip p (p ++ j) ≡ some j
strip-append [] j = refl
strip-append (n ∷ p) j = ground (arith, strip-append p j)

strip_sound : (p k j : Bytes) → strip p k ≡ some j → k ≡ p ++ j
strip_sound [] k j h = cc
strip_sound (a ∷ p) [] j h = cc
strip_sound (a ∷ p) (b ∷ k) j h = ground (arith, strip_sound p k j)

pub lookup-put :
    (d : Db) (k v j : Bytes)
    → lookup ((k, v) ∷ d) j ≡ ite (Bytes-discrete j k) (some v) (lookup d j)
lookup-put d k v j = elim (Bytes-discrete j k) [
  | yes e ↦ rw (if_pos _ e, e, same_refl k) refl
  | no n ↦ rw (if_neg _ n) (ground (arith, same_sound j k))
]

pub In-lookup : (d : Db) (k v : Bytes) → lookup d k ≡ some v → In (k, v) d
In-lookup [] k v h = cc
In-lookup ((j, w) ∷ d) k v h = elim (Bool-cases (same k j)) [
  | inl e ↦ inl (ground (arith, same_sound k j))
  | inr e ↦ inr (In-lookup d k v (rw e at h))
]

shadow_sound :
    (v : Bytes) (o : Option Bytes) (u : Bytes)
    → (elim o as (λ _. Option Bytes) [ none ↦ none | some w ↦ if same v w then some v else none ])
      ≡ some u
    → o ≡ some u
shadow_sound v none u h = cc
shadow_sound v (some w) u h = ground (arith, same_sound v w)

pick_sound :
    (d : Db) (p : Bytes) (e : Bytes × Bytes) (v : Bytes)
    → pick d p e ≡ some v
    → (j : Bytes) × (lookup d (p ++ j) ≡ some v)
pick_sound d p (k, u) v h = go (strip p k) refl h
  where
    go :
        (o : Option Bytes)
        → strip p k ≡ o
        → (elim o as (λ _. Option Bytes) [
          | none ↦ none
          | some j ↦ elim (lookup d k) [ none ↦ none | some w ↦ if same u w then some u else none ]
        ])
          ≡ some v
        → (j : Bytes) × (lookup d (p ++ j) ≡ some v)
    go none e g = cc
    go (some j) e g = (j, rw (← strip_sound p k j e) (shadow_sound u (lookup d k) v g))

pick_complete :
    (d : Db) (p j v : Bytes) → lookup d (p ++ j) ≡ some v → pick d p (p ++ j, v) ≡ some v
pick_complete d p j v h = rw (strip-append p j, pick, h, same_refl v) refl

decode_sound :
    (A : Type 0) (r : Reader (Unit {0}) A) (v : Bytes) (a : A)
    → decode A r v ≡ some a
    → (rest : Bytes) × (r v ≡ ok (a, rest))
decode_sound A r v a h = go (r v) h
  where
    go :
        (m : Result (Unit {0}) (A × Bytes))
        → (elim m as (λ _. Option A) [ ok (a, _) ↦ some a | err _ ↦ none | panic ↦ none ]) ≡ some a
        → (rest : Bytes) × (m ≡ ok (a, rest))
    go (ok (b, rest)) e = (rest, cc e)
    go (err _) e = cc
    go panic e = cc

In-prepend :
    {A : Type 0} (o : Option A) (l : List A) (a : A) → In a (prepend o l) → (o ≡ some a) ⊎ In a l
In-prepend none l a m = inr m
In-prepend (some b) l a (inl e) = inl (ap some (sym e))
In-prepend (some b) l a (inr m) = inr m

bind-eq-some :
    {A B : Type 0} (o : Option A) (f : A → Option B) (b : B)
    → bind o f ≡ some b
    → (a : A) × (o ≡ some a) × (f a ≡ some b)
bind-eq-some none f b h = cc
bind-eq-some (some a) f b h = (a, refl, h)

module _ (A : Type 0) (r : Reader (Unit {0}) A) (d : Db) (p : Bytes) where
  pub scan_sound :
      (es : Db) (a : A)
      → In a (scan A r d p es)
      → (k : Bytes) × (v : Bytes) × (rest : Bytes) × (lookup d (p ++ k) ≡ some v)
        × (r v ≡ ok (a, rest))
  scan_sound [] a m = elim m [ ]
  scan_sound (e ∷ es) a m =
      elim (In-prepend (bind (pick d p e) (decode A r)) (scan A r d p es) a m) [
        | inr later ↦ scan_sound es a later
        | inl here ↦
            let (v, picked, decoded) = bind-eq-some (pick d p e) (decode A r) a here in
            let (k, found) = pick_sound d p e v picked in
            let (rest, read) = decode_sound A r v a decoded in (k, v, rest, found, read)
      ]

  In-later : (o : Option A) (l : List A) (a : A) → In a l → In a (prepend o l)
  In-later none l a m = m
  In-later (some b) l a m = inr m

  pub scan_complete :
      (es : Db) (k v rest : Bytes) (a : A)
      → lookup d (p ++ k) ≡ some v
      → r v ≡ ok (a, rest)
      → In (p ++ k, v) es
      → In a (scan A r d p es)
  scan_complete [] k v rest a found read m = elim m [ ]
  scan_complete (e ∷ es) k v rest a found read (inr m) =
      In-later _ _ a (scan_complete es k v rest a found read m)
  scan_complete (e ∷ es) k v rest a found read (inl m) =
      rw (← m, pick_complete d p k v found, read, decode) (inl refl)

unfoldable pub toy_db : DbLaws toy
toy_db = record {
  at = lookup;
  pending = lookup;
  batch_lem = λ d b e k. ap (λ c. lookup c k) (sym (ok-injective d b e));
  exists_lem = λ b k t e. sym (ok-injective _ t e);
  put_lem =
      λ b c k v e j. ap (λ (f : Db). lookup f j) (sym (ok-injective _ c e)) ∙ lookup-put b k v j;
  commit_lem = λ b d e k. ap (λ c. lookup c k) (sym (ok-injective b d e));
  get_ser_lem = λ A r d k a e. get A r k (lookup d k) a e;
  iter_sound =
      λ A r d p l a e m. scan_sound A r d p d a (subst (In a) (sym (ok-injective _ l e)) m);
  iter_complete = λ A r d p l e h k v rest a found read.
      subst (In a) (ok-injective _ l e)
        (scan_complete A r d p d k v rest a found read (In-lookup d (p ++ k) v found));
  to_key_lem = λ p k. refl;
  commit_bytes-injective = λ c e h. ground arith;
  batch_quiet = λ d e. cc e;
  exists_quiet = λ b k e. cc e;
  put_quiet = λ b k v e. cc e;
  commit_quiet = λ b e. cc e;
  iter_quiet = λ A r d p e. cc e;
}
  where
    get :
        (A : Type 0) (r : Reader (Unit {0}) A) (k : Bytes) (o : Option Bytes) (a : A)
        → (elim o as (λ _. Result (Unit {0}) A) [
          | none ↦ err tt
          | some v ↦ elim (r v) [ ok (b, _) ↦ ok b | err e ↦ err e | panic ↦ panic ]
        ])
          ≡ ok a
        → (v : Bytes) × (rest : Bytes) × (o ≡ some v) × (r v ≡ ok (a, rest))
    get A r k none a e = cc
    get A r k (some v) a e = let (rest, h) = sound A (r v) a e in (v, rest, refl, h)

pub toy_reliable : IsReliable toy
toy_reliable = record {
  batch_up = λ d. (d, refl);
  exists_up = λ b k. (is_some (lookup b k), refl);
  put_up = λ b k v. ((k, v) ∷ b, refl);
  commit_up = λ b. (b, refl);
}

pub toy_limit : (n : ℕ) → n ≤ 5 → n ≤ toy_ser.read_limit
unfolding toy_ser
toy_limit n h = omega arith

pub toy_onions : OnionLaws toy
toy_onions = record {
  keystream_lem = λ c b. refl;
  exchange_lem = λ k e p q h g.
      let hp : k ≡ p = ok-injective {E = Unit {0}} _ _ h in
      let hq : e ≡ q = ok-injective {E = Unit {0}} _ _ g in exchange k e p q hp hq;
  product_lem = λ e b e' q h g.
      let hp : e * b ≡ e' = ok-injective {E = Unit {0}} _ _ h in
      let hq : e ≡ q = ok-injective {E = Unit {0}} _ _ g in
      (e', refl, ap ok (ap (λ n. n * b) (sym hq) ∙ hp));
}
  where
    exchange : (k e p q : ℕ) → k ≡ p → e ≡ q → p * e ≡ q * k
    exchange k e p q h g = rw (← h, ← g) (mul_comm k e)
