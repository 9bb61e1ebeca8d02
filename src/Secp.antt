-- ===== src/Secp.antt =====
-- src/secp.rs: commitment signatures and their serialization.
pub mod RoundTrip
pub mod Commit
pub mod Sign
pub mod Verify
pub mod Json
use mwixnet.Base.{
  ℕ, [], ◌∷◌, ◌++◌, Option, none, some, ite, Result, ok, err, panic, map_err, ◌>>=◌ as ◌>>=ᴿ◌,
}
use mwixnet.Base
use mwixnet.Base.Codec.{Bytes, Writer, Reader, ◌>>◌, ◌>>=◌, done, fail}
use mwixnet.Ext.{Crates}

module _ (x : Crates) where
  pub record ComSignature : Type 0 where
    pub pub_nonce : x.Commitment
    pub s : x.SecretKey
    pub t : x.SecretKey

  -- A call in a reader whose error is replaced, `.map_err(|_| …)?`.
  unfoldable pub lift_or : {E A : Type 0} → x.SerError → Result E A → Reader x.SerError A
  lift_or e (ok a) = done a
  lift_or e (err _) = fail e
  lift_or e panic = λ _. panic

  unfoldable pub read_secret_key : Reader x.SerError x.SecretKey
  unfolding lift_or
  read_secret_key = do
    buf ← x.read_fixed_bytes x.secret_key_size
    lift_or x.corrupted_data (x.secret_from_slice buf)

  -- `ComSignature::new`
  abbrev pub new_comsig : x.Commitment → x.SecretKey → x.SecretKey → ComSignature
  new_comsig pub_nonce s t = record { pub_nonce = pub_nonce; s = s; t = t }

  unfoldable pub write_comsig : ComSignature → Writer x.SerError
  write_comsig c = do
    x.write_fixed_bytes (x.commit_bytes c.pub_nonce)
    x.write_fixed_bytes (x.secret_bytes c.s)
    x.write_fixed_bytes (x.secret_bytes c.t)

  unfoldable pub read_comsig : Reader x.SerError ComSignature
  unfolding read_secret_key
  read_comsig = do
    r ← x.read_commitment
    s ← read_secret_key
    t ← read_secret_key
    done (new_comsig r s t)
