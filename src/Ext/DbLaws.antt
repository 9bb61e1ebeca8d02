-- ===== src/Ext/DbLaws.antt =====
-- What the proofs assume of `grin_store`: a database is a map from keys to values, a batch sees the
-- database with its own writes, a commit publishes them, and no call panics. Any call may fail; a
-- database is reliable where none does.
use mwixnet.Base.{
  ℕ, ◌≡◌, ◌≢◌, [], ◌++◌, List, Option, some, Bool, ite, if_pos, if_neg, ok, panic, is_some, In,
  ℕ_discrete,
}
use mwixnet.Base.Codec.{Bytes, Reader}
use mwixnet.Ext.{Crates}

pub Bytes-discrete : Discrete Bytes
Bytes-discrete = hlevel ℕ_discrete

-- A map after a write at `k`, there and elsewhere.
pub update_self : {A : Type 0} (j k : Bytes) (v o : A) → j ≡ k → ite (Bytes-discrete j k) v o ≡ v
update_self j k v o e = rw (if_pos _ e)

pub update_ne : {A : Type 0} (j k : Bytes) (v o : A) → j ≢ k → ite (Bytes-discrete j k) v o ≡ o
update_ne j k v o n = rw (if_neg _ n)

module _ (x : Crates) where
  pub record DbLaws : Type 1 where
    -- the value at a key, in a database and as a batch sees it
    pub at : x.Db → Bytes → Option Bytes
    pub pending : x.Batch → Bytes → Option Bytes
    pub batch_lem :
        (d : x.Db) (b : x.Batch) → x.db_batch d ≡ ok b → (k : Bytes) → pending b k ≡ at d k
    pub exists_lem :
        (b : x.Batch) (k : Bytes) (t : Bool) → x.batch_exists b k ≡ ok t → t ≡ is_some (pending b k)
    pub put_lem :
        (b c : x.Batch) (k v : Bytes)
        → x.batch_put b k v ≡ ok c
        → (j : Bytes) → pending c j ≡ ite (Bytes-discrete j k) (some v) (pending b j)
    pub commit_lem :
        (b : x.Batch) (d : x.Db) → x.batch_commit b ≡ ok d → (k : Bytes) → at d k ≡ pending b k
    -- what is read is decoded from the value at the key
    pub get_ser_lem :
        (A : Type 0) (r : Reader x.SerError A) (d : x.Db) (k : Bytes) (a : A)
        → x.db_get_ser A r d k ≡ ok a
        → (v : Bytes) × (rest : Bytes) × (at d k ≡ some v) × (r v ≡ ok (a, rest))
    -- what an iteration yields is decoded from an entry under the prefix, and if every entry under
    -- the prefix can be decoded, all of them are yielded
    pub iter_sound :
        (A : Type 0) (r : Reader x.SerError A) (d : x.Db) (p : Bytes) (l : List A) (a : A)
        → x.db_iter A r d p ≡ ok l
        → In a l
        → (k : Bytes) × (v : Bytes) × (rest : Bytes) × (at d (p ++ k) ≡ some v)
          × (r v ≡ ok (a, rest))
    pub iter_complete :
        (A : Type 0) (r : Reader x.SerError A) (d : x.Db) (p : Bytes) (l : List A)
        → x.db_iter A r d p ≡ ok l
        → ((k v : Bytes) → at d (p ++ k) ≡ some v → (a : A) × (rest : Bytes) × (r v ≡ ok (a, rest)))
        → (k v rest : Bytes) (a : A) → at d (p ++ k) ≡ some v
        → r v ≡ ok (a, rest)
        → In a l
    -- a key is the key of nothing, and then what it is made of
    pub to_key_lem : (p : ℕ) (k : Bytes) → x.to_key p k ≡ x.to_key p [] ++ k
    pub commit_bytes-injective : (c e : x.Commitment) → x.commit_bytes c ≡ x.commit_bytes e → c ≡ e
    pub batch_quiet : (d : x.Db) → x.db_batch d ≢ panic
    pub exists_quiet : (b : x.Batch) (k : Bytes) → x.batch_exists b k ≢ panic
    pub put_quiet : (b : x.Batch) (k v : Bytes) → x.batch_put b k v ≢ panic
    pub commit_quiet : (b : x.Batch) → x.batch_commit b ≢ panic
    pub iter_quiet :
        (A : Type 0) (r : Reader x.SerError A) (d : x.Db) (p : Bytes) → x.db_iter A r d p ≢ panic

  -- No call fails.
  pub record IsReliable : Type 1 where
    pub batch_up : (d : x.Db) → (b : x.Batch) × (x.db_batch d ≡ ok b)
    pub exists_up : (b : x.Batch) (k : Bytes) → (t : Bool) × (x.batch_exists b k ≡ ok t)
    pub put_up : (b : x.Batch) (k v : Bytes) → (c : x.Batch) × (x.batch_put b k v ≡ ok c)
    pub commit_up : (b : x.Batch) → (d : x.Db) × (x.batch_commit b ≡ ok d)
