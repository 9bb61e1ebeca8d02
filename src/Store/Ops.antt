-- ===== src/Store/Ops.antt =====
-- `StoreError` and `SwapStore` of src/store.rs. The state is the database.
use mwixnet.Base.{ℕ, [], Bool, true, false, List, Result, ok, err, panic, map_err, if◌then◌else◌}
use mwixnet.Base
use mwixnet.Base.Codec.{Bytes}
use mwixnet.Base.Exec.{Exec, pure, raise, lift, asks, ◌>>=◌, ◌>>◌}
use mwixnet.Ext.{Crates}
use mwixnet.Store.Data.{SwapData, write_swap_data, read_swap_data, swap_prefix}

module _ (x : Crates) where
  pub data StoreError : Type 0 where
    already_exists : x.Commitment → StoreError
    open_error read_error write_error : x.LmdbError → StoreError
    serialization_error : x.SerError → StoreError

  -- `.map_err(f)` of a call that changes the database
  unfoldable pub map_error : {E F A : Type 0} → (E → F) → Exec x.Db E A → Exec x.Db F A
  map_error f m db = let (r, db') = m db in (map_err f r, db')

  -- `batch.commit()`: a commit that fails leaves the database as it was.
  unfoldable pub commit_batch : x.Batch → Exec x.Db x.LmdbError (Unit {0})
  commit_batch batch db = elim (x.batch_commit batch) [
    | ok db' ↦ (ok tt, db')
    | err e ↦ (err e, db)
    | panic ↦ (panic, db)
  ]

  -- `!overwrite && batch.exists(&key[..])?`
  abbrev pub blocked : Bool → x.Batch → Bytes → Result x.LmdbError Bool
  blocked true batch key = ok false
  blocked false batch key = x.batch_exists batch key

  -- `SwapStore::write`
  unfoldable pub write : ℕ → Bytes → Bytes → Bool → Exec x.Db x.LmdbError Bool
  write prefix k value overwrite = do
    batch ← asks x.db_batch
    let key = x.to_key prefix k
    taken ← lift (blocked overwrite batch key)
    if taken
        then pure false
        else (do batch' ← lift (x.batch_put batch key value); commit_batch batch'; pure true)

  -- `SwapStore::read`
  unfoldable pub read : ℕ → Bytes → x.Db → Result StoreError (SwapData x)
  read prefix k db =
      map_err read_error (x.db_get_ser (SwapData x) (read_swap_data x) db (x.to_key prefix k))

  -- `SwapStore::save_swap`
  unfoldable pub save_swap : SwapData x → Bool → Exec x.Db StoreError (Unit {0})
  unfolding map_error write
  save_swap s overwrite = do
    data' ← lift (map_err serialization_error (x.ser_vec (write_swap_data x s)))
    saved ←
        map_error write_error
          (write swap_prefix (x.commit_bytes (x.input_commit s.input)) data' overwrite)
    if saved then pure tt else raise (already_exists (x.input_commit s.input))

  -- `SwapStore::swaps_iter`, collected
  unfoldable pub swaps_iter : x.Db → Result StoreError (List (SwapData x))
  swaps_iter db =
      map_err read_error (x.db_iter (SwapData x) (read_swap_data x) db (x.to_key swap_prefix []))

  -- `SwapStore::swap_exists`
  unfoldable pub swap_exists : x.Commitment → x.Db → Result StoreError Bool
  swap_exists input_commit db = Base.◌>>=◌ (map_err read_error (x.db_batch db)) λ batch.
      map_err read_error (x.batch_exists batch (x.to_key swap_prefix (x.commit_bytes input_commit)))

  -- `SwapStore::get_swap`
  unfoldable pub get_swap : x.Commitment → x.Db → Result StoreError (SwapData x)
  unfolding read
  get_swap input_commit = read swap_prefix (x.commit_bytes input_commit)
