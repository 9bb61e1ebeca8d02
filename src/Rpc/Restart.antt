-- ===== src/Rpc/Restart.antt =====
-- What restarts of the program keep: only the database outlives `listen`, however it was left.
use mwixnet.Base.{ℕ, ◌≢◌, List, [], ◌∷◌}
use mwixnet.Ext.{Crates}
use mwixnet.Ext.Files.{Files}
use mwixnet.Ext.Http.{Http}
use mwixnet.Ext.Laws.{SerLaws, ValueLaws}
use mwixnet.Ext.DbLaws.{DbLaws}
use mwixnet.Store.Data.{SwapData, unprocessed}
use mwixnet.Store.View.{Holds}
use mwixnet.Server.Mark.{IsLedger}
use mwixnet.Rpc.Listen.{Event, play, started}
use mwixnet.Rpc.Ordered.{play-keeps}

module _ (x : Crates) (f : Files) (h : Http f) (key : x.SecretKey) where
  -- The program is started again and again on the same database, with an interval for each start,
  -- and is left, or killed, after some events.
  unfoldable pub restarts : List (ℕ × List (Event x f h)) → x.Db → x.Db
  unfolding play
  restarts [] db = db
  restarts ((interval_s, es) ∷ rest) db =
      restarts rest (play x f h interval_s key es (started x db)).shared.world.db

  module _ (S : SerLaws x) (V : ValueLaws x) (D : DbLaws x) where
    -- Let the store be one of swaps that passed the checks. However often the program is started on
    -- it, with whatever intervals, and after whatever requests, turns and signals it is left each
    -- time, the store stays one, and a swap that it holds as in process or as completed it then
    -- holds as it is.
    pub restarts-keep :
        (runs : List (ℕ × List (Event x f h))) (db : x.Db) (c : x.Commitment) (t : SwapData x)
        → IsLedger x S D db
        → t.status ≢ unprocessed
        → Holds x S D db c t
        → IsLedger x S D (restarts runs db) × Holds x S D (restarts runs db) c t
    unfolding restarts
    restarts-keep [] db c t I n held = (I, held)
    restarts-keep ((interval_s, es) ∷ rest) db c t I n held =
        let (I', held') = play-keeps x f h interval_s key S V D es (started x db) c t I n held in
        restarts-keep rest (play x f h interval_s key es (started x db)).shared.world.db c t I' n
          held'
