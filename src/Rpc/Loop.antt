-- ===== src/Rpc/Loop.antt =====
-- The thread of `listen` in src/rpc.rs that runs a round every `interval_s` seconds, where the
-- server is not stopped.
use mwixnet.Base.{ℕ, ◌+◌, ◌%◌, ◌^◌, List, [], ◌∷◌, ◌==◌, Result, ok, err, panic, if◌then◌else◌}
use mwixnet.Base.Exec.{Exec, pure, lift, ◌>>=◌}
use mwixnet.Ext.{Crates}
use mwixnet.Node.{GrinNode}
use mwixnet.Wallet.{Wallet}
use mwixnet.Server.Round.{execute_round}
use mwixnet.Rpc.{Shared, locked}

-- `secs = (secs + 1) % server_config.interval_s`, on `u32`, where a zero interval panics
unfoldable pub next_secs : {E : Type 0} → ℕ → ℕ → Result E ℕ
next_secs interval_s secs = if interval_s == 0 then panic else ok ((secs + 1) % 2 ^ 32 % interval_s)

module _ (x : Crates) where
  -- What the node and the wallet answer during one second, and the offset that is drawn.
  pub record Second : Type 0 where
    pub wallet : Wallet x
    pub node : GrinNode x
    pub offset : x.SecretKey

  -- `let _ = …`, which drops an error but not a panic.
  abbrev pub ignore : {E A B : Type 0} → Result E A → B → Result (Unit {0}) B
  ignore (ok _) b = ok b
  ignore (err _) b = ok b
  ignore panic b = panic

  -- `let _ = server.lock().unwrap().execute_round();`
  unfoldable pub run_round : Second → ℕ → Exec (Shared x) (Unit {0}) ℕ
  run_round second secs shared =
      let (r, shared') =
        locked x (execute_round x second.wallet second.node second.offset) shared in
      (ignore r secs, shared')

  -- One turn of the loop, which leaves the new `secs`.
  unfoldable pub turn : ℕ → Second → ℕ → Exec (Shared x) (Unit {0}) ℕ
  unfolding next_secs run_round
  turn interval_s second secs = do
    secs' ← lift (next_secs interval_s secs)
    if secs' == 0 then run_round second secs' else pure secs'

  -- The loop, until the server is stopped after the seconds of the list.
  unfoldable pub run : ℕ → List Second → ℕ → Exec (Shared x) (Unit {0}) ℕ
  unfolding turn
  run interval_s [] secs = pure secs
  run interval_s (second ∷ seconds) secs = turn interval_s second secs >>= run interval_s seconds
