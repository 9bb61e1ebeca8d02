-- ===== src/Main/Launch.antt =====
-- The end of `real_main` of src/main.rs, which starts `listen`, and `main`. What the program goes
-- through while it listens is a list of events, and a signal is the event that stops it.
use mwixnet.Base.{
  ℕ, ◌≡◌, ◌≢◌, ◌≤◌, refl, sym, ap, ◌∙◌, subst, List, [], ◌∷◌, ◌++◌, Option, none, some, Result, ok,
  err, panic, map_err,
}
use mwixnet.Base
use mwixnet.Base.Exec.{Exec, pure, lift, ◌>>=◌}
use mwixnet.Ext.{Crates}
use mwixnet.Ext.Files.{Files}
use mwixnet.Ext.Net.{Net}
use mwixnet.Ext.Http.{Http}
use mwixnet.Ext.System.{System}
use mwixnet.Config.Save.{Toml}
use mwixnet.Rpc.Listen.{dead, Listener, Event, stop, returned_by, play, listen}
use mwixnet.Rpc.Stopping.{moves}
use mwixnet.Rpc.Stops.{listen-Stops}
use mwixnet.Main.Args.{Args, MainError, runtime_error}
use mwixnet.Main.Start.{Host, Draw, Running, real_main}

step_ok :
    {E A B : Type 0} (r : Result E A) (k : A → Result E B) (a : A) → r ≡ ok a → Base.◌>>=◌ r k ≡ k a
step_ok r k a e = rw e refl

module _ (x : Crates) (f : Files) (s : System x f) (n : Net x f) (h : Http f) where
  -- What a panic or an end of `listen` makes of `real_main`, whose errors are boxed.
  abbrev pub unpanicked : {A : Type 0} → Result (Unit {0}) A → Result (MainError x f s) A
  unpanicked (ok a) = ok a
  unpanicked (err _) = panic
  unpanicked panic = panic

  abbrev pub ended_with :
      Option (Result (Unit {0}) (Unit {0})) → Result (MainError x f s) (Option (Unit {0}))
  ended_with none = ok none
  ended_with (some r) = Base.◌>>=◌ (unpanicked r) (λ _. ok (some tt))

  -- The runtime, the future that waits for a signal, and the call of `listen`: nothing, while it
  -- has not returned.
  unfoldable pub launch :
      List (Event x f h) → Running x f s n → Result (MainError x f s) (Option (Unit {0}))
  unfolding listen play returned_by
  launch events running = Base.◌>>=◌ (map_err runtime_error s.runtime_new) λ _.
      Base.◌>>=◌ (unpanicked (listen x f h running.server_config.addr running.store)) λ l.
        ended_with (
          returned_by x
            (play x f h running.server_config.interval_s running.server_config.key events l))

  -- All of `real_main`
  unfoldable pub complete_main :
      Toml f
      → Args x f s
      → Draw x f s
      → x.SecretKey
      → List (Event x f h)
      → Exec (Host x f s) (MainError x f s) (Option (Unit {0}))
  unfolding real_main launch
  complete_main toml args draw ephemeral_sk events = do
    begun ← real_main x f s n toml args draw ephemeral_sk
    elim begun [ none ↦ pure (some tt) | some running ↦ lift (launch events running) ]

  -- `unwrap`, and the exit of the process with 0, if it has come to it
  abbrev pub exit_of : Result (MainError x f s) (Option (Unit {0})) → Result (Unit {0}) (Option ℕ)
  exit_of (ok none) = ok none
  exit_of (ok (some _)) = ok (some 0)
  exit_of (err _) = panic
  exit_of panic = panic

  -- `main`
  unfoldable pub main :
      Toml f
      → Args x f s
      → Draw x f s
      → x.SecretKey
      → List (Event x f h)
      → Exec (Host x f s) (Unit {0}) (Option ℕ)
  unfolding complete_main
  main toml args draw ephemeral_sk events host =
      let (r, host') = complete_main toml args draw ephemeral_sk events host in (exit_of r, host')

  launch-Stops :
      (running : Running x f s n) (l : Listener x) (before after : List (Event x f h))
      → s.runtime_new ≡ ok tt
      → listen x f h running.server_config.addr running.store ≡ ok l
      → 2 ≤ moves x f h after
      → (play x f h running.server_config.interval_s running.server_config.key
          (before ++ stop ∷ after)
          l).rounds
        ≢ dead
      → launch (before ++ stop ∷ after) running ≡ ok (some tt)
  unfolding launch
  launch-Stops running l before after rt up more alive =
      let (done, _) =
        listen-Stops x f h running.server_config.interval_s running.server_config.key
          running.server_config.addr running.store l before after [] up more alive in
      step_ok (map_err runtime_error s.runtime_new) _ tt (ap (map_err runtime_error) rt)
      ∙ step_ok (unpanicked (listen x f h running.server_config.addr running.store)) _ l
          (ap unpanicked up)
      ∙ ap ended_with done

  complete_main-launch :
      (toml : Toml f) (args : Args x f s) (draw : Draw x f s) (ephemeral_sk : x.SecretKey)
      (events : List (Event x f h)) (host host' : Host x f s) (running : Running x f s n)
      → real_main x f s n toml args draw ephemeral_sk host ≡ (ok (some running), host')
      → complete_main toml args draw ephemeral_sk events host ≡ (launch events running, host')
  unfolding complete_main
  complete_main-launch toml args draw ephemeral_sk events host host' running e = rw e refl

  -- Let the command line start the server, with a runtime and an HTTP server that start. Let any
  -- requests, wake-ups and signals follow, among them a signal that stops it and at least two more
  -- wake-ups of the thread of the rounds, and let no panic end that thread. Then the process has
  -- exited with 0.
  pub main-Stops :
      (toml : Toml f) (args : Args x f s) (draw : Draw x f s) (ephemeral_sk : x.SecretKey)
      (host host' : Host x f s) (running : Running x f s n) (l : Listener x)
      (before after : List (Event x f h))
      → real_main x f s n toml args draw ephemeral_sk host ≡ (ok (some running), host')
      → s.runtime_new ≡ ok tt
      → listen x f h running.server_config.addr running.store ≡ ok l
      → 2 ≤ moves x f h after
      → (play x f h running.server_config.interval_s running.server_config.key
          (before ++ stop ∷ after)
          l).rounds
        ≢ dead
      → main toml args draw ephemeral_sk (before ++ stop ∷ after) host ≡ (ok (some 0), host')
  unfolding main
  main-Stops toml args draw ephemeral_sk host host' running l before after e rt up more alive =
      ap (λ o. (exit_of o.0, o.1))
        (complete_main-launch toml args draw ephemeral_sk (before ++ stop ∷ after) host host'
            running e
          ∙ ap (λ r. (r, host')) (launch-Stops running l before after rt up more alive))
