-- ===== src/Examples/ListenRuns.antt =====
-- The theorems on `listen`, over the toy crates.
use mwixnet.Base.{
  suc, ◌<◌, ◌+◌, ◌*◌, ◌⊎◌, ℕ, ◌≡◌, ◌≢◌, ◌≤◌, refl, sym, ap, ◌∙◌, [], ◌∷◌, ◌++◌, List, none, some,
  true, false, Result, ok, panic, arith,
}
use mwixnet.Ext.Http.{Http}
use mwixnet.Store.View.{Holds}
use mwixnet.Server.Mark.{IsLedger}
use mwixnet.Server.Round.{execute_round}
use mwixnet.Wallet.Http.{http_wallet}
use mwixnet.Rpc.{Shared}
use mwixnet.Rpc.Loop.{Second, next_secs}
use mwixnet.Rpc.Listen.{
  sleeping, left, testing, Listener, Event, request, move, stop, returned_by, step, play, listen,
  started,
}
use mwixnet.Rpc.Stopping.{moves}
use mwixnet.Rpc.Stops.{listen-Stops}
use mwixnet.Rpc.Hangs.{listen-Hangs}
use mwixnet.Rpc.Restart.{restarts, restarts-keep}
use mwixnet.Rpc.Schedule.{listen-Clock}
use mwixnet.Rpc.Poison.{round_dead}
use mwixnet.Wallet.HttpLaws.{http_build_output-Refused}
use mwixnet.Examples.Toy.{toy}
use mwixnet.Examples.ToyLaws.{toy_ser, toy_values, toy_db}
use mwixnet.Examples.ToyUp.{toy_weights}
use mwixnet.Examples.ToyFiles.{toy_files}
use mwixnet.Examples.ToyNet.{toy_net}
use mwixnet.Examples.Data.{
  node, wallet, onion, comsig, busy_db, busy_swap, busy-IsLedger, busy_held,
}
use mwixnet.Examples.NetRuns.{
  rich_swap, rich-IsLedger, rich_listed, picked_one, fits, picked_rich, owner, refuses, shared,
  second,
}

-- An HTTP server that starts at every address, and for which every path is "/v1".
abbrev pub toy_http : Http toy_files
toy_http = record {
  Uri = Unit {0};
  is_v1 = λ _. true;
  StartError = Unit {0};
  start_http = λ _. ok tt;
}

-- A request, a wake-up, and a stop signal.
abbrev pub call : Event toy toy_files toy_http
call = request tt node onion comsig

abbrev pub calm : Second toy
calm = record { wallet = wallet; node = node; offset = 3 }

abbrev pub wake : Event toy toy_files toy_http
wake = move calm

listening : listen toy toy_files toy_http 0 [] ≡ ok (started toy [])
unfolding listen
listening = refl

two_moves : 2 ≤ moves toy toy_files toy_http (wake ∷ call ∷ wake ∷ [])
unfolding moves
two_moves = omega arith

abbrev pub signals : List (Event toy toy_files toy_http)
signals = (call ∷ wake ∷ []) ++ stop ∷ wake ∷ call ∷ wake ∷ []

ends : (play toy toy_files toy_http 2 5 signals (started toy [])).rounds ≡ left
unfolding play
ends = refl

alive : (play toy toy_files toy_http 2 5 signals (started toy [])).rounds ≢ mwixnet.Rpc.Listen.dead
alive e = absurd (cc (sym e ∙ ends))

listen-Stops_example :
    (returned_by toy (
        play toy toy_files toy_http 2 5
          (call ∷ [])
          (play toy toy_files toy_http 2 5 signals (started toy [])))
      ≡ some (ok tt))
    × ((play toy toy_files toy_http 2 5
          (call ∷ [])
          (play toy toy_files toy_http 2 5 signals (started toy []))).shared
        ≡ (play toy toy_files toy_http 2 5 signals (started toy [])).shared)
listen-Stops_example =
    listen-Stops toy toy_files toy_http 2 5 0 [] (started toy []) (call ∷ wake ∷ [])
      (wake ∷ call ∷ wake ∷ []) (call ∷ []) listening two_moves alive

-- A listener whose next turn runs a round that asks a wallet which refuses.
abbrev doomed : Listener toy
doomed = record { shared = shared; rounds = sleeping 1; stopped = false; accepting = true }

due_now : ◌≡◌ {A = Result (Unit {0}) ℕ} (next_secs 2 1) (ok 0)
unfolding next_secs
due_now = refl

dies : (execute_round toy second.wallet node 3 shared.world).0 ≡ panic
dies =
    ap (λ o. o.0)
      (round_dead toy toy_files toy_net toy_ser toy_values toy_db toy_weights
        (http_wallet toy toy_files toy_net owner) node 3 shared.world 10 (rich_swap ∷ [])
        (λ amount. http_build_output-Refused toy toy_files toy_net owner amount (refuses amount))
        rich-IsLedger refl rich_listed picked_one fits picked_rich)

listen-Hangs_example :
    (returned_by toy (play toy toy_files toy_http 2 5 (move second ∷ stop ∷ wake ∷ []) doomed)
      ≡ none)
    × ((play toy toy_files toy_http 2 5 (move second ∷ stop ∷ wake ∷ []) doomed).shared
        ≡ (step toy toy_files toy_http 2 5 (move second) doomed).shared)
listen-Hangs_example =
    listen-Hangs toy toy_files toy_http 2 5 second 1 doomed (stop ∷ wake ∷ []) refl refl refl
      due_now dies

restarts-keep_example :
    IsLedger toy toy_ser toy_db
      (restarts toy toy_files toy_http 5 ((2, wake ∷ call ∷ []) ∷ (3, signals) ∷ []) busy_db)
    × Holds toy toy_ser toy_db
        (restarts toy toy_files toy_http 5 ((2, wake ∷ call ∷ []) ∷ (3, signals) ∷ []) busy_db)
        100
        busy_swap
restarts-keep_example =
    restarts-keep toy toy_files toy_http 5 toy_ser toy_values toy_db
      ((2, wake ∷ call ∷ []) ∷ (3, signals) ∷ []) busy_db 100 busy_swap busy-IsLedger
      (λ e. absurd (cc e)) busy_held

abbrev ticks : List (Event toy toy_files toy_http)
ticks = wake ∷ call ∷ wake ∷ wake ∷ []

awake : (play toy toy_files toy_http 2 5 ticks (started toy [])).rounds ≡ sleeping 1
unfolding play
awake = refl

listen-Clock_example :
    (n : ℕ) × (q : ℕ) × (secs : ℕ) × (n ≡ q * 2 + secs)
    × (secs < 2)
    × (((play toy toy_files toy_http 2 5 ticks (started toy [])).rounds ≡ testing secs)
          × (moves toy toy_files toy_http ticks ≡ 2 * n)
        ⊎ ((play toy toy_files toy_http 2 5 ticks (started toy [])).rounds ≡ sleeping secs)
          × (moves toy toy_files toy_http ticks ≡ suc (2 * n)))
listen-Clock_example =
    listen-Clock toy toy_files toy_http 2 5 0 [] (started toy []) ticks listening (omega arith)
      (omega arith) (λ e. absurd (cc (sym e ∙ awake))) (λ e. absurd (cc (sym e ∙ awake)))
