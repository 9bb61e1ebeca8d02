-- ===== src/Rpc/Listen.antt =====
-- `listen` of src/rpc.rs: the HTTP server, the thread of the rounds and the stop state as one
-- state, which the events of the three change in any order. The mutex makes a call of the API, and
-- a round, one event. The HTTP server takes requests until it is closed, and `wait` returns then.
use mwixnet.Base.{
  ℕ, Bool, true, false, List, [], ◌∷◌, Option, none, some, Result, ok, err, panic, if◌then◌else◌,
}
use mwixnet.Ext.{Crates}
use mwixnet.Ext.Files.{Files}
use mwixnet.Ext.Http.{Http}
use mwixnet.Secp.{ComSignature}
use mwixnet.Node.{GrinNode}
use mwixnet.Onion.{Onion}
use mwixnet.Rpc.{Shared, RpcError, api_swap}
use mwixnet.Rpc.Loop.{Second, turn}

-- The thread of the rounds, with `secs`: before it tests `is_stopped`, in `sleep`, behind the loop,
-- or ended by a panic.
pub data RoundThread : Type 0 where
  testing sleeping : ℕ → RoundThread
  left dead : RoundThread

-- What a turn of the loop leaves of the thread.
abbrev pub woken : Result (Unit {0}) ℕ → RoundThread
woken (ok secs) = testing secs
woken (err _) = dead
woken panic = dead

-- `round_handle.join().unwrap()`: nothing while the thread runs
abbrev pub join : RoundThread → Option (Result (Unit {0}) (Unit {0}))
join (testing _) = none
join (sleeping _) = none
join left = some (ok tt)
join dead = some panic

module _ (x : Crates) where
  pub record Listener : Type 0 where
    pub shared : Shared x
    pub rounds : RoundThread
    pub stopped : Bool
    pub accepting : Bool

  -- The two threads at the start, with the server made of the store.
  abbrev pub started : x.Db → Listener
  started store = record {
    shared = record { world = record { db = store; posted = [] }; poisoned = false };
    rounds = testing 0;
    stopped = false;
    accepting = true;
  }

  -- What a client gets: "Only v1 supported", or how the call ended.
  pub data Response : Type 0 where
    bad_request : Response
    answered : Result (RpcError x) (Unit {0}) → Response

  -- `http_server.wait()` and the lines behind it: what `listen` has returned, if it has
  unfoldable pub returned_by : Listener → Option (Result (Unit {0}) (Unit {0}))
  returned_by l = if l.accepting then none else join l.rounds

  -- The closure that is spawned: up to its next wait. The second is that of a turn.
  unfoldable pub move_rounds : ℕ → Second x → Listener → Listener
  unfolding turn
  move_rounds interval_s second l = elim l.rounds [
    | testing secs ↦
        if l.stopped
        then record l { rounds = left; accepting = false }
        else record l { rounds = sleeping secs }
    | sleeping secs ↦
        let (r, shared') = turn x interval_s second secs l.shared in
        record l { shared = shared'; rounds = woken r }
    | left ↦ l
    | dead ↦ l
  ]

  module _ (f : Files) (h : Http f) where
    -- What is between a request and `API::swap`: the middleware.
    unfoldable pub handle :
        x.SecretKey → h.Uri → GrinNode x → Onion x → ComSignature x → Shared x → Response × Shared x
    unfolding api_swap
    handle key uri node onion comsig shared =
        let (r, shared') = api_swap x key node onion comsig shared in
        if h.is_v1 uri then (answered r, shared') else (bad_request, shared)

    pub data Event : Type 0 where
      request : h.Uri → GrinNode x → Onion x → ComSignature x → Event
      move : Second x → Event
      stop : Event

    unfoldable pub step : ℕ → x.SecretKey → Event → Listener → Listener
    unfolding move_rounds handle
    step interval_s key (request uri node onion comsig) l = record l {
      shared = if l.accepting then (handle key uri node onion comsig l.shared).1 else l.shared;
    }
    step interval_s key (move second) l = move_rounds interval_s second l
    step interval_s key stop l = record l { stopped = true }

    unfoldable pub play : ℕ → x.SecretKey → List Event → Listener → Listener
    unfolding step
    play interval_s key [] l = l
    play interval_s key (e ∷ es) l = play interval_s key es (step interval_s key e l)

    -- `listen` up to its first wait, where the HTTP server may not start.
    unfoldable pub listen : f.SocketAddr → x.Db → Result (Unit {0}) Listener
    listen addr store = elim (h.start_http addr) [
      | ok _ ↦ ok (started store)
      | err _ ↦ panic
      | panic ↦ panic
    ]
