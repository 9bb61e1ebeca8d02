-- ===== src/Rpc/Ordered.antt =====
-- Every order of requests, turns and signals is an order of steps of the server.
use mwixnet.Base.{◌≡◌, ◌≢◌, ℕ, refl, Bool-cases, inl, inr, List, [], ◌∷◌}
use mwixnet.Ext.{Crates}
use mwixnet.Ext.Files.{Files}
use mwixnet.Ext.Http.{Http}
use mwixnet.Ext.Laws.{SerLaws, ValueLaws}
use mwixnet.Ext.DbLaws.{DbLaws}
use mwixnet.Secp.{ComSignature}
use mwixnet.Node.{GrinNode}
use mwixnet.Onion.{Onion}
use mwixnet.Store.Data.{SwapData, unprocessed}
use mwixnet.Store.View.{Holds}
use mwixnet.Server.Mark.{IsLedger}
use mwixnet.Server.Reach.{Reach, start, Reach-keeps, Reach-IsLedger}
use mwixnet.Rpc.{Shared}
use mwixnet.Rpc.Loop.{Second}
use mwixnet.Rpc.Listen.{
  RoundThread, testing, sleeping, left, dead, Listener, Event, request, move, stop, move_rounds,
  handle, step, play,
}
use mwixnet.Rpc.Rounds.{api_swap-Reach, turn-Reach, Reach-trans}

module _ (x : Crates) (f : Files) (h : Http f) (k : ℕ) (key : x.SecretKey) where
  handle-Reach :
      (uri : h.Uri) (node : GrinNode x) (onion : Onion x) (comsig : ComSignature x) (s : Shared x)
      → Reach x key s.world (handle x f h key uri node onion comsig s).1.world
  unfolding handle
  handle-Reach uri node onion comsig s = elim (Bool-cases (h.is_v1 uri)) [
    | inl v1 ↦ rw v1 (api_swap-Reach x key node onion comsig s)
    | inr other ↦ rw other start
  ]

  wake-Reach :
      (second : Second x) (l : Listener x) (r : RoundThread)
      → l.rounds ≡ r
      → Reach x key l.shared.world (move_rounds x k second l).shared.world
  unfolding move_rounds
  wake-Reach second l (testing secs) e = elim (Bool-cases l.stopped) [
    | inl on ↦ rw (e, on) start
    | inr off ↦ rw (e, off) start
  ]
  wake-Reach second l (sleeping secs) e = rw e (turn-Reach x key k second secs l.shared)
  wake-Reach second l left e = rw e start
  wake-Reach second l dead e = rw e start

  step-Reach :
      (e : Event x f h) (l : Listener x)
      → Reach x key l.shared.world (step x f h k key e l).shared.world
  unfolding step
  step-Reach (request uri node onion comsig) l = elim (Bool-cases l.accepting) [
    | inl up ↦ rw up (handle-Reach uri node onion comsig l.shared)
    | inr down ↦ rw down start
  ]
  step-Reach (move second) l = wake-Reach second l l.rounds refl
  step-Reach stop l = start

  -- Whatever requests, turns and stop signals follow each other, the world that they lead to is one
  -- that requests and rounds of the server lead to, one at a time.
  pub play-Reach :
      (es : List (Event x f h)) (l : Listener x)
      → Reach x key l.shared.world (play x f h k key es l).shared.world
  unfolding play
  play-Reach [] l = start
  play-Reach (e ∷ es) l = Reach-trans x key (step-Reach e l) (play-Reach es (step x f h k key e l))

  module _ (S : SerLaws x) (V : ValueLaws x) (D : DbLaws x) where
    -- Let the store be one of swaps that passed the checks. Whatever requests, turns and stop
    -- signals follow each other, it stays one, and a swap that it holds as in process or as
    -- completed it then holds as it is.
    pub play-keeps :
        (es : List (Event x f h)) (l : Listener x) (c : x.Commitment) (t : SwapData x)
        → IsLedger x S D l.shared.world.db
        → t.status ≢ unprocessed
        → Holds x S D l.shared.world.db c t
        → IsLedger x S D (play x f h k key es l).shared.world.db
          × Holds x S D (play x f h k key es l).shared.world.db c t
    play-keeps es l c t I n held =
        let r = play-Reach es l in
        (Reach-IsLedger x S V D key r I, Reach-keeps x S V D key c t r I n held)
