-- ===== src/Rpc/Between.antt =====
-- What the events before the next round make of the server: requests, one after the other.
use mwixnet.Base.{
  ℕ, ◌≡◌, ◌≢◌, refl, sym, ap, ◌∙◌, subst, true, false, Bool-cases, inl, inr, Result, ok, ended,
  returned, failed, panicked, ◌==◌, ==_iff,
}
use mwixnet.Ext.{Crates}
use mwixnet.Ext.Files.{Files}
use mwixnet.Ext.Http.{Http}
use mwixnet.Secp.{ComSignature}
use mwixnet.Node.{GrinNode}
use mwixnet.Onion.{Onion}
use mwixnet.Server.Round.{World, execute_round}
use mwixnet.Server.Lifecycle.{Requests, no_more, one_more, requested}
use mwixnet.Rpc.{Shared, api_swap, locked}
use mwixnet.Rpc.Loop.{Second, next_secs, run_round, turn}
use mwixnet.Rpc.Listen.{
  RoundThread, testing, sleeping, left, dead, Listener, Event, request, move, stop, handle,
  move_rounds, step,
}

module _ (x : Crates) (f : Files) (h : Http f) (k : ℕ) (key : x.SecretKey) where
  -- The event runs no round: a wake-up does where `secs` becomes zero.
  abbrev pub NoRound : Event x f h → Listener x → Type 0
  NoRound (request _ _ _ _) l = Unit {0}
  NoRound (move _) l =
      (secs : ℕ)
      → l.rounds ≡ sleeping secs
      → ◌≢◌ {A = Result (Unit {0}) ℕ} (next_secs k secs) (ok 0)
  NoRound stop l = Unit {0}

  -- The listeners that events lead to before the next round.
  pub data Between (l : Listener x) : Listener x → Type 0 where
    at_once : Between l l
    later :
        {m : Listener x}
        → Between l m
        → (e : Event x f h) → NoRound e m
        → Between l (step x f h k key e m)

  turn_early :
      (second : Second x) (secs : ℕ) (s : Shared x)
      → ◌≢◌ {A = Result (Unit {0}) ℕ} (next_secs k secs) (ok 0)
      → (turn x k second secs s).1 ≡ s
  unfolding turn
  turn_early second secs s n = elim (ended {E = Unit {0}} (next_secs k secs)) [
    | failed _ e ↦ rw e refl
    | panicked e ↦ rw e refl
    | returned secs' e ↦ elim (Bool-cases (secs' == 0)) [
      | inl now ↦ absurd (n (e ∙ ap ok ((==_iff _ _).0 now)))
      | inr early ↦ rw (e, early) refl
    ]
  ]

  wake_early :
      (second : Second x) (l : Listener x) (r : RoundThread)
      → l.rounds ≡ r
      → NoRound (move second) l
      → (move_rounds x k second l).shared ≡ l.shared
  unfolding move_rounds
  wake_early second l (testing secs) e n = elim (Bool-cases l.stopped) [
    | inl on ↦ rw (e, on) refl
    | inr off ↦ rw (e, off) refl
  ]
  wake_early second l (sleeping secs) e n = rw e (turn_early second secs l.shared (n secs e))
  wake_early second l left e n = rw e refl
  wake_early second l dead e n = rw e refl

  -- What a request changes, where no panic comes before it.
  pub handle_v1 :
      (uri : h.Uri) (node : GrinNode x) (onion : Onion x) (comsig : ComSignature x) (s : Shared x)
      → h.is_v1 uri ≡ true
      → s.poisoned ≡ false
      → (handle x f h key uri node onion comsig s).1.world
        ≡ requested x key node onion comsig s.world
  unfolding handle api_swap locked
  handle_v1 uri node onion comsig s v1 good = rw (v1, good) refl

  handle_poisoned :
      (uri : h.Uri) (node : GrinNode x) (onion : Onion x) (comsig : ComSignature x) (s : Shared x)
      → s.poisoned ≡ true
      → (handle x f h key uri node onion comsig s).1.poisoned ≡ true
  unfolding handle api_swap locked
  handle_poisoned uri node onion comsig s bad = elim (Bool-cases (h.is_v1 uri)) [
    | inl v1 ↦ rw (v1, bad) refl
    | inr other ↦ rw other bad
  ]

  step_poisoned :
      (e : Event x f h) (l : Listener x)
      → NoRound e l
      → l.shared.poisoned ≡ true
      → (step x f h k key e l).shared.poisoned ≡ true
  unfolding step
  step_poisoned (request uri node onion comsig) l n bad = elim (Bool-cases l.accepting) [
    | inl up ↦ rw up (handle_poisoned uri node onion comsig l.shared bad)
    | inr down ↦ rw down bad
  ]
  step_poisoned (move second) l n bad =
      ap (λ s. s.poisoned) (wake_early second l l.rounds refl n) ∙ bad
  step_poisoned stop l n bad = bad

  handle-Requests :
      (uri : h.Uri) (node : GrinNode x) (onion : Onion x) (comsig : ComSignature x) (s : Shared x)
      (w : World x)
      → s.poisoned ≡ false
      → Requests x key w s.world
      → Requests x key w (handle x f h key uri node onion comsig s).1.world
  unfolding handle
  handle-Requests uri node onion comsig s w good r = elim (Bool-cases (h.is_v1 uri)) [
    | inl v1 ↦
        subst (Requests x key w) (sym (handle_v1 uri node onion comsig s v1 good))
          (one_more r node onion comsig)
    | inr other ↦ rw other r
  ]

  step-Requests :
      (e : Event x f h) (l : Listener x) (w : World x)
      → NoRound e l
      → l.shared.poisoned ≡ false
      → Requests x key w l.shared.world
      → Requests x key w (step x f h k key e l).shared.world
  unfolding step
  step-Requests (request uri node onion comsig) l w n good r = elim (Bool-cases l.accepting) [
    | inl up ↦ rw up (handle-Requests uri node onion comsig l.shared w good r)
    | inr down ↦ rw down r
  ]
  step-Requests (move second) l w n good r =
      subst (λ s. Requests x key w s.world) (sym (wake_early second l l.rounds refl n)) r
  step-Requests stop l w n good r = r

  -- Where no panic has come, the events before the next round are requests to the server.
  pub Between-Requests :
      (l m : Listener x)
      → Between l m
      → m.shared.poisoned ≡ false
      → Requests x key l.shared.world m.shared.world
  Between-Requests l _ at_once good = no_more
  Between-Requests l _ (later {m = m} b e n) good = elim (Bool-cases m.shared.poisoned) [
    | inl bad ↦ absurd (cc (sym good ∙ step_poisoned e m n bad))
    | inr fine ↦ step-Requests e m l.shared.world n fine (Between-Requests l m b fine)
  ]

  -- A due round that follows an unpoisoned listener is the one of the server.
  pub wake_due :
      (second : Second x) (secs : ℕ) (m : Listener x)
      → m.rounds ≡ sleeping secs
      → m.shared.poisoned ≡ false
      → ◌≡◌ {A = Result (Unit {0}) ℕ} (next_secs k secs) (ok 0)
      → (step x f h k key (move second) m).shared.world
        ≡ (execute_round x second.wallet second.node second.offset m.shared.world).1
  unfolding step move_rounds turn run_round locked
  wake_due second secs m e good due = rw (e, due, good) refl
