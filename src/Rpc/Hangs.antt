-- ===== src/Rpc/Hangs.antt =====
-- Where `listen` never returns: a panic has ended the thread that closes the HTTP server.
use mwixnet.Base.{
  ℕ, ◌≡◌, refl, sym, ap, ◌∙◌, subst, true, false, Bool-cases, inl, inr, List, [], ◌∷◌, none, Result,
  ok, panic,
}
use mwixnet.Ext.{Crates}
use mwixnet.Ext.Files.{Files}
use mwixnet.Ext.Http.{Http}
use mwixnet.Secp.{ComSignature}
use mwixnet.Node.{GrinNode}
use mwixnet.Onion.{Onion}
use mwixnet.Server.Round.{execute_round}
use mwixnet.Rpc.{Shared, api_swap, locked}
use mwixnet.Rpc.Loop.{Second, next_secs, run_round, turn}
use mwixnet.Rpc.Listen.{
  sleeping, dead, Listener, Event, request, move, stop, returned_by, move_rounds, handle, step,
  play,
}

module _ (x : Crates) (f : Files) (h : Http f) (k : ℕ) (key : x.SecretKey) where
  -- A listener that nothing ends, and that serves nothing.
  record IsStuck (l : Listener x) : Type 0 where
    dead_lem : l.rounds ≡ dead
    accepting_lem : l.accepting ≡ true
    poisoned_lem : l.shared.poisoned ≡ true

  -- A panic of the round of this turn.
  wake-IsStuck :
      (second : Second x) (secs : ℕ) (l : Listener x)
      → l.rounds ≡ sleeping secs
      → l.accepting ≡ true
      → l.shared.poisoned ≡ false
      → ◌≡◌ {A = Result (Unit {0}) ℕ} (next_secs k secs) (ok 0)
      → (execute_round x second.wallet second.node second.offset l.shared.world).0 ≡ panic
      → IsStuck (step x f h k key (move second) l)
  unfolding step move_rounds turn run_round locked
  wake-IsStuck second secs l e up good tick bad = record {
    dead_lem = rw (e, tick, good, bad) refl;
    accepting_lem = rw (e, up) refl;
    poisoned_lem = rw (e, tick, good, bad) refl;
  }

  handle_poisoned :
      (uri : h.Uri) (node : GrinNode x) (onion : Onion x) (comsig : ComSignature x) (s : Shared x)
      → s.poisoned ≡ true
      → (handle x f h key uri node onion comsig s).1 ≡ s
  unfolding handle api_swap locked
  handle_poisoned uri node onion comsig s bad = elim (Bool-cases (h.is_v1 uri)) [
    | inl v1 ↦ rw (v1, bad) refl
    | inr other ↦ rw other refl
  ]

  step-IsStuck :
      (e : Event x f h) (l : Listener x)
      → IsStuck l
      → IsStuck (step x f h k key e l) × ((step x f h k key e l).shared ≡ l.shared)
  unfolding step move_rounds
  step-IsStuck (request uri node onion comsig) l s =
      let same : (step x f h k key (request uri node onion comsig) l).shared ≡ l.shared =
        rw s.accepting_lem (handle_poisoned uri node onion comsig l.shared s.poisoned_lem) in
      (
        record {
          dead_lem = s.dead_lem;
          accepting_lem = s.accepting_lem;
          poisoned_lem = ap (λ t. t.poisoned) same ∙ s.poisoned_lem;
        },
        same,
      )
  step-IsStuck (move second) l s =
      let same : step x f h k key (move second) l ≡ l = rw s.dead_lem refl in
      (subst IsStuck (sym same) s, ap (λ t. t.shared) same)
  step-IsStuck stop l s = (
    record {
      dead_lem = s.dead_lem;
      accepting_lem = s.accepting_lem;
      poisoned_lem = s.poisoned_lem;
    },
    refl,
  )

  play-IsStuck :
      (es : List (Event x f h)) (l : Listener x)
      → IsStuck l
      → (returned_by x (play x f h k key es l) ≡ none) × ((play x f h k key es l).shared ≡ l.shared)
  unfolding play returned_by
  play-IsStuck [] l s = (rw s.accepting_lem refl, refl)
  play-IsStuck (e ∷ es) l s =
      let (s', same) = step-IsStuck e l s in
      let (never, kept) = play-IsStuck es (step x f h k key e l) s' in (never, kept ∙ same)

  -- Let a round that is due panic while the HTTP server is open and before any other panic. Then
  -- `listen` never returns, whatever requests, turns and stop signals follow, and none of them
  -- changes the server.
  pub listen-Hangs :
      (second : Second x) (secs : ℕ) (l : Listener x) (es : List (Event x f h))
      → l.rounds ≡ sleeping secs
      → l.accepting ≡ true
      → l.shared.poisoned ≡ false
      → ◌≡◌ {A = Result (Unit {0}) ℕ} (next_secs k secs) (ok 0)
      → (execute_round x second.wallet second.node second.offset l.shared.world).0 ≡ panic
      → (returned_by x (play x f h k key (move second ∷ es) l) ≡ none)
        × ((play x f h k key (move second ∷ es) l).shared
            ≡ (step x f h k key (move second) l).shared)
  unfolding play
  listen-Hangs second secs l es e up good tick bad =
      play-IsStuck es (step x f h k key (move second) l)
        (wake-IsStuck second secs l e up good tick bad)
