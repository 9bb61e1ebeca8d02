-- ===== src/Rpc/Closing.antt =====
-- Whenever the thread of the rounds has left its loop, the HTTP server is closed.
use mwixnet.Base.{
  ℕ, ◌≡◌, refl, Bool-cases, inl, inr, List, [], ◌∷◌, ◌++◌, ended, returned, failed, panicked,
}
use mwixnet.Ext.{Crates}
use mwixnet.Ext.Files.{Files}
use mwixnet.Ext.Http.{Http}
use mwixnet.Rpc.Loop.{Second, turn}
use mwixnet.Rpc.Listen.{
  RoundThread, testing, sleeping, left, dead, Listener, Event, request, move, stop, move_rounds,
  step, play,
}
use mwixnet.Rpc.Stopping.{IsClosed}

module _ (x : Crates) (f : Files) (h : Http f) (k : ℕ) (key : x.SecretKey) where
  wake-IsClosed :
      (second : Second x) (l : Listener x) (r : RoundThread)
      → l.rounds ≡ r
      → IsClosed x f h l
      → IsClosed x f h (move_rounds x k second l)
  unfolding move_rounds IsClosed
  wake-IsClosed second l (testing secs) e c = elim (Bool-cases l.stopped) [
    | inl on ↦ rw (e, on) λ _. refl
    | inr off ↦ rw (e, off) λ z. absurd (cc z)
  ]
  wake-IsClosed second l (sleeping secs) e c = elim (ended (turn x k second secs l.shared).0) [
    | returned secs' q ↦ rw (e, q) λ z. absurd (cc z)
    | failed _ q ↦ rw (e, q) λ z. absurd (cc z)
    | panicked q ↦ rw (e, q) λ z. absurd (cc z)
  ]
  wake-IsClosed second l left e c = rw e λ _. c e
  wake-IsClosed second l dead e c = rw e λ z. absurd (cc z)

  -- The HTTP server is closed whenever the thread has left the loop.
  pub play-IsClosed :
      (es : List (Event x f h)) (l : Listener x)
      → IsClosed x f h l
      → IsClosed x f h (play x f h k key es l)
  unfolding play step IsClosed
  play-IsClosed [] l c = c
  play-IsClosed (request uri node onion comsig ∷ es) l c =
      play-IsClosed es (step x f h k key (request uri node onion comsig) l) c
  play-IsClosed (move second ∷ es) l c =
      play-IsClosed es (step x f h k key (move second) l) (wake-IsClosed second l l.rounds refl c)
  play-IsClosed (stop ∷ es) l c = play-IsClosed es (step x f h k key stop l) c

  pub play-append :
      (es ds : List (Event x f h)) (l : Listener x)
      → play x f h k key (es ++ ds) l ≡ play x f h k key ds (play x f h k key es l)
  unfolding play
  play-append [] ds l = refl
  play-append (e ∷ es) ds l = play-append es ds (step x f h k key e l)
