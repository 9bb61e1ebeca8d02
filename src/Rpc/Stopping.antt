-- ===== src/Rpc/Stopping.antt =====
-- What the events do to the thread of the rounds: how far it is from leaving its loop.
use mwixnet.Base.{
  ℕ, suc, ◌≡◌, ◌≢◌, ◌≤◌, ◌+◌, refl, ◌∙◌, arith, true, false, List, [], ◌∷◌, some, ok, ended,
  returned, failed, panicked,
}
use mwixnet.Ext.{Crates}
use mwixnet.Ext.Files.{Files}
use mwixnet.Ext.Http.{Http}
use mwixnet.Rpc.Loop.{Second, turn}
use mwixnet.Rpc.Listen.{
  RoundThread, testing, sleeping, left, dead, Listener, Event, request, move, stop, returned_by,
  move_rounds, step, play,
}

-- How often the thread has still to be woken to leave the loop.
unfoldable pub due : RoundThread → ℕ
due (testing _) = 1
due (sleeping _) = 2
due left = 0
due dead = 0

pub due_le : (r : RoundThread) → due r ≤ 2
unfolding due
due_le (testing _) = omega arith
due_le (sleeping _) = omega arith
due_le left = omega arith
due_le dead = omega arith

module _ (x : Crates) (f : Files) (h : Http f) where
  -- How often the thread is woken by some events.
  unfoldable pub moves : List (Event x f h) → ℕ
  moves [] = 0
  moves (request _ _ _ _ ∷ es) = moves es
  moves (move _ ∷ es) = suc (moves es)
  moves (stop ∷ es) = moves es

  -- Once the thread has left the loop, the HTTP server is closed.
  unfoldable pub IsClosed : Listener x → Type 0
  IsClosed l = l.rounds ≡ left → l.accepting ≡ false

  module _ (k : ℕ) (key : x.SecretKey) where
    step-left :
        (e : Event x f h) (l : Listener x)
        → l.rounds ≡ left
        → l.accepting ≡ false
        → ((step x f h k key e l).rounds ≡ left)
          × ((step x f h k key e l).accepting ≡ false)
          × ((step x f h k key e l).shared ≡ l.shared)
    unfolding step move_rounds
    step-left (request uri node onion comsig) l gone shut = (gone, shut, rw shut refl)
    step-left (move second) l gone shut = (rw gone refl, rw gone shut, rw gone refl)
    step-left stop l gone shut = (gone, shut, refl)

    pub play-left :
        (es : List (Event x f h)) (l : Listener x)
        → l.rounds ≡ left
        → l.accepting ≡ false
        → (returned_by x (play x f h k key es l) ≡ some (ok tt))
          × ((play x f h k key es l).shared ≡ l.shared)
    unfolding play returned_by
    play-left [] l gone shut = (rw (shut, gone) refl, refl)
    play-left (e ∷ es) l gone shut =
        let (gone', shut', same) = step-left e l gone shut in
        let (done, kept) = play-left es (step x f h k key e l) gone' shut' in (done, kept ∙ same)

    step-dead :
        (e : Event x f h) (l : Listener x)
        → l.rounds ≡ dead
        → ((step x f h k key e l).rounds ≡ dead) × ((step x f h k key e l).accepting ≡ l.accepting)
    unfolding step move_rounds
    step-dead (request uri node onion comsig) l gone = (gone, refl)
    step-dead (move second) l gone = (rw gone refl, rw gone refl)
    step-dead stop l gone = (gone, refl)

    pub play-dead :
        (es : List (Event x f h)) (l : Listener x)
        → l.rounds ≡ dead
        → ((play x f h k key es l).rounds ≡ dead)
          × ((play x f h k key es l).accepting ≡ l.accepting)
    unfolding play
    play-dead [] l gone = (gone, refl)
    play-dead (e ∷ es) l gone =
        let (gone', same) = step-dead e l gone in
        let (still, kept) = play-dead es (step x f h k key e l) gone' in (still, kept ∙ same)

    -- A step of a stopped listener leaves it stopped, and the thread has less to do if it was
    -- woken.
    record Progress (e : Event x f h) (l l' : Listener x) : Type 0 where
      stopped_lem : l'.stopped ≡ true
      closed_lem : IsClosed l'
      due_lem : (n : ℕ) → due l.rounds ≤ moves (e ∷ []) + n → (l'.rounds ≢ dead) → due l'.rounds ≤ n

    wake-Progress :
        (second : Second x) (l : Listener x) (r : RoundThread)
        → l.rounds ≡ r
        → l.stopped ≡ true
        → IsClosed l
        → Progress (move second) l (move_rounds x k second l)
    unfolding move_rounds moves due IsClosed
    wake-Progress second l (testing secs) e on c = record {
      stopped_lem = rw (e, on) refl;
      closed_lem = rw (e, on) λ _. refl;
      due_lem = rw (e, on) λ n _ _. omega arith;
    }
    wake-Progress second l (sleeping secs) e on c = elim (ended (turn x k second secs l.shared).0) [
      | returned secs' q ↦ record {
        stopped_lem = rw e on;
        closed_lem = rw (e, q) λ z. absurd (cc z);
        due_lem = rw (e, q) λ n b _. omega (arith, b);
      }
      | failed _ q ↦ record {
        stopped_lem = rw e on;
        closed_lem = rw (e, q) λ z. absurd (cc z);
        due_lem = rw (e, q) λ n _ _. omega arith;
      }
      | panicked q ↦ record {
        stopped_lem = rw e on;
        closed_lem = rw (e, q) λ z. absurd (cc z);
        due_lem = rw (e, q) λ n _ _. omega arith;
      }
    ]
    wake-Progress second l left e on c = record {
      stopped_lem = rw e on;
      closed_lem = rw e λ _. c e;
      due_lem = rw e λ n _ _. omega arith;
    }
    wake-Progress second l dead e on c = record {
      stopped_lem = rw e on;
      closed_lem = rw e λ z. absurd (cc z);
      due_lem = rw e λ n _ _. omega arith;
    }

    step-Progress :
        (e : Event x f h) (l : Listener x)
        → l.stopped ≡ true
        → IsClosed l
        → Progress e l (step x f h k key e l)
    unfolding step moves IsClosed
    step-Progress (request uri node onion comsig) l on c = record {
      stopped_lem = on;
      closed_lem = c;
      due_lem = λ n b _. omega (arith, b);
    }
    step-Progress (move second) l on c = wake-Progress second l l.rounds refl on c
    step-Progress stop l on c = record {
      stopped_lem = refl;
      closed_lem = c;
      due_lem = λ n b _. omega (arith, b);
    }

    moves-cons :
        (e : Event x f h) (es : List (Event x f h)) → moves (e ∷ es) ≡ moves (e ∷ []) + moves es
    unfolding moves
    moves-cons (request _ _ _ _) es = omega arith
    moves-cons (move _) es = omega arith
    moves-cons stop es = omega arith

    alive_before :
        (es : List (Event x f h)) (l : Listener x)
        → (play x f h k key es l).rounds ≢ dead
        → l.rounds ≢ dead
    alive_before es l n e = n (play-dead es l e).0

    idle-left :
        (l : Listener x) (r : RoundThread)
        → l.rounds ≡ r
        → IsClosed l
        → due r ≤ 0
        → r ≢ dead
        → (l.rounds ≡ left) × (l.accepting ≡ false)
    unfolding due IsClosed
    idle-left l (testing secs) e c b n = absurd (omega (arith, b))
    idle-left l (sleeping secs) e c b n = absurd (omega (arith, b))
    idle-left l left e c b n = (e, c e)
    idle-left l dead e c b n = absurd (n refl)

    pub play-Stopped :
        (es : List (Event x f h)) (l : Listener x)
        → l.stopped ≡ true
        → IsClosed l
        → due l.rounds ≤ moves es
        → (play x f h k key es l).rounds ≢ dead
        → ((play x f h k key es l).rounds ≡ left) × ((play x f h k key es l).accepting ≡ false)
    unfolding play moves
    play-Stopped [] l on c b n = idle-left l l.rounds refl c b n
    play-Stopped (e ∷ es) l on c b n =
        let p = step-Progress e l on c in
        play-Stopped es (step x f h k key e l) p.stopped_lem p.closed_lem
          (p.due_lem (moves es) (omega (arith, b, moves-cons e es))
            (alive_before es (step x f h k key e l) n))
          n
