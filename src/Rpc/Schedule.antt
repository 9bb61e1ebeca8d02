-- ===== src/Rpc/Schedule.antt =====
-- When the rounds are due, however requests and signals come between the wake-ups of the thread.
use mwixnet.Base.{
  ℕ, suc, ◌≡◌, ◌≢◌, ◌<◌, ◌+◌, ◌*◌, ◌^◌, ◌⊎◌, inl, inr, refl, sym, ap, ◌∙◌, subst, arith, Bool-cases,
  List, [], ◌∷◌, Result, ok, err, panic, err_ok, panic_ok, ok-injective, ◌==◌, ended, returned,
  failed, panicked,
}
use mwixnet.Ext.{Crates}
use mwixnet.Ext.Files.{Files}
use mwixnet.Ext.Http.{Http}
use mwixnet.Server.Round.{execute_round}
use mwixnet.Rpc.{Shared, locked}
use mwixnet.Rpc.Loop.{Second, ignore, next_secs, run_round, turn}
use mwixnet.Rpc.Rounds.{Ticks, first, tick, Ticks-remainder}
use mwixnet.Rpc.Listen.{
  RoundThread, testing, sleeping, left, dead, Listener, Event, request, move, stop, move_rounds,
  step, play, listen,
}
use mwixnet.Rpc.Stopping.{moves, play-dead}
use mwixnet.Rpc.Stops.{listen-eq-started}

-- The thread after `w` wake-ups: `n` turns are behind it, and it is before its test or asleep.
data Clock (k : ℕ) : ℕ → RoundThread → Type 0 where
  at_test : {n secs : ℕ} → Ticks k n secs → Clock k (2 * n) (testing secs)
  asleep : {n secs : ℕ} → Ticks k n secs → Clock k (suc (2 * n)) (sleeping secs)

module _ (x : Crates) (f : Files) (h : Http f) (k : ℕ) (key : x.SecretKey) where
  ignore-eq-ok : {E A : Type 0} (r : Result E A) (a b : ℕ) → ignore x r a ≡ ok b → a ≡ b
  ignore-eq-ok (ok _) a b h = ok-injective _ _ h
  ignore-eq-ok (err _) a b h = ok-injective _ _ h
  ignore-eq-ok panic a b h = absurd (cc h)

  run_round-eq-ok :
      (second : Second x) (secs secs' : ℕ) (s : Shared x)
      → (run_round x second secs s).0 ≡ ok secs'
      → secs ≡ secs'
  unfolding run_round
  run_round-eq-ok second secs secs' s e =
      ignore-eq-ok (locked x (execute_round x second.wallet second.node second.offset) s).0 secs
        secs' e

  turn-eq-ok :
      (second : Second x) (secs secs' : ℕ) (s : Shared x)
      → (turn x k second secs s).0 ≡ ok secs'
      → ◌≡◌ {A = Result (Unit {0}) ℕ} (next_secs k secs) (ok secs')
  unfolding turn
  turn-eq-ok second secs secs' s e = elim (ended {E = Unit {0}} (next_secs k secs)) [
    | failed _ q ↦ err_ok (rw q at e)
    | panicked q ↦ panic_ok (rw q at e)
    | returned now q ↦ elim (Bool-cases (now == 0)) [
      | inl z ↦ q ∙ ap ok (run_round-eq-ok second now secs' s (rw (q, z) at e))
      | inr z ↦ q ∙ rw (q, z) at e
    ]
  ]

  play_left :
      (es : List (Event x f h)) (l : Listener x)
      → l.rounds ≡ left
      → (play x f h k key es l).rounds ≡ left
  unfolding play step move_rounds
  play_left [] l e = e
  play_left (request uri node onion comsig ∷ es) l e =
      play_left es (step x f h k key (request uri node onion comsig) l) e
  play_left (move second ∷ es) l e = play_left es (step x f h k key (move second) l) (rw e refl)
  play_left (stop ∷ es) l e = play_left es (step x f h k key stop l) e

  wake-Clock :
      (second : Second x) (l : Listener x) (w : ℕ) (r : RoundThread)
      → l.rounds ≡ r
      → Clock k w r
      → (move_rounds x k second l).rounds ≢ left
      → (move_rounds x k second l).rounds ≢ dead
      → Clock k (suc w) (move_rounds x k second l).rounds
  unfolding move_rounds
  wake-Clock second l _ _ e (at_test {secs = secs} t) up alive = elim (Bool-cases l.stopped) [
    | inl on ↦ absurd (up (rw (e, on) refl))
    | inr off ↦ rw (e, off) (asleep t)
  ]
  wake-Clock second l _ _ e (asleep {n = n} {secs = secs} t) up alive =
      elim (ended (turn x k second secs l.shared).0) [
        | failed _ q ↦ absurd (alive (rw (e, q) refl))
        | panicked q ↦ absurd (alive (rw (e, q) refl))
        | returned secs' q ↦
            let next_tick = at_test (tick t (turn-eq-ok second secs secs' l.shared q)) in
            rw (e, q) (subst (λ m. Clock k m (testing secs')) (two_more n) next_tick)
      ]
    where
      two_more : (n : ℕ) → 2 * suc n ≡ suc (suc (2 * n))
      two_more n = omega arith

  add_zero : (n : ℕ) → n + 0 ≡ n
  add_zero n = omega arith

  zero_add : (n : ℕ) → 0 + n ≡ n
  zero_add n = omega arith

  add_suc : (n m : ℕ) → suc n + m ≡ n + suc m
  add_suc n m = omega arith

  play-Clock :
      (es : List (Event x f h)) (l : Listener x) (w : ℕ)
      → Clock k w l.rounds
      → (play x f h k key es l).rounds ≢ left
      → (play x f h k key es l).rounds ≢ dead
      → Clock k (w + moves x f h es) (play x f h k key es l).rounds
  unfolding play moves step
  play-Clock [] l w c up alive = subst (λ n. Clock k n l.rounds) (sym (add_zero w)) c
  play-Clock (request uri node onion comsig ∷ es) l w c up alive =
      play-Clock es (step x f h k key (request uri node onion comsig) l) w c up alive
  play-Clock (stop ∷ es) l w c up alive = play-Clock es (step x f h k key stop l) w c up alive
  play-Clock (move second ∷ es) l w c up alive =
      let l' = move_rounds x k second l in
      subst (λ n. Clock k n (play x f h k key es l').rounds) (add_suc w (moves x f h es))
        (play-Clock es l' (suc w)
          (wake-Clock second l w l.rounds refl c (λ e. up (play_left es l' e))
            (λ e. alive (play-dead x f h k key es l' e).0))
          up alive)

  Clock-remainder :
      (w : ℕ) (r : RoundThread)
      → 0 < k
      → k < 2 ^ 32
      → Clock k w r
      → (n : ℕ) × (q : ℕ) × (secs : ℕ) × (n ≡ q * k + secs)
        × (secs < k)
        × ((r ≡ testing secs) × (w ≡ 2 * n) ⊎ (r ≡ sleeping secs) × (w ≡ suc (2 * n)))
  Clock-remainder _ _ pos fits (at_test {n = n} {secs = secs} t) =
      let (q, e, lt) = Ticks-remainder k n secs pos fits t in (n, q, secs, e, lt, inl (refl, refl))
  Clock-remainder _ _ pos fits (asleep {n = n} {secs = secs} t) =
      let (q, e, lt) = Ticks-remainder k n secs pos fits t in (n, q, secs, e, lt, inr (refl, refl))

  -- From the start of `listen`, with a positive interval, let any requests, wake-ups and signals
  -- follow, after which the thread of the rounds has not left its loop and no panic has ended it.
  -- Then two wake-ups make one turn, and `secs` is the remainder of the number of turns by the
  -- interval, whatever came between.
  pub listen-Clock :
      (addr : f.SocketAddr) (store : x.Db) (l : Listener x) (es : List (Event x f h))
      → listen x f h addr store ≡ ok l
      → 0 < k
      → k < 2 ^ 32
      → (play x f h k key es l).rounds ≢ left
      → (play x f h k key es l).rounds ≢ dead
      → (n : ℕ) × (q : ℕ) × (secs : ℕ) × (n ≡ q * k + secs)
        × (secs < k)
        × (((play x f h k key es l).rounds ≡ testing secs) × (moves x f h es ≡ 2 * n)
            ⊎ ((play x f h k key es l).rounds ≡ sleeping secs) × (moves x f h es ≡ suc (2 * n)))
  listen-Clock addr store l es e pos fits up alive =
      let begin : Clock k 0 l.rounds =
        subst (λ m. Clock k 0 m.rounds) (listen-eq-started x f h k key addr store l e)
          (at_test first) in
      Clock-remainder (moves x f h es) (play x f h k key es l).rounds pos fits (
        subst (λ w. Clock k w (play x f h k key es l).rounds) (zero_add (moves x f h es))
          (play-Clock es l 0 begin up alive))
