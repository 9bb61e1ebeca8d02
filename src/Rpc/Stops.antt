-- ===== src/Rpc/Stops.antt =====
-- How `listen` ends after a stop signal, and where it never ends.
use mwixnet.Base.{
  ℕ, ◌≡◌, ◌≢◌, ◌≤◌, refl, subst, arith, List, [], ◌∷◌, ◌++◌, some, Result, ok, err, panic,
  ok-injective,
}
use mwixnet.Ext.{Crates}
use mwixnet.Ext.Files.{Files}
use mwixnet.Ext.Http.{Http}
use mwixnet.Rpc.Listen.{dead, Listener, Event, stop, returned_by, step, play, listen, started}
use mwixnet.Rpc.Stopping.{due_le, moves, IsClosed, play-left, play-Stopped}
use mwixnet.Rpc.Closing.{play-IsClosed, play-append}

module _ (x : Crates) (f : Files) (h : Http f) (k : ℕ) (key : x.SecretKey) where
  pub listen-eq-started :
      (addr : f.SocketAddr) (store : x.Db) (l : Listener x)
      → listen x f h addr store ≡ ok l
      → started x store ≡ l
  unfolding listen
  listen-eq-started addr store l e = go (h.start_http addr) e
    where
      go :
          (r : Result h.StartError (Unit {0}))
          → ◌≡◌ {A = Result (Unit {0}) (Listener x)}
              (elim r [ ok _ ↦ ok (started x store) | err _ ↦ panic | panic ↦ panic ])
              (ok l)
          → started x store ≡ l
      go (ok _) e = ok-injective _ _ e
      go (err _) e = absurd (cc e)
      go panic e = absurd (cc e)

  listen-IsClosed :
      (addr : f.SocketAddr) (store : x.Db) (l : Listener x)
      → listen x f h addr store ≡ ok l
      → IsClosed x f h l
  unfolding IsClosed
  listen-IsClosed addr store l e =
      subst (IsClosed x f h) (listen-eq-started addr store l e) (λ z. absurd (cc z))

  -- Let the HTTP server start, and let any requests, turns and signals follow, among them a stop
  -- signal and at least two more wake-ups of the thread of the rounds. If no panic has ended that
  -- thread, `listen` has then returned without error, and no request changes the server any more,
  -- whatever else follows.
  pub listen-Stops :
      (addr : f.SocketAddr) (store : x.Db) (l : Listener x)
      (before after later : List (Event x f h))
      → listen x f h addr store ≡ ok l
      → 2 ≤ moves x f h after
      → (play x f h k key (before ++ stop ∷ after) l).rounds ≢ dead
      → (returned_by x (play x f h k key later (play x f h k key (before ++ stop ∷ after) l))
          ≡ some (ok tt))
        × ((play x f h k key later (play x f h k key (before ++ stop ∷ after) l)).shared
            ≡ (play x f h k key (before ++ stop ∷ after) l).shared)
  unfolding play step
  listen-Stops addr store l before after later e more alive =
      let l' = play x f h k key before l in
      let c = play-IsClosed x f h k key before l (listen-IsClosed addr store l e) in
      let same = play-append x f h k key before (stop ∷ after) l in
      let (gone, shut) =
        play-Stopped x f h k key after (step x f h k key stop l') refl
          (play-IsClosed x f h k key (stop ∷ []) l' c) (omega (arith, more, due_le l'.rounds))
          (subst (λ m. m.rounds ≢ dead) same alive) in
      rw same (play-left x f h k key later (play x f h k key (stop ∷ after) l') gone shut)
