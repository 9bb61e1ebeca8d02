-- ===== src/Rpc/Rounds.antt =====
-- When the loop runs a round, and that every call and every turn is a sequence of steps of the
-- server.
use mwixnet.Base.{
  ℕ, ◌≡◌, ◌<◌, ◌+◌, ◌*◌, ◌^◌, ◌⊎◌, inl, inr, suc, refl, sym, ap, ◌∙◌, arith, false, Bool-cases,
  List, [], ◌∷◌, ◌==◌, ==_no, ==_iff, Result, ok, ended, returned, failed, panicked, mod-eq_of_lt,
  mod_self,
}
use mwixnet.Base.Exec.{Exec, after}
use mwixnet.Ext.{Crates}
use mwixnet.Secp.{ComSignature}
use mwixnet.Node.{GrinNode}
use mwixnet.Onion.{Onion}
use mwixnet.Server.Round.{World, execute_round}
use mwixnet.Server.Reach.{Step, Reach, request, round, start, next}
use mwixnet.Rpc.{Shared, locked, api_swap, server_swap}
use mwixnet.Rpc.Loop.{Second, next_secs, run_round, turn, run}

-- `secs` after `n` turns that do not panic, from zero.
pub data Ticks (interval_s : ℕ) : ℕ → ℕ → Type 0 where
  first : Ticks interval_s 0 0
  tick :
      {n secs secs' : ℕ}
      → Ticks interval_s n secs
      → ◌≡◌ {A = Result (Unit {0}) ℕ} (next_secs interval_s secs) (ok secs')
      → Ticks interval_s (suc n) secs'

next_secs-cases :
    (k s : ℕ)
    → s < k
    → k < 2 ^ 32
    → (s + 1 < k) × (◌≡◌ {A = Result (Unit {0}) ℕ} (next_secs k s) (ok (s + 1)))
      ⊎ (s + 1 ≡ k) × (◌≡◌ {A = Result (Unit {0}) ℕ} (next_secs k s) (ok 0))
unfolding next_secs
next_secs-cases k s h w = elim (Bool-cases (s + 1 == k)) [
  | inl e ↦
      let q = (==_iff _ _).0 e in
      inr (
        q,
        rw
            (
              ==_no k 0 (omega arith),
              mod-eq_of_lt {n = s + 1} {m = 2 ^ 32} (omega arith),
              q,
              mod_self k,
            )
            refl,
      )
  | inr e ↦
      let lt : s + 1 < k = not_eq e in
      inl (
        lt,
        rw
            (
              ==_no k 0 (omega arith),
              mod-eq_of_lt {n = s + 1} {m = 2 ^ 32} (omega arith),
              mod-eq_of_lt {n = s + 1} {m = k} lt,
            )
            refl,
      )
]
  where
    not_eq : (s + 1 == k) ≡ false → s + 1 < k
    not_eq e = ground arith

mul_step : (q k n s : ℕ) → n ≡ q * k + s → s + 1 ≡ k → suc n ≡ (q + 1) * k + 0
mul_step q k n s e h = omega arith

-- After `n` turns, from zero and with a positive interval, `secs` is the remainder of `n` by the
-- interval: `n` is a multiple of the interval plus `secs`, which is below the interval. So a round
-- is run exactly after every multiple of the interval.
pub Ticks-remainder :
    (k n s : ℕ) → 0 < k → k < 2 ^ 32 → Ticks k n s → (q : ℕ) × (n ≡ q * k + s) × (s < k)
Ticks-remainder k n s pos w first = (0, omega arith, pos)
Ticks-remainder k _ s pos w (tick {n = m} {secs = secs} t e) =
    let (q, en, lt) = Ticks-remainder k m secs pos w t in
    elim (next_secs-cases k secs lt w) [
      | inl (more, f) ↦
          let same : secs + 1 ≡ s = same_ok (sym f ∙ e) in (q, omega arith, omega arith)
      | inr (full, f) ↦
          let same : 0 ≡ s = same_ok (sym f ∙ e) in
          (q + 1, mul_step q k m secs en full ∙ ap (λ r. (q + 1) * k + r) same, omega arith)
    ]
  where
    same_ok : {a b : ℕ} → ◌≡◌ {A = Result (Unit {0}) ℕ} (ok a) (ok b) → a ≡ b
    same_ok h = cc

module _ (x : Crates) (key : x.SecretKey) where
  locked-Reach :
      {E A : Type 0} (call : Exec (World x) E A) (s : Shared x)
      → Step x key s.world (call s.world).1
      → Reach x key s.world (locked x call s).1.world
  unfolding locked
  locked-Reach call s h = elim (Bool-cases s.poisoned) [
    | inl bad ↦ rw bad start
    | inr good ↦ rw good (next start h)
  ]

  -- A call of the API leads to a world that steps of the server lead to.
  pub api_swap-Reach :
      (node : GrinNode x) (onion : Onion x) (comsig : ComSignature x) (s : Shared x)
      → Reach x key s.world (api_swap x key node onion comsig s).1.world
  unfolding api_swap
  api_swap-Reach node onion comsig s =
      locked-Reach (server_swap x key node onion comsig) s (request node onion comsig)

  pub Reach-trans : {w v u : World x} → Reach x key w v → Reach x key v u → Reach x key w u
  Reach-trans r start = r
  Reach-trans r (next q h) = next (Reach-trans r q) h

  run_round-Reach :
      (second : Second x) (secs : ℕ) (s : Shared x)
      → Reach x key s.world (run_round x second secs s).1.world
  unfolding run_round
  run_round-Reach second secs s =
      locked-Reach (execute_round x second.wallet second.node second.offset) s
        (round second.wallet second.node second.offset)

  pub turn-Reach :
      (k : ℕ) (second : Second x) (secs : ℕ) (s : Shared x)
      → Reach x key s.world (turn x k second secs s).1.world
  unfolding turn
  turn-Reach k second secs s = elim (ended {E = Unit {0}} (next_secs k secs)) [
    | failed _ e ↦ rw e start
    | panicked e ↦ rw e start
    | returned secs' e ↦ elim (Bool-cases (secs' == 0)) [
      | inr later ↦ rw (e, later) start
      | inl now ↦ rw (e, now) (run_round-Reach second secs' s)
    ]
  ]

  -- The loop of the rounds leads to a world that steps of the server lead to.
  pub run-Reach :
      (k : ℕ) (seconds : List (Second x)) (secs : ℕ) (s : Shared x)
      → Reach x key s.world (run x k seconds secs s).1.world
  unfolding run
  run-Reach k [] secs s = start
  run-Reach k (second ∷ seconds) secs s = elim (ended (turn x k second secs s).0) [
    | failed _ e ↦ rw (e, after) (turn-Reach k second secs s)
    | panicked e ↦ rw (e, after) (turn-Reach k second secs s)
    | returned secs' e ↦
        rw (e, after)
          (Reach-trans (turn-Reach k second secs s)
            (run-Reach k seconds secs' (turn x k second secs s).1))
  ]
