-- ===== src/Base/Exec.antt =====
-- Code that changes a state and may fail: the state comes back after an error and a panic too,
-- since what was written stays written.
use mwixnet.Base.{
  Bool, false, if◌then◌else◌, ◌≡◌, refl, ap, Result, ok, err, panic, ended, returned, failed,
  panicked, err_ok, panic_ok, err-injective, ◌⊎◌, inl, inr,
}

abbrev pub Exec : Type 0 → Type 0 → Type 0 → Type 0
Exec S E A = S → Result E A × S

module _ {S E A : Type 0} where
  abbrev pub pure : A → Exec S E A
  pure a s = (ok a, s)

  abbrev pub raise : E → Exec S E A
  raise e s = (err e, s)

  -- A call that does not touch the state, under `?`.
  abbrev pub lift : Result E A → Exec S E A
  lift r s = (r, s)

  abbrev pub asks : (S → Result E A) → Exec S E A
  asks f s = (f s, s)

-- What follows a call that ended in `r`, in the state that it left.
abbrev pub after : {S E A B : Type 0} → Result E A → (A → Exec S E B) → Exec S E B
after (ok a) f s = f a s
after (err e) f s = (err e, s)
after panic f s = (panic, s)

infixl 5 ◌>>=◌ ◌>>◌
abbrev pub ◌>>=◌ : {S E A B : Type 0} → Exec S E A → (A → Exec S E B) → Exec S E B
◌>>=◌ m f s = let (r, s') = m s in after r f s'

abbrev pub ◌>>◌ : {S E B : Type 0} → Exec S E (Unit {0}) → Exec S E B → Exec S E B
m >> k = m >>= λ _. k

-- The next step of a round, where a call or a test has the given outcome.
pub lift_ok :
    {S E A B : Type 0} (r : Result E A) (f : A → Exec S E B) (s : S) (a : A)
    → r ≡ ok a
    → (lift r >>= f) s ≡ f a s
lift_ok r f s a e = rw e refl

pub if_no : {A : Type 0} (b : Bool) (u v : A) → b ≡ false → (if b then u else v) ≡ v
if_no b u v e = rw e refl

-- Inversion of a call that does not touch the state, before a block that succeeds.
pub lift-eq-ok :
    {S E A B : Type 0} (r : Result E A) (f : A → Exec S E B) (s s' : S) (b : B)
    → (lift r >>= f) s ≡ (ok b, s')
    → (a : A) × (r ≡ ok a) × (f a s ≡ (ok b, s'))
lift-eq-ok r f s s' b h = elim (ended r) [
  | returned a e ↦ (a, e, rw e at h)
  | failed e q ↦ err_ok (ap (λ p. p.0) (rw q at h))
  | panicked q ↦ panic_ok (ap (λ p. p.0) (rw q at h))
]

-- A step that does not touch the state, where what it leads to is an error.
pub lift-eq-err :
    {S E A B : Type 0} (r : Result E A) (f : A → Exec S E B) (s : S) (e : E)
    → ((lift r >>= f) s).0 ≡ err e
    → (r ≡ err e) ⊎ ((a : A) × (r ≡ ok a) × ((f a s).0 ≡ err e))
lift-eq-err (ok a) f s e h = inr (a, refl, h)
lift-eq-err (err u) f s e h = inl (ap err (err-injective u e h))
lift-eq-err panic f s e h = absurd (cc h)
