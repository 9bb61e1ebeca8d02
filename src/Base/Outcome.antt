-- ===== src/Base/Outcome.antt =====
-- The outcome of a Rust function that returns `Result`: a value, an error, or a panic.
use mathlib.Core.Path.{◌≡◌, refl}
use mathlib.Core.Bool.{Bool, true, false}
use mathlib.Core.Logic.{◌≢◌}
use mathlib.Core.Option.{Option, none, some}

pub data Result (E A : Type 0) : Type 0 where
  ok : A → Result E A
  err : E → Result E A
  panic : Result E A

-- The `?` operator.
infixl 5 ◌>>=◌ ◌>>◌
abbrev pub ◌>>=◌ : {E A B : Type 0} → Result E A → (A → Result E B) → Result E B
ok a >>= f = f a
err e >>= f = err e
panic >>= f = panic

abbrev pub ◌>>◌ : {E B : Type 0} → Result E (Unit {0}) → Result E B → Result E B
m >> k = m >>= λ _. k

-- `Result::map_err`
abbrev pub map_err : {E F A : Type 0} → (E → F) → Result E A → Result F A
map_err f (ok a) = ok a
map_err f (err e) = err (f e)
map_err f panic = panic

-- `Option::is_some`
abbrev pub is_some : {A : Type 0} → Option A → Bool
is_some none = false
is_some (some _) = true

-- `Option::ok_or`
abbrev pub ok_or : {E A : Type 0} → E → Option A → Result E A
ok_or e none = err e
ok_or e (some a) = ok a

-- `Option::unwrap`
abbrev pub unwrap : {E A : Type 0} → Option A → Result E A
unwrap none = panic
unwrap (some a) = ok a

-- `Result::unwrap_or`
abbrev pub unwrap_or : {E A : Type 0} → A → Result E A → Result E A
unwrap_or d (ok a) = ok a
unwrap_or d (err e) = ok d
unwrap_or d panic = panic

-- Inversion of a successful step.
pub >>=-eq-ok :
    {E A B : Type 0} (r : Result E A) (k : A → Result E B) {c : B}
    → (r >>= k) ≡ ok c
    → (y : A) × (r ≡ ok y) × (k y ≡ ok c)
>>=-eq-ok (ok y) k q = (y, refl, q)
>>=-eq-ok (err e) k q = cc
>>=-eq-ok panic k q = cc

pub map_err-eq-ok :
    {E F A : Type 0} (g : E → F) (m : Result E A) {a : A} → map_err g m ≡ ok a → m ≡ ok a
map_err-eq-ok g (ok a) h = cc
map_err-eq-ok g (err e) h = cc
map_err-eq-ok g panic h = cc

-- How a call ended, with the equation, to split on it.
pub data Ended {E A : Type 0} (r : Result E A) : Type 0 where
  returned : (a : A) → r ≡ ok a → Ended r
  failed : (e : E) → r ≡ err e → Ended r
  panicked : r ≡ panic → Ended r

pub ended : {E A : Type 0} (r : Result E A) → Ended r
ended (ok a) = returned a refl
ended (err e) = failed e refl
ended panic = panicked refl

pub ok-injective : {E A : Type 0} (a b : A) → ◌≡◌ {A = Result E A} (ok a) (ok b) → a ≡ b
ok-injective a b h = cc h

-- An error and a panic are no value.
pub err_ok : {E A C : Type 0} {e : E} {a : A} → ◌≡◌ {A = Result E A} (err e) (ok a) → C
err_ok h = absurd (cc h)

pub panic_ok : {E A C : Type 0} {a : A} → ◌≡◌ {A = Result E A} panic (ok a) → C
panic_ok h = absurd (cc h)

-- Inversion of a step that fails.
pub err-injective : {E A : Type 0} (a b : E) → ◌≡◌ {A = Result E A} (err a) (err b) → a ≡ b
err-injective a b h = cc h

pub map_err-eq-err :
    {E F A : Type 0} (g : E → F) (r : Result E A) (e : F)
    → map_err g r ≡ err e
    → (u : E) × (r ≡ err u) × (g u ≡ e)
map_err-eq-err g (ok a) e h = absurd (cc h)
map_err-eq-err g (err u) e h = (u, refl, err-injective (g u) e h)
map_err-eq-err g panic e h = absurd (cc h)

pub ok_or-eq-err :
    {E A : Type 0} (u e : E) (o : Option A) → ok_or u o ≡ err e → (o ≡ none) × (u ≡ e)
ok_or-eq-err u e none h = (refl, err-injective u e h)
ok_or-eq-err u e (some a) h = absurd (cc h)

-- Steps that do not panic.
pub panic-bind :
    {E A B : Type 0} (r : Result E A) (k : A → Result E B)
    → r ≢ panic
    → ((a : A) → k a ≢ panic)
    → (r >>= k) ≢ panic
panic-bind (ok a) k hr hk = hk a
panic-bind (err e) k hr hk = λ h. cc h
panic-bind panic k hr hk = λ h. hr refl

pub ok-panic : {E A : Type 0} (a : A) → ◌≢◌ {A = Result E A} (ok a) panic
ok-panic a h = cc h
