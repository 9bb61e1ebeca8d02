-- ===== src/Base/Lists.antt =====
-- Lists measured by native numbers, predicates over lists, and Rust's iterator adaptors.
use Prim.Native.Nat.{ℕ, suc, ◌+◌}
use mathlib.Core.Path.{◌≡◌, refl, sym, subst}
use mathlib.Core.Logic.{◌⊎◌, inl, inr}
use mathlib.Core.Bool.{Bool}
use mathlib.Core.List.{List, [], ◌∷◌, ◌++◌}
use native.Mathlib.Omega.{arith}
use mwixnet.Base.Tests.{if◌then◌else◌}

module _ {ℓ} {A : Type ℓ} where
  abbrev pub length : List A → ℕ
  length [] = 0
  length (x ∷ xs) = suc (length xs)

  pub length-append : (xs ys : List A) → length (xs ++ ys) ≡ length xs + length ys
  length-append [] ys = omega arith
  length-append (x ∷ xs) ys = omega (arith, length-append xs ys)

  abbrev pub All {κ} : (A → Type κ) → List A → Type κ
  All P [] = Unit {κ}
  All P (x ∷ xs) = P x × All P xs

  -- `Iterator::filter`
  unfoldable pub filter : (A → Bool) → List A → List A
  filter p [] = []
  filter p (x ∷ xs) = let rest = filter p xs in if p x then x ∷ rest else rest

-- The place of an element, without truncation.
abbrev pub In : {A : Type 0} → A → List A → Type 0
In a [] = ⊥
In a (x ∷ xs) = (a ≡ x) ⊎ In a xs

-- A property of all elements, element by element.
pub All-In : {A : Type 0} (P : A → Type 0) (l : List A) → ((a : A) → In a l → P a) → All P l
All-In P [] f = tt
All-In P (a ∷ l) f = (f a (inl refl), All-In P l (λ b m. f b (inr m)))

pub All-at : {A : Type 0} (P : A → Type 0) (l : List A) (a : A) → All P l → In a l → P a
All-at P [] a h m = elim m [ ]
All-at P (b ∷ l) a h (inl e) = subst P (sym e) h.0
All-at P (b ∷ l) a h (inr m) = All-at P l a h.1 m
