-- ===== src/Examples/ToyUp.antt =====
-- The crates over plain numbers have homomorphic commitments and linear weights, and build kernels.
use mwixnet.Base.{ℕ, ◌+◌, ◌-◌, ◌*◌, ◌≡◌, refl, sym, ap, [], ◌∷◌, Result, ok, arith, ok-injective}
use mwixnet.Ext.Laws.{ShiftLaws, CommitLaws, WeightLaws, KernelUp}
use mwixnet.Examples.Toy.{toy}

same_ok : (a b : ℕ) → ◌≡◌ {A = Result (Unit {0}) ℕ} (ok a) (ok b) → a ≡ b
same_ok a b h = ok-injective {E = Unit {0}} a b h

scale : (a b e a' b' c : ℕ) → a + b ≡ c → a * e ≡ a' → b * e ≡ b' → a' + b' ≡ c * e
scale a b e a' b' c h i j = grind arith

add :
    (a b k l s t c n : ℕ)
    → a + b ≡ c
    → k + l ≡ n
    → a + k ≡ s
    → b + l ≡ t
    → s + t ≡ (c + (n + 0)) - 0
add a b k l s t c n h i j m = omega arith

pub toy_commit : CommitLaws toy (λ v. v ∷ [])
toy_commit = record {
  amount_lem = λ v k b h. ap (λ n. ok (n + b)) (sym (same_ok v k h));
  scale_lem = λ a b e a' b' c h i j. (
    c,
    c * e,
    c * e,
    refl,
    refl,
    refl,
    ap ok (scale a b e a' b' c (same_ok _ _ h) (same_ok _ _ i) (same_ok _ _ j)),
  );
  sum_lem = λ a b k l s t c n h i j m. (
    (c + (n + 0)) - 0,
    refl,
    ap ok (add a b k l s t c n (same_ok _ _ h) (same_ok _ _ i) (same_ok _ _ j) (same_ok _ _ m)),
  );
}

pub weights : (i o k : ℕ) → i + 21 * o + 3 * k ≡ i * 1 + o * 21 + k * 3
weights i o k = omega arith

abbrev pub toy_weights : WeightLaws toy
toy_weights = record {
  input_weight = 1;
  output_weight = 21;
  kernel_weight = 3;
  weight_lem = λ i o k h. weights i o k;
}

pub toy_kernels : KernelUp toy
toy_kernels = record {
  blind_up = λ ps ns. (_, refl);
  fee_up = λ f h g. (f, refl);
  msg_up = λ k. (k, refl);
  commit_up = λ k. (_, refl);
  key_up = λ k. (k, refl);
  sign_up = λ m k p. (_, refl);
  verify_up = λ fee m k p c sig h i j l. refl;
  kernels_lem = λ is os k o. refl;
}

more : (v b e b' c : ℕ) → v + b ≡ c → b + e ≡ b' → v + b' ≡ (c + ((0 + e) + 0)) - 0
more v b e b' c h k = omega arith

less : (v u b c : ℕ) → (v + u) + b ≡ c → v + b ≡ (c + 0) - ((u + 0) + 0)
less v u b c h = omega arith

pub toy_shift : ShiftLaws toy
toy_shift = record {
  excess_lem = λ v b e b' c pos fits h k. (
    0 + e,
    (c + ((0 + e) + 0)) - 0,
    refl,
    refl,
    ap ok (more v b e b' c (same_ok _ _ h) (same_ok _ _ k)),
  );
  value_lem = λ v u b c pos paid fits h.
      (u + 0, (c + 0) - ((u + 0) + 0), refl, refl, ap ok (less v u b c (same_ok _ _ h)));
}
