-- ===== src/Interval/Sound.antt =====
-- The values of an interval, and sums and differences of the intervals of
-- src/semantic/interval.rs.
use mathlib.Core.Path.{subst}
use mani_tc.Prelude.{refl, ◌≡◌, inl, inr, Bool-cases, Option, none, some, arith}
use mani_tc.Prelude.Int.{ℤ, ◌≤ℤ◌, ◌+ℤ◌, ◌-ℤ◌, +ℤ_parts, -ℤ_parts}
use mani_tc.Interval.{Interval, add, sub, checked, in64, opt2}

abbrev pub Above : Option ℤ → ℤ → Type 0
Above none v = Unit
Above (some l) v = l ≤ℤ v

abbrev pub Below : Option ℤ → ℤ → Type 0
Below none v = Unit
Below (some h) v = v ≤ℤ h

-- The value lies in the interval.
abbrev pub Contains : Interval → ℤ → Type 0
Contains i v = Above i.lo v × Below i.hi v

pub Above-checked : (l v : ℤ) → l ≤ℤ v → Above (checked l) v
Above-checked l v h = elim (Bool-cases (in64 l)) [ inl e ↦ rw e h | inr e ↦ rw e tt ]

pub Below-checked : (h v : ℤ) → v ≤ℤ h → Below (checked h) v
Below-checked h v k = elim (Bool-cases (in64 h)) [ inl e ↦ rw e k | inr e ↦ rw e tt ]

-- A bound combined from two bounds holds where it holds of the two numbers.
module _ (f : ℤ → ℤ → ℤ) (v : ℤ) where
  Above-opt2 :
      (a b : Option ℤ)
      → ((x y : ℤ) → a ≡ some x → b ≡ some y → f x y ≤ℤ v)
      → Above (opt2 (λ x y. checked (f x y)) a b) v
  Above-opt2 none b h = tt
  Above-opt2 (some x) none h = tt
  Above-opt2 (some x) (some y) h = Above-checked (f x y) v (h x y refl refl)

  Below-opt2 :
      (a b : Option ℤ)
      → ((x y : ℤ) → a ≡ some x → b ≡ some y → v ≤ℤ f x y)
      → Below (opt2 (λ x y. checked (f x y)) a b) v
  Below-opt2 none b h = tt
  Below-opt2 (some x) none h = tt
  Below-opt2 (some x) (some y) h = Below-checked (f x y) v (h x y refl refl)

pub Above-some : (o : Option ℤ) (l v : ℤ) → o ≡ some l → Above o v → l ≤ℤ v
Above-some o l v e h = subst (λ o. Above o v) e h

pub Below-some : (o : Option ℤ) (h v : ℤ) → o ≡ some h → Below o v → v ≤ℤ h
Below-some o h v e k = subst (λ o. Below o v) e k

module _ (i j : Interval) (x y : ℤ) (hx : Contains i x) (hy : Contains j y) where
  -- The sum of a value of one interval and a value of another lies in the sum of the intervals,
  -- also where a bound overflows 64 bits and is forgotten.
  pub add-Contains : Contains (add i j) (x +ℤ y)
  unfolding add
  add-Contains = (
    Above-opt2 (λ a b. a +ℤ b) (x +ℤ y) i.lo j.lo
        (λ a b p q.
          omega (arith, Above-some i.lo a x p hx.0, Above-some j.lo b y q hy.0, +ℤ_parts)),
    Below-opt2 (λ a b. a +ℤ b) (x +ℤ y) i.hi j.hi
        (λ a b p q.
          omega (arith, Below-some i.hi a x p hx.1, Below-some j.hi b y q hy.1, +ℤ_parts)),
  )

  -- The difference of a value of one interval and a value of another lies in the difference of the
  -- intervals, also where a bound overflows 64 bits and is forgotten.
  pub sub-Contains : Contains (sub i j) (x -ℤ y)
  unfolding sub
  sub-Contains = (
    Above-opt2 (λ a b. a -ℤ b) (x -ℤ y) i.lo j.hi
        (λ a b p q.
          omega (arith, Above-some i.lo a x p hx.0, Below-some j.hi b y q hy.1, -ℤ_parts)),
    Below-opt2 (λ a b. a -ℤ b) (x -ℤ y) i.hi j.lo
        (λ a b p q.
          omega (arith, Below-some i.hi a x p hx.1, Above-some j.lo b y q hy.0, -ℤ_parts)),
  )
