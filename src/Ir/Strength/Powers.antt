-- ===== src/Ir/Strength/Powers.antt =====
-- `pow3_shift` of src/ir/optimize.rs and the powers of three.
use native.Mathlib.Nat.{pow-suc}
use mani_tc.Prelude.{
  ℕ, zero, suc, ◌+◌, ◌*◌, ◌/◌, ◌%◌, ◌^◌, ◌≤◌, ◌<◌, ◌≡◌, sym, ap, ◌∙◌, ◌↔◌, true, Bool-cases, none,
  some, leb, ◌==◌, if◌then◌else◌, inl, inr, arith,
}
use mani_tc.Prelude.Int.{ℤ, pos, negsuc, pos_part}
use mani_tc.Ir.Strength.{threes_fuel, divide_threes, power_found, pow3_amount}

-- What the loop divides off is the power of three that it counts.
divide_threes_lem :
    (fuel n k : ℕ)
    → (j : ℕ) × ((divide_threes fuel n k).1 ≡ k + j) × (n ≡ (divide_threes fuel n k).0 * 3 ^ j)
unfolding divide_threes
divide_threes_lem zero n k = (0, omega arith, omega arith)
divide_threes_lem (suc fuel) n k = elim (Bool-cases (n % 3 == 0)) [
  | inl p ↦ rw p (
      let (j, e, f) = divide_threes_lem fuel (n / 3) (k + 1) in
      (suc j, omega arith, times_three n (n / 3) _ j (ground arith) f))
  | inr p ↦ rw p (0, omega arith, omega arith)
]
  where
    times_three : (n q m j : ℕ) → n ≡ q * 3 → q ≡ m * 3 ^ j → n ≡ m * 3 ^ suc j
    times_three n q m j e f = rw (pow-suc 3 j) (omega arith)

third : (j : ℕ) → (3 ^ suc j / 3 ≡ 3 ^ j) × ((3 ^ suc j % 3 == 0) ≡ true)
third j = (omega (arith, pow-suc 3 j), ground (arith, pow-suc 3 j))

divide_threes-power : (j fuel k : ℕ) → j < fuel → divide_threes fuel (3 ^ j) k ≡ (1, k + j)
unfolding divide_threes
divide_threes-power j zero k h = ground arith
divide_threes-power zero (suc fuel) k h = ap (λ x. (1, x)) (omega arith)
divide_threes-power (suc j) (suc fuel) k h =
    let (quotient, divides) = third j in
    rw (divides, quotient)
      (divide_threes-power j fuel (k + 1) (omega arith) ∙ ap (λ x. (1, x)) (omega arith))

pow_three_ge : (j : ℕ) → 1 ≤ j → 3 ≤ 3 ^ j
pow_three_ge zero h = ground arith
pow_three_ge (suc zero) h = omega arith
pow_three_ge (suc (suc j)) h = omega (arith, pow-suc 3 (suc j), pow_three_ge (suc j) (omega arith))

found-power :
    (v k : ℕ) (r : ℕ × ℕ) (j : ℕ)
    → r.1 ≡ 0 + j
    → v ≡ r.0 * 3 ^ j
    → power_found r ≡ some k
    → (v ≡ 3 ^ k) × (1 ≤ k) × (k ≤ 26)
found-power v k (n, c) j e f h =
    let (one, same, lo, hi) = taken n c k h in
    let jk : j ≡ k = omega arith in (f ∙ rw one (omega arith) ∙ ap (λ x. 3 ^ x) jk, lo, hi)
  where
    taken : (n c k : ℕ) → power_found (n, c) ≡ some k → (n ≡ 1) × (c ≡ k) × (1 ≤ k) × (k ≤ 26)
    taken n c k h = ground arith

to : (v k : ℕ) → pow3_amount (pos v) ≡ some k → (pos v ≡ pos (3 ^ k)) × (1 ≤ k) × (k ≤ 26)
unfolding pow3_amount
to v k h = elim (Bool-cases (leb 3 v)) [
  | inl p ↦
      let (j, e, f) = divide_threes_lem threes_fuel v 0 in
      let (same, lo, hi) =
        found-power v k (divide_threes threes_fuel v 0) j e f
          (sym (ap (λ b. if b then power_found (divide_threes threes_fuel v 0) else none) p) ∙ h) in
      (ap pos same, lo, hi)
  | inr p ↦ ground arith
]

from : (v k : ℕ) → pos v ≡ pos (3 ^ k) → 1 ≤ k → k ≤ 26 → pow3_amount (pos v) ≡ some k
unfolding pow3_amount
from v k e lo hi =
    let same : v ≡ 3 ^ k = ap pos_part e in
    rw
      (
        same,
        at_least (3 ^ k) (pow_three_ge k lo),
        divide_threes-power k threes_fuel 0 (omega arith),
      )
      (ground arith)
  where
    at_least : (n : ℕ) → 3 ≤ n → leb 3 n ≡ true
    at_least n h = ground arith

-- The shift amount of a constant multiplier or divisor is k exactly where the constant is the k-th
-- power of three, for k from 1 to 26.
pub pow3_amount_iff :
    (v : ℤ) (k : ℕ) → (pow3_amount v ≡ some k) ↔ ((v ≡ pos (3 ^ k)) × (1 ≤ k) × (k ≤ 26))
unfolding pow3_amount
pow3_amount_iff (pos v) k = (λ h. to v k h, λ (e, lo, hi). from v k e lo hi)
pow3_amount_iff (negsuc v) k = (λ h. ground arith, λ (e, lo, hi). ground arith)
