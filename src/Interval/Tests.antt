-- ===== src/Interval/Tests.antt =====
-- Intervals: runs of the operations, and the theorems at concrete ranges.
use mani_tc.Prelude.{◌≡◌, ◌↔◌, refl, true, false, none, some, arith}
use mani_tc.Prelude.Int.{ℤ, pos, negsuc, neg_ℤ, min_ℤ, max_ℤ, ◌+ℤ◌, ◌*ℤ◌}
use mani_tc.Lang.{i64_max}
use mani_tc.Interval.{Interval, exact, unknown, add, mul, neg, within, is_empty, disjoint_from}
use mani_tc.Interval.Sound.{Contains}
use mani_tc.Interval.Product.{mul-Contains, neg-Contains}
use mani_tc.Interval.Decide.{disjoint_from_iff}

abbrev low : Interval
low = record { lo = some (negsuc 1); hi = some (pos 3) }

abbrev high : Interval
high = record { lo = some (pos 5); hi = some (pos 7) }

abbrev at_least_five : Interval
at_least_five = record { lo = some (pos 5); hi = none }

abbrev crossed : Interval
crossed = record { lo = some (pos 2); hi = some (pos 1) }

mul_corners : mul low high ≡ record { lo = some (negsuc 13); hi = some (pos 21) }
unfolding mul ◌*ℤ◌ min_ℤ max_ℤ
mul_corners = refl

mul_by_half_open : mul low at_least_five ≡ unknown
unfolding mul
mul_by_half_open = refl

-- A bound that overflows 64 bits is forgotten, the other is kept.
add_overflow : add (exact i64_max) low ≡ record { lo = some (pos 9223372036854775805); hi = none }
unfolding add exact ◌+ℤ◌
add_overflow = refl

not_empty : (is_empty low ≡ false) × (is_empty high ≡ false)
unfolding is_empty
not_empty = (refl, refl)

mul-Contains_example : Contains (mul low high) (negsuc 1 *ℤ pos 7)
mul-Contains_example = mul-Contains low high (negsuc 1) (pos 7) (omega arith) (omega arith)

neg-Contains_example : Contains (neg low) (neg_ℤ (pos 3))
neg-Contains_example = neg-Contains low (pos 3) (omega arith)

high-within : within high at_least_five ≡ true
unfolding within
high-within = refl

disjoint_from_iff_example :
    (disjoint_from low high ≡ true) ↔ ((v : ℤ) → ¬ (Contains low v × Contains high v))
disjoint_from_iff_example = disjoint_from_iff low high not_empty.0 not_empty.1
