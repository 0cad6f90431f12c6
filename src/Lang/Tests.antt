-- ===== src/Lang/Tests.antt =====
-- Division: runs at the boundaries, and the theorems at concrete operands.
use mani_tc.Prelude.{◌≡◌, refl, arith}
use mani_tc.Prelude.Int.{pos, negsuc, neg_ℤ, ◌+ℤ◌, ◌-ℤ◌, ◌*ℤ◌, quot, rem, rem_euclid}
use mani_tc.Lang.{i64_min, wrap64, div_nearest, rem_balanced}
use mani_tc.Lang.Division.{IsNearest, div_nearest-IsNearest}

-- A tie goes away from zero.
tie_up : div_nearest (pos 7) (pos 2) ≡ pos 4
unfolding div_nearest wrap64 quot rem rem_euclid neg_ℤ ◌+ℤ◌ ◌-ℤ◌
tie_up = refl

tie_down : div_nearest (negsuc 6) (pos 2) ≡ negsuc 3
unfolding div_nearest wrap64 quot rem rem_euclid neg_ℤ ◌+ℤ◌ ◌-ℤ◌
tie_down = refl

least_divisor : div_nearest (pos 5) i64_min ≡ pos 0
unfolding div_nearest wrap64 quot rem rem_euclid neg_ℤ ◌+ℤ◌ ◌-ℤ◌
least_divisor = refl

balanced : rem_balanced (pos 8) (pos 3) ≡ negsuc 0
unfolding rem_balanced div_nearest wrap64 quot rem rem_euclid neg_ℤ ◌+ℤ◌ ◌-ℤ◌ ◌*ℤ◌
balanced = refl

div_nearest-IsNearest_example : IsNearest (negsuc 6) (pos 2) (div_nearest (negsuc 6) (pos 2))
div_nearest-IsNearest_example =
    div_nearest-IsNearest (negsuc 6) (pos 2) (omega arith) (omega arith) (omega arith)
