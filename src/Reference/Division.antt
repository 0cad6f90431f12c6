-- ===== src/Reference/Division.antt =====
-- `div_nearest_ref` of src/reference/eval.rs beside `div_nearest` of src/lang.rs.
use native.Mathlib.Nat.{div-add-mod}
use mani_tc.Prelude.{ℕ, suc, ◌≤◌, ◌<◌, ◌≡◌, sym, ◌∙◌, arith}
use mani_tc.Prelude.Int.{ℤ, pos, negsuc, abs_ℕ, ◌+ℤ◌, ◌-ℤ◌, ◌*ℤ◌, neg_ℤ, quot}
use mani_tc.Lang.{div_nearest}
use mani_tc.Lang.Nearest.{near, signed_near, div_nearest-eq}
use mani_tc.Reference.Ops.{div_nearest_ref}

ref-pos-pos : (m n : ℕ) → 0 < n → div_nearest_ref (pos m) (pos n) ≡ pos (near m n)
unfolding div_nearest_ref quot near ◌+ℤ◌ ◌-ℤ◌ ◌*ℤ◌
ref-pos-pos m n h = ground (arith, div-add-mod m n)

ref-pos-neg : (m n : ℕ) → div_nearest_ref (pos m) (negsuc n) ≡ neg_ℤ (pos (near m (suc n)))
unfolding div_nearest_ref quot near ◌+ℤ◌ ◌-ℤ◌ ◌*ℤ◌ neg_ℤ
ref-pos-neg m n = ground (arith, div-add-mod m (suc n))

ref-neg-pos : (m n : ℕ) → 0 < n → div_nearest_ref (negsuc m) (pos n) ≡ neg_ℤ (pos (near (suc m) n))
unfolding div_nearest_ref quot near ◌+ℤ◌ ◌-ℤ◌ ◌*ℤ◌ neg_ℤ
ref-neg-pos m n h = ground (arith, div-add-mod (suc m) n)

ref-neg-neg : (m n : ℕ) → div_nearest_ref (negsuc m) (negsuc n) ≡ pos (near (suc m) (suc n))
unfolding div_nearest_ref quot near ◌+ℤ◌ ◌-ℤ◌ ◌*ℤ◌
ref-neg-neg m n = ground (arith, div-add-mod (suc m) (suc n))

pub div_nearest_ref-signed : (a b : ℤ) → 0 < abs_ℕ b → div_nearest_ref a b ≡ signed_near a b
div_nearest_ref-signed (pos m) (pos n) h = ref-pos-pos m n (omega arith)
div_nearest_ref-signed (pos m) (negsuc n) h = ref-pos-neg m n
div_nearest_ref-signed (negsuc m) (pos n) h = ref-neg-pos m n (omega arith)
div_nearest_ref-signed (negsuc m) (negsuc n) h = ref-neg-neg m n

-- For every `i64` dividend but the least and every `i64` divisor but 0, the division of the
-- reference, on absolute values, is the division of the compiler, on negative magnitudes.
pub div_nearest_ref-eq :
    (a b : ℤ)
    → abs_ℕ a ≤ 9223372036854775807
    → 0 < abs_ℕ b
    → abs_ℕ b ≤ 9223372036854775808
    → div_nearest_ref a b ≡ div_nearest a b
div_nearest_ref-eq a b ha hb hk = div_nearest_ref-signed a b hb ∙ sym (div_nearest-eq a b ha hb hk)
