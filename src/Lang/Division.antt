-- ===== src/Lang/Division.antt =====
-- The laws of `div_nearest` and `rem_balanced` of src/lang.rs.
use mani_tc.Prelude.{ℕ, zero, suc, ◌+◌, ◌*◌, ◌≤◌, ◌<◌, ◌≡◌, ◌⊎◌, inl, inr, arith}
use mani_tc.Prelude.Int.{
  ℤ, pos, negsuc, pos_part, neg_part, abs_ℕ, ◌+ℤ◌, ◌-ℤ◌, ◌*ℤ◌, neg_ℤ, eq_of_parts, +ℤ_parts,
  -ℤ_parts, *ℤ_parts, neg_ℤ_parts, one_part,
}
use mani_tc.Isa.Word.{IsWord}
use mani_tc.Lang.{div_nearest, rem_balanced}
use mani_tc.Lang.Wrap.{wrap64-sub}
use mani_tc.Lang.Nearest.{near, near_bounds, signed_near, div_nearest-eq}

-- q is a quotient of a by b rounded to nearest: its error is less than half of b's magnitude, or
-- it is half and q is the quotient further from zero. Its magnitude is at most a's.
abbrev pub IsNearest : ℤ → ℤ → ℤ → Type 0
IsNearest a b q =
    (2 * abs_ℕ (a -ℤ q *ℤ b) ≤ abs_ℕ b)
    × ((2 * abs_ℕ (a -ℤ q *ℤ b) < abs_ℕ b) ⊎ (abs_ℕ a < abs_ℕ (q *ℤ b)))
    × (abs_ℕ q ≤ abs_ℕ a)

neg-times-pos :
    (k n : ℕ)
    → (pos_part (neg_ℤ (pos k) *ℤ pos n) ≡ 0) × (neg_part (neg_ℤ (pos k) *ℤ pos n) ≡ k * n)
unfolding neg_ℤ ◌*ℤ◌
neg-times-pos zero n = ground arith
neg-times-pos (suc k) n = ground arith

neg-times-neg :
    (k n : ℕ)
    → (pos_part (neg_ℤ (pos k) *ℤ negsuc n) ≡ k * suc n)
      × (neg_part (neg_ℤ (pos k) *ℤ negsuc n) ≡ 0)
unfolding neg_ℤ ◌*ℤ◌
neg-times-neg zero n = ground arith
neg-times-neg (suc k) n = ground arith

-- A product of magnitude k * n with the sign of a is as near to a as k * n is to a's magnitude.
IsNearest-of_parts :
    (a b q : ℤ) (m n k : ℕ)
    → abs_ℕ a ≡ m
    → abs_ℕ b ≡ n
    → abs_ℕ q ≡ k
    → ((neg_part a ≡ 0) × (neg_part (q *ℤ b) ≡ 0) × (pos_part (q *ℤ b) ≡ k * n))
      ⊎ ((pos_part a ≡ 0) × (pos_part (q *ℤ b) ≡ 0) × (neg_part (q *ℤ b) ≡ k * n))
    → 2 * (k * n) ≤ 2 * m + n
    → 2 * m < 2 * (k * n) + n
    → k ≤ m
    → IsNearest a b q
IsNearest-of_parts a b q m n k ea eb ek same lo hi le =
    omega (arith, -ℤ_parts a (q *ℤ b), one_part (a -ℤ q *ℤ b))

signed_near-IsNearest : (a b : ℤ) → 0 < abs_ℕ b → IsNearest a b (signed_near a b)
signed_near-IsNearest (pos m) (pos n) h =
    let (lo, hi, le) = near_bounds m n (omega arith) in
    IsNearest-of_parts (pos m) (pos n) (pos (near m n)) m n (near m n) (omega arith) (omega arith)
      (omega arith) (inl (omega (arith, *ℤ_parts (pos (near m n)) (pos n)))) lo hi le
signed_near-IsNearest (pos m) (negsuc n) h =
    let (lo, hi, le) = near_bounds m (suc n) (omega arith) in
    IsNearest-of_parts (pos m) (negsuc n) (neg_ℤ (pos (near m (suc n)))) m (suc n) (near m (suc n))
      (omega arith) (omega arith) (omega (arith, neg_ℤ_parts (pos (near m (suc n)))))
      (inl (omega (arith, neg-times-neg (near m (suc n)) n))) lo hi le
signed_near-IsNearest (negsuc m) (pos n) h =
    let (lo, hi, le) = near_bounds (suc m) n (omega arith) in
    IsNearest-of_parts (negsuc m) (pos n) (neg_ℤ (pos (near (suc m) n))) (suc m) n (near (suc m) n)
      (omega arith) (omega arith) (omega (arith, neg_ℤ_parts (pos (near (suc m) n))))
      (inr (omega (arith, neg-times-pos (near (suc m) n) n))) lo hi le
signed_near-IsNearest (negsuc m) (negsuc n) h =
    let (lo, hi, le) = near_bounds (suc m) (suc n) (omega arith) in
    IsNearest-of_parts (negsuc m) (negsuc n) (pos (near (suc m) (suc n))) (suc m) (suc n)
      (near (suc m) (suc n)) (omega arith) (omega arith) (omega arith)
      (inr (omega (arith, *ℤ_parts (pos (near (suc m) (suc n))) (negsuc n)))) lo hi le

module _ (a b : ℤ) (ha : abs_ℕ a ≤ 9223372036854775807) (hb : 0 < abs_ℕ b)
    (hk : abs_ℕ b ≤ 9223372036854775808) where
  -- `div_nearest` gives the quotient rounded to nearest, and away from zero at a tie, for every
  -- `i64` dividend but the least and every `i64` divisor but 0.
  pub div_nearest-IsNearest : IsNearest a b (div_nearest a b)
  div_nearest-IsNearest = rw (div_nearest-eq a b ha hb hk) (signed_near-IsNearest a b hb)

  pub rem_balanced-eq : rem_balanced a b ≡ a -ℤ div_nearest a b *ℤ b
  unfolding rem_balanced
  rem_balanced-eq = wrap64-sub a (div_nearest a b *ℤ b) (omega (arith, div_nearest-IsNearest.0))

  -- For every `i64` dividend but the least and every `i64` divisor b but 0, quotient * b +
  -- remainder is the dividend, and the remainder is at most half of the divisor in magnitude.
  pub division_identity :
      (div_nearest a b *ℤ b +ℤ rem_balanced a b ≡ a) × (2 * abs_ℕ (rem_balanced a b) ≤ abs_ℕ b)
  division_identity = rw rem_balanced-eq (
    eq_of_parts _ _ (
        omega (
          arith,
          +ℤ_parts (div_nearest a b *ℤ b) (a -ℤ div_nearest a b *ℤ b),
          -ℤ_parts a (div_nearest a b *ℤ b),
        )),
    div_nearest-IsNearest.0,
  )

neg-neg : (a : ℤ) → neg_ℤ (neg_ℤ a) ≡ a
neg-neg a = eq_of_parts _ _ (omega (arith, neg_ℤ_parts))

neg-suc : (m : ℕ) → neg_ℤ (pos (suc m)) ≡ negsuc m
neg-suc m = eq_of_parts _ _ (omega (arith, neg_ℤ_parts))

neg-negsuc : (m : ℕ) → neg_ℤ (negsuc m) ≡ pos (suc m)
neg-negsuc m = eq_of_parts _ _ (omega (arith, neg_ℤ_parts))

neg-zero : neg_ℤ (pos 0) ≡ pos 0
neg-zero = eq_of_parts _ _ (omega (arith, neg_ℤ_parts))

near-zero : (n : ℕ) → 0 < n → near 0 n ≡ 0
near-zero n h = omega (arith, near_bounds 0 n h)

signed_near-neg : (a b : ℤ) → 0 < abs_ℕ b → signed_near (neg_ℤ a) b ≡ neg_ℤ (signed_near a b)
signed_near-neg (pos zero) (pos n) h = rw (neg-zero, near-zero n (omega arith), neg-zero)
signed_near-neg (pos zero) (negsuc n) h =
    rw (neg-zero, near-zero (suc n) (omega arith), neg-zero, neg-zero)
signed_near-neg (pos (suc m)) (pos n) h = rw (neg-suc m)
signed_near-neg (pos (suc m)) (negsuc n) h = rw (neg-suc m, neg-neg)
signed_near-neg (negsuc m) (pos n) h = rw (neg-negsuc m, neg-neg)
signed_near-neg (negsuc m) (negsuc n) h = rw (neg-negsuc m)

-- For every `i64` dividend but the least and every `i64` divisor but 0, negating the dividend
-- negates the quotient.
pub div_nearest-neg :
    (a b : ℤ)
    → abs_ℕ a ≤ 9223372036854775807
    → 0 < abs_ℕ b
    → abs_ℕ b ≤ 9223372036854775808
    → div_nearest (neg_ℤ a) b ≡ neg_ℤ (div_nearest a b)
div_nearest-neg a b ha hb hk =
    rw
      (div_nearest-eq a b ha hb hk, div_nearest-eq (neg_ℤ a) b (omega (arith, neg_ℤ_parts a)) hb hk)
      (signed_near-neg a b hb)

-- For a word and a divisor that is a word and not 0, the quotient rounded to nearest and the
-- remainder that pairs with it are words.
pub division-IsWord :
    (a b : ℤ)
    → IsWord a
    → IsWord b
    → 0 < abs_ℕ b
    → IsWord (div_nearest a b) × IsWord (rem_balanced a b)
division-IsWord a b wa wb hb =
    let ha : abs_ℕ a ≤ 9223372036854775807 = omega (arith, one_part a) in
    let hk : abs_ℕ b ≤ 9223372036854775808 = omega (arith, one_part b) in
    omega (
      arith,
      div_nearest-IsNearest a b ha hb hk,
      (division_identity a b ha hb hk).1,
      one_part a,
      one_part b,
    )
