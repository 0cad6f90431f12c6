-- ===== src/Lang/Nearest.antt =====
-- Division that rounds to nearest: src/lang.rs against the quotient of magnitudes.
use native.Mathlib.Nat.{div-add-mod}
use mani_tc.Prelude.{
  Bool-cases, inl, inr, ℕ, suc, ◌+◌, ◌*◌, ◌/◌, ◌%◌, ◌≤◌, ◌<◌, ◌≡◌, refl, ap, ◌∙◌, arith, leb,
  if◌then◌else◌,
}
use mani_tc.Prelude.Int.{
  ℤ, pos, negsuc, abs_ℕ, leb_ℤ, ltb_ℤ, ◌+ℤ◌, ◌-ℤ◌, neg_ℤ, quot, rem, neg_ℤ_parts,
}
use mani_tc.Lang.Wrap.{IsI64, wrap64_id}
use mani_tc.Lang.{same_sign, wrap64, div_nearest}

-- The magnitude of the quotient rounded to nearest, ties upward.
unfoldable pub near : ℕ → ℕ → ℕ
near m n = if leb n (2 * (m % n)) then m / n + 1 else m / n

le-mul : (n k : ℕ) → 0 < n → k ≤ n * k
le-mul n k h = grind arith

pub near_bounds :
    (m n : ℕ)
    → 0 < n
    → (2 * (near m n * n) ≤ 2 * m + n) × (2 * m < 2 * (near m n * n) + n) × (near m n ≤ m)
unfolding near
near_bounds m n h = elim (Bool-cases (leb n (2 * (m % n)))) [
  | inl e ↦ rw e (up (ground arith))
  | inr e ↦ rw e (down (ground arith))
]
  where
    up :
        n ≤ 2 * (m % n)
        → (2 * ((m / n + 1) * n) ≤ 2 * m + n)
          × (2 * m < 2 * ((m / n + 1) * n) + n)
          × (m / n + 1 ≤ m)
    up u = omega (arith, div-add-mod m n, le-mul n (m / n) h)

    down :
        2 * (m % n) < n
        → (2 * (m / n * n) ≤ 2 * m + n) × (2 * m < 2 * (m / n * n) + n) × (m / n ≤ m)
    down u = omega (arith, div-add-mod m n, le-mul n (m / n) h)

-- The quotient is that of the magnitudes, with the sign of the operands taken together.
abbrev pub signed_near : ℤ → ℤ → ℤ
signed_near (pos m) (pos n) = pos (near m n)
signed_near (pos m) (negsuc n) = neg_ℤ (pos (near m (suc n)))
signed_near (negsuc m) (pos n) = neg_ℤ (pos (near (suc m) n))
signed_near (negsuc m) (negsuc n) = pos (near (suc m) (suc n))

-- The rounding test and the adjustment, on the truncated quotient and remainder.
round : ℤ → ℤ → ℤ → ℤ → ℤ
round a b q r =
    let nr = if ltb_ℤ (pos 0) r then neg_ℤ r else r in
    let nb = if ltb_ℤ (pos 0) b then neg_ℤ b else b in
    if leb_ℤ nr (nb -ℤ nr)
    then (if same_sign (ltb_ℤ a (pos 0)) (ltb_ℤ b (pos 0))
        then wrap64 (q +ℤ pos 1)
        else wrap64 (q -ℤ pos 1))
    else q

div_nearest-round :
    (a b q r : ℤ) → quot a b ≡ q → rem a b ≡ r → IsI64 q → IsI64 r → div_nearest a b ≡ round a b q r
unfolding div_nearest round
div_nearest-round a b q r eq er hq hr = rw (eq, er, wrap64_id q hq, wrap64_id r hr)

-- The four signs, with q and r for the magnitudes of quotient and remainder.
abbrev up_if : ℕ → ℕ → ℕ → ℕ
up_if n q r = if leb n (2 * r) then q + 1 else q

module _ (q r m n : ℕ) (hn : n ≤ 9223372036854775808) where
  round-pos-pos :
      r < n
      → up_if n q r ≤ 9223372036854775807
      → round (pos m) (pos n) (pos q) (pos r) ≡ pos (up_if n q r)
  unfolding round neg_ℤ ◌-ℤ◌ ◌+ℤ◌
  round-pos-pos hr hu = ground (arith, wrap64_id (pos (q + 1)))

  round-pos-neg :
      r < suc n
      → up_if (suc n) q r ≤ 9223372036854775807
      → round (pos m) (negsuc n) (neg_ℤ (pos q)) (pos r) ≡ neg_ℤ (pos (up_if (suc n) q r))
  unfolding round neg_ℤ ◌-ℤ◌ ◌+ℤ◌
  round-pos-neg hr hu = ground (arith, wrap64_id (neg_ℤ (pos (q + 1))))

  round-neg-pos :
      r < n
      → up_if n q r ≤ 9223372036854775807
      → round (negsuc m) (pos n) (neg_ℤ (pos q)) (neg_ℤ (pos r)) ≡ neg_ℤ (pos (up_if n q r))
  unfolding round neg_ℤ ◌-ℤ◌ ◌+ℤ◌
  round-neg-pos hr hu = ground (arith, wrap64_id (neg_ℤ (pos (q + 1))))

  round-neg-neg :
      r < suc n
      → up_if (suc n) q r ≤ 9223372036854775807
      → round (negsuc m) (negsuc n) (pos q) (neg_ℤ (pos r)) ≡ pos (up_if (suc n) q r)
  unfolding round neg_ℤ ◌-ℤ◌ ◌+ℤ◌
  round-neg-neg hr hu = ground (arith, wrap64_id (pos (q + 1)))

IsI64-signed : (k : ℕ) → k ≤ 9223372036854775807 → IsI64 (pos k) × IsI64 (neg_ℤ (pos k))
IsI64-signed k h = omega (arith, neg_ℤ_parts (pos k))

-- What the four cases need of the magnitudes.
module _ (m n : ℕ) (h : 0 < n) (hm : m ≤ 9223372036854775807) (hn : n ≤ 9223372036854775808) where
  quot_small : m / n ≤ 9223372036854775807
  quot_small = omega (arith, div-add-mod m n, le-mul n (m / n) h)

  rem-lt : m % n < n
  rem-lt = grind arith

  rem_small : m % n ≤ 9223372036854775807
  rem_small = omega (arith, rem-lt)

  near_small : up_if n (m / n) (m % n) ≤ 9223372036854775807
  unfolding near
  near_small = omega (arith, near_bounds m n h)

pub div_nearest-eq :
    (a b : ℤ)
    → abs_ℕ a ≤ 9223372036854775807
    → 0 < abs_ℕ b
    → abs_ℕ b ≤ 9223372036854775808
    → div_nearest a b ≡ signed_near a b
unfolding quot rem near
div_nearest-eq (pos m) (pos n) ha hb hn =
    let h : 0 < n = omega arith in
    let hm : m ≤ 9223372036854775807 = omega arith in
    let hk : n ≤ 9223372036854775808 = omega arith in
    div_nearest-round (pos m) (pos n) (pos (m / n)) (pos (m % n)) refl
      (ap (λ (k : ℕ). pos (m % k)) (omega arith)) (IsI64-signed _ (quot_small m n h hm hk)).0
      (IsI64-signed _ (rem_small m n h hm hk)).0
    ∙ round-pos-pos (m / n) (m % n) m n hk (rem-lt m n h hm hk) (near_small m n h hm hk)
div_nearest-eq (pos m) (negsuc n) ha hb hn =
    let h : 0 < suc n = omega arith in
    let hm : m ≤ 9223372036854775807 = omega arith in
    let hk : suc n ≤ 9223372036854775808 = omega arith in
    div_nearest-round (pos m) (negsuc n) (neg_ℤ (pos (m / suc n))) (pos (m % suc n)) refl
      (ap (λ (k : ℕ). pos (m % k)) (omega arith)) (IsI64-signed _ (quot_small m (suc n) h hm hk)).1
      (IsI64-signed _ (rem_small m (suc n) h hm hk)).0
    ∙ round-pos-neg (m / suc n) (m % suc n) m n (omega arith) (rem-lt m (suc n) h hm hk)
        (near_small m (suc n) h hm hk)
div_nearest-eq (negsuc m) (pos n) ha hb hn =
    let h : 0 < n = omega arith in
    let hm : suc m ≤ 9223372036854775807 = omega arith in
    let hk : n ≤ 9223372036854775808 = omega arith in
    div_nearest-round (negsuc m) (pos n) (neg_ℤ (pos (suc m / n))) (neg_ℤ (pos (suc m % n))) refl
      (ap (λ (k : ℕ). neg_ℤ (pos (suc m % k))) (omega arith))
      (IsI64-signed _ (quot_small (suc m) n h hm hk)).1
      (IsI64-signed _ (rem_small (suc m) n h hm hk)).1
    ∙ round-neg-pos (suc m / n) (suc m % n) m n hk (rem-lt (suc m) n h hm hk)
        (near_small (suc m) n h hm hk)
div_nearest-eq (negsuc m) (negsuc n) ha hb hn =
    let h : 0 < suc n = omega arith in
    let hm : suc m ≤ 9223372036854775807 = omega arith in
    let hk : suc n ≤ 9223372036854775808 = omega arith in
    div_nearest-round (negsuc m) (negsuc n) (pos (suc m / suc n)) (neg_ℤ (pos (suc m % suc n))) refl
      (ap (λ (k : ℕ). neg_ℤ (pos (suc m % k))) (omega arith))
      (IsI64-signed _ (quot_small (suc m) (suc n) h hm hk)).0
      (IsI64-signed _ (rem_small (suc m) (suc n) h hm hk)).1
    ∙ round-neg-neg (suc m / suc n) (suc m % suc n) m n (omega arith)
        (rem-lt (suc m) (suc n) h hm hk) (near_small (suc m) (suc n) h hm hk)
