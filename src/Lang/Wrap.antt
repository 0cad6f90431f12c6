-- ===== src/Lang/Wrap.antt =====
-- 64-bit wrapping, as the `wrapping_` operations of src/lang.rs do it.
use mani_tc.Prelude.{ℕ, ◌+◌, ◌*◌, ◌≤◌, ◌<◌, ◌≡◌, refl, ap, arith}
use mani_tc.Prelude.Int.{
  ℤ, pos, negsuc, pos_part, neg_part, ◌+ℤ◌, ◌-ℤ◌, rem_euclid, div_euclid, eq_of_parts, +ℤ_parts,
  -ℤ_parts, one_part,
}
use mani_tc.Lang.{wrap64}

abbrev pub IsI64 : ℤ → Type 0
IsI64 v = (pos_part v ≤ 9223372036854775807) × (neg_part v ≤ 9223372036854775808)

-- v = k * quotient + remainder, over the parts, with the remainder from 0 to k - 1.
pub euclid_parts :
    (v : ℤ) (k : ℕ)
    → 0 < k
    → (pos_part v + k * neg_part (div_euclid v k)
        ≡ neg_part v + k * pos_part (div_euclid v k) + pos_part (rem_euclid v k))
      × (neg_part (rem_euclid v k) ≡ 0)
      × (pos_part (rem_euclid v k) < k)
unfolding div_euclid rem_euclid
euclid_parts (pos n) k h = (grind arith, refl, grind arith)
euclid_parts (negsuc n) k h = (grind arith, refl, grind arith)

abbrev pub half : ℤ
half = pos 9223372036854775808

-- Wrapping subtracts a multiple of 2^64 and lands in the range of an `i64`.
pub wrap64_lem :
    (v : ℤ) (q : ℤ)
    → q ≡ div_euclid (v +ℤ half) 18446744073709551616
    → (pos_part (wrap64 v) + neg_part v + 18446744073709551616 * pos_part q
        ≡ neg_part (wrap64 v) + pos_part v + 18446744073709551616 * neg_part q)
      × IsI64 (wrap64 v)
unfolding wrap64
wrap64_lem v q e =
    let w = v +ℤ half in
    let r = rem_euclid w 18446744073709551616 in
    let f = euclid_parts w 18446744073709551616 (omega arith) in
    omega (
      arith,
      f,
      +ℤ_parts v half,
      -ℤ_parts r half,
      one_part (r -ℤ half),
      ap pos_part e,
      ap neg_part e,
    )

pub wrap64_id : (v : ℤ) → IsI64 v → wrap64 v ≡ v
wrap64_id v h =
    let q = div_euclid (v +ℤ half) 18446744073709551616 in
    eq_of_parts _ _
      (omega (arith, wrap64_lem v q refl, one_part q, one_part v, one_part (wrap64 v)))

-- A difference that fits is exact, even where the subtrahend was wrapped before.
pub wrap64-sub : (a x : ℤ) → IsI64 (a -ℤ x) → wrap64 (a -ℤ wrap64 x) ≡ a -ℤ x
wrap64-sub a x h =
    let d = div_euclid (x +ℤ half) 18446744073709551616 in
    let e = div_euclid ((a -ℤ wrap64 x) +ℤ half) 18446744073709551616 in
    eq_of_parts _ _ (
      omega (
        arith,
        wrap64_lem x d refl,
        wrap64_lem (a -ℤ wrap64 x) e refl,
        one_part d,
        one_part e,
        one_part (a -ℤ x),
        one_part (wrap64 (a -ℤ wrap64 x)),
        -ℤ_parts a (wrap64 x),
        -ℤ_parts a x,
      ))
