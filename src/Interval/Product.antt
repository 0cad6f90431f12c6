-- ===== src/Interval/Product.antt =====
-- Products and negations of the intervals of src/semantic/interval.rs.
use native.Mathlib.Nat.{mul-le-mul_right}
use mani_tc.Prelude.{
  suc, ◌+◌, ℕ, ◌*◌, ◌≤◌, ◌≡◌, ◌⊎◌, inl, inr, Bool-cases, Option, none, some, arith,
}
use mani_tc.Prelude.Int.{
  ℤ, pos, negsuc, pos_part, neg_part, ◌≤ℤ◌, ◌*ℤ◌, neg_ℤ, min_ℤ, max_ℤ, *ℤ_parts, neg_ℤ_parts,
  min_ℤ_le, le_max_ℤ, eq_of_parts,
}
use mani_tc.Interval.{Interval, neg, mul, unknown, both, hull, corners, checked, in64, bind}
use mani_tc.Interval.Sound.{Above, Below, Contains, Above-checked, Below-checked}

scaled : (a b c d n : ℕ) → a + d ≤ c + b → a * n + d * n ≤ c * n + b * n
scaled a b c d n k = omega (arith, mul-le-mul_right n k)

-- A product with one factor between two numbers lies between the products with those.
scale : (u v : ℤ) (n : ℕ) → u ≤ℤ v → u *ℤ pos n ≤ℤ v *ℤ pos n
scale u v n k = omega (
  arith,
  *ℤ_parts u (pos n),
  *ℤ_parts v (pos n),
  scaled (pos_part u) (neg_part u) (pos_part v) (neg_part v) n k,
)

scale_neg : (u v : ℤ) (n : ℕ) → u ≤ℤ v → v *ℤ negsuc n ≤ℤ u *ℤ negsuc n
scale_neg u v n k = omega (
  arith,
  *ℤ_parts u (negsuc n),
  *ℤ_parts v (negsuc n),
  scaled (pos_part u) (neg_part u) (pos_part v) (neg_part v) (suc n) k,
)

abbrev Between : ℤ → ℤ → ℤ → Type 0
Between p v q = ((p ≤ℤ v) × (v ≤ℤ q)) ⊎ ((q ≤ℤ v) × (v ≤ℤ p))

mul-Between : (l x h y : ℤ) → l ≤ℤ x → x ≤ℤ h → Between (l *ℤ y) (x *ℤ y) (h *ℤ y)
mul-Between l x h (pos n) a b = inl (scale l x n a, scale x h n b)
mul-Between l x h (negsuc n) a b = inr (scale_neg x h n b, scale_neg l x n a)

mul_comm_ℤ : (a b : ℤ) → a *ℤ b ≡ b *ℤ a
mul_comm_ℤ a b = eq_of_parts _ _ (omega (arith, *ℤ_parts a b, *ℤ_parts b a))

mul-Between_right : (x l y h : ℤ) → l ≤ℤ y → y ≤ℤ h → Between (x *ℤ l) (x *ℤ y) (x *ℤ h)
mul-Between_right x l y h a b =
    rw (mul_comm_ℤ x l, mul_comm_ℤ x y, mul_comm_ℤ x h) (mul-Between l y h x a b)

abbrev corner_min : ℤ → ℤ → ℤ → ℤ → ℤ
corner_min p q r s = min_ℤ (min_ℤ (min_ℤ p q) r) s

abbrev corner_max : ℤ → ℤ → ℤ → ℤ → ℤ
corner_max p q r s = max_ℤ (max_ℤ (max_ℤ p q) r) s

corner_min_le :
    (p q r s : ℤ)
    → (corner_min p q r s ≤ℤ p)
      × (corner_min p q r s ≤ℤ q)
      × (corner_min p q r s ≤ℤ r)
      × (corner_min p q r s ≤ℤ s)
corner_min_le p q r s = omega (arith, min_ℤ_le)

le_corner_max :
    (p q r s : ℤ)
    → (p ≤ℤ corner_max p q r s)
      × (q ≤ℤ corner_max p q r s)
      × (r ≤ℤ corner_max p q r s)
      × (s ≤ℤ corner_max p q r s)
le_corner_max p q r s = omega (arith, le_max_ℤ)

-- A product of values between the corners' factors lies between the least and the greatest corner.
corners_bound :
    (al ah bl bh x y : ℤ)
    → al ≤ℤ x
    → x ≤ℤ ah
    → bl ≤ℤ y
    → y ≤ℤ bh
    → (corner_min (al *ℤ bl) (al *ℤ bh) (ah *ℤ bl) (ah *ℤ bh) ≤ℤ x *ℤ y)
      × (x *ℤ y ≤ℤ corner_max (al *ℤ bl) (al *ℤ bh) (ah *ℤ bl) (ah *ℤ bh))
corners_bound al ah bl bh x y h1 h2 h3 h4 = omega (
  arith,
  mul-Between al x ah y h1 h2,
  mul-Between_right al bl y bh h3 h4,
  mul-Between_right ah bl y bh h3 h4,
  corner_min_le (al *ℤ bl) (al *ℤ bh) (ah *ℤ bl) (ah *ℤ bh),
  le_corner_max (al *ℤ bl) (al *ℤ bh) (ah *ℤ bl) (ah *ℤ bh),
)

corners-cases :
    (al ah bl bh : ℤ)
    → (corners al ah bl bh ≡ none)
      ⊎ (corners al ah bl bh ≡ some (al *ℤ bl, al *ℤ bh, ah *ℤ bl, ah *ℤ bh))
unfolding corners
corners-cases al ah bl bh = elim (Bool-cases (in64 (al *ℤ bl))) [
  | inr e ↦ inl (rw e)
  | inl e ↦ elim (Bool-cases (in64 (al *ℤ bh))) [
    | inr f ↦ inl (rw (e, f))
    | inl f ↦ elim (Bool-cases (in64 (ah *ℤ bl))) [
      | inr g ↦ inl (rw (e, f, g))
      | inl g ↦ elim (Bool-cases (in64 (ah *ℤ bh))) [
        | inr h ↦ inl (rw (e, f, g, h))
        | inl h ↦ inr (rw (e, f, g, h))
      ]
    ]
  ]
]

hull-Contains :
    (al ah bl bh x y : ℤ)
    → al ≤ℤ x
    → x ≤ℤ ah
    → bl ≤ℤ y
    → y ≤ℤ bh
    → Contains (hull (corners al ah bl bh)) (x *ℤ y)
hull-Contains al ah bl bh x y h1 h2 h3 h4 = elim (corners-cases al ah bl bh) [
  | inl e ↦ rw e (tt, tt)
  | inr e ↦ rw e (corners_bound al ah bl bh x y h1 h2 h3 h4)
]

mul_bounds-Contains :
    (a b c d : Option ℤ) (x y : ℤ)
    → Above a x
    → Below b x
    → Above c y
    → Below d y
    → Contains
        (both (λ al ah. both (λ bl bh. hull (corners al ah bl bh)) unknown c d) unknown a b)
        (x *ℤ y)
mul_bounds-Contains none b c d x y h1 h2 h3 h4 = (tt, tt)
mul_bounds-Contains (some al) none c d x y h1 h2 h3 h4 = (tt, tt)
mul_bounds-Contains (some al) (some ah) none d x y h1 h2 h3 h4 = (tt, tt)
mul_bounds-Contains (some al) (some ah) (some bl) none x y h1 h2 h3 h4 = (tt, tt)
mul_bounds-Contains (some al) (some ah) (some bl) (some bh) x y h1 h2 h3 h4 =
    hull-Contains al ah bl bh x y h1 h2 h3 h4

-- The product of a value of one interval and a value of another lies in the product of the
-- intervals, whatever the signs, also where a corner overflows 64 bits.
pub mul-Contains :
    (i j : Interval) (x y : ℤ) → Contains i x → Contains j y → Contains (mul i j) (x *ℤ y)
unfolding mul
mul-Contains i j x y hx hy =
    unfold corners in mul_bounds-Contains i.lo i.hi j.lo j.hi x y hx.0 hx.1 hy.0 hy.1

neg-Above : (b : Option ℤ) (x : ℤ) → Below b x → Above (bind b (λ v. checked (neg_ℤ v))) (neg_ℤ x)
neg-Above none x h = tt
neg-Above (some b) x h = Above-checked (neg_ℤ b) (neg_ℤ x) (omega (arith, neg_ℤ_parts))

neg-Below : (b : Option ℤ) (x : ℤ) → Above b x → Below (bind b (λ v. checked (neg_ℤ v))) (neg_ℤ x)
neg-Below none x h = tt
neg-Below (some b) x h = Below-checked (neg_ℤ b) (neg_ℤ x) (omega (arith, neg_ℤ_parts))

-- The negation of a value of an interval lies in the negated interval.
pub neg-Contains : (i : Interval) (x : ℤ) → Contains i x → Contains (neg i) (neg_ℤ x)
unfolding neg
neg-Contains i x h = (neg-Above i.hi x h.1, neg-Below i.lo x h.0)
