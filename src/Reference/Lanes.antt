-- ===== src/Reference/Lanes.antt =====
-- The lanes and the connectives of src/reference/eval.rs beside those of src/codegen_t3/isa.rs.
use mani_tc.Prelude.{
  ℕ, zero, suc, ◌+◌, ◌*◌, ◌≡◌, refl, sym, ap, ap₂, ◌∙◌, List, [], ◌∷◌, All, zip_with, arith,
}
use mani_tc.Prelude.Int.{
  ℤ, pos, negsuc, pos_part, neg_part, ◌+ℤ◌, ◌-ℤ◌, ◌*ℤ◌, neg_ℤ, min_ℤ, max_ℤ, quot, rem, div_euclid,
  rem_euclid, eq_of_parts, +ℤ_parts, *ℤ_parts,
}
use mani_tc.Isa.Word.{IsWord, IsTrit, clamp27_id}
use mani_tc.Isa.Trits.{
  lane_digit, lane_carry, trits_loop, trits27, trits27-IsTrit, from_trits_loop, from_trits27,
}
use mani_tc.Isa.Lanes.Laws.{
  IsLaneOp, trits27-lanewise2, min_ℤ-IsLaneOp, max_ℤ-IsLaneOp, trit_xor-IsLaneOp, trit_imp-IsLaneOp,
  trit_cmp-IsLaneOp,
}
use mani_tc.Isa.Lanes.{lanewise2, trit_imp, trit_xor, trit_cmp}
use mani_tc.Reference.Ops.{
  ref_digit, ref_carry, lanes_loop, lanes, weigh, from_lanes, t_and, t_or, t_xor, t_imp, t_cmp,
}

ref_digit-eq : (n : ℤ) → ref_digit n ≡ lane_digit n
unfolding ref_digit lane_digit rem rem_euclid neg_ℤ
ref_digit-eq (pos n) = ground arith
ref_digit-eq (negsuc n) = ground arith

ref_carry-eq : (n : ℤ) → ref_carry n ≡ lane_carry n
unfolding ref_carry lane_carry rem quot rem_euclid div_euclid ◌+ℤ◌ ◌-ℤ◌ neg_ℤ
ref_carry-eq (pos n) = ground arith
ref_carry-eq (negsuc n) = ground arith

lanes_loop-eq : (k : ℕ) (n : ℤ) → lanes_loop k n ≡ trits_loop k n
unfolding lanes_loop trits_loop
lanes_loop-eq zero n = refl
lanes_loop-eq (suc k) n =
    ap₂ ◌∷◌ (ref_digit-eq n) (ap (lanes_loop k) (ref_carry-eq n) ∙ lanes_loop-eq k (lane_carry n))

lanes-eq : (w : ℤ) → IsWord w → lanes w ≡ trits27 w
unfolding lanes trits27
lanes-eq w h = lanes_loop-eq 27 w ∙ ap (trits_loop 27) (sym (clamp27_id w h))

-- An equation of sums stays one under a factor.
scaled :
    (p x y f g t u : ℕ)
    → x + 3 * g + u ≡ y + 3 * f + t
    → x * p + g * (p * 3) + u * p ≡ y * p + f * (p * 3) + t * p
scaled p x y f g t u h = law p x y f g t u ∙ ap (λ (n : ℕ). n * p) h ∙ sym (law p y x g f u t)
  where
    law : (p x y f g t u : ℕ) → x * p + g * (p * 3) + u * p ≡ (x + 3 * g + u) * p
    law p x y f g t u = grind arith

weigh-eq : (v : ℤ) (p : ℕ) (ts : List ℤ) → weigh v p ts ≡ v +ℤ from_trits_loop ts *ℤ pos p
unfolding weigh from_trits_loop
weigh-eq v p [] =
    eq_of_parts _ _ (omega (arith, +ℤ_parts v (pos 0 *ℤ pos p), *ℤ_parts (pos 0) (pos p)))
weigh-eq v p (t ∷ ts) =
    let f = from_trits_loop ts in
    let x = f *ℤ pos 3 +ℤ t in
    weigh-eq (v +ℤ t *ℤ pos p) (p * 3) ts
    ∙ eq_of_parts _ _ (
        omega (
          arith,
          +ℤ_parts (v +ℤ t *ℤ pos p) (f *ℤ pos (p * 3)),
          +ℤ_parts v (t *ℤ pos p),
          +ℤ_parts v (x *ℤ pos p),
          *ℤ_parts t (pos p),
          *ℤ_parts f (pos (p * 3)),
          *ℤ_parts x (pos p),
          scaled p (pos_part x) (neg_part x) (pos_part f) (neg_part f) (pos_part t) (neg_part t)
              (omega (arith, *ℤ_parts f (pos 3), +ℤ_parts (f *ℤ pos 3) t)),
        ))

from_lanes-eq : (ts : List ℤ) → from_lanes ts ≡ from_trits_loop ts
unfolding from_lanes
from_lanes-eq ts =
    weigh-eq (pos 0) 1 ts
    ∙ eq_of_parts _ _ (
        omega (
          arith,
          +ℤ_parts (pos 0) (from_trits_loop ts *ℤ pos 1),
          *ℤ_parts (from_trits_loop ts) (pos 1),
        ))

-- The two functions agree on trits.
abbrev AgreeOnTrits : (ℤ → ℤ → ℤ) → (ℤ → ℤ → ℤ) → Type 0
AgreeOnTrits f g = (a b : ℤ) → IsTrit a → IsTrit b → f a b ≡ g a b

zip_with-agree :
    (f g : ℤ → ℤ → ℤ)
    → AgreeOnTrits f g
    → (xs ys : List ℤ) → All IsTrit xs
    → All IsTrit ys
    → zip_with f xs ys ≡ zip_with g xs ys
zip_with-agree f g h [] ys hx hy = refl
zip_with-agree f g h (x ∷ xs) [] hx hy = refl
zip_with-agree f g h (x ∷ xs) (y ∷ ys) (px, hx) (py, hy) =
    ap₂ ◌∷◌ (h x y px py) (zip_with-agree f g h xs ys hx hy)

-- A lane-wise operator of the reference on two words is the machine's, where the lane functions
-- agree on trits.
lane_wise-eq :
    (f g : ℤ → ℤ → ℤ) (a b : ℤ)
    → AgreeOnTrits f g
    → IsLaneOp g
    → IsWord a
    → IsWord b
    → from_lanes (zip_with f (lanes a) (lanes b)) ≡ lanewise2 g a b
unfolding lanewise2 from_trits27
lane_wise-eq f g a b h c wa wb =
    from_lanes-eq _
    ∙ ap from_trits_loop (
        ap₂ (zip_with f) (lanes-eq a wa) (lanes-eq b wb)
        ∙ zip_with-agree f g h (trits27 a) (trits27 b) (trits27-IsTrit a) (trits27-IsTrit b))
    ∙ sym (clamp27_id _ (trits27-lanewise2 g c a b).1)

t_xor-agree : AgreeOnTrits t_xor trit_xor
unfolding t_xor trit_xor rem_euclid ◌+ℤ◌
t_xor-agree a b ha hb = ground arith

-- On two words, the lane-wise operators of the reference are those that the machine executes.
pub lane_operators-eq :
    (a b : ℤ)
    → IsWord a
    → IsWord b
    → (from_lanes (zip_with t_and (lanes a) (lanes b)) ≡ lanewise2 min_ℤ a b)
      × (from_lanes (zip_with t_or (lanes a) (lanes b)) ≡ lanewise2 max_ℤ a b)
      × (from_lanes (zip_with t_xor (lanes a) (lanes b)) ≡ lanewise2 trit_xor a b)
      × (from_lanes (zip_with t_imp (lanes a) (lanes b)) ≡ lanewise2 trit_imp a b)
      × (from_lanes (zip_with t_cmp (lanes a) (lanes b)) ≡ lanewise2 trit_cmp a b)
unfolding t_and t_or t_imp trit_imp t_cmp trit_cmp
lane_operators-eq a b wa wb = (
  lane_wise-eq _ _ a b (λ x y hx hy. refl) min_ℤ-IsLaneOp wa wb,
  lane_wise-eq _ _ a b (λ x y hx hy. refl) max_ℤ-IsLaneOp wa wb,
  lane_wise-eq _ _ a b t_xor-agree trit_xor-IsLaneOp wa wb,
  lane_wise-eq _ _ a b (λ x y hx hy. refl) trit_imp-IsLaneOp wa wb,
  lane_wise-eq _ _ a b (λ x y hx hy. refl) trit_cmp-IsLaneOp wa wb,
)
