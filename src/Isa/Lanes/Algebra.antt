-- ===== src/Isa/Lanes/Algebra.antt =====
-- The lane-wise instructions TANDW, TORW, TXORW, TPOPC and negation, on whole words.
use mani_tc.Prelude.{
  ◌+◌, ◌≡◌, refl, sym, ap, ap₂, ◌∙◌, List, [], ◌∷◌, All, map, length, zip_with, suc, arith,
}
use mani_tc.Prelude.Int.{
  ℤ, pos, negsuc, ◌+ℤ◌, neg_ℤ, min_ℤ, max_ℤ, rem_euclid, +ℤ_parts, *ℤ_parts, neg_ℤ_parts,
  eq_of_parts,
}
use mani_tc.Isa.Word.{clamp27, IsWord, IsTrit, clamp27_id}
use mani_tc.Isa.Trits.{
  t3_lanes, trits27, from_trits27, from_trits_loop, trits27-from_trits27, from_trits27-trits27,
  trits27-IsTrit, trits27-length, from_trits_loop-IsWord,
}
use mani_tc.Isa.Lanes.{lanewise2, trit_xor, count_lanes}
use mani_tc.Isa.Lanes.Laws.{
  SameLength, length-lanes, lanes-IsTrit, trits27-SameLength, trits27-lanewise2, lane_ops,
}

from_trits_loop-neg : (ts : List ℤ) → from_trits_loop (map neg_ℤ ts) ≡ neg_ℤ (from_trits_loop ts)
unfolding from_trits_loop
from_trits_loop-neg [] = eq_of_parts _ _ (omega (arith, neg_ℤ_parts (pos 0)))
from_trits_loop-neg (t ∷ ts) = rw (from_trits_loop-neg ts) (
    eq_of_parts _ _ (
      omega (
        arith,
        +ℤ_parts,
        *ℤ_parts (neg_ℤ (from_trits_loop ts)) (pos 3),
        *ℤ_parts (from_trits_loop ts) (pos 3),
        neg_ℤ_parts,
      )))

All-neg : (ts : List ℤ) → All IsTrit ts → All IsTrit (map neg_ℤ ts)
All-neg [] h = tt
All-neg (t ∷ ts) (h, hs) = (omega (arith, neg_ℤ_parts t), All-neg ts hs)

length-neg : (ts : List ℤ) → length (map neg_ℤ ts) ≡ length ts
length-neg [] = refl
length-neg (t ∷ ts) = ap suc (length-neg ts)

from_trits27-eq :
    (ts : List ℤ) → length ts ≡ 27 → All IsTrit ts → from_trits27 ts ≡ from_trits_loop ts
unfolding from_trits27
from_trits27-eq ts e h = clamp27_id _ (from_trits_loop-IsWord ts e h)

from_trits27-neg :
    (ts : List ℤ)
    → length ts ≡ 27
    → All IsTrit ts
    → from_trits27 (map neg_ℤ ts) ≡ neg_ℤ (from_trits27 ts)
from_trits27-neg ts e h =
    from_trits27-eq (map neg_ℤ ts) (length-neg ts ∙ e) (All-neg ts h)
    ∙ from_trits_loop-neg ts
    ∙ ap neg_ℤ (sym (from_trits27-eq ts e h))

trits27-neg_lanes :
    (ts : List ℤ)
    → length ts ≡ 27
    → All IsTrit ts
    → trits27 (neg_ℤ (from_trits27 ts)) ≡ map neg_ℤ ts
trits27-neg_lanes ts e h =
    ap trits27 (sym (from_trits27-neg ts e h))
    ∙ trits27-from_trits27 (map neg_ℤ ts) (length-neg ts ∙ e) (All-neg ts h)

-- The trits of a negated word are the negated trits of the word.
pub trits27-neg : (v : ℤ) → IsWord v → trits27 (neg_ℤ v) ≡ map neg_ℤ (trits27 v)
trits27-neg v w =
    ap (λ (x : ℤ). trits27 (neg_ℤ x)) (sym (from_trits27-trits27 v ∙ clamp27_id v w))
    ∙ trits27-neg_lanes (trits27 v) (trits27-length v) (trits27-IsTrit v)

-- De Morgan, lane by lane.
min-neg : (a b : ℤ) → min_ℤ (neg_ℤ a) (neg_ℤ b) ≡ neg_ℤ (max_ℤ a b)
unfolding min_ℤ max_ℤ neg_ℤ
min-neg a b = ground arith

zip-min-neg :
    (xs ys : List ℤ)
    → zip_with min_ℤ (map neg_ℤ xs) (map neg_ℤ ys) ≡ map neg_ℤ (zip_with max_ℤ xs ys)
zip-min-neg [] ys = refl
zip-min-neg (x ∷ xs) [] = refl
zip-min-neg (x ∷ xs) (y ∷ ys) = ap₂ ◌∷◌ (min-neg x y) (zip-min-neg xs ys)

trit_xor_thrice : (a k : ℤ) → IsTrit a → IsTrit k → trit_xor (trit_xor (trit_xor a k) k) k ≡ a
unfolding trit_xor rem_euclid ◌+ℤ◌
trit_xor_thrice a k ha hk = ground arith

-- For two words, the lane-wise minimum of their negations is the negation of their lane-wise
-- maximum: TANDW and TORW are each other's dual.
pub lanewise2_de_morgan :
    (a b : ℤ)
    → IsWord a
    → IsWord b
    → lanewise2 min_ℤ (neg_ℤ a) (neg_ℤ b) ≡ neg_ℤ (lanewise2 max_ℤ a b)
unfolding lanewise2
lanewise2_de_morgan a b wa wb =
    ap from_trits27 (
      ap₂ (zip_with min_ℤ) (trits27-neg a wa) (trits27-neg b wb)
      ∙ zip-min-neg (trits27 a) (trits27 b))
    ∙ from_trits27-neg _ (length-lanes max_ℤ a b) (lanes-IsTrit max_ℤ lane_ops.1 a b)

zip_xor_thrice :
    (xs ks : List ℤ)
    → SameLength xs ks
    → All IsTrit xs
    → All IsTrit ks
    → zip_with trit_xor (zip_with trit_xor (zip_with trit_xor xs ks) ks) ks ≡ xs
zip_xor_thrice [] [] s hx hk = refl
zip_xor_thrice [] (k ∷ ks) s hx hk = absurd s
zip_xor_thrice (x ∷ xs) [] s hx hk = absurd s
zip_xor_thrice (x ∷ xs) (k ∷ ks) s (px, hx) (pk, hk) =
    ap₂ ◌∷◌ (trit_xor_thrice x k px pk) (zip_xor_thrice xs ks s hx hk)

-- TXORW by one operand three times gives the first operand back, clamped to the word range.
pub txorw_thrice :
    (v k : ℤ) → lanewise2 trit_xor (lanewise2 trit_xor (lanewise2 trit_xor v k) k) k ≡ clamp27 v
unfolding lanewise2
txorw_thrice v k =
    ap (λ (ts : List ℤ). from_trits27 (zip_with trit_xor ts (trits27 k)))
      (split (lanewise2 trit_xor v k)
        ∙ ap (λ (ts : List ℤ). zip_with trit_xor ts (trits27 k)) (split v))
    ∙ ap from_trits27 (
        zip_xor_thrice (trits27 v) (trits27 k) (trits27-SameLength v k) (trits27-IsTrit v)
          (trits27-IsTrit k))
    ∙ from_trits27-trits27 v
  where
    split : (x : ℤ) → trits27 (lanewise2 trit_xor x k) ≡ zip_with trit_xor (trits27 x) (trits27 k)
    split x = (trits27-lanewise2 trit_xor lane_ops.2 x k).0

-- Every lane is counted once: the counts of the three trits add up to 27.
count_lanes_total :
    (ts : List ℤ)
    → All IsTrit ts
    → count_lanes (negsuc 0) ts + count_lanes (pos 0) ts + count_lanes (pos 1) ts ≡ length ts
unfolding count_lanes
count_lanes_total [] h = omega arith
count_lanes_total (t ∷ ts) (h, hs) = ground (arith, count_lanes_total ts hs)

-- The counts of the negative, zero and positive lanes of any operand add up to 27.
pub tpopc_total :
    (v : ℤ)
    → count_lanes (negsuc 0) (trits27 v)
        + count_lanes (pos 0) (trits27 v)
        + count_lanes (pos 1) (trits27 v)
      ≡ t3_lanes
tpopc_total v = count_lanes_total (trits27 v) (trits27-IsTrit v) ∙ trits27-length v
