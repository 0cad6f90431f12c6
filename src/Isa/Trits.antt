-- ===== src/Isa/Trits.antt =====
-- `trits27` and `from_trits27` of src/codegen_t3/isa.rs: a word and its 27 balanced trits.
use mathlib.Core.Path.{subst}
use mani_tc.Prelude.{
  ℕ, zero, suc, ◌+◌, ◌*◌, ◌/◌, ◌≤◌, ◌≡◌, refl, List, [], ◌∷◌, All, length, arith, if◌then◌else◌,
}
use mani_tc.Prelude.Int.{
  ℤ, pos, negsuc, pos_part, neg_part, ◌+ℤ◌, ◌*ℤ◌, ◌==ℤ◌, div_euclid, rem_euclid, +ℤ_parts, *ℤ_parts,
  eq_of_parts, one_part,
}
use mani_tc.Isa.Word.{t3_bound, clamp27, IsWord, IsTrit, clamp27-IsWord, clamp27_id}

abbrev pub t3_lanes : ℕ
t3_lanes = 27

-- The digit that one round of the loop stores, and the `n` that it leaves.
unfoldable pub lane_digit : ℤ → ℤ
unfolding rem_euclid
lane_digit n = let r = rem_euclid n 3 in if r ==ℤ pos 2 then negsuc 0 else r

unfoldable pub lane_carry : ℤ → ℤ
unfolding rem_euclid div_euclid
lane_carry n = if rem_euclid n 3 ==ℤ pos 2 then div_euclid n 3 +ℤ pos 1 else div_euclid n 3

unfoldable pub trits_loop : ℕ → ℤ → List ℤ
unfolding lane_digit lane_carry
trits_loop zero n = []
trits_loop (suc k) n = lane_digit n ∷ trits_loop k (lane_carry n)

unfoldable pub trits27 : ℤ → List ℤ
trits27 v = trits_loop t3_lanes (clamp27 v)

-- The loop runs from the most significant lane, which stands last.
unfoldable pub from_trits_loop : List ℤ → ℤ
from_trits_loop [] = pos 0
from_trits_loop (t ∷ ts) = from_trits_loop ts *ℤ pos 3 +ℤ t

unfoldable pub from_trits27 : List ℤ → ℤ
from_trits27 lanes = clamp27 (from_trits_loop lanes)

-- (3 ^ k - 1) / 2, the largest number of k balanced digits.
pub half_range : ℕ → ℕ
half_range zero = 0
half_range (suc k) = 3 * half_range k + 1

module _ (n : ℤ) where
  -- n = 3 * carry + digit, over the parts.
  lane_step :
      pos_part n + 3 * neg_part (lane_carry n) + neg_part (lane_digit n)
      ≡ neg_part n + 3 * pos_part (lane_carry n) + pos_part (lane_digit n)
  unfolding lane_carry lane_digit
  lane_step =
      elim n
        as (λ n.
          pos_part n + 3 * neg_part (lane_carry n) + neg_part (lane_digit n)
          ≡ neg_part n + 3 * pos_part (lane_carry n) + pos_part (lane_digit n)) [
            | pos m ↦ ground (arith, +ℤ_parts (pos (m / 3)) (pos 1))
            | negsuc m ↦ ground (arith, +ℤ_parts (negsuc (m / 3)) (pos 1))
          ]

  pub lane_digit-IsTrit : IsTrit (lane_digit n)
  unfolding lane_digit
  lane_digit-IsTrit = elim n as (λ n. IsTrit (lane_digit n)) [
    | pos m ↦ ground arith
    | negsuc m ↦ ground arith
  ]

pub trits_loop-length : (k : ℕ) (n : ℤ) → length (trits_loop k n) ≡ k
unfolding trits_loop
trits_loop-length zero n = refl
trits_loop-length (suc k) n = omega (arith, trits_loop-length k (lane_carry n))

pub trits_loop-IsTrit : (k : ℕ) (n : ℤ) → All IsTrit (trits_loop k n)
unfolding trits_loop
trits_loop-IsTrit zero n = tt
trits_loop-IsTrit (suc k) n = (lane_digit-IsTrit n, trits_loop-IsTrit k (lane_carry n))

times_three :
    (c d : ℤ)
    → (pos_part (c *ℤ pos 3 +ℤ d) + 3 * neg_part c + neg_part d
        ≡ neg_part (c *ℤ pos 3 +ℤ d) + 3 * pos_part c + pos_part d)
times_three c d = omega (arith, +ℤ_parts (c *ℤ pos 3) d, *ℤ_parts c (pos 3))

lane_carry_bound :
    (n : ℤ) (m : ℕ)
    → pos_part n ≤ 3 * m + 1
    → neg_part n ≤ 3 * m + 1
    → (pos_part (lane_carry n) ≤ m) × (neg_part (lane_carry n) ≤ m)
lane_carry_bound n m hp hn =
    omega (arith, lane_step n, one_part n, one_part (lane_carry n), lane_digit-IsTrit n)

from_trits_loop-trits_loop :
    (k : ℕ) (n : ℤ)
    → pos_part n ≤ half_range k
    → neg_part n ≤ half_range k
    → from_trits_loop (trits_loop k n) ≡ n
unfolding from_trits_loop trits_loop half_range
from_trits_loop-trits_loop zero n hp hn = eq_of_parts _ _ (omega arith)
from_trits_loop-trits_loop (suc k) n hp hn =
    let (bp, bn) = lane_carry_bound n (half_range k) hp hn in
    rw (from_trits_loop-trits_loop k (lane_carry n) bp bn)
      (eq_of_parts _ _ (omega (arith, times_three (lane_carry n) (lane_digit n), lane_step n)))

-- Lanes that hold trits make a number in the range of that many trits.
pub from_trits_loop_bound :
    (ts : List ℤ)
    → All IsTrit ts
    → (pos_part (from_trits_loop ts) ≤ half_range (length ts))
      × (neg_part (from_trits_loop ts) ≤ half_range (length ts))
unfolding from_trits_loop half_range
from_trits_loop_bound [] h = omega arith
from_trits_loop_bound (t ∷ ts) (h, hs) = omega (
  arith,
  from_trits_loop_bound ts hs,
  times_three (from_trits_loop ts) t,
  one_part (from_trits_loop ts),
  one_part (from_trits_loop (t ∷ ts)),
)

-- A number is split into a trit and a carry in one way.
lane_unique :
    (c d : ℤ) → IsTrit d → (lane_digit (c *ℤ pos 3 +ℤ d) ≡ d) × (lane_carry (c *ℤ pos 3 +ℤ d) ≡ c)
lane_unique c d h =
    let n = c *ℤ pos 3 +ℤ d in
    let dd : lane_digit n ≡ d =
      eq_of_parts _ _ (omega (arith, times_three c d, lane_step n, lane_digit-IsTrit n)) in
    (dd, eq_of_parts _ _ (omega (arith, times_three c d, lane_step n, lane_digit-IsTrit n)))

pub trits_loop-from_trits_loop :
    (ts : List ℤ) → All IsTrit ts → trits_loop (length ts) (from_trits_loop ts) ≡ ts
unfolding trits_loop from_trits_loop
trits_loop-from_trits_loop [] h = refl
trits_loop-from_trits_loop (t ∷ ts) (h, hs) =
    let (d, c) = lane_unique (from_trits_loop ts) t h in rw (d, c, trits_loop-from_trits_loop ts hs)

half_range_27 : half_range t3_lanes ≡ t3_bound
unfolding half_range
half_range_27 = refl

pub IsWord-half_range :
    (v : ℤ) → IsWord v → (pos_part v ≤ half_range 27) × (neg_part v ≤ half_range 27)
IsWord-half_range v h = omega (arith, half_range_27)

-- Splitting any number into trits and reassembling them clamps it to the word range.
pub from_trits27-trits27 : (v : ℤ) → from_trits27 (trits27 v) ≡ clamp27 v
unfolding from_trits27 trits27
from_trits27-trits27 v =
    let w = clamp27-IsWord v in
    let (bp, bn) = IsWord-half_range _ w in
    rw (from_trits_loop-trits_loop 27 (clamp27 v) bp bn) (clamp27_id _ w)

pub from_trits_loop-IsWord :
    (ts : List ℤ) → length ts ≡ t3_lanes → All IsTrit ts → IsWord (from_trits_loop ts)
from_trits_loop-IsWord ts e h = omega (arith, (rw e at (from_trits_loop_bound ts h)), half_range_27)

-- Reassembling a list of 27 trits, each -1, 0 or 1, and splitting the word gives the same list.
pub trits27-from_trits27 :
    (ts : List ℤ) → length ts ≡ t3_lanes → All IsTrit ts → trits27 (from_trits27 ts) ≡ ts
unfolding from_trits27 trits27
trits27-from_trits27 ts e h =
    let w = from_trits_loop-IsWord ts e h in
    rw (clamp27_id _ w, clamp27_id _ w)
      (subst (λ k. trits_loop k (from_trits_loop ts) ≡ ts) e (trits_loop-from_trits_loop ts h))

pub trits27-IsTrit : (v : ℤ) → All IsTrit (trits27 v)
unfolding trits27
trits27-IsTrit v = trits_loop-IsTrit 27 (clamp27 v)

pub trits27-length : (v : ℤ) → length (trits27 v) ≡ t3_lanes
unfolding trits27
trits27-length v = trits_loop-length 27 (clamp27 v)
