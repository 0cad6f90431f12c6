-- ===== src/Ir/Strength/Machine.antt =====
-- The shifts that strength reduction of src/ir/optimize.rs puts in the place of products and nearest
-- quotients, on the machine of src/codegen_t3/emulator/execute.rs.
use native.Mathlib.Nat.{pow-suc}
use mani_tc.Prelude.{
  ℕ, zero, suc, ◌+◌, ◌-◌, ◌*◌, ◌%◌, ◌^◌, ◌≤◌, ◌<◌, ◌≡◌, refl, subst, false, some, arith,
}
use mani_tc.Prelude.Int.{
  ℤ, pos, pos_part, neg_part, abs_ℕ, ◌-ℤ◌, ◌*ℤ◌, ◌==ℤ◌, clamp, -ℤ_parts, *ℤ_parts, one_part,
  eq_of_parts,
}
use mani_tc.Isa.Opcode
use mani_tc.Isa.Word.{IsWord, clamp27_id}
use mani_tc.Lang.{div_nearest}
use mani_tc.Lang.Division.{div_nearest-IsNearest, division-IsWord}
use mani_tc.Emulator.State.{Emulator}
use mani_tc.Emulator.Execute.{exec_arith, exec_words, shift_right, shift_amount, finish_checked}
use mani_tc.Emulator.Exact.{pow_three_odd, shift_right_nearest}
use mani_tc.Reference.Machine.{fits_word}
use mani_tc.Ir.Strength.{pow3_amount}
use mani_tc.Ir.Strength.Powers.{pow3_amount_iff}

close : (x y p : ℕ) → x * p < y * p + p → y * p < x * p + p → x ≡ y
close x y p h k = grind arith

odd_half : (x p : ℕ) → p % 2 ≡ 1 → 2 * x ≤ p → 2 * x < p
odd_half x p o h = omega arith

-- Two quotients whose products with p lie within half of p of the same number are one.
nearest_unique :
    (a q s : ℤ) (p : ℕ) → 2 * abs_ℕ (a -ℤ q *ℤ pos p) < p → 2 * abs_ℕ (a -ℤ s *ℤ pos p) < p → q ≡ s
nearest_unique a q s p hq hs =
    let at_q = *ℤ_parts q (pos p) in
    let at_s = *ℤ_parts s (pos p) in
    let to_q = -ℤ_parts a (q *ℤ pos p) in
    let to_s = -ℤ_parts a (s *ℤ pos p) in
    eq_of_parts q s (
      close (pos_part q + neg_part s) (pos_part s + neg_part q) p
        (omega (arith, at_q, at_s, to_q, to_s)) (omega (arith, at_q, at_s, to_q, to_s)))

shift_amount_id : (k : ℕ) → k ≤ 26 → shift_amount 26 (pos k) ≡ k
unfolding shift_amount clamp
shift_amount_id k h = ground arith

pow_three_grows : (k j : ℕ) → 3 ^ k ≤ 3 ^ (j + k)
pow_three_grows k zero = let same : 0 + k ≡ k = omega arith in rw same (omega arith)
pow_three_grows k (suc j) =
    let same : suc j + k ≡ suc (j + k) = omega arith in
    rw same (omega (arith, pow-suc 3 (j + k), pow_three_grows k j))

pow_three_bounds : (k : ℕ) → k ≤ 26 → (0 < 3 ^ k) × (3 ^ k ≤ 2541865828329)
pow_three_bounds k h =
    let same : 26 - k + k ≡ 26 = omega arith in
    (omega (arith, pow_three_odd k), subst (λ n. 3 ^ k ≤ 3 ^ n) same (pow_three_grows k (26 - k)))

-- Dropping k trits of a word is its nearest division by 3^k.
near-shift : (a : ℤ) (k : ℕ) → IsWord a → k ≤ 26 → div_nearest a (pos (3 ^ k)) ≡ shift_right a k
near-shift a k w h =
    let bounds = pow_three_bounds k h in
    let near =
      div_nearest-IsNearest a (pos (3 ^ k)) (omega (arith, one_part a)) (omega arith)
        (omega arith) in
    nearest_unique a (div_nearest a (pos (3 ^ k))) (shift_right a k) (3 ^ k)
      (odd_half _ (3 ^ k) (pow_three_odd k) (omega arith)) (shift_right_nearest a k)

nonzero : (p : ℕ) → 0 < p → (pos p ==ℤ pos 0) ≡ false
nonzero p h = ground arith

-- Where `pow3_shift` finds the amount k for a constant and a is a word, TSHI by k does to every
-- machine what TMUL by the constant does, traps included, and TSHR by k what TDIVN by it does.
pub shifts-Same :
    (a v : ℤ) (k : ℕ) (r1 : ℤ) (e next : Emulator)
    → IsWord a
    → pow3_amount v ≡ some k
    → (exec_words Opcode.tshi r1 a (pos k) e next ≡ exec_arith Opcode.tmul r1 a v e next)
      × (exec_words Opcode.tshr r1 a (pos k) e next ≡ exec_arith Opcode.tdivn r1 a v e next)
unfolding exec_words exec_arith finish_checked
shifts-Same a v k r1 e next w amount =
    let (power, lo, hi) = (pow3_amount_iff v k).0 amount in
    let (positive, small) = pow_three_bounds k hi in
    let same = near-shift a k w hi in
    let word : IsWord (shift_right a k) =
      subst (λ x. IsWord x) same
        (division-IsWord a (pos (3 ^ k)) w (omega arith) (omega arith)).0 in
    rw
      (
        power,
        shift_amount_id k hi,
        nonzero (3 ^ k) positive,
        same,
        fits_word _ word,
        clamp27_id _ word,
      )
      (refl, refl)
