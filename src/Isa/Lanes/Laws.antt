-- ===== src/Isa/Lanes/Laws.antt =====
-- `lanewise2` of src/codegen_t3/isa.rs, lane by lane.
use mani_tc.Prelude.{◌≡◌, refl, sym, ap, ◌∙◌, List, [], ◌∷◌, All, length, zip_with, suc, arith}
use mani_tc.Prelude.Int.{ℤ, pos, ◌-ℤ◌, min_ℤ, max_ℤ, rem_euclid, +ℤ_parts, -ℤ_parts, one_part}
use mani_tc.Isa.Word.{IsWord, IsTrit}
use mani_tc.Isa.Trits.{
  t3_lanes, trits27, from_trits_loop, trits27-from_trits27, trits27-IsTrit, trits27-length,
  from_trits_loop-IsWord,
}
use mani_tc.Isa.Lanes.{lanewise2, trit_imp, trit_xor, trit_cmp}

-- A function of two trits into the trits.
abbrev pub IsLaneOp : (ℤ → ℤ → ℤ) → Type 0
IsLaneOp f = (a b : ℤ) → IsTrit a → IsTrit b → IsTrit (f a b)

abbrev pub SameLength : List ℤ → List ℤ → Type 0
SameLength [] [] = Unit
SameLength (x ∷ xs) (y ∷ ys) = SameLength xs ys
SameLength _ _ = ⊥

pub SameLength-of_length : (xs ys : List ℤ) → length xs ≡ length ys → SameLength xs ys
SameLength-of_length [] [] e = tt
SameLength-of_length [] (y ∷ ys) e = absurd (omega arith)
SameLength-of_length (x ∷ xs) [] e = absurd (omega arith)
SameLength-of_length (x ∷ xs) (y ∷ ys) e = SameLength-of_length xs ys (omega arith)

pub trits27-SameLength : (a b : ℤ) → SameLength (trits27 a) (trits27 b)
trits27-SameLength a b = SameLength-of_length _ _ (trits27-length a ∙ sym (trits27-length b))

module _ (f : ℤ → ℤ → ℤ) where
  length-zip_with : (xs ys : List ℤ) → SameLength xs ys → length (zip_with f xs ys) ≡ length xs
  length-zip_with [] [] h = refl
  length-zip_with [] (y ∷ ys) h = absurd h
  length-zip_with (x ∷ xs) [] h = absurd h
  length-zip_with (x ∷ xs) (y ∷ ys) h = ap suc (length-zip_with xs ys h)

  All-zip_with :
      IsLaneOp f → (xs ys : List ℤ) → All IsTrit xs → All IsTrit ys → All IsTrit (zip_with f xs ys)
  All-zip_with c [] ys hx hy = tt
  All-zip_with c (x ∷ xs) [] hx hy = tt
  All-zip_with c (x ∷ xs) (y ∷ ys) (px, hx) (py, hy) = (c x y px py, All-zip_with c xs ys hx hy)

  pub length-lanes : (a b : ℤ) → length (zip_with f (trits27 a) (trits27 b)) ≡ t3_lanes
  length-lanes a b =
      length-zip_with (trits27 a) (trits27 b) (trits27-SameLength a b) ∙ trits27-length a

  pub lanes-IsTrit : IsLaneOp f → (a b : ℤ) → All IsTrit (zip_with f (trits27 a) (trits27 b))
  lanes-IsTrit c a b = All-zip_with c (trits27 a) (trits27 b) (trits27-IsTrit a) (trits27-IsTrit b)

  -- For a function that takes two trits to a trit and any two operands, each lane of the result is
  -- the function at the lanes of the operands, and the result is in the word range before it is
  -- clamped.
  pub trits27-lanewise2 :
      IsLaneOp f
      → (a b : ℤ)
      → (trits27 (lanewise2 f a b) ≡ zip_with f (trits27 a) (trits27 b))
        × IsWord (from_trits_loop (zip_with f (trits27 a) (trits27 b)))
  unfolding lanewise2
  trits27-lanewise2 c a b =
      let n = length-lanes a b in
      let h = lanes-IsTrit c a b in (trits27-from_trits27 _ n h, from_trits_loop-IsWord _ n h)

pub min_ℤ-IsLaneOp : IsLaneOp min_ℤ
unfolding min_ℤ
min_ℤ-IsLaneOp a b ha hb = ground arith

pub max_ℤ-IsLaneOp : IsLaneOp max_ℤ
unfolding max_ℤ
max_ℤ-IsLaneOp a b ha hb = ground arith

pub trit_xor-IsLaneOp : IsLaneOp trit_xor
unfolding trit_xor rem_euclid
trit_xor-IsLaneOp a b ha hb = ground (arith, +ℤ_parts a b)

pub trit_imp-IsLaneOp : IsLaneOp trit_imp
unfolding trit_imp min_ℤ
trit_imp-IsLaneOp a b ha hb =
    ground (arith, -ℤ_parts (pos 1) a, +ℤ_parts (pos 1 -ℤ a) b, one_part (pos 1 -ℤ a))

pub trit_cmp-IsLaneOp : IsLaneOp trit_cmp
unfolding trit_cmp
trit_cmp-IsLaneOp a b ha hb = ground arith

-- The lane functions of TANDW, TORW, TXORW, TIMPW and TCMPW take trits to trits.
pub lane_ops :
    IsLaneOp min_ℤ × IsLaneOp max_ℤ × IsLaneOp trit_xor × IsLaneOp trit_imp × IsLaneOp trit_cmp
lane_ops = (min_ℤ-IsLaneOp, max_ℤ-IsLaneOp, trit_xor-IsLaneOp, trit_imp-IsLaneOp, trit_cmp-IsLaneOp)
