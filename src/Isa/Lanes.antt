-- ===== src/Isa/Lanes.antt =====
-- The lane-wise operations of src/codegen_t3/isa.rs, and the lane functions that
-- src/codegen_t3/emulator/execute.rs passes to `lanewise2`.
pub mod Laws
pub mod Algebra
use mani_tc.Prelude.{ℕ, ◌+◌, List, [], ◌∷◌, zip_with, if◌then◌else◌}
use mani_tc.Prelude.Int.{ℤ, pos, negsuc, ◌+ℤ◌, ◌-ℤ◌, ◌==ℤ◌, ltb_ℤ, min_ℤ, rem_euclid}
use mani_tc.Isa.Trits.{trits27, from_trits27}

unfoldable pub lanewise2 : (ℤ → ℤ → ℤ) → ℤ → ℤ → ℤ
lanewise2 f a b = from_trits27 (zip_with f (trits27 a) (trits27 b))

-- Lukasiewicz implication on one trit.
unfoldable pub trit_imp : ℤ → ℤ → ℤ
trit_imp a b = min_ℤ (pos 1 -ℤ a +ℤ b) (pos 1)

-- Balanced sum mod 3 on one trit.
unfoldable pub trit_xor : ℤ → ℤ → ℤ
trit_xor a b = let s = rem_euclid (a +ℤ b) 3 in if s ==ℤ pos 2 then negsuc 0 else s

-- The comparison of two lanes in TCMPW.
unfoldable pub trit_cmp : ℤ → ℤ → ℤ
trit_cmp a b = if ltb_ℤ b a then pos 1 else if ltb_ℤ a b then negsuc 0 else pos 0

-- The selection of one lane in TSELW.
unfoldable pub trit_sel : ℤ → ℤ → ℤ → ℤ
trit_sel s a b = if s ==ℤ pos 1 then a else if s ==ℤ negsuc 0 then b else pos 0

unfoldable pub select_lanes : List ℤ → List ℤ → List ℤ → List ℤ
select_lanes (s ∷ ss) (a ∷ xs) (b ∷ ys) = trit_sel s a b ∷ select_lanes ss xs ys
select_lanes _ _ _ = []

-- The lanes equal to k, counted as TPOPC does.
unfoldable pub count_lanes : ℤ → List ℤ → ℕ
count_lanes k [] = 0
count_lanes k (t ∷ ts) = (if t ==ℤ k then 1 else 0) + count_lanes k ts
