-- ===== src/Isa/Word.antt =====
-- The 27-trit machine word of src/codegen_t3/isa.rs: its range, its clamp and its sign.
use mani_tc.Prelude.{ℕ, ◌≤◌, ◌≡◌, arith, if◌then◌else◌}
use mani_tc.Prelude.Int.{
  ℤ, pos, negsuc, pos_part, neg_part, abs_ℕ, ltb_ℤ, clamp, neg_ℤ, neg_ℤ_parts,
}

-- (3 ^ 27 - 1) / 2.
abbrev pub t3_bound : ℕ
t3_bound = 3812798742493

abbrev pub t3_max : ℤ
t3_max = pos t3_bound

abbrev pub t3_min : ℤ
t3_min = negsuc 3812798742492

unfoldable pub clamp27 : ℤ → ℤ
unfolding clamp
clamp27 v = clamp t3_min t3_max v

unfoldable pub sign_i64 : ℤ → ℤ
sign_i64 v = if ltb_ℤ (pos 0) v then pos 1 else if ltb_ℤ v (pos 0) then negsuc 0 else pos 0

-- A value that a 27-trit word holds.
abbrev pub IsWord : ℤ → Type 0
IsWord v = (pos_part v ≤ t3_bound) × (neg_part v ≤ t3_bound)

-- A balanced ternary digit.
abbrev pub IsTrit : ℤ → Type 0
IsTrit t = abs_ℕ t ≤ 1

pub clamp27-IsWord : (v : ℤ) → IsWord (clamp27 v)
unfolding clamp27
clamp27-IsWord v = ground arith

pub clamp27_id : (v : ℤ) → IsWord v → clamp27 v ≡ v
unfolding clamp27
clamp27_id v h = ground arith

pub sign_i64-IsTrit : (v : ℤ) → IsTrit (sign_i64 v)
unfolding sign_i64
sign_i64-IsTrit v = ground arith

pub neg_ℤ-IsWord : (v : ℤ) → IsWord v → IsWord (neg_ℤ v)
neg_ℤ-IsWord v h = omega (arith, neg_ℤ_parts v)
