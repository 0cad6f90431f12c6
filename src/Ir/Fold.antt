-- ===== src/Ir/Fold.antt =====
-- Constant folding of src/ir/optimize.rs. The arithmetic of `f64` is the platform's, a parameter.
pub mod Reference
use Prim.Native.Nat.{bit_and, bit_or, bit_xor}
use mani_tc.Prelude.{
  ℕ, ◌^◌, Bool, true, false, not, ◌&&◌, ◌||◌, Option, none, some, map, ltb, if◌then◌else◌,
}
use mani_tc.Prelude.Int.{
  ℤ, pos, ◌+ℤ◌, ◌-ℤ◌, ◌*ℤ◌, neg_ℤ, min_ℤ, max_ℤ, ltb_ℤ, leb_ℤ, ◌==ℤ◌, quot, rem, div_euclid,
  rem_euclid, pos_part,
}
use mani_tc.Isa.Word.{t3_max, t3_min}
use mani_tc.Lang.{wrap64, div_nearest, rem_balanced}
use mani_tc.Emulator.Execute.{bits64, of_bits64}
use mani_tc.Ir.BinOp
use mani_tc.Ir.BinOp.{BinOp}
use mani_tc.Ir.Ty
use mani_tc.Ir.Types.{
  Const, int, float, bool, trit, Value, constant, UnOp, neg, not_bool, f_neg, Instr, bin_op, un_op,
  assign, trit_min, trit_max, trit_neg, Block, Function, with_instrs, with_blocks,
}

-- The operations of `f64` on the bits of its operands.
pub record Floats : Type 0 where
  pub plus : ℕ → ℕ → ℕ
  pub minus : ℕ → ℕ → ℕ
  pub times : ℕ → ℕ → ℕ
  pub over : ℕ → ℕ → ℕ
  pub modulo : ℕ → ℕ → ℕ
  pub negated : ℕ → ℕ
  pub is_zero : ℕ → Bool
  pub same : ℕ → ℕ → Bool
  pub below : ℕ → ℕ → Bool
  pub at_most : ℕ → ℕ → Bool

unfoldable pub fold_in_word : ℤ → Option Const
fold_in_word v = if ltb_ℤ t3_max v || ltb_ℤ v t3_min then none else some (int v)

-- The amount of a `wrapping_shl` or `wrapping_shr` by `b as u32`.
unfoldable pub masked_amount : ℤ → ℕ
masked_amount b = pos_part (rem_euclid b 64)

unfoldable pub fold_int_binop : BinOp → ℤ → ℤ → Option Const
fold_int_binop BinOp.add a b = some (int (wrap64 (a +ℤ b)))
fold_int_binop BinOp.sub a b = some (int (wrap64 (a -ℤ b)))
fold_int_binop BinOp.mul a b = some (int (wrap64 (a *ℤ b)))
fold_int_binop BinOp.add_t27 a b = fold_in_word (a +ℤ b)
fold_int_binop BinOp.sub_t27 a b = fold_in_word (a -ℤ b)
fold_int_binop BinOp.mul_t27 a b = fold_in_word (a *ℤ b)
fold_int_binop BinOp.div a b = if b ==ℤ pos 0 then none else some (int (wrap64 (quot a b)))
fold_int_binop BinOp.rem a b = if b ==ℤ pos 0 then none else some (int (rem a b))
fold_int_binop BinOp.div_near a b = if b ==ℤ pos 0 then none else some (int (div_nearest a b))
fold_int_binop BinOp.rem_near a b = if b ==ℤ pos 0 then none else some (int (rem_balanced a b))
fold_int_binop BinOp.i_eq a b = some (bool (a ==ℤ b))
fold_int_binop BinOp.i_ne a b = some (bool (not (a ==ℤ b)))
fold_int_binop BinOp.i_lt a b = some (bool (ltb_ℤ a b))
fold_int_binop BinOp.i_gt a b = some (bool (ltb_ℤ b a))
fold_int_binop BinOp.i_le a b = some (bool (leb_ℤ a b))
fold_int_binop BinOp.i_ge a b = some (bool (leb_ℤ b a))
fold_int_binop BinOp.and a b = some (int (of_bits64 (bit_and (bits64 a) (bits64 b))))
fold_int_binop BinOp.or a b = some (int (of_bits64 (bit_or (bits64 a) (bits64 b))))
fold_int_binop BinOp.xor a b = some (int (of_bits64 (bit_xor (bits64 a) (bits64 b))))
fold_int_binop BinOp.l_shift a b = some (int (wrap64 (a *ℤ pos (2 ^ masked_amount b))))
fold_int_binop BinOp.r_shift a b = some (int (div_euclid a (2 ^ masked_amount b)))
fold_int_binop op a b = none

unfoldable pub fold_float_binop : Floats → BinOp → ℕ → ℕ → Option Const
fold_float_binop fl BinOp.add a b = some (float (fl.plus a b))
fold_float_binop fl BinOp.sub a b = some (float (fl.minus a b))
fold_float_binop fl BinOp.mul a b = some (float (fl.times a b))
fold_float_binop fl BinOp.div a b = if fl.is_zero b then none else some (float (fl.over a b))
fold_float_binop fl BinOp.rem a b = if fl.is_zero b then none else some (float (fl.modulo a b))
fold_float_binop fl BinOp.f_eq a b = some (bool (fl.same a b))
fold_float_binop fl BinOp.f_ne a b = some (bool (not (fl.same a b)))
fold_float_binop fl BinOp.f_lt a b = some (bool (fl.below a b))
fold_float_binop fl BinOp.f_gt a b = some (bool (fl.below b a))
fold_float_binop fl BinOp.f_le a b = some (bool (fl.at_most a b))
fold_float_binop fl BinOp.f_ge a b = some (bool (fl.at_most b a))
fold_float_binop fl op a b = none

unfoldable pub fold_bool_binop : BinOp → Bool → Bool → Option Const
fold_bool_binop BinOp.and a b = some (bool (a && b))
fold_bool_binop BinOp.or a b = some (bool (a || b))
fold_bool_binop BinOp.xor a b = some (bool (if a then not b else b))
fold_bool_binop BinOp.i_eq a b = some (bool (if a then b else not b))
fold_bool_binop BinOp.i_ne a b = some (bool (if a then not b else b))
fold_bool_binop op a b = none

unfoldable pub try_fold_binop : Floats → BinOp → Value → Value → Option Const
try_fold_binop fl op (constant (int a)) (constant (int b)) = fold_int_binop op a b
try_fold_binop fl op (constant (float a)) (constant (float b)) = fold_float_binop fl op a b
try_fold_binop fl op (constant (bool a)) (constant (bool b)) = fold_bool_binop op a b
try_fold_binop fl op l r = none

unfoldable pub try_fold_unop : Floats → UnOp → Value → Option Const
try_fold_unop fl neg (constant (int v)) = some (int (wrap64 (neg_ℤ v)))
try_fold_unop fl not_bool (constant (bool v)) = some (bool (not v))
try_fold_unop fl f_neg (constant (float v)) = some (float (fl.negated v))
try_fold_unop fl op v = none

-- The instruction itself stays where nothing was folded.
abbrev pub assigned : ℕ → Ty.Ty → Instr → Option Const → Instr
assigned d ty i none = i
assigned d ty i (some c) = assign d (constant c) ty

unfoldable pub fold_instruction : Floats → Instr → Instr
fold_instruction fl (bin_op d op l r ty) =
    assigned d ty (bin_op d op l r ty) (try_fold_binop fl op l r)
fold_instruction fl (un_op d op v ty) = assigned d ty (un_op d op v ty) (try_fold_unop fl op v)
fold_instruction fl (trit_min d (constant (trit a)) (constant (trit b))) =
    assign d (constant (trit (min_ℤ a b))) Ty.trit
fold_instruction fl (trit_max d (constant (trit a)) (constant (trit b))) =
    assign d (constant (trit (max_ℤ a b))) Ty.trit
fold_instruction fl (trit_neg d (constant (trit v))) = assign d (constant (trit (neg_ℤ v))) Ty.trit
fold_instruction fl i = i

unfoldable pub constant_fold : Floats → Function → Function
constant_fold fl = with_blocks (map (with_instrs (map (fold_instruction fl))))
