-- ===== src/Ir/Strength.antt =====
-- Strength reduction of src/ir/optimize.rs.
use mani_tc.Prelude.{
  ℕ, zero, suc, ◌+◌, ◌/◌, ◌%◌, Bool, true, false, ◌&&◌, Option, none, some, map, leb, ◌==◌,
  if◌then◌else◌,
}
use mani_tc.Prelude.Int.{ℤ, pos, negsuc, ◌==ℤ◌}
use mani_tc.Ir.BinOp
use mani_tc.Ir.BinOp.{BinOp}
use mani_tc.Ir.Ty.{Ty}
use mani_tc.Ir.Types.{
  Const, int, Value, constant, Instr, bin_op, assign, Function, with_instrs, with_blocks,
}
pub mod Powers
pub mod Machine
pub mod Identities

-- The operators that a shift by trits can stand for, and the shift.
unfoldable pub shift_op : BinOp → Option BinOp
shift_op BinOp.mul = some BinOp.t_shl
shift_op BinOp.mul_t27 = some BinOp.t_shl_t27
shift_op BinOp.div_near = some BinOp.t_shr
shift_op op = none

-- The loop that divides by 3, on fuel: the number left and the count of divisions.
unfoldable pub divide_threes : ℕ → ℕ → ℕ → ℕ × ℕ
divide_threes zero n k = (n, k)
divide_threes (suc fuel) n k =
    let further = divide_threes fuel (n / 3) (k + 1) in if n % 3 == 0 then further else (n, k)

-- 3 ^ 40 is greater than every `i64`.
abbrev pub threes_fuel : ℕ
threes_fuel = 40

abbrev pub power_found : ℕ × ℕ → Option ℕ
power_found (n, k) = if (n == 1) && (leb 1 k && leb k 26) then some k else none

-- `pow3_shift` on a right operand that is the constant v.
unfoldable pub pow3_amount : ℤ → Option ℕ
pow3_amount (pos v) = if leb 3 v then power_found (divide_threes threes_fuel v 0) else none
pow3_amount (negsuc v) = none

abbrev pub when_shiftable : Option BinOp → Option ℕ → Option ℕ
when_shiftable none k = none
when_shiftable (some op) k = k

unfoldable pub pow3_shift : BinOp → Value → Option ℕ
pow3_shift op (constant (int v)) = when_shiftable (shift_op op) (pow3_amount v)
pow3_shift op v = none

unfoldable pub is_int : ℤ → Value → Bool
is_int n (constant (int v)) = v ==ℤ n
is_int n v = false

-- What an algebraic identity puts in the place of an operation.
unfoldable pub identity : BinOp → Value → Value → Option Value
identity BinOp.mul l r =
    if is_int (pos 0) r
    then some (constant (int (pos 0)))
    else if is_int (pos 0) l
    then some (constant (int (pos 0)))
    else if is_int (pos 1) r
    then some l
    else if is_int (pos 1) l
    then some r
    else none
identity BinOp.add l r =
    if is_int (pos 0) r then some l else if is_int (pos 0) l then some r else none
identity BinOp.sub l r = if is_int (pos 0) r then some l else none
identity op l r = none

abbrev pub shifted : ℕ → BinOp → Value → Value → Ty → Option BinOp → Option ℕ → Instr
shifted d op l r ty (some s) (some k) = bin_op d s l (constant (int (pos k))) ty
shifted d op l r ty s k = bin_op d op l r ty

abbrev pub reduced : ℕ → BinOp → Value → Value → Ty → Option Value → Instr
reduced d op l r ty (some v) = assign d v ty
reduced d op l r ty none = shifted d op l r ty (shift_op op) (pow3_shift op r)

unfoldable pub strength_reduce_instr : Instr → Instr
strength_reduce_instr (bin_op d op l r ty) = reduced d op l r ty (identity op l r)
strength_reduce_instr i = i

unfoldable pub strength_reduce : Function → Function
strength_reduce = with_blocks (map (with_instrs (map strength_reduce_instr)))
