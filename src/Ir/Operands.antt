-- ===== src/Ir/Operands.antt =====
-- The walks over instructions of src/ir/optimize.rs: the operands that a pass rewrites, the temps
-- that an instruction reads, the temp that it defines, and whether it must be kept.
pub mod Walks
use mani_tc.Prelude.{ℕ, Bool, true, false, Option, none, some, List, [], ◌∷◌, ◌++◌, map}
use mani_tc.Ir.Types.{
  Value, temp, Instr, bin_op, un_op, assign, alloca, store, load, call, call_indirect, get_ptr,
  bounds_check, trit_min, trit_max, trit_neg, trit_sign, trit_lane, print_str, print_int,
  print_float, print_bool3, print_trit, phi, cast, Terminator, return, jump, bin_branch,
  trit_branch, unreachable,
}

-- Every operand of a phi, which the edge it comes from owns, is rewritten or none.
unfoldable pub map_incoming : Bool → (Value → Value) → List (Value × ℕ) → List (Value × ℕ)
map_incoming false f ins = ins
map_incoming true f [] = []
map_incoming true f ((v, from) ∷ ins) = (f v, from) ∷ map_incoming true f ins

unfoldable pub for_each_operand_mut : Bool → (Value → Value) → Instr → Instr
for_each_operand_mut include f (trit_lane d op a b) = trit_lane d op (f a) (f b)
for_each_operand_mut include f (bin_op d op l r ty) = bin_op d op (f l) (f r) ty
for_each_operand_mut include f (un_op d op a ty) = un_op d op (f a) ty
for_each_operand_mut include f (assign d s ty) = assign d (f s) ty
for_each_operand_mut include f (store p v ty) = store (f p) (f v) ty
for_each_operand_mut include f (load d p ty) = load d (f p) ty
for_each_operand_mut include f (call d fn args ty) = call d fn (map f args) ty
for_each_operand_mut include f (call_indirect d p args ty) = call_indirect d (f p) (map f args) ty
for_each_operand_mut include f (get_ptr d p i ty) = get_ptr d (f p) (f i) ty
for_each_operand_mut include f (bounds_check i n) = bounds_check (f i) n
for_each_operand_mut include f (trit_min d a b) = trit_min d (f a) (f b)
for_each_operand_mut include f (trit_max d a b) = trit_max d (f a) (f b)
for_each_operand_mut include f (trit_neg d a) = trit_neg d (f a)
for_each_operand_mut include f (trit_sign d a) = trit_sign d (f a)
for_each_operand_mut include f (print_str v) = print_str (f v)
for_each_operand_mut include f (print_int v) = print_int (f v)
for_each_operand_mut include f (print_float v) = print_float (f v)
for_each_operand_mut include f (print_bool3 v) = print_bool3 (f v)
for_each_operand_mut include f (print_trit v) = print_trit (f v)
for_each_operand_mut include f (cast d s from to) = cast d (f s) from to
for_each_operand_mut include f (phi d ty ins) = phi d ty (map_incoming include f ins)
for_each_operand_mut include f (alloca d ty) = alloca d ty

unfoldable pub for_each_term_operand_mut : (Value → Value) → Terminator → Terminator
for_each_term_operand_mut f (return (some v)) = return (some (f v))
for_each_term_operand_mut f (bin_branch c t e) = bin_branch (f c) t e
for_each_term_operand_mut f (trit_branch c p z n) = trit_branch (f c) p z n
for_each_term_operand_mut f term = term

-- The names that go into the set `used`.
unfoldable pub used_from_value : Value → List ℕ
used_from_value (temp t) = t ∷ []
used_from_value v = []

unfoldable pub used_from_values : List Value → List ℕ
used_from_values [] = []
used_from_values (v ∷ vs) = used_from_value v ++ used_from_values vs

unfoldable pub used_from_incoming : List (Value × ℕ) → List ℕ
used_from_incoming [] = []
used_from_incoming ((v, from) ∷ ins) = used_from_value v ++ used_from_incoming ins

unfoldable pub used_in_instruction : Instr → List ℕ
used_in_instruction (trit_lane d op a b) = used_from_value a ++ used_from_value b
used_in_instruction (bin_op d op l r ty) = used_from_value l ++ used_from_value r
used_in_instruction (un_op d op a ty) = used_from_value a
used_in_instruction (assign d s ty) = used_from_value s
used_in_instruction (store p v ty) = used_from_value p ++ used_from_value v
used_in_instruction (load d p ty) = used_from_value p
used_in_instruction (call d fn args ty) = used_from_values args
used_in_instruction (call_indirect d p args ty) = used_from_value p ++ used_from_values args
used_in_instruction (get_ptr d p i ty) = used_from_value p ++ used_from_value i
used_in_instruction (bounds_check i n) = used_from_value i
used_in_instruction (trit_min d a b) = used_from_value a ++ used_from_value b
used_in_instruction (trit_max d a b) = used_from_value a ++ used_from_value b
used_in_instruction (trit_neg d a) = used_from_value a
used_in_instruction (trit_sign d a) = used_from_value a
used_in_instruction (print_str v) = used_from_value v
used_in_instruction (print_int v) = used_from_value v
used_in_instruction (print_float v) = used_from_value v
used_in_instruction (print_bool3 v) = used_from_value v
used_in_instruction (print_trit v) = used_from_value v
used_in_instruction (phi d ty ins) = used_from_incoming ins
used_in_instruction (cast d s from to) = used_from_value s
used_in_instruction (alloca d ty) = []

unfoldable pub used_in_terminator : Terminator → List ℕ
used_in_terminator (return (some v)) = used_from_value v
used_in_terminator (bin_branch c t e) = used_from_value c
used_in_terminator (trit_branch c p z n) = used_from_value c
used_in_terminator term = []

unfoldable pub is_side_effecting : Instr → Bool
is_side_effecting (store p v ty) = true
is_side_effecting (call d fn args ty) = true
is_side_effecting (call_indirect d p args ty) = true
is_side_effecting (print_str v) = true
is_side_effecting (print_int v) = true
is_side_effecting (print_float v) = true
is_side_effecting (print_bool3 v) = true
is_side_effecting (print_trit v) = true
is_side_effecting i = false

unfoldable pub instr_dst_name : Instr → Option ℕ
instr_dst_name (bin_op d op l r ty) = some d
instr_dst_name (un_op d op a ty) = some d
instr_dst_name (assign d s ty) = some d
instr_dst_name (alloca d ty) = some d
instr_dst_name (load d p ty) = some d
instr_dst_name (get_ptr d p i ty) = some d
instr_dst_name (trit_min d a b) = some d
instr_dst_name (trit_max d a b) = some d
instr_dst_name (trit_neg d a) = some d
instr_dst_name (trit_sign d a) = some d
instr_dst_name (trit_lane d op a b) = some d
instr_dst_name (phi d ty ins) = some d
instr_dst_name (cast d s from to) = some d
instr_dst_name i = none
