-- ===== src/Ir/Propagate.antt =====
-- Constant propagation and the renaming of temps of src/ir/optimize.rs.
pub mod Runs
use mani_tc.Prelude.{
  ℕ, Bool, true, false, ◌&&◌, not, Option, none, some, List, [], ◌∷◌, map, if◌then◌else◌,
}
use mani_tc.Prelude.Maps.{lookup, insert}
use mani_tc.Ir.Types.{
  Const, Value, temp, constant, Instr, assign, Terminator, Block, Function, with_blocks,
}
use mani_tc.Ir.Operands.{for_each_operand_mut, for_each_term_operand_mut}
use mani_tc.Ir.Fold.{Floats, constant_fold}

-- The constants that an instruction adds to the map.
unfoldable pub collect_instr : Instr → List (ℕ × Const) → List (ℕ × Const)
collect_instr (assign d (constant c) ty) known = insert d c known
collect_instr i known = known

unfoldable pub collect_instrs : List Instr → List (ℕ × Const) → List (ℕ × Const)
collect_instrs [] known = known
collect_instrs (i ∷ is) known = collect_instrs is (collect_instr i known)

unfoldable pub collect_blocks : List Block → List (ℕ × Const) → List (ℕ × Const)
collect_blocks [] known = known
collect_blocks (b ∷ bs) known = collect_blocks bs (collect_instrs b.instrs known)

abbrev pub or_constant : Value → Option Const → Value
or_constant v none = v
or_constant v (some c) = constant c

unfoldable pub propagate_value : List (ℕ × Const) → Value → Value
propagate_value known (temp t) = or_constant (temp t) (lookup t known)
propagate_value known v = v

unfoldable pub propagate_in_instruction : List (ℕ × Const) → Instr → Instr
propagate_in_instruction known = for_each_operand_mut false (propagate_value known)

unfoldable pub propagate_in_terminator : List (ℕ × Const) → Terminator → Terminator
propagate_in_terminator known = for_each_term_operand_mut (propagate_value known)

unfoldable pub propagate_in_block : List (ℕ × Const) → Block → Block
propagate_in_block known b = record b {
  instrs = map (propagate_in_instruction known) b.instrs;
  term = propagate_in_terminator known b.term;
}

abbrev pub propagated : Floats → Function → List (ℕ × Const) → Function
propagated fl f [] = f
propagated fl f (entry ∷ known) =
    constant_fold fl (with_blocks (map (propagate_in_block (entry ∷ known))) f)

unfoldable pub constant_propagate : Floats → Function → Function
constant_propagate fl f = propagated fl f (collect_blocks f.blocks [])

abbrev pub or_temp : Value → Option ℕ → Value
or_temp v none = v
or_temp v (some t) = temp t

unfoldable pub substitute_value : List (ℕ × ℕ) → Value → Value
substitute_value renamed (temp t) = or_temp (temp t) (lookup t renamed)
substitute_value renamed v = v

unfoldable pub substitute_in_instruction : List (ℕ × ℕ) → Instr → Instr
substitute_in_instruction renamed = for_each_operand_mut true (substitute_value renamed)

unfoldable pub substitute_in_terminator : List (ℕ × ℕ) → Terminator → Terminator
substitute_in_terminator renamed = for_each_term_operand_mut (substitute_value renamed)
